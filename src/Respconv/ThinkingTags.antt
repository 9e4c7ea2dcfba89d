-- ===== src/Respconv/ThinkingTags.antt =====
-- internal/respconv/thinking_tags.go: the thinking tags that a model writes into its text.
pub mod Rounds
use kirocc_prox.Base.{
  ℕ, zero, suc, ◌+◌, ◌-◌, Bool, true, false, not, ◌&&◌, ◌||◌, List, [], ◌∷◌, ◌++◌, Option, none,
  some, if◌then◌else◌, ltb, leb, ◌==◌, length, take, drop, min,
}
use kirocc_prox.Respconv.Text.{Text, index, text_eq}
use kirocc_prox.Respconv.Accumulator.{ResponseAccumulator}

-- `<thinking>` and `</thinking>`.
abbrev pub thinking_open_tag : Text
thinking_open_tag = 60 ∷ 116 ∷ 104 ∷ 105 ∷ 110 ∷ 107 ∷ 105 ∷ 110 ∷ 103 ∷ 62 ∷ []

abbrev pub thinking_close_tag : Text
thinking_close_tag = 60 ∷ 47 ∷ 116 ∷ 104 ∷ 105 ∷ 110 ∷ 107 ∷ 105 ∷ 110 ∷ 103 ∷ 62 ∷ []

abbrev pub is_empty : Text → Bool
is_empty [] = true
is_empty (c ∷ t) = false

-- `unicode.IsSpace`
unfoldable pub is_space : ℕ → Bool
is_space c =
    (leb 9 c && leb c 13)
    || (c == 32)
    || (c == 133)
    || (c == 160)
    || (c == 5760)
    || (leb 8192 c && leb c 8202)
    || (c == 8232)
    || (c == 8233)
    || (c == 8239)
    || (c == 8287)
    || (c == 12288)

-- `strings.TrimSpace(prefix) == ""`
unfoldable pub is_blank : Text → Bool
is_blank [] = true
is_blank (c ∷ t) = is_space c && is_blank t

-- The loop of `partialTagSuffix`, from n down to 1.
unfoldable pub longest_partial : Text → Text → ℕ → ℕ
longest_partial s tag zero = 0
longest_partial s tag (suc n) =
    let shorter = longest_partial s tag n in
    if text_eq (drop (length s - suc n) s) (take (suc n) tag) then suc n else shorter

unfoldable pub partial_tag_suffix : Text → Text → ℕ
partial_tag_suffix s tag = longest_partial s tag (min (length tag - 1) (length s))

-- The text that the call has written so far is the second argument.
unfoldable pub can_start_thinking : ResponseAccumulator → Text → Text → Bool
can_start_thinking a text prefix =
    not a.has_text && is_empty a.text_buf && is_empty text && is_blank prefix

-- What one round of the loop leaves: the state and the two builders, at a `break` or at a `continue`.
pub data Round : Type 0 where
  break : ResponseAccumulator → Text → Text → Round
  continue : ResponseAccumulator → Text → Text → Round

abbrev pub round_inside : ResponseAccumulator → Text → Text → Option ℕ → Round
round_inside a text think none =
    let buf = a.thinking_tag_buf in
    let keep = partial_tag_suffix buf thinking_close_tag in
    if ltb 0 keep
    then break (record a { thinking_tag_buf = drop (length buf - keep) buf }) text
        (think ++ take (length buf - keep) buf)
    else break (record a { thinking_tag_buf = [] }) text (think ++ buf)
round_inside a text think (some idx) =
    continue
      (record a {
        thinking_tag_buf = drop (idx + length thinking_close_tag) a.thinking_tag_buf;
        thinking_tag_inside = false;
      })
      text (think ++ take idx a.thinking_tag_buf)

abbrev pub round_outside : ResponseAccumulator → Text → Text → Option ℕ → Round
round_outside a text think none =
    let buf = a.thinking_tag_buf in
    let keep = partial_tag_suffix buf thinking_open_tag in
    if ltb 0 keep && can_start_thinking a text (take (length buf - keep) buf)
    then break (record a { thinking_tag_buf = drop (length buf - keep) buf }) text think
    else break (record a { thinking_tag_buf = [] }) (text ++ buf) think
round_outside a text think (some idx) =
    if can_start_thinking a text (take idx a.thinking_tag_buf)
    then continue
        (record a {
          thinking_tag_buf = drop (idx + length thinking_open_tag) a.thinking_tag_buf;
          thinking_tag_inside = true;
          suppress_reasoning_content = true;
        })
        text think
    else break (record a { thinking_tag_buf = [] }) (text ++ a.thinking_tag_buf) think

unfoldable pub round : ResponseAccumulator → Text → Text → Round
round a text think =
    if is_empty a.thinking_tag_buf
    then break a text think
    else if a.thinking_tag_inside
    then round_inside a text think (index a.thinking_tag_buf thinking_close_tag)
    else round_outside a text think (index a.thinking_tag_buf thinking_open_tag)

-- The loop, on fuel. A `continue` drops a tag from the buffer.
unfoldable pub rounds : ℕ → ResponseAccumulator → Text → Text → ResponseAccumulator × Text × Text
rounds zero a text think = (a, text, think)
rounds (suc fuel) a text think = elim (round a text think) [
  | break b t k ↦ (b, t, k)
  | continue b t k ↦ rounds fuel b t k
]

abbrev pub holds_open_bracket : Option ℕ → Bool
holds_open_bracket none = false
holds_open_bracket (some i) = true

unfoldable pub parse_thinking_tags : ResponseAccumulator → Text → ResponseAccumulator × Text × Text
parse_thinking_tags a delta =
    let buf = a.thinking_tag_buf ++ delta in
    if is_empty a.thinking_tag_buf
      && not a.thinking_tag_inside
      && not (holds_open_bracket (index delta (60 ∷ [])))
    then (a, delta, [])
    else rounds (length buf) (record a { thinking_tag_buf = buf }) [] []

unfoldable pub finalize_thinking_tags : ResponseAccumulator → ResponseAccumulator × Text × Text
finalize_thinking_tags a =
    if is_empty a.thinking_tag_buf
    then (a, [], [])
    else if a.thinking_tag_inside
    then (record a { thinking_tag_buf = [] }, [], a.thinking_tag_buf)
    else (record a { thinking_tag_buf = [] }, a.thinking_tag_buf, [])
