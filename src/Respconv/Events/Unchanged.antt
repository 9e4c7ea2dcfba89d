-- ===== src/Respconv/Events/Unchanged.antt =====
-- What a part of internal/respconv/event_processor.go does to the buffers and the count, and the parts
-- that change neither.
use kirocc_prox.Base.{
  append_nil, append_assoc, ℕ, zero, suc, ◌+◌, ◌-◌, ◌*◌, ◌≤◌, ◌<◌, ◌≡◌, refl, sym, ap, ◌∙◌, Bool,
  true, false, not, ◌&&◌, arith, [], ◌∷◌, ◌++◌, Option, none, some, if◌then◌else◌, ltb, leb,
  pos_part, take, length, length-append, Bool-cases, Option-cases, if_both, inl, inr,
}
use kirocc_prox.Respconv.Text.{Text, index}
use kirocc_prox.Respconv.Accumulator.{ResponseAccumulator}
use kirocc_prox.Respconv.TokenBudget.{limit}
use kirocc_prox.Respconv.StopSequence.{apply_stop_sequence_filter, first_match}
use kirocc_prox.Respconv.ThinkingTags.{
  thinking_open_tag, thinking_close_tag, is_empty, holds_open_bracket, partial_tag_suffix,
  can_start_thinking, Round, break, continue, round_inside, round_outside, round, rounds,
  parse_thinking_tags, finalize_thinking_tags,
}

-- From a to b, text and thinking are written, the thinking is counted and within what the budget leaves;
-- and if b is not stopped, then a was not, the text is counted too, and the count is below the budget if
-- it was before.
abbrev pub Step : ResponseAccumulator → ResponseAccumulator → Text → Text → Type 0
Step a b text thinking =
    (b.text_buf ≡ a.text_buf ++ text)
    × (b.thinking_buf ≡ a.thinking_buf ++ thinking)
    × (b.max_tokens_budget ≡ a.max_tokens_budget)
    × (a.output_rune_count + length thinking ≤ b.output_rune_count)
    × (0 < limit a → length thinking ≤ limit a - a.output_rune_count)
    × (b.local_stop ≡ false
        → (a.local_stop ≡ false)
          × (a.output_rune_count + length thinking + length text ≤ b.output_rune_count)
          × (0 < limit a → a.output_rune_count < limit a → b.output_rune_count < limit a))

pub Step-refl : (a : ResponseAccumulator) → Step a a [] []
Step-refl a = (
  sym (append_nil a.text_buf),
  sym (append_nil a.thinking_buf),
  refl,
  omega arith,
  λ l. omega arith,
  λ h. (h, omega arith, λ l m. m),
)

pub Step-trans :
    (a b c : ResponseAccumulator) (t k t' k' : Text)
    → Step a b t k
    → Step b c t' k'
    → Step a c (t ++ t') (k ++ k')
Step-trans a b c t k t' k' (text, thinking, budget, counted, within, running)
      (text', thinking', budget', counted', within', running') =
    let same : limit b ≡ limit a = ap (λ z. pos_part z * 4) budget in
    (
      text' ∙ ap (λ w. w ++ t') text ∙ append_assoc a.text_buf t t',
      thinking' ∙ ap (λ w. w ++ k') thinking ∙ append_assoc a.thinking_buf k k',
      budget' ∙ budget,
      omega (arith, length-append k k'),
      λ l. omega (arith, length-append k k', within l, within' (omega arith)),
      λ h.
          let (h', total', below') = running' h in
          let (h'', total, below) = running h' in
          (
            h'',
            omega (arith, length-append k k', length-append t t'),
            λ l m. omega (arith, below' (omega arith) (omega (arith, below l m))),
          ),
    )

-- A change of other fields.
abbrev pub Same : ResponseAccumulator → ResponseAccumulator → Type 0
Same a b =
    (b.text_buf ≡ a.text_buf)
    × (b.thinking_buf ≡ a.thinking_buf)
    × (b.max_tokens_budget ≡ a.max_tokens_budget)
    × (b.output_rune_count ≡ a.output_rune_count)
    × (a.local_stop ≡ true → b.local_stop ≡ true)

pub running_before : (p q : Bool) → (p ≡ true → q ≡ true) → q ≡ false → p ≡ false
running_before true q h e = sym (h refl) ∙ e
running_before false q h e = refl

pub Same-Step : (a b : ResponseAccumulator) → Same a b → Step a b [] []
Same-Step a b (text, thinking, budget, count, stopped) = (
  text ∙ sym (append_nil a.text_buf),
  thinking ∙ sym (append_nil a.thinking_buf),
  budget,
  omega arith,
  λ l. omega arith,
  λ h. (running_before a.local_stop b.local_stop stopped h, omega arith, λ l m. omega arith),
)

abbrev pub changed : (a : ResponseAccumulator) → Same a a
changed a = (refl, refl, refl, refl, λ h. h)

pub apply_stop_sequence_filter-Same :
    (a : ResponseAccumulator) (t : Text) → Same a (apply_stop_sequence_filter a t).0
unfolding apply_stop_sequence_filter
apply_stop_sequence_filter-Same a t =
    let all : Text = a.stop_seq_pending ++ t in
    elim (Option-cases (first_match a.stop_sequences all)) [
      | inl e ↦ rw e (elim (Bool-cases (leb (length all) a.stop_seq_max_keep)) [
        | inl f ↦ rw f (changed a)
        | inr f ↦ rw f (changed a)
      ])
      | inr ((s, i), e) ↦ rw e (refl, refl, refl, refl, λ h. refl)
    ]

abbrev after : Round → ResponseAccumulator
after (break b t k) = b
after (continue b t k) = b

abbrev Kept : ResponseAccumulator → Round → Type 0
Kept a r = Same a (after r)

round_inside-Same :
    (a : ResponseAccumulator) (text thought : Text) (i : Option ℕ)
    → Kept a (round_inside a text thought i)
round_inside-Same a text thought none =
    elim (Bool-cases (ltb 0 (partial_tag_suffix a.thinking_tag_buf thinking_close_tag))) [
      | inl e ↦ rw e (changed a)
      | inr e ↦ rw e (changed a)
    ]
round_inside-Same a text thought (some i) = changed a

round_outside-Same :
    (a : ResponseAccumulator) (text thought : Text) (i : Option ℕ)
    → Kept a (round_outside a text thought i)
round_outside-Same a text thought none =
    let buf : Text = a.thinking_tag_buf in
    let keep : ℕ = partial_tag_suffix buf thinking_open_tag in
    elim (Bool-cases (ltb 0 keep && can_start_thinking a text (take (length buf - keep) buf))) [
      | inl e ↦ rw e (changed a)
      | inr e ↦ rw e (changed a)
    ]
round_outside-Same a text thought (some i) =
    elim (Bool-cases (can_start_thinking a text (take i a.thinking_tag_buf))) [
      | inl e ↦ rw e (changed a)
      | inr e ↦ rw e (changed a)
    ]

Kept-either :
    (a : ResponseAccumulator) (c : Bool) (r s : Round)
    → Kept a r
    → Kept a s
    → Kept a (if c then r else s)
Kept-either a true r s h k = h
Kept-either a false r s h k = k

round-Same : (a : ResponseAccumulator) (text thought : Text) → Kept a (round a text thought)
unfolding round
round-Same a text thought = elim (Bool-cases (is_empty a.thinking_tag_buf)) [
  | inl e ↦ rw e (changed a)
  | inr e ↦ rw e (
      Kept-either a a.thinking_tag_inside
        (round_inside a text thought (index a.thinking_tag_buf thinking_close_tag))
        (round_outside a text thought (index a.thinking_tag_buf thinking_open_tag))
        (round_inside-Same a text thought _) (round_outside-Same a text thought _))
]

Same-trans : (a b c : ResponseAccumulator) → Same a b → Same b c → Same a c
Same-trans a b c (t, k, m, n, s) (t', k', m', n', s') =
    (t' ∙ t, k' ∙ k, m' ∙ m, n' ∙ n, λ h. s' (s h))

rounds-Same :
    (fuel : ℕ) (a : ResponseAccumulator) (text thought : Text)
    → Same a (rounds fuel a text thought).0
unfolding rounds
rounds-Same zero a text thought = changed a
rounds-Same (suc fuel) a text thought =
    elim (round a text thought)
        as (λ r.
          Kept a r
          → Same a (
              let q : ResponseAccumulator × Text × Text = elim r [
                | break b t k ↦ (b, t, k)
                | continue b t k ↦ rounds fuel b t k
              ] in
              q.0)) [
                | break b t k ↦ λ h. h
                | continue b t k ↦
                    λ h. Same-trans a b (rounds fuel b t k).0 h (rounds-Same fuel b t k)
              ]
      (round-Same a text thought)

pub parse_thinking_tags-Same :
    (a : ResponseAccumulator) (t : Text) → Same a (parse_thinking_tags a t).0
unfolding parse_thinking_tags
parse_thinking_tags-Same a t =
    let buf : Text = a.thinking_tag_buf ++ t in
    let fast : Bool =
      is_empty a.thinking_tag_buf
      && not a.thinking_tag_inside
      && not (holds_open_bracket (index t (60 ∷ []))) in
    if_both {A = ResponseAccumulator × Text × Text} (λ r. Same a r.0) fast {x = (a, t, [])}
      {y = rounds (length buf) (record a { thinking_tag_buf = buf }) [] []} (changed a)
      (rounds-Same (length buf) (record a { thinking_tag_buf = buf }) [] [])

pub finalize_thinking_tags-Same : (a : ResponseAccumulator) → Same a (finalize_thinking_tags a).0
unfolding finalize_thinking_tags
finalize_thinking_tags-Same a = elim (Bool-cases (is_empty a.thinking_tag_buf)) [
  | inl e ↦ rw e (changed a)
  | inr e ↦ rw e (
      if_both {A = ResponseAccumulator × Text × Text} (λ r. Same a r.0) a.thinking_tag_inside
        {x = (record a { thinking_tag_buf = [] }, [], a.thinking_tag_buf)}
        {y = (record a { thinking_tag_buf = [] }, a.thinking_tag_buf, [])} (changed a) (changed a))
]
