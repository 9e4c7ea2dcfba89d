-- ===== src/Respconv/ThinkingTags/Rounds.antt =====
-- The loop of `parseThinkingTags` in internal/respconv/thinking_tags.go, without a bound on its rounds.
use kirocc_prox.Base.{
  ℕ, zero, suc, ◌+◌, ◌-◌, ◌≤◌, ◌<◌, ◌≡◌, refl, true, false, ◌&&◌, arith, [], ◌∷◌, Option, none,
  some, if_both, ltb, length, take, drop, length-drop, Bool-cases, inl, inr,
}
use kirocc_prox.Respconv.Text.{Text, index}
use kirocc_prox.Respconv.Accumulator.{ResponseAccumulator}
use kirocc_prox.Respconv.ThinkingTags.{
  thinking_open_tag, thinking_close_tag, is_empty, partial_tag_suffix, can_start_thinking, Round,
  break, continue, round_inside, round_outside, round, rounds,
}

-- The loop as the source has it: rounds up to a `break`.
pub data Loop : ResponseAccumulator → Text → Text → ResponseAccumulator × Text × Text → Type 0 where
  ended :
      (a : ResponseAccumulator) (t k : Text) (b : ResponseAccumulator) (t' k' : Text)
      → round a t k ≡ break b t' k'
      → Loop a t k (b, t', k')
  again :
      (a : ResponseAccumulator) (t k : Text) (b : ResponseAccumulator) (t' k' : Text)
      (r : ResponseAccumulator × Text × Text)
      → round a t k ≡ continue b t' k'
      → Loop b t' k' r
      → Loop a t k r

abbrev Shrinks : ResponseAccumulator → Round → Type 0
Shrinks a (break b t k) = 0 ≤ 0
Shrinks a (continue b t k) = length b.thinking_tag_buf < length a.thinking_tag_buf

shorter : (buf : Text) (n : ℕ) → 0 < n → is_empty buf ≡ false → length (drop n buf) < length buf
shorter [] n l e = ground (arith, e)
shorter (c ∷ buf) n l e = omega (arith, length-drop n (c ∷ buf))

round_inside-Shrinks :
    (a : ResponseAccumulator) (t k : Text) (i : Option ℕ)
    → is_empty a.thinking_tag_buf ≡ false
    → Shrinks a (round_inside a t k i)
round_inside-Shrinks a t k none e =
    elim (Bool-cases (ltb 0 (partial_tag_suffix a.thinking_tag_buf thinking_close_tag))) [
      | inl f ↦ rw f (omega arith)
      | inr f ↦ rw f (omega arith)
    ]
round_inside-Shrinks a t k (some i) e = shorter a.thinking_tag_buf (i + 11) (omega arith) e

round_outside-Shrinks :
    (a : ResponseAccumulator) (t k : Text) (i : Option ℕ)
    → is_empty a.thinking_tag_buf ≡ false
    → Shrinks a (round_outside a t k i)
round_outside-Shrinks a t k none e =
    let buf : Text = a.thinking_tag_buf in
    let keep : ℕ = partial_tag_suffix buf thinking_open_tag in
    elim (Bool-cases (ltb 0 keep && can_start_thinking a t (take (length buf - keep) buf))) [
      | inl f ↦ rw f (omega arith)
      | inr f ↦ rw f (omega arith)
    ]
round_outside-Shrinks a t k (some i) e =
    elim (Bool-cases (can_start_thinking a t (take i a.thinking_tag_buf))) [
      | inl f ↦ rw f (shorter a.thinking_tag_buf (i + 10) (omega arith) e)
      | inr f ↦ rw f (omega arith)
    ]

round-Shrinks : (a : ResponseAccumulator) (t k : Text) → Shrinks a (round a t k)
unfolding round
round-Shrinks a t k = elim (Bool-cases (is_empty a.thinking_tag_buf)) [
  | inl e ↦ rw e (omega arith)
  | inr e ↦ rw e (
      if_both {A = Round} (Shrinks a) a.thinking_tag_inside
        {x = round_inside a t k (index a.thinking_tag_buf thinking_close_tag)}
        {y = round_outside a t k (index a.thinking_tag_buf thinking_open_tag)}
        (round_inside-Shrinks a t k _ e) (round_outside-Shrinks a t k _ e))
]

round_empty :
    (a : ResponseAccumulator) (t k : Text)
    → length a.thinking_tag_buf ≤ 0
    → round a t k ≡ break a t k
unfolding round
round_empty a t k l =
    let e : is_empty a.thinking_tag_buf ≡ true = nothing a.thinking_tag_buf l in rw e refl
  where
    nothing : (buf : Text) → length buf ≤ 0 → is_empty buf ≡ true
    nothing [] l = refl
    nothing (c ∷ buf) l = ground (arith, l)

-- Fuel of the buffer's length is enough: the loop ends at a `break`, and with what the bounded one gives.
pub rounds-Loop :
    (fuel : ℕ) (a : ResponseAccumulator) (text thinking : Text)
    → length a.thinking_tag_buf ≤ fuel
    → Loop a text thinking (rounds fuel a text thinking)
unfolding rounds
rounds-Loop zero a t k l = ended a t k a t k (round_empty a t k l)
rounds-Loop (suc fuel) a t k l =
    elim (round a t k)
        as (λ r.
          round a t k ≡ r
          → Shrinks a r
          → (let q : ResponseAccumulator × Text × Text = elim r [
            | break b u v ↦ (b, u, v)
            | continue b u v ↦ rounds fuel b u v
          ] in
              Loop a t k q)) [
                | break b u v ↦ λ e h. ended a t k b u v e
                | continue b u v ↦ λ e h.
                    again a t k b u v (rounds fuel b u v) e (rounds-Loop fuel b u v (omega arith))
              ]
      refl (round-Shrinks a t k)
