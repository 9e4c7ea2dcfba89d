-- ===== src/Respconv/TokenBudget.antt =====
-- internal/respconv/token_budget.go: the limit on the characters of a response, four to a token.
pub mod Accounts
use kirocc_prox.Base.{
  ℕ, zero, suc, ◌+◌, ◌-◌, ◌*◌, ◌/◌, ◌≤◌, ◌<◌, ◌≡◌, refl, sym, ap, ◌∙◌, Bool, true, false, arith,
  List, [], ◌∷◌, ◌++◌, if◌then◌else◌, ltb, leb, ℤ, pos, negsuc, leb_ℤ, pos_part, length, take, drop,
  take-append-drop, length-take, Bool-cases, inl, inr, ◌⊎◌,
}
use kirocc_prox.Respconv.Text.{Text, EndsWith}
use kirocc_prox.Respconv.Accumulator.{ResponseAccumulator}

abbrev pub stop_at_limit : ResponseAccumulator → ResponseAccumulator
stop_at_limit a = record a { local_stop = true; stop_reason = "max_tokens" }

-- All the characters fit: `a.outputRuneCount += runesInDelta`, and stop at the limit.
abbrev pub take_whole : ResponseAccumulator → Text → ResponseAccumulator × Text
take_whole a delta =
    let total = a.output_rune_count + length delta in
    if leb (pos_part a.max_tokens_budget) (total / 4)
    then (stop_at_limit (record a { output_rune_count = total }), delta)
    else (record a { output_rune_count = total }, delta)

-- Over the limit or at it. `remaining` is taken as a difference of natural numbers, which is 0 where the
-- source's is not positive.
abbrev pub take_remaining : ResponseAccumulator → Text → ResponseAccumulator × Text
take_remaining a delta =
    let remaining = pos_part a.max_tokens_budget * 4 - a.output_rune_count in
    if leb remaining 0
    then (stop_at_limit a, [])
    else if ltb remaining (length delta)
    then (
      stop_at_limit (record a { output_rune_count = a.output_rune_count + remaining }),
      take remaining delta,
    )
    else take_whole a delta

unfoldable pub apply_max_tokens_budget : ResponseAccumulator → Text → ResponseAccumulator × Text
apply_max_tokens_budget a delta =
    if leb_ℤ a.max_tokens_budget (pos 0)
    then (record a { output_rune_count = a.output_rune_count + length delta }, delta)
    else if ltb ((a.output_rune_count + length delta) / 4) (pos_part a.max_tokens_budget)
    then (record a { output_rune_count = a.output_rune_count + length delta }, delta)
    else take_remaining a delta

-- The budget in characters, if there is one.
abbrev pub limit : ResponseAccumulator → ℕ
limit a = pos_part a.max_tokens_budget * 4
