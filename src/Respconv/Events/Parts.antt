-- ===== src/Respconv/Events/Parts.antt =====
-- What the parts of internal/respconv/event_processor.go write, count and stop.
use kirocc_prox.Base.{
  append_nil, ◌+◌, ◌*◌, ◌≤◌, ◌<◌, ◌≡◌, refl, sym, ap, subst, ◌∙◌, true, false, arith, List, [], ◌∷◌,
  ◌++◌, pos_part, length, if_both, if_cases,
}
use kirocc_prox.Respconv.Text.{Text}
use kirocc_prox.Respconv.Accumulator.{ResponseAccumulator}
use kirocc_prox.Respconv.TokenBudget.{apply_max_tokens_budget, limit}
use kirocc_prox.Respconv.TokenBudget.Accounts.{
  apply_max_tokens_budget-Accounts, Accounts, SameButCount,
}
use kirocc_prox.Respconv.Events.{
  EventDelta, write_thinking, accumulate_thinking, think, filter_stops, spend, write_text,
  emit_text,
}
use kirocc_prox.Respconv.Events.Unchanged.{
  Step, Step-refl, Same, running_before, changed, apply_stop_sequence_filter-Same,
}

abbrev pub Spent : ResponseAccumulator → ResponseAccumulator × Text → Type 0
Spent a r =
    (r.0.text_buf ≡ a.text_buf)
    × (r.0.thinking_buf ≡ a.thinking_buf)
    × (r.0.max_tokens_budget ≡ a.max_tokens_budget)
    × (a.output_rune_count ≤ r.0.output_rune_count)
    × (r.0.local_stop ≡ false
        → (a.local_stop ≡ false)
          × (a.output_rune_count + length r.1 ≤ r.0.output_rune_count)
          × (0 < limit a → a.output_rune_count < limit a → r.0.output_rune_count < limit a))

pub budget-Spent : (a : ResponseAccumulator) (t : Text) → Spent a (apply_max_tokens_budget a t)
budget-Spent a t =
    let ((start, counted, within, running, stopped), (text, thinking, budget)) =
      apply_max_tokens_budget-Accounts a t in
    (
      text,
      thinking,
      budget,
      omega arith,
      λ h. (running_before a.local_stop _ stopped h, omega arith, λ l m. (running h).1 l),
    )

spend-Spent : (a : ResponseAccumulator) (t : Text) → Spent a (spend (a, t))
spend-Spent a [] = (refl, refl, refl, omega arith, λ h. (h, omega arith, λ l m. m))
spend-Spent a (c ∷ t) =
    if_cases (Spent a) a.local_stop {x = (a, c ∷ t)} {y = apply_max_tokens_budget a (c ∷ t)}
      (λ e. (refl, refl, refl, omega arith, λ h. ground (arith, h, e)))
      (λ e. budget-Spent a (c ∷ t))

Same-Spent :
    (a b : ResponseAccumulator) (r : ResponseAccumulator × Text) → Same a b → Spent b r → Spent a r
Same-Spent a b r (text, thinking, budget, count, stopped)
      (text', thinking', budget', count', running) =
    let same : limit b ≡ limit a = ap (λ z. pos_part z * 4) budget in
    (
      text' ∙ text,
      thinking' ∙ thinking,
      budget' ∙ budget,
      omega arith,
      λ h.
          let (h', total, below) = running h in
          (
            running_before a.local_stop b.local_stop stopped h',
            omega arith,
            λ l m. omega (arith, below (omega arith) (omega arith)),
          ),
    )

pub write_text-Step :
    (a : ResponseAccumulator) (r : ResponseAccumulator × Text)
    → Spent a r
    → Step a (write_text r).0 (write_text r).1 []
write_text-Step a (b, []) (text, thinking, budget, count, running) = (
  text ∙ sym (append_nil a.text_buf),
  thinking ∙ sym (append_nil a.thinking_buf),
  budget,
  omega arith,
  λ l. omega arith,
  λ h. let (h', total, below) = running h in (h', omega arith, below),
)
write_text-Step a (b, c ∷ t) (text, thinking, budget, count, running) = (
  ap (λ w. w ++ c ∷ t) text,
  thinking ∙ sym (append_nil a.thinking_buf),
  budget,
  omega arith,
  λ l. omega arith,
  λ h. let (h', total, below) = running h in (h', omega arith, below),
)

filter_stops-Same :
    (a : ResponseAccumulator) (t : Text) (ss : List Text) → Same a (filter_stops a t ss).0
filter_stops-Same a t [] = changed a
filter_stops-Same a t (s ∷ ss) = apply_stop_sequence_filter-Same a t

pub emit_text-Step :
    (a : ResponseAccumulator) (t : Text) → Step a (emit_text a t).0 (emit_text a t).1 []
unfolding emit_text
emit_text-Step a [] = Step-refl a
emit_text-Step a (c ∷ t) =
    let b : ResponseAccumulator = record a { has_text = true } in
    let r : ResponseAccumulator × Text = filter_stops b (c ∷ t) a.stop_sequences in
    write_text-Step a (spend r) (
      Same-Spent a r.0 (spend r) (filter_stops-Same b (c ∷ t) a.stop_sequences)
        (spend-Spent r.0 r.1))

-- What an event does, with the delta that it gives.
abbrev pub Gives : ResponseAccumulator → ResponseAccumulator × EventDelta → Type 0
Gives a r = Step a r.0 r.1.text_delta r.1.thinking_delta

-- A delta without text or thinking.
abbrev pub IsSilent : EventDelta → Type 0
IsSilent d = (d.text_delta ≡ []) × (d.thinking_delta ≡ [])

abbrev pub Thinks : ResponseAccumulator → ResponseAccumulator × EventDelta → Type 0
Thinks a r = (r.1.text_delta ≡ []) × Step a r.0 [] r.1.thinking_delta

write_thinking-Thinks :
    (a : ResponseAccumulator) (t : Text) (r : ResponseAccumulator × Text) (d : EventDelta)
    → IsSilent d
    → Accounts a t r.0 r.1 × SameButCount a r.0
    → Thinks a (write_thinking r d)
write_thinking-Thinks a t (b, []) d (no_text, no_thinking)
      ((start, counted, within, running, stopped), (text, thinking, budget)) =
    (
      no_text,
      subst (λ k. Step a b [] k) (sym no_thinking)
          (
            text ∙ sym (append_nil a.text_buf),
            thinking ∙ sym (append_nil a.thinking_buf),
            budget,
            omega arith,
            λ l. omega arith,
            λ h. (
              running_before a.local_stop b.local_stop stopped h,
              omega arith,
              λ l m. (running h).1 l,
            ),
          ),
    )
write_thinking-Thinks a t (b, c ∷ u) d (no_text, no_thinking)
      ((start, counted, within, running, stopped), (text, thinking, budget)) =
    (
      no_text,
      (
        text ∙ sym (append_nil a.text_buf),
        ap (λ w. w ++ c ∷ u) thinking,
        budget,
        omega arith,
        within,
        λ h. (
          running_before a.local_stop b.local_stop stopped h,
          omega arith,
          λ l m. (running h).1 l,
        ),
      ),
    )

pub accumulate_thinking-Thinks :
    (a : ResponseAccumulator) (t : Text) (d : EventDelta)
    → IsSilent d
    → Thinks a (accumulate_thinking a t d)
unfolding accumulate_thinking
accumulate_thinking-Thinks a t d silent =
    let r : ResponseAccumulator × EventDelta = write_thinking (apply_max_tokens_budget a t) d in
    let h : Thinks a r =
      write_thinking-Thinks a t (apply_max_tokens_budget a t) d silent
        (apply_max_tokens_budget-Accounts a t) in
    if_both {A = EventDelta} (λ e. Thinks a (r.0, e)) r.0.local_stop
      {x = record r.1 { stop_signal = true; stop_reason = r.0.stop_reason }} {y = r.1} h h

pub think-Thinks :
    (a : ResponseAccumulator) (t : Text) (d : EventDelta) → IsSilent d → Thinks a (think a t d)
think-Thinks a [] d (no_text, no_thinking) =
    (no_text, subst (λ k. Step a a [] k) (sym no_thinking) (Step-refl a))
think-Thinks a (c ∷ t) d silent = accumulate_thinking-Thinks a (c ∷ t) d silent
