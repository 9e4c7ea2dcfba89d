-- ===== src/Respconv/Events/Runs.antt =====
-- Runs of events and the end of a stream, for internal/respconv/event_processor.go and accumulator.go.
use kirocc_prox.Base.{append_nil, refl, subst, List, [], ◌∷◌, ◌++◌, if_both}
use kirocc_prox.Respconv.Text.{Text}
use kirocc_prox.Respconv.Accumulator.{ResponseAccumulator}
use kirocc_prox.Respconv.TokenBudget.{apply_max_tokens_budget}
use kirocc_prox.Respconv.StopSequence.{flush_stop_seq_pending}
use kirocc_prox.Respconv.ThinkingTags.{finalize_thinking_tags}
use kirocc_prox.Kiroproto.Event.{Event}
use kirocc_prox.Respconv.Events.{
  EventDelta, no_delta, Checks, think, emit_text, process_event, process_events, flush_rest,
  finalize_stream, write_text,
}
use kirocc_prox.Respconv.Events.Unchanged.{
  Step, Step-refl, Step-trans, Same-Step, finalize_thinking_tags-Same,
}
use kirocc_prox.Respconv.Events.Parts.{think-Thinks, budget-Spent, write_text-Step}
use kirocc_prox.Respconv.Events.Deltas.{process_event-Gives, think_then_text}

-- The text, or the thinking, that a list of deltas holds.
unfoldable pub texts : List EventDelta → Text
texts [] = []
texts (d ∷ ds) = d.text_delta ++ texts ds

unfoldable pub thoughts : List EventDelta → Text
thoughts [] = []
thoughts (d ∷ ds) = d.thinking_delta ++ thoughts ds

pub process_events-Step :
    (checks : Checks) (a : ResponseAccumulator) (es : List Event)
    → Step a
        (process_events checks a es).0
        (texts (process_events checks a es).1)
        (thoughts (process_events checks a es).1)
unfolding process_events texts thoughts
process_events-Step checks a [] = Step-refl a
process_events-Step checks a (e ∷ es) =
    let r : ResponseAccumulator × EventDelta = process_event checks a e in
    let rest : ResponseAccumulator × List EventDelta = process_events checks r.0 es in
    Step-trans a r.0 rest.0 r.1.text_delta r.1.thinking_delta (texts rest.1) (thoughts rest.1)
      (process_event-Gives checks a e) (process_events-Step checks r.0 es)

flush_rest-Step :
    (a : ResponseAccumulator) (t : Text) → Step a (flush_rest (a, t)).0 (flush_rest (a, t)).1 []
flush_rest-Step a [] = Step-refl a
flush_rest-Step a (c ∷ t) =
    if_both {A = ResponseAccumulator × Text} (λ r. Step a r.0 r.1 []) a.local_stop {x = (a, [])}
      {y = write_text (apply_max_tokens_budget a (c ∷ t))} (Step-refl a)
      (write_text-Step a (apply_max_tokens_budget a (c ∷ t)) (budget-Spent a (c ∷ t)))

pub finalize_stream-Step :
    (a : ResponseAccumulator)
    → Step a (finalize_stream a).0 (finalize_stream a).1 (finalize_stream a).2
unfolding finalize_stream flush_stop_seq_pending
finalize_stream-Step a =
    let p : ResponseAccumulator × Text × Text = finalize_thinking_tags a in
    let r : ResponseAccumulator × EventDelta = think p.0 p.2 no_delta in
    let s : ResponseAccumulator × Text = emit_text r.0 p.1 in
    let b : ResponseAccumulator = record s.0 { stop_seq_pending = [] } in
    let f : ResponseAccumulator × Text = flush_rest (b, s.0.stop_seq_pending) in
    let tags : Step a s.0 s.1 r.1.thinking_delta =
      Step-trans a p.0 s.0 [] [] s.1 r.1.thinking_delta
        (Same-Step a p.0 (finalize_thinking_tags-Same a))
        (think_then_text p.0 r p.1 (think-Thinks p.0 p.2 no_delta (refl, refl))) in
    subst (λ k. Step a f.0 (s.1 ++ f.1) k) (append_nil r.1.thinking_delta)
      (Step-trans a s.0 f.0 s.1 r.1.thinking_delta f.1 [] tags
        (flush_rest-Step b s.0.stop_seq_pending))
