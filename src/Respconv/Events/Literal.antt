-- ===== src/Respconv/Events/Literal.antt =====
-- Text after the first visible text, through internal/respconv/event_processor.go, chunk_delta.go and
-- thinking_tags.go.
use kirocc_prox.Base.{
  ℕ, suc, ◌+◌, ◌-◌, ◌≡◌, refl, ap, true, false, ◌&&◌, arith, List, [], ◌∷◌, ◌++◌, Option, none,
  some, ltb, pos, length, take, map, Option-cases, inl, inr,
}
use kirocc_prox.Respconv.Text.{Text, index}
use kirocc_prox.Respconv.Accumulator.{ResponseAccumulator}
use kirocc_prox.Respconv.TokenBudget.{apply_max_tokens_budget}
use kirocc_prox.Respconv.ChunkDelta.Cumulative.{grow, compute_delta-append}
use kirocc_prox.Respconv.ThinkingTags.{
  thinking_open_tag, partial_tag_suffix, can_start_thinking, round, rounds, round_outside, Round,
  break, continue, parse_thinking_tags,
}
use kirocc_prox.Kiroproto.Event.{assistant_response}
use kirocc_prox.Respconv.Events.{
  no_delta, Checks, deliver, emit_text, process_event, process_events,
}

-- An accumulator that has shown text, is in no tag, and has no stop sequences, no budget and no stop.
abbrev pub visible : ResponseAccumulator → Text → ResponseAccumulator
visible a last = record a {
  last_content = last;
  has_text = true;
  local_stop = false;
  stop_sequences = [];
  max_tokens_budget = pos 0;
  thinking_tag_inside = false;
  thinking_tag_buf = [];
}

abbrev holding : ResponseAccumulator → Text → Text → ResponseAccumulator
holding a last buf = record (visible a last) { thinking_tag_buf = buf }

starts_nothing :
    (a : ResponseAccumulator) (last buf text prefix : Text)
    → can_start_thinking (holding a last buf) text prefix ≡ false
unfolding can_start_thinking
starts_nothing a last buf text prefix = refl

round_outside_literal :
    (a : ResponseAccumulator) (last buf : Text) (i : Option ℕ)
    → round_outside (holding a last buf) [] [] i ≡ break (visible a last) buf []
round_outside_literal a last buf none =
    let keep : ℕ = partial_tag_suffix buf thinking_open_tag in
    let off : ltb 0 keep
          && can_start_thinking (holding a last buf) [] (take (length buf - keep) buf)
        ≡ false =
      ground (arith, starts_nothing a last buf [] (take (length buf - keep) buf)) in
    rw off refl
round_outside_literal a last buf (some i) = rw (starts_nothing a last buf [] (take i buf)) refl

rounds_literal :
    (a : ResponseAccumulator) (last : Text) (c : ℕ) (t : Text) (fuel : ℕ)
    → rounds (suc fuel) (holding a last (c ∷ t)) [] [] ≡ (visible a last, c ∷ t, [])
unfolding rounds round
rounds_literal a last c t fuel =
    let close : Round → ResponseAccumulator × Text × Text =
      λ r. elim r [ break b u v ↦ (b, u, v) | continue b u v ↦ rounds fuel b u v ] in
    ap close (round_outside_literal a last (c ∷ t) (index (c ∷ t) thinking_open_tag))

parse_literal :
    (a : ResponseAccumulator) (last : Text) (c : ℕ) (t : Text)
    → parse_thinking_tags (visible a last) (c ∷ t) ≡ (visible a last, c ∷ t, [])
unfolding parse_thinking_tags
parse_literal a last c t = elim (Option-cases (index (c ∷ t) (60 ∷ []))) [
  | inl e ↦ rw e refl
  | inr (i, e) ↦ rw e (rounds_literal a last c t (length t))
]

-- The visible accumulator after a text was written.
abbrev wrote : ResponseAccumulator → Text → ResponseAccumulator
wrote a t = record a {
  text_buf = a.text_buf ++ t;
  output_rune_count = a.output_rune_count + length t;
}

event_literal :
    (checks : Checks) (a : ResponseAccumulator) (last : Text) (c : ℕ) (t : Text)
    → process_event checks (visible a last) (assistant_response (last ++ c ∷ t))
      ≡ (visible (wrote a (c ∷ t)) (last ++ c ∷ t), record no_delta { text_delta = c ∷ t })
unfolding process_event deliver emit_text apply_max_tokens_budget
event_literal checks a last c t =
    rw (compute_delta-append last (c ∷ t), parse_literal a (last ++ c ∷ t) c t) refl

event_nothing :
    (checks : Checks) (a : ResponseAccumulator) (last : Text)
    → process_event checks (visible a last) (assistant_response (last ++ []))
      ≡ (visible a (last ++ []), no_delta)
unfolding process_event
event_nothing checks a last = rw (compute_delta-append last []) refl

-- Once text is visible, and with no stop sequence, budget or stop, a stream of cumulative texts is sent on
-- unchanged, piece by piece as it grew, also where a piece spells a thinking tag.
pub process_events-literal :
    (checks : Checks) (a : ResponseAccumulator) (last : Text) (ds : List Text)
    → map
        (λ d. d.text_delta)
        (process_events checks (visible a last) (map assistant_response (grow last ds))).1
      ≡ ds
unfolding process_events grow
process_events-literal checks a last [] = refl
process_events-literal checks a last ([] ∷ ds) =
    rw (event_nothing checks a last, process_events-literal checks a (last ++ []) ds) refl
process_events-literal checks a last ((c ∷ t) ∷ ds) =
    rw
      (
        event_literal checks a last c t,
        process_events-literal checks (wrote a (c ∷ t)) (last ++ c ∷ t) ds,
      )
      refl
