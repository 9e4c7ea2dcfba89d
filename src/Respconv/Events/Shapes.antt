-- ===== src/Respconv/Events/Shapes.antt =====
-- What kind of delta each type of event gives, for internal/respconv/event_processor.go.
use kirocc_prox.Base.{
  ◌≡◌, refl, sym, ap, ◌∙◌, Bool, true, false, not, ◌&&◌, ◌||◌, arith, [], ◌∷◌, Option, none, some,
  String, str_eq, str_eq_refl, if◌then◌else◌, if_both, lookup, length,
}
use kirocc_prox.Kiroproto.Event.{
  Event, assistant_response, reasoning_content, tool_use, metadata, metering, message_metadata,
  context_usage, invalid_state, exception, other_type,
}
use kirocc_prox.Respconv.Text.{Text}
use kirocc_prox.Respconv.Accumulator.{ResponseAccumulator}
use kirocc_prox.Respconv.TokenBudget.{apply_max_tokens_budget}
use kirocc_prox.Respconv.ChunkDelta.{compute_delta}
use kirocc_prox.Respconv.Events.{
  EventDelta, no_delta, Verdict, accepted, refused, Checks, write_thinking, accumulate_thinking,
  reasoning_delta, see_signature, process_reasoning, original_name, think_thought, tool_delta,
  validated, count_tool, judge, process_tool_use, process_event,
}
use kirocc_prox.Respconv.Events.Parts.{think-Thinks, IsSilent}
use kirocc_prox.Respconv.Events.Deltas.{see_signature-Quiet}

-- No text, and no thinking with redacted content.
abbrev pub IsReasoning : EventDelta → Type 0
IsReasoning d = (d.text_delta ≡ []) × (str_eq d.redacted_content "" ≡ false → d.thinking_delta ≡ [])

abbrev IsBare : ResponseAccumulator × EventDelta → Type 0
IsBare r = (r.1.text_delta ≡ []) × (r.1.redacted_content ≡ "")

write_thinking-IsBare :
    (r : ResponseAccumulator × Text) (d : EventDelta)
    → IsBare (r.0, d)
    → IsBare (write_thinking r d)
write_thinking-IsBare (a, []) d h = h
write_thinking-IsBare (a, c ∷ t) d h = h

accumulate_thinking-IsBare :
    (a : ResponseAccumulator) (t : Text) (d : EventDelta)
    → IsBare (a, d)
    → IsBare (accumulate_thinking a t d)
unfolding accumulate_thinking
accumulate_thinking-IsBare a t d h =
    let r : ResponseAccumulator × EventDelta = write_thinking (apply_max_tokens_budget a t) d in
    let h' : IsBare r = write_thinking-IsBare (apply_max_tokens_budget a t) d h in
    if_both {A = EventDelta} (λ e. IsBare (r.0, e)) r.0.local_stop
      {x = record r.1 { stop_signal = true; stop_reason = r.0.stop_reason }} {y = r.1} h' h'

reasoning_delta-IsBare :
    (a : ResponseAccumulator) (t : Text) (d : EventDelta)
    → IsBare (a, d)
    → IsBare (reasoning_delta a t d)
reasoning_delta-IsBare a [] d h = h
reasoning_delta-IsBare a (c ∷ t) d h =
    if_both {A = ResponseAccumulator × EventDelta} IsBare a.local_stop {x = (a, d)}
      {y = accumulate_thinking a (c ∷ t) d} h (accumulate_thinking-IsBare a (c ∷ t) d h)

see_signature-IsBare : (a : ResponseAccumulator) (s : String) → IsBare (see_signature a s)
see_signature-IsBare a s =
    if_both {A = ResponseAccumulator × EventDelta} IsBare (str_eq s "" || str_eq s a.signature)
      {x = (a, no_delta)}
      {y = (record a { signature = s }, record no_delta { signature_delta = s })} (refl, refl)
      (refl, refl)

bare-IsReasoning : (r : ResponseAccumulator × EventDelta) → IsBare r → IsReasoning r.1
bare-IsReasoning r (no_text, none_redacted) =
    let same : str_eq r.1.redacted_content "" ≡ true =
      ap (λ u. str_eq u "") none_redacted ∙ str_eq_refl "" in
    (no_text, λ e. both_values r.1.thinking_delta (sym e ∙ same))
  where
    both_values : (t : Text) → false ≡ true → t ≡ []
    both_values t h = ground (arith, h)

process_reasoning-IsReasoning :
    (a : ResponseAccumulator) (t : Text) (s redacted : String)
    → IsReasoning (process_reasoning a t s redacted).1
unfolding process_reasoning
process_reasoning-IsReasoning a t s redacted =
    let r : ResponseAccumulator × EventDelta = see_signature a s in
    let b : ResponseAccumulator = record r.0 { last_thinking = t } in
    let last : ResponseAccumulator × EventDelta =
      reasoning_delta b (compute_delta t r.0.last_thinking) r.1 in
    let bare : IsBare r = see_signature-IsBare a s in
    let (same, silent) = see_signature-Quiet a s in
    if_both {A = ResponseAccumulator × EventDelta} (λ q. IsReasoning q.1) (not (str_eq redacted ""))
      {x = (r.0, record r.1 { redacted_content = redacted })}
      {y = if r.0.suppress_reasoning_content then r else last} (bare.0, λ e. silent.1)
      (if_both {A = ResponseAccumulator × EventDelta} (λ q. IsReasoning q.1)
        r.0.suppress_reasoning_content {x = r} {y = last} (bare-IsReasoning r bare)
        (bare-IsReasoning last
          (reasoning_delta-IsBare b (compute_delta t r.0.last_thinking) r.1 bare)))

abbrev IsTextless : ResponseAccumulator × EventDelta → Type 0
IsTextless r = r.1.text_delta ≡ []

module _ (checks : Checks) where
  judge-IsTextless :
      (a : ResponseAccumulator) (id name : String) (input : Text) (v : Verdict)
      → IsTextless (judge checks a id name input v)
  judge-IsTextless a id name input (accepted normalized) =
      let b : ResponseAccumulator =
        count_tool
          (record a {
            has_tool_use = true;
            tool_parse_error = a.tool_parse_error || not (checks.is_valid normalized);
          })
          (length normalized) in
      let d : EventDelta = tool_delta id name normalized in
      if_both {A = EventDelta} (λ e. e.text_delta ≡ []) b.local_stop
        {x = record d { stop_signal = true; stop_reason = b.stop_reason }} {y = d} refl refl
  judge-IsTextless a id name input (refused reason) = refl

  thought-IsTextless : (a : ResponseAccumulator) (o : Option Text) → IsTextless (think_thought a o)
  thought-IsTextless a none = refl
  thought-IsTextless a (some t) = (think-Thinks a t no_delta (refl, refl)).0

  process_tool_use-IsTextless :
      (a : ResponseAccumulator) (stop : Bool) (id tool_name : String) (input : Text)
      → IsTextless (process_tool_use checks a stop id tool_name input)
  unfolding process_tool_use
  process_tool_use-IsTextless a stop id tool_name input =
      let name : String = original_name tool_name (lookup tool_name a.tool_name_map) in
      let judged : ResponseAccumulator × EventDelta =
        judge checks a id name input (validated checks.validator name input) in
      let dropped : Bool = not (str_eq a.drop_tool_name "") && str_eq tool_name a.drop_tool_name in
      if_both {A = ResponseAccumulator × EventDelta} IsTextless (not stop || a.local_stop)
        {x = (a, no_delta)}
        {y = if str_eq name "thinking"
          then think_thought a (checks.thought_of input)
          else if dropped
          then (a, tool_delta id name input)
          else judged}
        refl
        (if_both {A = ResponseAccumulator × EventDelta} IsTextless (str_eq name "thinking")
          {x = think_thought a (checks.thought_of input)}
          {y = if dropped then (a, tool_delta id name input) else judged}
          (thought-IsTextless a (checks.thought_of input))
          (if_both {A = ResponseAccumulator × EventDelta} IsTextless dropped
            {x = (a, tool_delta id name input)} {y = judged} refl
            (judge-IsTextless a id name input (validated checks.validator name input))))

  -- Only an assistant event gives text, and only that, a reasoning or a tool event thinking.
  abbrev pub Shape : Event → EventDelta → Type 0
  Shape (assistant_response content) d = d.text_delta ≡ d.text_delta
  Shape (reasoning_content t signature redacted) d = IsReasoning d
  Shape (tool_use stop id name input) d = d.text_delta ≡ []
  Shape _ d = IsSilent d

  pub process_event-Shape :
      (a : ResponseAccumulator) (e : Event) → Shape e (process_event checks a e).1
  unfolding process_event
  process_event-Shape a (assistant_response content) = refl
  process_event-Shape a (reasoning_content t s redacted) =
      process_reasoning-IsReasoning a t s redacted
  process_event-Shape a (tool_use stop id name input) =
      process_tool_use-IsTextless a stop id name input
  process_event-Shape a (metadata i o r w) = (refl, refl)
  process_event-Shape a (metering i o) =
      if_both {A = ResponseAccumulator × EventDelta} (λ r. IsSilent r.1) a.has_metadata
        {x = (a, no_delta)} {y = (record a { input_tokens = i; output_tokens = o }, no_delta)}
        (refl, refl) (refl, refl)
  process_event-Shape a (message_metadata id) = (refl, refl)
  process_event-Shape a context_usage = (refl, refl)
  process_event-Shape a (invalid_state message reason) = (refl, refl)
  process_event-Shape a (exception message reason) = (refl, refl)
  process_event-Shape a other_type = (refl, refl)
