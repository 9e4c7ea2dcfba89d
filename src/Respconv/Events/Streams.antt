-- ===== src/Respconv/Events/Streams.antt =====
-- Whole streams through internal/respconv/event_processor.go and accumulator.go.
use kirocc_prox.Base.{
  ◌+◌, ◌*◌, ◌≤◌, ◌<◌, ◌≡◌, refl, ap, ap₂, str_eq, ◌∙◌, Bool, true, false, arith, List, [], ◌∷◌,
  ◌++◌, String, pos_part, length, if_cases, if◌then◌else◌, not, ◌||◌,
}
use kirocc_prox.Respconv.Text.{Text}
use kirocc_prox.Respconv.Accumulator.{ResponseAccumulator}
use kirocc_prox.Respconv.ThinkingTags.{parse_thinking_tags}
use kirocc_prox.Respconv.ChunkDelta.{compute_delta}
use kirocc_prox.Kiroproto.Event.{
  Event, assistant_response, reasoning_content, tool_use, metadata, metering, message_metadata,
  context_usage, invalid_state, exception, other_type,
}
use kirocc_prox.Respconv.Events.{
  EventDelta, Checks, process_event, process_events, finalize_stream, assistant_delta,
  reasoning_delta, process_reasoning, process_tool_use, see_signature, no_delta, deliver,
  accumulate_thinking,
}
use kirocc_prox.Respconv.Events.Unchanged.{Step, Step-trans}
use kirocc_prox.Respconv.Events.Runs.{texts, thoughts, process_events-Step, finalize_stream-Step}

-- A whole stream: its events, then its end.
abbrev pub finished : Checks → ResponseAccumulator → List Event → ResponseAccumulator
finished checks a es = (finalize_stream (process_events checks a es).0).0

finished-Step :
    (checks : Checks) (a : ResponseAccumulator) (es : List Event)
    → Step a
        (finished checks a es)
        (texts (process_events checks a es).1 ++ (finalize_stream (process_events checks a es).0).1)
        (thoughts (process_events checks a es).1
          ++ (finalize_stream (process_events checks a es).0).2)
finished-Step checks a es =
    let r : ResponseAccumulator × List EventDelta = process_events checks a es in
    let f : ResponseAccumulator × Text × Text = finalize_stream r.0 in
    Step-trans a r.0 f.0 (texts r.1) (thoughts r.1) f.1 f.2 (process_events-Step checks a es)
      (finalize_stream-Step r.0)

-- The text and the thinking that a stream sends to the client, delta by delta and at its end, are exactly
-- what it adds to the buffers that a response without streaming is built from.
pub process_events-streams :
    (checks : Checks) (a : ResponseAccumulator) (es : List Event)
    → ((finished checks a es).text_buf
        ≡ a.text_buf
          ++ (texts (process_events checks a es).1
              ++ (finalize_stream (process_events checks a es).0).1))
      × ((finished checks a es).thinking_buf
          ≡ a.thinking_buf
            ++ (thoughts (process_events checks a es).1
                ++ (finalize_stream (process_events checks a es).0).2))
process_events-streams checks a es =
    let (text, thinking, same, counted, within, running) = finished-Step checks a es in
    (text, thinking)

-- With a budget, whatever the events are, a stream that begins empty writes at most four characters of
-- thinking to a token; and if it ends without being stopped, its text and its thinking together stay below
-- four characters to a token.
pub process_events-budget :
    (checks : Checks) (a : ResponseAccumulator) (es : List Event)
    → 0 < pos_part a.max_tokens_budget
    → a.text_buf ≡ []
    → a.thinking_buf ≡ []
    → a.output_rune_count ≡ 0
    → (length (finished checks a es).thinking_buf ≤ pos_part a.max_tokens_budget * 4)
      × ((finished checks a es).local_stop ≡ false
          → length (finished checks a es).text_buf + length (finished checks a es).thinking_buf
            < pos_part a.max_tokens_budget * 4)
process_events-budget checks a es budget no_text no_thinking no_count =
    let r : ResponseAccumulator × List EventDelta = process_events checks a es in
    let f : ResponseAccumulator × Text × Text = finalize_stream r.0 in
    let (text, thinking, same, counted, within, running) = finished-Step checks a es in
    let text' : length f.0.text_buf ≡ length (texts r.1 ++ f.1) =
      ap length (text ∙ ap (λ t. t ++ (texts r.1 ++ f.1)) no_text) in
    let thinking' : length f.0.thinking_buf ≡ length (thoughts r.1 ++ f.2) =
      ap length (thinking ∙ ap (λ t. t ++ (thoughts r.1 ++ f.2)) no_thinking) in
    (
      omega (arith, thinking', within (omega arith)),
      λ h.
          let (started, total, below) = running h in
          omega (arith, text', thinking', total, below (omega arith) (omega arith)),
    )

-- What an event leaves alone, and that it sends no text and no thinking.
abbrev pub Frozen : ResponseAccumulator → ResponseAccumulator → Text → Text → Type 0
Frozen a b text thinking =
    (b.text_buf ≡ a.text_buf)
    × (b.thinking_buf ≡ a.thinking_buf)
    × (b.tool_calls ≡ a.tool_calls)
    × (b.output_rune_count ≡ a.output_rune_count)
    × (b.local_stop ≡ true)
    × (b.stop_reason ≡ a.stop_reason)
    × (b.stop_sequence ≡ a.stop_sequence)
    × (text ≡ [])
    × (thinking ≡ [])

abbrev Freezes : ResponseAccumulator → ResponseAccumulator × EventDelta → Type 0
Freezes a r = Frozen a r.0 r.1.text_delta r.1.thinking_delta

frozen : (a : ResponseAccumulator) → a.local_stop ≡ true → Frozen a a [] []
frozen a h = (refl, refl, refl, refl, h, refl, refl, refl, refl)

stopped_first :
    (a : ResponseAccumulator) (c : Bool) (r s : ResponseAccumulator × EventDelta)
    → c ≡ true
    → Freezes a r
    → Freezes a (if c then r else s)
stopped_first a true r s e h = h
stopped_first a false r s e h = ground (arith, e)

assistant_delta-Frozen :
    (a : ResponseAccumulator) (t : Text) → a.local_stop ≡ true → Freezes a (assistant_delta a t)
assistant_delta-Frozen a [] h = frozen a h
assistant_delta-Frozen a (c ∷ t) h =
    stopped_first a a.local_stop (a, no_delta) (deliver (parse_thinking_tags a (c ∷ t))) h
      (frozen a h)

both_freeze :
    (a : ResponseAccumulator) (c : Bool) (r s : ResponseAccumulator × EventDelta)
    → Freezes a r
    → Freezes a s
    → Freezes a (if c then r else s)
both_freeze a true r s h k = h
both_freeze a false r s h k = k

reasoning_delta-Frozen :
    (a b : ResponseAccumulator) (t : Text) (d : EventDelta)
    → Freezes a (b, d)
    → Freezes a (reasoning_delta b t d)
reasoning_delta-Frozen a b [] d h = h
reasoning_delta-Frozen a b (c ∷ t) d h =
    if_cases {A = ResponseAccumulator × EventDelta} (Freezes a) b.local_stop {x = (b, d)}
      {y = accumulate_thinking b (c ∷ t) d} (λ e. h) (λ e. ground (arith, e, h.4))

process_reasoning-Frozen :
    (a : ResponseAccumulator) (t : Text) (s red : String)
    → a.local_stop ≡ true
    → Freezes a (process_reasoning a t s red)
unfolding process_reasoning
process_reasoning-Frozen a t s red h =
    let r : ResponseAccumulator × EventDelta = see_signature a s in
    let b : ResponseAccumulator = record r.0 { last_thinking = t } in
    let last : ResponseAccumulator × EventDelta =
      reasoning_delta b (compute_delta t r.0.last_thinking) r.1 in
    let seen : Freezes a r =
      both_freeze a (str_eq s "" || str_eq s a.signature) (a, no_delta)
        (record a { signature = s }, record no_delta { signature_delta = s }) (frozen a h)
        (frozen a h) in
    both_freeze a (not (str_eq red "")) (r.0, record r.1 { redacted_content = red })
      (if r.0.suppress_reasoning_content then r else last) seen
      (both_freeze a r.0.suppress_reasoning_content r last seen
        (reasoning_delta-Frozen a b (compute_delta t r.0.last_thinking) r.1 seen))

process_tool_use-Frozen :
    (checks : Checks) (a : ResponseAccumulator) (stop : Bool) (id tool_name : String) (input : Text)
    → a.local_stop ≡ true
    → Freezes a (process_tool_use checks a stop id tool_name input)
unfolding process_tool_use
process_tool_use-Frozen checks a stop id tool_name input h =
    let guarded : not stop || a.local_stop ≡ true = ground (arith, h) in
    stopped_first a (not stop || a.local_stop) (a, no_delta) _ guarded (frozen a h)

process_event-Frozen :
    (checks : Checks) (a : ResponseAccumulator) (e : Event)
    → a.local_stop ≡ true
    → Freezes a (process_event checks a e)
unfolding process_event
process_event-Frozen checks a (assistant_response content) h =
    assistant_delta-Frozen (record a { last_content = content })
      (compute_delta content a.last_content) h
process_event-Frozen checks a (reasoning_content text signature redacted) h =
    process_reasoning-Frozen a text signature redacted h
process_event-Frozen checks a (tool_use stop id name input) h =
    process_tool_use-Frozen checks a stop id name input h
process_event-Frozen checks a (metadata i o r w) h = frozen a h
process_event-Frozen checks a (metering i o) h =
    both_freeze a a.has_metadata (a, no_delta)
      (record a { input_tokens = i; output_tokens = o }, no_delta) (frozen a h) (frozen a h)
process_event-Frozen checks a (message_metadata id) h = frozen a h
process_event-Frozen checks a context_usage h = frozen a h
process_event-Frozen checks a (invalid_state message reason) h = frozen a h
process_event-Frozen checks a (exception message reason) h = frozen a h
process_event-Frozen checks a other_type h = frozen a h

-- Once the response is stopped, whatever events still come, nothing is written, counted or sent any more
-- as text or thinking, no tool call is recorded, and the reason for the stop stays.
pub process_events-stopped :
    (checks : Checks) (a : ResponseAccumulator) (es : List Event)
    → a.local_stop ≡ true
    → Frozen a
        (process_events checks a es).0
        (texts (process_events checks a es).1)
        (thoughts (process_events checks a es).1)
unfolding process_events texts thoughts
process_events-stopped checks a [] h = frozen a h
process_events-stopped checks a (e ∷ es) h =
    let r : ResponseAccumulator × EventDelta = process_event checks a e in
    let (text, thinking, tools, count, stopped, reason, seq, none_sent, none_thought) =
      process_event-Frozen checks a e h in
    let (text', thinking', tools', count', stopped', reason', seq', none_sent', none_thought') =
      process_events-stopped checks r.0 es stopped in
    (
      text' ∙ text,
      thinking' ∙ thinking,
      tools' ∙ tools,
      count' ∙ count,
      stopped',
      reason' ∙ reason,
      seq' ∙ seq,
      ap₂ (λ t u. t ++ u) none_sent none_sent',
      ap₂ (λ t u. t ++ u) none_thought none_thought',
    )
