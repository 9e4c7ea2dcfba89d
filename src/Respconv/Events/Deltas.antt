-- ===== src/Respconv/Events/Deltas.antt =====
-- The deltas of a stream and the buffers, for internal/respconv/event_processor.go and accumulator.go.
use kirocc_prox.Base.{
  append_nil, ℕ, ◌+◌, ◌*◌, ◌<◌, ◌≡◌, refl, sym, subst, Bool, true, false, not, ◌&&◌, ◌||◌, arith,
  [], ◌∷◌, ◌++◌, Option, none, some, String, if◌then◌else◌, if_both, leb, ℤ, pos, pos_part, length,
  ltb_ℤ, ◌/◌, str_eq, lookup, Bool-cases, inl, inr,
}
use kirocc_prox.Respconv.Text.{Text}
use kirocc_prox.Respconv.Accumulator.{ResponseAccumulator}
use kirocc_prox.Respconv.ChunkDelta.{compute_delta}
use kirocc_prox.Respconv.ThinkingTags.{parse_thinking_tags}
use kirocc_prox.Kiroproto.Event.{
  Event, assistant_response, reasoning_content, tool_use, metadata, metering, message_metadata,
  context_usage, invalid_state, exception, other_type,
}
use kirocc_prox.Respconv.Events.{
  EventDelta, no_delta, Verdict, accepted, refused, Checks, think, emit_text, deliver,
  assistant_delta, reasoning_delta, see_signature, process_reasoning, original_name, think_thought,
  tool_delta, validated, count_tool, record_tool, judge, process_tool_use, process_event,
  accumulate_thinking,
}
use kirocc_prox.Respconv.Events.Unchanged.{
  Step, Step-refl, Step-trans, Same, Same-Step, parse_thinking_tags-Same,
}
use kirocc_prox.Respconv.Events.Parts.{
  Gives, Thinks, IsSilent, emit_text-Step, think-Thinks, accumulate_thinking-Thinks,
}

module _ (a : ResponseAccumulator) where
  silent_Gives :
      (b : ResponseAccumulator) (d : EventDelta) → IsSilent d → Step a b [] [] → Gives a (b, d)
  silent_Gives b d (no_text, no_thinking) step = rw (no_text, no_thinking) step

  Thinks-Gives : (r : ResponseAccumulator × EventDelta) → Thinks a r → Gives a r
  Thinks-Gives r (no_text, step) = subst (λ t. Step a r.0 t r.1.thinking_delta) (sym no_text) step

  pub think_then_text :
      (r : ResponseAccumulator × EventDelta) (t : Text)
      → Thinks a r
      → Step a (emit_text r.0 t).0 (emit_text r.0 t).1 r.1.thinking_delta
  think_then_text r t (no_text, step) =
      subst (λ k. Step a (emit_text r.0 t).0 (emit_text r.0 t).1 k) (append_nil r.1.thinking_delta)
        (Step-trans a r.0 (emit_text r.0 t).0 [] r.1.thinking_delta (emit_text r.0 t).1 [] step
          (emit_text-Step r.0 t))

deliver-Gives : (a : ResponseAccumulator) (t k : Text) → Gives a (deliver (a, t, k))
unfolding deliver
deliver-Gives a t k =
    let r : ResponseAccumulator × EventDelta = think a k no_delta in
    let s : ResponseAccumulator × Text = emit_text r.0 t in
    let d : EventDelta = record r.1 { text_delta = s.1 } in
    let h : Step a s.0 s.1 r.1.thinking_delta =
      think_then_text a r t (think-Thinks a k no_delta (refl, refl)) in
    if_both {A = EventDelta} (λ e. Gives a (s.0, e)) s.0.local_stop
      {x = record d {
        stop_signal = true;
        stop_reason = s.0.stop_reason;
        stop_sequence = s.0.stop_sequence;
      }}
      {y = d} h h

from_Same :
    (a b : ResponseAccumulator) (r : ResponseAccumulator × EventDelta)
    → Same a b
    → Gives b r
    → Gives a r
from_Same a b r same step =
    Step-trans a b r.0 [] [] r.1.text_delta r.1.thinking_delta (Same-Step a b same) step

assistant_delta-Gives : (a : ResponseAccumulator) (t : Text) → Gives a (assistant_delta a t)
assistant_delta-Gives a [] = Step-refl a
assistant_delta-Gives a (c ∷ t) =
    let p : ResponseAccumulator × Text × Text = parse_thinking_tags a (c ∷ t) in
    if_both {A = ResponseAccumulator × EventDelta} (λ r. Gives a r) a.local_stop {x = (a, no_delta)}
      {y = deliver p} (Step-refl a)
      (from_Same a p.0 (deliver p) (parse_thinking_tags-Same a (c ∷ t)) (deliver-Gives p.0 p.1 p.2))

reasoning_delta-Gives :
    (a : ResponseAccumulator) (t : Text) (d : EventDelta)
    → IsSilent d
    → Gives a (reasoning_delta a t d)
reasoning_delta-Gives a [] d silent = silent_Gives a a d silent (Step-refl a)
reasoning_delta-Gives a (c ∷ t) d silent =
    if_both {A = ResponseAccumulator × EventDelta} (λ r. Gives a r) a.local_stop {x = (a, d)}
      {y = accumulate_thinking a (c ∷ t) d} (silent_Gives a a d silent (Step-refl a))
      (Thinks-Gives a (accumulate_thinking a (c ∷ t) d)
        (accumulate_thinking-Thinks a (c ∷ t) d silent))

abbrev pub Quiet : ResponseAccumulator → ResponseAccumulator × EventDelta → Type 0
Quiet a r = Same a r.0 × IsSilent r.1

pub see_signature-Quiet : (a : ResponseAccumulator) (s : String) → Quiet a (see_signature a s)
see_signature-Quiet a s = elim (Bool-cases (str_eq s "" || str_eq s a.signature)) [
  | inl e ↦ rw e ((refl, refl, refl, refl, λ h. h), (refl, refl))
  | inr e ↦ rw e ((refl, refl, refl, refl, λ h. h), (refl, refl))
]

Quiet-Gives :
    (a : ResponseAccumulator) (r : ResponseAccumulator × EventDelta) → Quiet a r → Gives a r
Quiet-Gives a r (same, silent) = silent_Gives a r.0 r.1 silent (Same-Step a r.0 same)

process_reasoning-Gives :
    (a : ResponseAccumulator) (t : Text) (s red : String) → Gives a (process_reasoning a t s red)
unfolding process_reasoning
process_reasoning-Gives a t s red =
    let r : ResponseAccumulator × EventDelta = see_signature a s in
    let quiet : Quiet a r = see_signature-Quiet a s in
    let b : ResponseAccumulator = record r.0 { last_thinking = t } in
    let last : ResponseAccumulator × EventDelta =
      reasoning_delta b (compute_delta t r.0.last_thinking) r.1 in
    if_both {A = ResponseAccumulator × EventDelta} (λ q. Gives a q) (not (str_eq red ""))
      {x = (r.0, record r.1 { redacted_content = red })}
      {y = if r.0.suppress_reasoning_content then r else last} (Quiet-Gives a r quiet)
      (if_both {A = ResponseAccumulator × EventDelta} (λ q. Gives a q)
        r.0.suppress_reasoning_content {x = r} {y = last} (Quiet-Gives a r quiet)
        (from_Same a b last quiet.0
          (reasoning_delta-Gives b (compute_delta t r.0.last_thinking) r.1 quiet.1)))

below_limit :
    (b : ℤ) (n : ℕ)
    → ltb_ℤ (pos 0) b && leb (pos_part b) (n / 4) ≡ false
    → 0 < pos_part b * 4
    → n < pos_part b * 4
below_limit b n e l = ground (arith, e, l)

count_tool-Step : (a : ResponseAccumulator) (n : ℕ) → Step a (count_tool a n) [] []
count_tool-Step a n =
    let total : ℕ = a.output_rune_count + n in
    let text : a.text_buf ≡ a.text_buf ++ [] = sym (append_nil a.text_buf) in
    let thinking : a.thinking_buf ≡ a.thinking_buf ++ [] = sym (append_nil a.thinking_buf) in
    elim (Bool-cases
      (ltb_ℤ (pos 0) a.max_tokens_budget && leb (pos_part a.max_tokens_budget) (total / 4))) [
        | inl e ↦ rw e (text, thinking, refl, omega arith, λ l. omega arith, λ h. ground (arith, h))
        | inr e ↦ rw e (
          text,
          thinking,
          refl,
          omega arith,
          λ l. omega arith,
          λ h. (h, omega arith, λ l m. below_limit a.max_tokens_budget total e l),
        )
      ]

module _ (checks : Checks) where
  record_tool-Gives :
      (a : ResponseAccumulator) (id name : String) (input : Text)
      → Gives a (record_tool checks a id name input)
  record_tool-Gives a id name input =
      let a' : ResponseAccumulator = record a {
        has_tool_use = true;
        tool_parse_error = a.tool_parse_error || not (checks.is_valid input);
      } in
      let b : ResponseAccumulator = count_tool a' (length input) in
      let d : EventDelta = tool_delta id name input in
      let h : Step a b [] [] = count_tool-Step a' (length input) in
      if_both {A = EventDelta} (λ e. Step a b e.text_delta e.thinking_delta) b.local_stop
        {x = record d { stop_signal = true; stop_reason = b.stop_reason }} {y = d} h h

  judge-Gives :
      (a : ResponseAccumulator) (id name : String) (input : Text) (v : Verdict)
      → Gives a (judge checks a id name input v)
  judge-Gives a id name input (accepted normalized) = record_tool-Gives a id name normalized
  judge-Gives a id name input (refused reason) = Step-refl a

  think_thought-Gives : (a : ResponseAccumulator) (o : Option Text) → Gives a (think_thought a o)
  think_thought-Gives a none = Step-refl a
  think_thought-Gives a (some t) =
      Thinks-Gives a (think a t no_delta) (think-Thinks a t no_delta (refl, refl))

  process_tool_use-Gives :
      (a : ResponseAccumulator) (stop : Bool) (id tool_name : String) (input : Text)
      → Gives a (process_tool_use checks a stop id tool_name input)
  unfolding process_tool_use
  process_tool_use-Gives a stop id tool_name input =
      let name : String = original_name tool_name (lookup tool_name a.tool_name_map) in
      let judged : ResponseAccumulator × EventDelta =
        judge checks a id name input (validated checks.validator name input) in
      let dropped : Bool = not (str_eq a.drop_tool_name "") && str_eq tool_name a.drop_tool_name in
      if_both {A = ResponseAccumulator × EventDelta} (λ r. Gives a r) (not stop || a.local_stop)
        {x = (a, no_delta)}
        {y = if str_eq name "thinking"
          then think_thought a (checks.thought_of input)
          else if dropped
          then (a, tool_delta id name input)
          else judged}
        (Step-refl a)
        (if_both {A = ResponseAccumulator × EventDelta} (λ r. Gives a r) (str_eq name "thinking")
          {x = think_thought a (checks.thought_of input)}
          {y = if dropped then (a, tool_delta id name input) else judged}
          (think_thought-Gives a (checks.thought_of input))
          (if_both {A = ResponseAccumulator × EventDelta} (λ r. Gives a r) dropped
            {x = (a, tool_delta id name input)} {y = judged} (Step-refl a)
            (judge-Gives a id name input (validated checks.validator name input))))

  pub process_event-Gives :
      (a : ResponseAccumulator) (e : Event) → Gives a (process_event checks a e)
  unfolding process_event
  process_event-Gives a (assistant_response content) =
      assistant_delta-Gives (record a { last_content = content })
        (compute_delta content a.last_content)
  process_event-Gives a (reasoning_content text signature redacted) =
      process_reasoning-Gives a text signature redacted
  process_event-Gives a (tool_use stop id name input) = process_tool_use-Gives a stop id name input
  process_event-Gives a (metadata i o r w) = Step-refl a
  process_event-Gives a (metering i o) =
      if_both {A = ResponseAccumulator × EventDelta} (λ r. Gives a r) a.has_metadata
        {x = (a, no_delta)} {y = (record a { input_tokens = i; output_tokens = o }, no_delta)}
        (Step-refl a) (Step-refl a)
  process_event-Gives a (message_metadata id) = Step-refl a
  process_event-Gives a context_usage = Step-refl a
  process_event-Gives a (invalid_state message reason) = Step-refl a
  process_event-Gives a (exception message reason) = Step-refl a
  process_event-Gives a other_type = Step-refl a
