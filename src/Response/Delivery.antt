-- ===== src/Response/Delivery.antt =====
-- What reaches the client of a streaming response.
use kirocc_prox.Base.{
  ◌≡◌, refl, ◌∙◌, Bool, true, false, not, ◌||◌, ◌&&◌, arith, List, [], ◌∷◌, none, some, ◌⊎◌, inl,
  inr, if_cases, if_both, if◌then◌else◌, Bool-cases,
}
use kirocc_prox.Kiroproto.Event.{
  Event, assistant_response, reasoning_content, tool_use, metadata, metering, message_metadata,
  context_usage, invalid_state, exception, other_type,
}
use kirocc_prox.Respconv.Accumulator.{ResponseAccumulator, is_empty_visible_end_turn}
use kirocc_prox.Respconv.Events.{Checks, process_event}
use kirocc_prox.Respconv.Writer.{Sse, SseWriter, new_sse_writer, handle_event, finish, write_error}
use kirocc_prox.Respconv.Writer.Protocol.{waiting, over, read_all, IsGood, IsFresh, IsLive}
use kirocc_prox.Respconv.Writer.Messages.{
  IsOver, IsHandled, handle_delta-IsHandled, finish-IsOver, write_error-IsOver,
}
use kirocc_prox.Response.{
  Attempt, new_attempt, Response, is_promoted, passed_on, note_error, handle_upstream_error,
  write_streaming_or_json_error, conclude, has_calls, respond, after_event, on_event, take_events,
  handle_streaming_response, answer_stream, ask_retry,
}

-- Nothing of the stream, where no message was begun or nothing visible was put out; or else all that was
-- written, with no JSON error and no retry, which is one whole message unless a write failed.
abbrev pub IsDelivered : Response → Type 0
IsDelivered r =
    ((r.body ≡ []) × ((r.writer.started ≡ false) ⊎ (r.writer.visible_fired ≡ false)))
    ⊎ ((r.body ≡ r.writer.sent)
        × (r.json_error ≡ none)
        × (r.reason ≡ "")
        × ((r.lost ≡ true) ⊎ (read_all (some waiting) r.body ≡ some over)))

-- The stream ended by itself, or the callback stopped it.
abbrev IsTaken : Attempt × Bool → Type 0
IsTaken (a, err) =
    (IsGood a.writer × (a.stream_err ≡ false) × (a.local_stop ≡ false))
    ⊎ ((err ≡ false)
        × (a.stream_err || a.local_stop ≡ true)
        × ((a.lost ≡ true) ⊎ (IsOver a.writer ⊎ IsFresh a.writer)))

abbrev IsNoted : Attempt × Bool → Type 0
IsNoted (a, true) =
    (a.stream_err || a.local_stop ≡ true) × ((a.lost ≡ true) ⊎ (IsOver a.writer ⊎ IsFresh a.writer))
IsNoted (a, false) = IsGood a.writer × (a.stream_err ≡ false) × (a.local_stop ≡ false)

note_error-flags :
    (a : Attempt) (e : Event)
    → ((note_error a e).stream_err ≡ a.stream_err) × ((note_error a e).local_stop ≡ a.local_stop)
note_error-flags a (invalid_state message reason) = (refl, refl)
note_error-flags a (exception message reason) = (refl, refl)
note_error-flags a (assistant_response content) = (refl, refl)
note_error-flags a (reasoning_content t signature redacted) = (refl, refl)
note_error-flags a (tool_use stop id name input) = (refl, refl)
note_error-flags a (metadata i o r w) = (refl, refl)
note_error-flags a (metering i o) = (refl, refl)
note_error-flags a (message_metadata id) = (refl, refl)
note_error-flags a context_usage = (refl, refl)
note_error-flags a other_type = (refl, refl)

running :
    (a : Attempt)
    → a.stream_err ≡ false
    → a.local_stop ≡ false
    → a.stream_err || a.local_stop ≡ false
running a no_err no_stop = ground (arith, no_err, no_stop)

module _ (checks : Checks) (write_failed : SseWriter → Bool) where
  after_event-IsNoted :
      (a : Attempt) (sw : SseWriter) (stop : Bool)
      → a.stream_err ≡ false
      → a.local_stop ≡ false
      → IsHandled (sw, stop)
      → IsNoted (after_event checks write_failed (record a { writer = sw }) stop)
  after_event-IsNoted a sw stop no_err no_stop handled =
      let b : Attempt = record a { writer = sw } in
      if_cases {A = Attempt × Bool} IsNoted (write_failed sw)
        {x = (record b { stream_err = true; lost = true }, true)}
        {y = if stop
          then (if sw.acc.local_stop
              then (record b { local_stop = true }, true)
              else (record b { stream_err = true }, true))
          else (b, false)}
        (λ _. (refl, inl refl)) (λ _. stopped stop handled)
    where
      stopped :
          (stop : Bool)
          → IsHandled (sw, stop)
          → IsNoted (
              if stop
              then (if sw.acc.local_stop
                  then (record a { writer = sw; local_stop = true }, true)
                  else (record a { writer = sw; stream_err = true }, true))
              else (record a { writer = sw }, false))
      stopped false good = (good, no_err, no_stop)
      stopped true done =
          if_both {A = Attempt × Bool} IsNoted sw.acc.local_stop
            {x = (record a { writer = sw; local_stop = true }, true)}
            {y = (record a { writer = sw; stream_err = true }, true)} (rw no_err (refl, inr done))
            (refl, inr done)

  handle_event-IsHandled :
      (sw : SseWriter) (e : Event) → IsGood sw → IsHandled (handle_event checks sw e)
  unfolding handle_event
  handle_event-IsHandled sw e good =
      let p : ResponseAccumulator × _ = process_event checks sw.acc e in
      handle_delta-IsHandled (record sw { acc = p.0 }) e p.1 good

  on_event-IsNoted :
      (a : Attempt) (e : Event)
      → IsGood a.writer
      → a.stream_err ≡ false
      → a.local_stop ≡ false
      → IsNoted (on_event checks write_failed a e)
  unfolding on_event
  on_event-IsNoted a e good no_err no_stop =
      let r : SseWriter × Bool = handle_event checks a.writer e in
      let (err_kept, stop_kept) = note_error-flags a e in
      rw (running a no_err no_stop) (
        if_cases {A = Attempt × Bool} IsNoted (write_failed a.writer)
          {x = (record a { stream_err = true; lost = true }, true)}
          {y = after_event checks write_failed (record (note_error a e) { writer = r.0 }) r.1}
          (λ _. (refl, inl refl))
          (λ _.
            after_event-IsNoted (note_error a e) r.0 r.1 (err_kept ∙ no_err) (stop_kept ∙ no_stop)
              (handle_event-IsHandled a.writer e good)))

  take_events-IsTaken :
      (a : Attempt) (es : List Event) (failed : Bool)
      → IsGood a.writer
      → a.stream_err ≡ false
      → a.local_stop ≡ false
      → IsTaken (take_events checks write_failed a es failed)
  unfolding take_events
  take_events-IsTaken a [] failed good no_err no_stop = inl (good, no_err, no_stop)
  take_events-IsTaken a (e ∷ es) failed good no_err no_stop =
      go (on_event checks write_failed a e) (on_event-IsNoted a e good no_err no_stop)
        (λ good' no_err' no_stop'.
          take_events-IsTaken (on_event checks write_failed a e).0 es failed good' no_err' no_stop')
    where
      go :
          (r : Attempt × Bool)
          → IsNoted r
          → (IsGood r.0.writer
              → r.0.stream_err ≡ false
              → r.0.local_stop ≡ false
              → IsTaken (take_events checks write_failed r.0 es failed))
          → IsTaken (if r.1 then (r.0, false) else take_events checks write_failed r.0 es failed)
      go (b, true) (flags, done) later = inr (refl, flags, done)
      go (b, false) (good', no_err', no_stop') later = later good' no_err' no_stop'

passed_on-IsDelivered :
    (a : Attempt) (sw : SseWriter)
    → (a.lost ≡ true) ⊎ (IsOver sw ⊎ IsFresh sw)
    → IsDelivered (answer_stream a sw)
unfolding passed_on
passed_on-IsDelivered a sw done = elim (Bool-cases sw.visible_fired) [
  | inr e ↦ rw e (inl (refl, inr refl))
  | inl e ↦ rw e (elim done [
    | inl lost ↦ inr (refl, refl, refl, inl lost)
    | inr (inl whole) ↦ inr (refl, refl, refl, inr whole)
    | inr (inr fresh) ↦ inl (fresh.1, inl fresh.0)
  ])
]

handle_upstream_error-IsDelivered :
    (a : Attempt)
    → (a.writer.started ≡ false) ⊎ (a.writer.visible_fired ≡ false)
    → IsDelivered (handle_upstream_error a)
unfolding handle_upstream_error
handle_upstream_error-IsDelivered a held = ground (arith, held)

held_back_all :
    (sw : SseWriter)
    → IsGood sw
    → sw.started && is_promoted sw ≡ false
    → (passed_on sw ≡ []) × ((sw.started ≡ false) ⊎ (sw.visible_fired ≡ false))
unfolding passed_on
held_back_all sw (inl (fresh, empty, _, _)) h =
    (if_both {A = List Sse} (λ b. b ≡ []) sw.visible_fired empty refl, inl fresh)
held_back_all sw (inr (started, _)) h =
    let hidden : sw.visible_fired ≡ false = ground (arith, started, h) in
    (
      if_cases {A = List Sse} (λ b. b ≡ []) sw.visible_fired (λ e. ground (arith, e, hidden))
          (λ _. refl),
      inr hidden,
    )

IsGood-started : (sw : SseWriter) → IsGood sw → sw.started ≡ true → IsLive sw
IsGood-started sw (inl fresh) e = ground (arith, fresh.0, e)
IsGood-started sw (inr live) e = live

was_started : (sw : SseWriter) → sw.started && is_promoted sw ≡ true → sw.started ≡ true
was_started sw h = ground (arith, h)

write_streaming_or_json_error-IsDelivered :
    (a : Attempt) → IsGood a.writer → IsDelivered (write_streaming_or_json_error a)
unfolding write_streaming_or_json_error
write_streaming_or_json_error-IsDelivered a good =
    elim (Bool-cases (a.writer.started && is_promoted a.writer)) [
      | inl h ↦
          let live = IsGood-started a.writer good (was_started a.writer h) in
          rw h (
            passed_on-IsDelivered a (write_error a.writer "stream_error" "upstream stream error")
              (inr (inl (write_error-IsOver a.writer "stream_error" "upstream stream error" live))))
      | inr h ↦ rw h (inl (held_back_all a.writer good h))
    ]

held_back :
    (sw : SseWriter) (b : Bool) → b && not (is_promoted sw) ≡ true → sw.visible_fired ≡ false
held_back sw b h = ground (arith, h)

conclude-IsDelivered : (a : Attempt) → IsGood a.writer → IsDelivered (conclude a (finish a.writer))
conclude-IsDelivered a good =
    let sw : SseWriter = finish a.writer in
    if_cases {A = Response} IsDelivered (is_empty_visible_end_turn sw.acc && not (is_promoted sw))
      {x = ask_retry (record a { writer = sw }) "empty_visible_end_turn" []}
      {y = answer_stream a sw}
      (λ h. inl (refl, inr (held_back sw (is_empty_visible_end_turn sw.acc) h)))
      (λ _. passed_on-IsDelivered a sw (inr (inl (finish-IsOver a.writer good))))

-- Neither an error to answer nor calls to try again.
settle-IsDelivered :
    (a : Attempt)
    → IsTaken (a, false)
    → IsDelivered (
        if a.stream_err || a.local_stop
        then answer_stream a a.writer
        else conclude a (finish a.writer))
settle-IsDelivered a (inl (good, no_err, no_stop)) =
    rw (no_err, no_stop) (conclude-IsDelivered a good)
settle-IsDelivered a (inr (_, stopped, done)) = rw stopped (passed_on-IsDelivered a a.writer done)

err-IsGood : (a : Attempt) → IsTaken (a, true) → IsGood a.writer
err-IsGood a (inl (good, _, _)) = good
err-IsGood a (inr (e, _, _)) = ground (arith, e)

answer-IsDelivered :
    (a : Attempt) (err : Bool)
    → IsTaken (a, err)
    → IsDelivered (
        if err
        then write_streaming_or_json_error a
        else if has_calls a.writer.acc.invalid_tool_calls && not (is_promoted a.writer)
        then ask_retry a "invalid_tool_use" a.writer.acc.invalid_tool_calls
        else if a.stream_err || a.local_stop
        then answer_stream a a.writer
        else conclude a (finish a.writer))
answer-IsDelivered a true taken = write_streaming_or_json_error-IsDelivered a (err-IsGood a taken)
answer-IsDelivered a false taken =
    let calls : Bool = has_calls a.writer.acc.invalid_tool_calls in
    if_cases {A = Response} IsDelivered (calls && not (is_promoted a.writer))
      {x = ask_retry a "invalid_tool_use" a.writer.acc.invalid_tool_calls}
      {y = if a.stream_err || a.local_stop
        then answer_stream a a.writer
        else conclude a (finish a.writer)}
      (λ h. inl (refl, inr (held_back a.writer calls h))) (λ _. settle-IsDelivered a taken)

not_started : (sw : SseWriter) (b : Bool) → b && not sw.started ≡ true → sw.started ≡ false
not_started sw b h = ground (arith, h)

respond-IsDelivered : (a : Attempt) (err : Bool) → IsTaken (a, err) → IsDelivered (respond a err)
unfolding respond
respond-IsDelivered a err taken = elim (Bool-cases (a.stream_err && not a.writer.started)) [
  | inl h ↦ rw h (handle_upstream_error-IsDelivered a (inl (not_started a.writer a.stream_err h)))
  | inr h ↦ rw h (elim (Bool-cases (a.stream_err && not (is_promoted a.writer))) [
    | inl k ↦ rw k (handle_upstream_error-IsDelivered a (inr (held_back a.writer a.stream_err k)))
    | inr k ↦ rw k (answer-IsDelivered a err taken)
  ])
]

-- Whatever the events are, however the stream ends and whatever writes fail, the client of a streaming
-- response gets one of two things. Either nothing of the stream, and then no message was begun or
-- nothing visible was put out, so that a JSON error or another attempt can follow. Or all that was
-- written, with no JSON error and no other attempt, and, unless a write failed, it is one whole message:
-- it ends with its stop or breaks off with an error, its blocks are numbered in order and never overlap,
-- each delta stands in the open block of its type, and nothing comes after the end.
pub handle_streaming_response-IsDelivered :
    (checks : Checks) (write_failed : SseWriter → Bool) (acc : ResponseAccumulator)
    (es : List Event) (failed : Bool)
    → IsDelivered (handle_streaming_response checks write_failed (new_sse_writer acc) es failed)
unfolding handle_streaming_response new_attempt new_sse_writer
handle_streaming_response-IsDelivered checks write_failed acc es failed =
    let a : Attempt = new_attempt (new_sse_writer acc) in
    let r : Attempt × Bool = take_events checks write_failed a es failed in
    respond-IsDelivered r.0 r.1
      (take_events-IsTaken checks write_failed a es failed (inl (refl, refl, refl, refl)) refl refl)
