-- ===== src/Kiroproto/Stream/Returns.antt =====
-- The end of any stream, for `ParseStream` of internal/kiroproto/eventstream.go.
use kirocc_prox.Base.{
  ℕ, zero, suc, ◌-◌, ◌≤◌, ◌<◌, ◌≢◌, Bool, true, false, not, arith, ◌++◌, String, str_eq, ltb, ◌==◌,
  length, take, drop, length-drop, if_both, Bool-cases, inl, inr,
}
use kirocc_prox.Kiroproto.Event.{Event}
use kirocc_prox.Kiroproto.Frame.{
  Bytes, big_endian, max_frame_size, ReadResult, end_of_stream, failed, frame, read_body,
  read_lengths, read_prelude, read_frame,
}
use kirocc_prox.Kiroproto.Headers.{extract_frame_headers}
use kirocc_prox.Kiroproto.ToolUse.{ToolUseAccumulator, update}
use kirocc_prox.Kiroproto.Stream.{
  Outside, Outcome, cancelled, out_of_fuel, deliver, Next, go_on, return, handle, act, action,
  Action, call, refuse, tool, skip, unless_stopped, proceed, take_frame, parse_stream,
}

-- A frame read leaves fewer bytes.
abbrev Shortens : ℕ → ReadResult → Type 0
Shortens n end_of_stream = 0 ≤ 0
Shortens n (failed e) = 0 ≤ 0
Shortens n (frame headers payload rest) = length rest < n

module _ (crc : Bytes → ℕ) where
  read_body-Shortens :
      (prelude : Bytes) (n : ℕ) (remaining rest : Bytes) (m : ℕ)
      → length rest < m
      → Shortens m (read_body crc prelude n remaining rest)
  unfolding read_body
  read_body-Shortens prelude n remaining rest m l =
      let cut : ℕ = length remaining - 4 in
      elim (Bool-cases
        (not (crc (prelude ++ take cut remaining) == big_endian 0 (drop cut remaining)))) [
          | inl e ↦ rw e (omega arith)
          | inr e ↦ rw e l
        ]

  read_lengths-Shortens :
      (prelude rest : Bytes) (total headers_len m : ℕ)
      → length rest < m
      → Shortens m (read_lengths crc prelude rest total headers_len)
  unfolding read_lengths
  read_lengths-Shortens prelude rest total headers_len m l = elim (Bool-cases (ltb total 16)) [
    | inl e ↦ rw e (omega arith)
    | inr e ↦ rw e (elim (Bool-cases (ltb max_frame_size total)) [
      | inl f ↦ rw f (omega arith)
      | inr f ↦ rw f (elim (Bool-cases (ltb (total - 12 - 4) headers_len)) [
        | inl g ↦ rw g (omega arith)
        | inr g ↦ rw g (elim (Bool-cases (ltb (length rest) (total - 12))) [
          | inl h ↦ rw h (omega arith)
          | inr h ↦ rw h (
              read_body-Shortens prelude headers_len (take (total - 12) rest)
                (drop (total - 12) rest) m (omega (arith, length-drop (total - 12) rest)))
        ])
      ])
    ])
  ]

  read_frame-Shortens : (stream : Bytes) → Shortens (length stream) (read_frame crc stream)
  unfolding read_frame read_prelude
  read_frame-Shortens stream = elim (Bool-cases (length stream == 0)) [
    | inl e ↦ rw e (omega arith)
    | inr e ↦ rw e (elim (Bool-cases (ltb (length stream) 12)) [
      | inl f ↦ rw f (omega arith)
      | inr f ↦
          let prelude : Bytes = take 12 stream in
          rw f (elim (Bool-cases (not (crc (take 8 prelude) == big_endian 0 (drop 8 prelude)))) [
            | inl g ↦ rw g (omega arith)
            | inr g ↦ rw g (
                read_lengths-Shortens prelude (drop 12 stream) (big_endian 0 (take 4 prelude))
                  (big_endian 0 (take 4 (drop 4 prelude))) (length stream)
                  (ground (arith, length-drop 12 stream, f)))
          ])
    ])
  ]

abbrev pub Returns : Outcome → Type 0
Returns outcome = outcome ≢ out_of_fuel

module _ (o : Outside) (S : Type 0) (callback : S → Event → S × Bool) where
  abbrev Settled : Next o S callback → Type 0
  Settled (go_on acc s) = 0 ≤ 0
  Settled (return outcome s) = Returns outcome

  unless_stopped-Settled :
      (acc : ToolUseAccumulator) (r : S × Bool) → Settled (unless_stopped o S callback acc r)
  unless_stopped-Settled acc (s, true) = λ e. ground (arith, e)
  unless_stopped-Settled acc (s, false) = omega arith

  act-Settled :
      (acc : ToolUseAccumulator) (s : S) (fresh : String) (a : Action)
      → Settled (act o S callback acc s fresh a)
  act-Settled acc s fresh (call e) = unless_stopped-Settled acc (callback s e)
  act-Settled acc s fresh refuse = λ e. ground (arith, e)
  act-Settled acc s fresh skip = omega arith
  act-Settled acc s fresh (tool raw) =
      unless_stopped-Settled (update acc fresh raw).0
        (deliver o S callback s (update acc fresh raw).1)

  handle-Settled :
      (acc : ToolUseAccumulator) (s : S) (fresh : String) (types : String × String)
      (payload : Bytes)
      → Settled (handle o S callback acc s fresh types payload)
  unfolding handle
  handle-Settled acc s fresh (msg_type, event_type) payload =
      elim (Bool-cases (str_eq msg_type "exception")) [
        | inl e ↦ rw e (λ f. ground (arith, f))
        | inr e ↦ rw e (act-Settled acc s fresh (action o.decoders event_type payload))
      ]

  proceed-Returns :
      (rounds : Bytes → ToolUseAccumulator → S → Outcome × S) (rest : Bytes)
      (next : Next o S callback)
      → Settled next
      → ((acc : ToolUseAccumulator) (s : S) → Returns (rounds rest acc s).0)
      → Returns (proceed o S callback rounds rest next).0
  proceed-Returns rounds rest (go_on acc s) settled later = later acc s
  proceed-Returns rounds rest (return outcome s) settled later = settled

  take_frame-Returns :
      (rounds : Bytes → ToolUseAccumulator → S → Outcome × S) (fresh : String)
      (acc : ToolUseAccumulator) (s : S) (n : ℕ) (r : ReadResult)
      → Shortens n r
      → ((rest : Bytes) (acc : ToolUseAccumulator) (s : S)
          → length rest < n
          → Returns (rounds rest acc s).0)
      → Returns (take_frame o S callback rounds fresh acc s r).0
  take_frame-Returns rounds fresh acc s n end_of_stream shorter later = λ e. ground (arith, e)
  take_frame-Returns rounds fresh acc s n (failed e) shorter later = λ f. ground (arith, f)
  take_frame-Returns rounds fresh acc s n (frame headers payload rest) shorter later =
      proceed-Returns rounds rest
        (handle o S callback acc s fresh (extract_frame_headers o.to_string headers) payload)
        (handle-Settled acc s fresh (extract_frame_headers o.to_string headers) payload)
        (λ acc' s'. later rest acc' s' shorter)

  -- Whatever bytes come, the parser returns: one round more than there are bytes is enough fuel, since
  -- every frame that is read leaves fewer bytes.
  pub parse_stream-Returns :
      (fuel n : ℕ) (stream : Bytes) (acc : ToolUseAccumulator) (s : S)
      → length stream < fuel
      → Returns (parse_stream o S callback fuel n stream acc s).0
  unfolding parse_stream
  parse_stream-Returns zero n stream acc s l = ground arith
  parse_stream-Returns (suc fuel) n stream acc s l =
      let rounds : Bytes → ToolUseAccumulator → S → Outcome × S =
        parse_stream o S callback fuel (suc n) in
      if_both {A = Outcome × S} (λ r. Returns r.0) (o.done n) {x = (cancelled, s)}
        {y = take_frame o S callback rounds (o.new_id n) acc s (read_frame o.crc stream)}
        (λ e. ground (arith, e))
        (take_frame-Returns rounds (o.new_id n) acc s (length stream) (read_frame o.crc stream)
          (read_frame-Shortens o.crc stream)
          (λ rest acc' s' shorter. parse_stream-Returns fuel (suc n) rest acc' s' (omega arith)))
