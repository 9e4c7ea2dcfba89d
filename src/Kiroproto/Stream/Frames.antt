-- ===== src/Kiroproto/Stream/Frames.antt =====
-- Streams of whole frames, for `ParseStream` of internal/kiroproto/eventstream.go.
use kirocc_prox.Base.{
  ℕ, zero, suc, ◌+◌, ◌≤◌, ◌<◌, ◌≡◌, refl, ap, ◌∙◌, Bool, arith, List, [], ◌∷◌, ◌++◌, if◌then◌else◌,
  length, All,
}
use kirocc_prox.Kiroproto.Event.{Event}
use kirocc_prox.Kiroproto.Frame.{Bytes, max_frame_size, end_of_stream, read_frame}
use kirocc_prox.Kiroproto.Frame.Encoding.{encode_frame, read_frame-encode_frame}
use kirocc_prox.Kiroproto.Headers.{extract_frame_headers}
use kirocc_prox.Kiroproto.ToolUse.{ToolUseAccumulator, flush}
use kirocc_prox.Kiroproto.Stream.{
  Outside, Outcome, returned, cancelled, deliver, Next, go_on, return, handle, proceed, take_frame,
  parse_stream,
}

-- A frame of at most the greatest length.
abbrev pub FitsFrame : Bytes × Bytes → Type 0
FitsFrame (headers, payload) = 16 + length headers + length payload ≤ max_frame_size

unfoldable pub encode_frames : (Bytes → ℕ) → List (Bytes × Bytes) → Bytes
encode_frames crc [] = []
encode_frames crc ((headers, payload) ∷ fs) =
    encode_frame crc headers payload ++ encode_frames crc fs

module _ (o : Outside) (S : Type 0) (callback : S → Event → S × Bool) where
  abbrev follow : (ToolUseAccumulator → S → Outcome × S) → Next o S callback → Outcome × S
  follow later (go_on acc s) = later acc s
  follow later (return outcome s) = (outcome, s)

  -- What the frames of a stream come to, frame by frame and without their bytes.
  unfoldable pub deliver_frames : ℕ → List (Bytes × Bytes) → ToolUseAccumulator → S → Outcome × S
  deliver_frames n [] acc s =
      if o.done n then (cancelled, s) else (returned, (deliver o S callback s (flush acc).1).0)
  deliver_frames n ((headers, payload) ∷ fs) acc s =
      let later = deliver_frames (suc n) fs in
      if o.done n
      then (cancelled, s)
      else follow later (
          handle o S callback acc s (o.new_id n) (extract_frame_headers o.to_string headers)
            payload)

  read_nothing : (crc : Bytes → ℕ) → read_frame crc [] ≡ end_of_stream
  unfolding read_frame
  read_nothing crc = refl

  proceed-follow :
      (rounds : Bytes → ToolUseAccumulator → S → Outcome × S)
      (later : ToolUseAccumulator → S → Outcome × S) (rest : Bytes) (next : Next o S callback)
      → ((acc : ToolUseAccumulator) (s : S) → rounds rest acc s ≡ later acc s)
      → proceed o S callback rounds rest next ≡ follow later next
  proceed-follow rounds later rest (go_on acc s) same = same acc s
  proceed-follow rounds later rest (return outcome s) same = refl

  -- A stream of frames in the format, each of at most the greatest length, is parsed to what its frames
  -- come to one after the other: nothing is lost, repeated or read across the bounds of a frame. One round
  -- more than there are frames is enough fuel.
  pub parse_stream-encode_frames :
      ((bs : Bytes) → o.crc bs < 4294967296)
      → (fs : List (Bytes × Bytes)) (fuel n : ℕ) (acc : ToolUseAccumulator) (s : S)
      → All FitsFrame fs
      → length fs < fuel
      → parse_stream o S callback fuel n (encode_frames o.crc fs) acc s ≡ deliver_frames n fs acc s
  unfolding parse_stream deliver_frames encode_frames
  parse_stream-encode_frames bounded fs zero n acc s fit l = ground arith
  parse_stream-encode_frames bounded [] (suc fuel) n acc s fit l = rw (read_nothing o.crc) refl
  parse_stream-encode_frames bounded ((headers, payload) ∷ fs) (suc fuel) n acc s (fits, fit) l =
      let rounds : Bytes → ToolUseAccumulator → S → Outcome × S =
        parse_stream o S callback fuel (suc n) in
      let rest : Bytes = encode_frames o.crc fs in
      let next : Next o S callback =
        handle o S callback acc s (o.new_id n) (extract_frame_headers o.to_string headers)
          payload in
      ap (λ r. if o.done n then (cancelled, s) else r)
        (ap (take_frame o S callback rounds (o.new_id n) acc s)
            (read_frame-encode_frame o.crc bounded headers payload rest fits)
          ∙ proceed-follow rounds (deliver_frames (suc n) fs) rest next (λ acc' s'.
            parse_stream-encode_frames bounded fs fuel (suc n) acc' s' fit (omega arith)))
