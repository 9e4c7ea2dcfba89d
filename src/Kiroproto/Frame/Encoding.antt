-- ===== src/Kiroproto/Frame/Encoding.antt =====
-- Frames as the AWS event stream format has them, read back by internal/kiroproto/frame.go.
use kirocc_prox.Base.{
  ℕ, ◌+◌, ◌-◌, ◌/◌, ◌%◌, ◌≤◌, ◌<◌, ◌≡◌, refl, sym, ap, ◌∙◌, true, false, not, arith, [], ◌∷◌, ◌++◌,
  if◌then◌else◌, ltb, ◌==◌, length, take, append_assoc, take_exact, drop_exact, take_past,
  length-append, length-take, Bool-cases, inl, inr,
}
use kirocc_prox.Kiroproto.Frame.{
  Bytes, big_endian, max_frame_size, truncated_prelude, reading_body, frame, failed, read_body,
  read_lengths, read_prelude, read_frame,
}

abbrev pub bytes32 : ℕ → Bytes
bytes32 n = n / 256 / 256 / 256 % 256 ∷ n / 256 / 256 % 256 ∷ n / 256 % 256 ∷ n % 256 ∷ []

big_endian-bytes32 : (n : ℕ) → n < 4294967296 → big_endian 0 (bytes32 n) ≡ n
unfolding big_endian
big_endian-bytes32 n l = omega arith

module _ (crc : Bytes → ℕ) where
  abbrev pub prelude_of : Bytes → Bytes → Bytes
  prelude_of headers payload =
      let lengths = bytes32 (16 + length headers + length payload) ++ bytes32 (length headers) in
      lengths ++ bytes32 (crc lengths)

  -- The format: both lengths and their checksum, the headers, the payload, and the checksum of all.
  abbrev pub encode_frame : Bytes → Bytes → Bytes
  encode_frame headers payload =
      let prelude = prelude_of headers payload in
      prelude ++ ((headers ++ payload) ++ bytes32 (crc (prelude ++ (headers ++ payload))))

  module _ (bounded : (bs : Bytes) → crc bs < 4294967296) where
    equal : (n m : ℕ) → n ≡ m → not (n == m) ≡ false
    equal n m e = ground (arith, e)

    checked : (bs : Bytes) → not (crc bs == big_endian 0 (bytes32 (crc bs))) ≡ false
    checked bs = equal (crc bs) _ (sym (big_endian-bytes32 (crc bs) (bounded bs)))

    read_body-encode :
        (prelude headers payload rest : Bytes)
        → read_body crc prelude
            (length headers)
            ((headers ++ payload) ++ bytes32 (crc (prelude ++ (headers ++ payload))))
            rest
          ≡ frame headers payload rest
    unfolding read_body
    read_body-encode prelude headers payload rest =
        let body : Bytes = headers ++ payload in
        let sum : Bytes = bytes32 (crc (prelude ++ body)) in
        let cut : length (body ++ sum) - 4 ≡ length body = omega (arith, length-append body sum) in
        rw
          (
            cut,
            take_exact body sum,
            drop_exact body sum,
            checked (prelude ++ body),
            drop_exact headers payload,
            append_assoc headers payload sum,
            take_exact headers (payload ++ sum),
          )
          refl

    read_lengths-encode :
        (prelude headers payload rest : Bytes)
        → 16 + length headers + length payload ≤ max_frame_size
        → read_lengths crc prelude
            (((headers ++ payload) ++ bytes32 (crc (prelude ++ (headers ++ payload)))) ++ rest)
            (16 + length headers + length payload)
            (length headers)
          ≡ frame headers payload rest
    unfolding read_lengths
    read_lengths-encode prelude headers payload rest small =
        let body : Bytes = headers ++ payload in
        let sum : Bytes = bytes32 (crc (prelude ++ body)) in
        let total : ℕ = 16 + length headers + length payload in
        let size : total - 12 ≡ length (body ++ sum) =
          omega (arith, length-append body sum, length-append headers payload) in
        let not_small : ltb total 16 ≡ false = ground arith in
        let not_large : ltb max_frame_size total ≡ false = ground (arith, small) in
        let fits : ltb (total - 12 - 4) (length headers) ≡ false = ground arith in
        let whole : ltb (length ((body ++ sum) ++ rest)) (total - 12) ≡ false =
          ground (arith, length-append (body ++ sum) rest, size) in
        rw
          (
            not_small,
            not_large,
            fits,
            whole,
            size,
            take_exact (body ++ sum) rest,
            drop_exact (body ++ sum) rest,
          )
          (read_body-encode prelude headers payload rest)

    read_prelude-encode :
        (headers payload rest : Bytes)
        → 16 + length headers + length payload ≤ max_frame_size
        → read_prelude crc (prelude_of headers payload) (
            ((headers ++ payload)
              ++ bytes32 (crc (prelude_of headers payload ++ (headers ++ payload))))
            ++ rest)
          ≡ frame headers payload rest
    unfolding read_prelude
    read_prelude-encode headers payload rest small =
        let lengths : Bytes =
          bytes32 (16 + length headers + length payload) ++ bytes32 (length headers) in
        rw
          (
            checked lengths,
            big_endian-bytes32 (16 + length headers + length payload) (omega arith),
            big_endian-bytes32 (length headers) (omega arith),
          )
          (read_lengths-encode (prelude_of headers payload) headers payload rest small)

    read_frame_prelude :
        (prelude rest : Bytes)
        → length prelude ≡ 12
        → read_frame crc (prelude ++ rest) ≡ read_prelude crc prelude rest
    unfolding read_frame
    read_frame_prelude prelude rest size =
        let some_bytes : length (prelude ++ rest) == 0 ≡ false =
          ground (arith, length-append prelude rest) in
        let enough : ltb (length (prelude ++ rest)) 12 ≡ false =
          ground (arith, length-append prelude rest) in
        rw (some_bytes, enough, sym size, take_exact prelude rest, drop_exact prelude rest) refl

    -- A frame in the format, of at most the greatest length, is read back from the start of a stream, with
    -- the bytes after it.
    pub read_frame-encode_frame :
        (headers payload rest : Bytes)
        → 16 + length headers + length payload ≤ max_frame_size
        → read_frame crc (encode_frame headers payload ++ rest) ≡ frame headers payload rest
    read_frame-encode_frame headers payload rest small =
        read_frame_prelude (prelude_of headers payload) _ refl
        ∙ read_prelude-encode headers payload rest small

    read_short_body :
        (headers payload rest : Bytes)
        → 16 + length headers + length payload ≤ max_frame_size
        → length rest < 4 + length headers + length payload
        → read_prelude crc (prelude_of headers payload) rest ≡ failed reading_body
    unfolding read_prelude read_lengths
    read_short_body headers payload rest small short =
        let total : ℕ = 16 + length headers + length payload in
        let lengths : Bytes = bytes32 total ++ bytes32 (length headers) in
        let not_small : ltb total 16 ≡ false = ground arith in
        let not_large : ltb max_frame_size total ≡ false = ground (arith, small) in
        let fits : ltb (total - 12 - 4) (length headers) ≡ false = ground arith in
        let missing : ltb (length rest) (total - 12) ≡ true = ground (arith, short) in
        rw
          (
            checked lengths,
            big_endian-bytes32 total (omega arith),
            big_endian-bytes32 (length headers) (omega arith),
            not_small,
            not_large,
            fits,
            missing,
          )
          refl

    read_frame_cut :
        (stream : Bytes)
        → 0 < length stream
        → length stream < 12
        → read_frame crc stream ≡ failed (truncated_prelude (length stream))
    unfolding read_frame
    read_frame_cut stream some_read short =
        let some_bytes : length stream == 0 ≡ false = ground arith in
        let missing : ltb (length stream) 12 ≡ true = ground arith in rw (some_bytes, missing) refl

    pub encode_frame-length :
        (headers payload : Bytes)
        → length (encode_frame headers payload) ≡ 16 + length headers + length payload
    encode_frame-length headers payload =
        let body : Bytes = headers ++ payload in
        let prelude : Bytes = prelude_of headers payload in
        let sum : Bytes = bytes32 (crc (prelude ++ body)) in
        omega (
          arith,
          length-append prelude (body ++ sum),
          length-append body sum,
          length-append headers payload,
        )

    truncated :
        (headers payload : Bytes) (n : ℕ) (whole : Bytes)
        → whole ≡ encode_frame headers payload
        → 16 + length headers + length payload ≤ max_frame_size
        → 0 < n
        → n < 16 + length headers + length payload
        → read_frame crc (take n whole)
          ≡ (if ltb n 12 then failed (truncated_prelude n) else failed reading_body)
    truncated headers payload n whole e small some_read inside =
        let prelude : Bytes = prelude_of headers payload in
        let rest : Bytes =
          (headers ++ payload) ++ bytes32 (crc (prelude ++ (headers ++ payload))) in
        let size : length whole ≡ 16 + length headers + length payload =
          ap length e ∙ encode_frame-length headers payload in
        let got : length (take n whole) ≡ n = omega (arith, length-take n whole) in
        elim (Bool-cases (ltb n 12)) [
          | inl f ↦ rw f (
              read_frame_cut (take n whole) (omega arith) (ground (arith, f, got))
              ∙ ap (λ k. failed (truncated_prelude k)) got)
          | inr f ↦
              let past : take n whole ≡ prelude ++ take (n - 12) rest =
                ap (take n) e ∙ take_past n prelude rest (ground (arith, f)) in
              let short : length (take (n - 12) rest) < 4 + length headers + length payload =
                ground (arith, length-take (n - 12) rest, f, inside) in
              rw f (
                ap (read_frame crc) past
                ∙ read_frame_prelude prelude (take (n - 12) rest) refl
                ∙ read_short_body headers payload (take (n - 12) rest) small short)
        ]

    -- A stream that ends inside a frame is an error, and never taken for the end of the stream: inside the
    -- first twelve bytes it is a truncated prelude, with the number of bytes read, and later a missing body.
    pub read_frame_truncated :
        (headers payload : Bytes) (n : ℕ)
        → 16 + length headers + length payload ≤ max_frame_size
        → 0 < n
        → n < 16 + length headers + length payload
        → read_frame crc (take n (encode_frame headers payload))
          ≡ (if ltb n 12 then failed (truncated_prelude n) else failed reading_body)
    read_frame_truncated headers payload n small some_read inside =
        truncated headers payload n (encode_frame headers payload) refl small some_read inside
