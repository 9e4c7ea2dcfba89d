-- ===== src/Kiroproto/Frame.antt =====
-- internal/kiroproto/frame.go: one frame of the event stream. The reader is the list of the bytes still
-- to come; an error of the connection other than its end is not modelled. The checksum CRC-32 is a
-- parameter.
pub mod Encoding
use kirocc_prox.Base.{
  ℕ, ◌+◌, ◌-◌, ◌*◌, Bool, true, false, not, List, [], ◌∷◌, ◌++◌, if◌then◌else◌, ltb, ◌==◌, length,
  take, drop,
}

abbrev pub Bytes : Type 0
Bytes = List ℕ

-- `binary.BigEndian.Uint32` and `Uint16`, after the bytes already read.
unfoldable pub big_endian : ℕ → Bytes → ℕ
big_endian n [] = n
big_endian n (b ∷ bs) = big_endian (n * 256 + b) bs

abbrev pub max_frame_size : ℕ
max_frame_size = 4194304

pub data FrameError : Type 0 where
  truncated_prelude : (read : ℕ) → FrameError
  prelude_crc_mismatch : FrameError
  too_small : (total_length : ℕ) → FrameError
  too_large : (total_length : ℕ) → FrameError
  headers_exceed_body : (headers_length : ℕ) → FrameError
  reading_body : FrameError
  message_crc_mismatch : FrameError

-- The end of the stream is `io.EOF`. A frame is returned with the bytes after it.
pub data ReadResult : Type 0 where
  end_of_stream : ReadResult
  failed : FrameError → ReadResult
  frame : (headers payload rest : Bytes) → ReadResult

module _ (crc : Bytes → ℕ) where
  -- From the message checksum on, with `remaining` read.
  unfoldable pub read_body : Bytes → ℕ → Bytes → Bytes → ReadResult
  read_body prelude headers_len remaining rest =
      let cut = length remaining - 4 in
      if not (crc (prelude ++ take cut remaining) == big_endian 0 (drop cut remaining))
      then failed message_crc_mismatch
      else frame (take headers_len remaining) (drop headers_len (take cut remaining)) rest

  -- From the checks of the lengths on.
  unfoldable pub read_lengths : Bytes → Bytes → ℕ → ℕ → ReadResult
  read_lengths prelude rest total_len headers_len =
      if ltb total_len 16
      then failed (too_small total_len)
      else if ltb max_frame_size total_len
      then failed (too_large total_len)
      else if ltb (total_len - 12 - 4) headers_len
      then failed (headers_exceed_body headers_len)
      else if ltb (length rest) (total_len - 12)
      then failed reading_body
      else read_body prelude headers_len (take (total_len - 12) rest) (drop (total_len - 12) rest)

  unfoldable pub read_prelude : Bytes → Bytes → ReadResult
  read_prelude prelude rest =
      if not (crc (take 8 prelude) == big_endian 0 (drop 8 prelude))
      then failed prelude_crc_mismatch
      else read_lengths prelude rest (big_endian 0 (take 4 prelude))
          (big_endian 0 (take 4 (drop 4 prelude)))

  unfoldable pub read_frame : Bytes → ReadResult
  read_frame stream =
      if length stream == 0
      then end_of_stream
      else if ltb (length stream) 12
      then failed (truncated_prelude (length stream))
      else read_prelude (take 12 stream) (drop 12 stream)
