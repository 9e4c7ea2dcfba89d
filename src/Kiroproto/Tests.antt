-- ===== src/Kiroproto/Tests.antt =====
-- Frames and tool calls on concrete streams, and the theorems there.
use kirocc_prox.Base.{ℕ, ◌+◌, ◌%◌, ◌<◌, ◌≡◌, refl, arith, List, [], ◌∷◌, ◌++◌, String, take, true}
use kirocc_prox.Kiroproto.Event.{tool_use}
use kirocc_prox.Kiroproto.Frame.{
  Bytes, big_endian, failed, reading_body, message_crc_mismatch, frame, read_frame, read_prelude,
  read_lengths, read_body,
}
use kirocc_prox.Kiroproto.Frame.Encoding.{
  encode_frame, read_frame-encode_frame, read_frame_truncated,
}
use kirocc_prox.Kiroproto.ToolUse.{
  decoded, absent, no_input, fragment, RawToolUse, empty_accumulator, updates,
}
use kirocc_prox.Kiroproto.ToolUse.Calls.{emitted, opened, named, updates-emitted}
use kirocc_prox.Kiroproto.ToolUse.Pieces.{frames, joined, updates-frames}

-- A checksum for the tests: the sum of the bytes.
abbrev pub sum : Bytes → ℕ
sum [] = 0
sum (b ∷ bs) = (b + sum bs) % 4294967296

pub sum_bounded : (bs : Bytes) → sum bs < 4294967296
sum_bounded [] = omega arith
sum_bounded (b ∷ bs) = omega arith

abbrev header : Bytes
header = 1 ∷ 2 ∷ 3 ∷ []

abbrev body : Bytes
body = 7 ∷ 8 ∷ []

-- A frame with one byte of its payload changed is refused.
changed_runs :
    read_frame sum
      (0 ∷ 0 ∷ 0 ∷ 21 ∷ 0 ∷ 0 ∷ 0 ∷ 3 ∷ 0 ∷ 0 ∷ 0 ∷ 24 ∷ 1 ∷ 2 ∷ 3 ∷ 7 ∷ 9 ∷ 0 ∷ 0 ∷ 0 ∷ 69 ∷ [])
    ≡ failed message_crc_mismatch
unfolding read_frame read_prelude read_lengths read_body big_endian
changed_runs = refl

read_frame-encode_frame_example :
    read_frame sum (encode_frame sum header body ++ (5 ∷ [])) ≡ frame header body (5 ∷ [])
read_frame-encode_frame_example =
    read_frame-encode_frame sum sum_bounded header body (5 ∷ []) (omega arith)

read_frame_truncated_example :
    read_frame sum (take 20 (encode_frame sum header body)) ≡ failed reading_body
read_frame_truncated_example =
    read_frame_truncated sum sum_bounded header body 20 (omega arith) (omega arith) (omega arith)

-- Two tool calls, the first one without its stop frame.
abbrev two_calls : List (String × RawToolUse)
two_calls =
    (
      "",
      record {
        tool_use_id = decoded "a";
        name = decoded "read";
        input = fragment (1 ∷ []);
        stop = absent;
      },
    )
    ∷ (
      "",
      record {
        tool_use_id = decoded "b";
        name = decoded "list";
        input = no_input;
        stop = decoded true;
      },
    )
    ∷ []

updates-emitted_example :
    emitted (updates empty_accumulator two_calls).1 ≡ named "" ++ opened empty_accumulator two_calls
updates-emitted_example = updates-emitted empty_accumulator two_calls

updates-frames_example :
    (updates empty_accumulator (frames "a" "read" ((1 ∷ []) ∷ (2 ∷ 3 ∷ []) ∷ []))).1
    ≡ tool_use true "a" "read" (joined ((1 ∷ []) ∷ (2 ∷ 3 ∷ []) ∷ [])) ∷ []
updates-frames_example = updates-frames "a" "read" refl ((1 ∷ []) ∷ (2 ∷ 3 ∷ []) ∷ [])
