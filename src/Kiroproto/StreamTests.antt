-- ===== src/Kiroproto/StreamTests.antt =====
-- A byte stream on concrete frames, and the theorems of the parser there. Strings are told apart by their
-- first byte.
use kirocc_prox.Base.{
  ◌≡◌, Bool, false, arith, List, [], ◌∷◌, ◌++◌, some, none, String, if◌then◌else◌, ◌==◌,
}
use kirocc_prox.Kiroproto.Event.{Event}
use kirocc_prox.Kiroproto.Frame.{Bytes}
use kirocc_prox.Kiroproto.Headers.Walk.{
  encode_headers, extract_frame_headers-encode_headers, last_value,
}
use kirocc_prox.Kiroproto.Headers.{extract_frame_headers}
use kirocc_prox.Kiroproto.ToolUse.{empty_accumulator}
use kirocc_prox.Kiroproto.Stream.{Outside, Decoders, parse_stream}
use kirocc_prox.Kiroproto.Stream.Returns.{Returns, parse_stream-Returns}
use kirocc_prox.Kiroproto.Stream.Frames.{encode_frames, deliver_frames, parse_stream-encode_frames}
use kirocc_prox.Kiroproto.Tests.{sum, sum_bounded}

abbrev spell : Bytes → String
spell [] = ""
spell (b ∷ bs) =
    if b == 58 then ":event-type" else if b == 97 then "assistantResponseEvent" else "event"

abbrev decoders : Decoders
decoders = record {
  content = λ p. some p;
  reasoning = λ p. none;
  raw_tool_use = λ p. none;
  token_usage = λ p. none;
  usage = λ p. none;
  state_reason = λ p. none;
  conversation_id = λ p. none;
  is_context_usage = λ p. false;
  exception_message = λ p. "";
}

abbrev outside : Outside
outside = record {
  crc = sum;
  to_string = spell;
  decoders = decoders;
  done = λ n. false;
  new_id = λ n. "new";
}

abbrev collect : List Event → Event → List Event × Bool
collect es e = (es ++ e ∷ [], false)

abbrev header : Bytes × Bytes
header = (58 ∷ [], 97 ∷ [])

abbrev two_frames : List (Bytes × Bytes)
two_frames =
    (encode_headers (header ∷ []), 5 ∷ 6 ∷ []) ∷ (encode_headers (header ∷ []), 5 ∷ 6 ∷ 7 ∷ []) ∷ []

extract_frame_headers-encode_headers_example :
    extract_frame_headers spell (encode_headers (header ∷ [])) ≡ ("", "assistantResponseEvent")
unfolding last_value
extract_frame_headers-encode_headers_example =
    extract_frame_headers-encode_headers spell (header ∷ [])

parse_stream-Returns_example :
    Returns (parse_stream outside (List Event) collect 4 0 (1 ∷ 2 ∷ 3 ∷ []) empty_accumulator []).0
parse_stream-Returns_example =
    parse_stream-Returns outside (List Event) collect 4 0 (1 ∷ 2 ∷ 3 ∷ []) empty_accumulator []
      (omega arith)

parse_stream-encode_frames_example :
    parse_stream outside
      (List Event)
      collect
      3
      0
      (encode_frames sum two_frames)
      empty_accumulator
      []
    ≡ deliver_frames outside (List Event) collect 0 two_frames empty_accumulator []
unfolding encode_headers
parse_stream-encode_frames_example =
    parse_stream-encode_frames outside (List Event) collect sum_bounded two_frames 3 0
      empty_accumulator [] (omega arith, (omega arith, tt)) (omega arith)
