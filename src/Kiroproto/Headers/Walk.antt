-- ===== src/Kiroproto/Headers/Walk.antt =====
-- Encoded headers, walked by `extractFrameHeaders` of internal/kiroproto/frame.go.
use kirocc_prox.Base.{
  ℕ, zero, suc, ◌/◌, ◌%◌, ◌≤◌, ◌≡◌, refl, ap, ◌∙◌, false, arith, List, [], ◌∷◌, ◌++◌, Option, none,
  some, String, Bool, str_eq, str_eq_iff, ◌||◌, if◌then◌else◌, Bool-cases, inl, inr, ltb, length,
  take_exact, drop_exact, length-append, append_assoc,
}
use kirocc_prox.Kiroproto.Frame.{Bytes, big_endian}
use kirocc_prox.Kiroproto.Headers.{
  Header, header_value_size, next_header, note_header, walk_headers, extract_frame_headers,
}

-- A string header as the format has it.
abbrev pub encode_header : Bytes × Bytes → Bytes
encode_header (name, value) =
    length name ∷ name ++ (7 ∷ length value / 256 ∷ length value % 256 ∷ value)

abbrev pub header_of : Bytes × Bytes → Bytes → Header
header_of (name, value) rest = record { name = name; value_type = 7; value = value; rest = rest }

big_endian-two : (n : ℕ) → big_endian 0 (n / 256 ∷ n % 256 ∷ []) ≡ n
unfolding big_endian
big_endian-two n = omega arith

next_header-encode_header :
    (name value rest : Bytes)
    → next_header (encode_header (name, value) ++ rest) ≡ some (header_of (name, value) rest)
unfolding next_header header_value_size
next_header-encode_header name value rest =
    let after : Bytes = 7 ∷ length value / 256 ∷ length value % 256 ∷ value in
    let name_fits : ltb (length ((name ++ after) ++ rest)) (length name) ≡ false =
      ground (arith, length-append (name ++ after) rest, length-append name after) in
    let some_bytes : ltb (length (length value / 256 ∷ length value % 256 ∷ value ++ rest)) 2
        ≡ false =
      ground arith in
    let value_fits : ltb (length (value ++ rest)) (length value) ≡ false =
      ground (arith, length-append value rest) in
    rw
      (
        name_fits,
        append_assoc name after rest,
        take_exact name (after ++ rest),
        drop_exact name (after ++ rest),
        some_bytes,
        big_endian-two (length value),
        value_fits,
        take_exact value rest,
        drop_exact value rest,
      )
      refl

unfoldable pub encode_headers : List (Bytes × Bytes) → Bytes
encode_headers [] = []
encode_headers (h ∷ hs) = encode_header h ++ encode_headers hs

abbrev pub is_message_type : String → Bool
is_message_type name = str_eq name ":message-type"

abbrev pub is_event_type : String → Bool
is_event_type name = str_eq name ":event-type" || str_eq name ":exception-type"

module _ (to_string : Bytes → String) where
  -- The value of the last header with a name that passes the test; before them `found` counts.
  unfoldable pub last_value : (String → Bool) → String → List (Bytes × Bytes) → String
  last_value has_name found [] = found
  last_value has_name found ((name, value) ∷ hs) =
      last_value has_name (if has_name (to_string name) then to_string value else found) hs

  -- The two kinds of names differ.
  note_header_lem :
      (message event : String) (name value : Bytes)
      → note_header to_string (message, event) (header_of (name, value) []) ≡ (
        if is_message_type (to_string name) then to_string value else message,
        if is_event_type (to_string name) then to_string value else event,
      )
  note_header_lem message event name value =
      elim (Bool-cases (str_eq (to_string name) ":message-type")) [
        | inl e ↦
            let same : to_string name ≡ ":message-type" =
              (str_eq_iff (to_string name) ":message-type").0 e in
            rw same refl
        | inr e ↦ rw e (ground arith)
      ]

  walk_headers_step :
      (fuel : ℕ) (headers : Bytes) (found : String × String) (h : Header)
      → next_header headers ≡ some h
      → walk_headers to_string (suc fuel) headers found
        ≡ walk_headers to_string fuel h.rest (note_header to_string found h)
  unfolding walk_headers
  walk_headers_step fuel headers found h e =
      let go : Option Header → String × String = λ o. elim o [
        | none ↦ found
        | some k ↦ walk_headers to_string fuel k.rest (note_header to_string found k)
      ] in
      ap go e

  walk_headers-encode_headers :
      (fuel : ℕ) (hs : List (Bytes × Bytes)) (message event : String)
      → length (encode_headers hs) ≤ fuel
      → walk_headers to_string fuel (encode_headers hs) (message, event)
        ≡ (last_value is_message_type message hs, last_value is_event_type event hs)
  unfolding encode_headers walk_headers last_value next_header
  walk_headers-encode_headers zero [] message event l = refl
  walk_headers-encode_headers (suc fuel) [] message event l = refl
  walk_headers-encode_headers zero ((name, value) ∷ hs) message event l = ground arith
  walk_headers-encode_headers (suc fuel) ((name, value) ∷ hs) message event l =
      let size : length (encode_headers hs) ≤ fuel =
        omega (arith, length-append (encode_header (name, value)) (encode_headers hs)) in
      walk_headers_step fuel (encode_header (name, value) ++ encode_headers hs) (message, event)
        (header_of (name, value) (encode_headers hs))
        (next_header-encode_header name value (encode_headers hs))
      ∙ ap (λ found. walk_headers to_string fuel (encode_headers hs) found)
          (note_header_lem message event name value)
      ∙ walk_headers-encode_headers fuel hs _ _ size

  -- Of string headers in the format, the walk finds the value of the last one named ":message-type", and
  -- that of the last one named ":event-type" or ":exception-type", wherever they stand among the others;
  -- each is empty where there is no such header.
  pub extract_frame_headers-encode_headers :
      (hs : List (Bytes × Bytes))
      → extract_frame_headers to_string (encode_headers hs)
        ≡ (last_value is_message_type "" hs, last_value is_event_type "" hs)
  unfolding extract_frame_headers
  extract_frame_headers-encode_headers hs =
      walk_headers-encode_headers (length (encode_headers hs)) hs "" "" (omega arith)
