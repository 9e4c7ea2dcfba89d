-- ===== src/Kiroproto/Headers.antt =====
-- `extractFrameHeaders` of internal/kiroproto/frame.go. Go's conversion of bytes to a string is a parameter.
pub mod Walk
use kirocc_prox.Base.{
  ℕ, zero, suc, ◌+◌, ◌-◌, Bool, List, [], ◌∷◌, ◌++◌, Option, none, some, String, str_eq,
  if◌then◌else◌, ltb, leb, ◌==◌, ◌||◌, length, take, drop,
}
use kirocc_prox.Kiroproto.Frame.{Bytes, big_endian}

-- `headerValueSizes`: a fixed size, a length of two bytes before the value, or an unknown type.
pub data ValueSize : Type 0 where
  fixed : ℕ → ValueSize
  variable : ValueSize
  unknown : ValueSize

unfoldable pub header_value_size : ℕ → ValueSize
header_value_size value_type =
    if leb value_type 1
    then fixed 0
    else if value_type == 2
    then fixed 1
    else if value_type == 3
    then fixed 2
    else if value_type == 4
    then fixed 4
    else if value_type == 5 || value_type == 8
    then fixed 8
    else if value_type == 6 || value_type == 7
    then variable
    else if value_type == 9
    then fixed 16
    else unknown

-- A header and the bytes after it. No header is a `break`, or the end.
pub record Header : Type 0 where
  pub name : Bytes
  pub value_type : ℕ
  pub value : Bytes
  pub rest : Bytes

abbrev pub take_value : Bytes → ℕ → ℕ → Bytes → Option Header
take_value name value_type value_len rest =
    if ltb (length rest) value_len
    then none
    else some (record {
      name = name;
      value_type = value_type;
      value = take value_len rest;
      rest = drop value_len rest;
    })

abbrev pub sized_value : Bytes → ℕ → ValueSize → Bytes → Option Header
sized_value name value_type (fixed n) rest = take_value name value_type n rest
sized_value name value_type unknown rest = none
sized_value name value_type variable rest =
    if ltb (length rest) 2
    then none
    else take_value name value_type (big_endian 0 (take 2 rest)) (drop 2 rest)

abbrev pub typed_value : Bytes → Bytes → Option Header
typed_value name [] = none
typed_value name (value_type ∷ rest) =
    sized_value name value_type (header_value_size value_type) rest

unfoldable pub next_header : Bytes → Option Header
next_header [] = none
next_header (name_len ∷ rest) =
    if ltb (length rest) name_len
    then none
    else typed_value (take name_len rest) (drop name_len rest)

module _ (to_string : Bytes → String) where
  -- The switch on the name of a string header.
  abbrev pub note_header : String × String → Header → String × String
  note_header (msg_type, event_type) h =
      let name = to_string h.name in
      if h.value_type == 7
      then if str_eq name ":message-type"
        then (to_string h.value, event_type)
        else if str_eq name ":event-type" || str_eq name ":exception-type"
        then (msg_type, to_string h.value)
        else (msg_type, event_type)
      else (msg_type, event_type)

  -- The loop, on fuel: each header takes two bytes at least.
  unfoldable pub walk_headers : ℕ → Bytes → String × String → String × String
  walk_headers zero headers found = found
  walk_headers (suc fuel) headers found = elim (next_header headers) [
    | none ↦ found
    | some h ↦ walk_headers fuel h.rest (note_header found h)
  ]

  unfoldable pub extract_frame_headers : Bytes → String × String
  extract_frame_headers headers = walk_headers (length headers) headers ("", "")
