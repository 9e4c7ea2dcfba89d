-- ===== src/Reqconv/Messages.antt =====
-- internal/anthropic/types.go: the messages of a request, and internal/reqconv/content_text.go: their
-- text. The fields that the conversion here neither reads nor sets are left out: thinking, images,
-- errors and cache control. The input of a tool is JSON, which only the JSON library writes out.
use kirocc_prox.Base.{Bool, true, false, List, [], ◌∷◌, String, str_eq, if◌then◌else◌}
use Prim.Native.String.{◌++◌ as ◌^^◌}

mutual
  pub data Json : Type 0 where
    json_null : Json
    json_boolean : Bool → Json
    json_number : String → Json
    json_string : String → Json
    json_array : Items → Json
    json_object : Fields → Json

  pub data Items : Type 0 where
    no_item : Items
    next_item : Json → Items → Items

  pub data Fields : Type 0 where
    no_field : Fields
    next_field : String → Json → Fields → Fields

-- Content is a plain string where the slice of blocks is nil.
mutual
  pub data MessageContent : Type 0 where
    plain_string : String → MessageContent
    block_slice : Blocks → MessageContent

  pub data Blocks : Type 0 where
    no_block : Blocks
    next_block : ContentBlock → Blocks → Blocks

  -- Its type, text, ID, name, input, the ID of the tool use, content, tool name and references.
  pub data ContentBlock : Type 0 where
    content_block :
        String
        → String
        → String
        → String
        → Fields
        → String
        → MessageContent
        → String
        → Blocks
        → ContentBlock

pub record Message : Type 0 where
  pub role : String
  pub content : MessageContent

abbrev pub block_type : ContentBlock → String
block_type (content_block t s i n f u c tool refs) = t

abbrev pub block_text : ContentBlock → String
block_text (content_block t s i n f u c tool refs) = s

abbrev pub block_id : ContentBlock → String
block_id (content_block t s i n f u c tool refs) = i

abbrev pub block_name : ContentBlock → String
block_name (content_block t s i n f u c tool refs) = n

abbrev pub block_input : ContentBlock → Fields
block_input (content_block t s i n f u c tool refs) = f

abbrev pub block_tool_use_id : ContentBlock → String
block_tool_use_id (content_block t s i n f u c tool refs) = u

abbrev pub block_content : ContentBlock → MessageContent
block_content (content_block t s i n f u c tool refs) = c

abbrev pub block_tool_name : ContentBlock → String
block_tool_name (content_block t s i n f u c tool refs) = tool

abbrev pub block_references : ContentBlock → Blocks
block_references (content_block t s i n f u c tool refs) = refs

-- A text block: every other field is zero.
abbrev pub text_block : String → ContentBlock
text_block s = content_block "text" s "" "" no_field "" (plain_string "") "" no_block

abbrev pub is_string : MessageContent → Bool
is_string (plain_string s) = true
is_string (block_slice bs) = false

abbrev either : Bool → Bool → Bool
either true b = true
either false b = b

abbrev pub is_text : ContentBlock → Bool
is_text b = str_eq (block_type b) "text"

abbrev pub is_tool_use : ContentBlock → Bool
is_tool_use b = either (str_eq (block_type b) "tool_use") (str_eq (block_type b) "server_tool_use")

abbrev pub is_tool_result : ContentBlock → Bool
is_tool_result b =
    either (str_eq (block_type b) "tool_result") (str_eq (block_type b) "tool_search_tool_result")

-- `strings.Join`
unfoldable pub join : String → List String → String
join sep [] = ""
join sep (s ∷ []) = s
join sep (s ∷ t ∷ parts) = s ^^ sep ^^ join sep (t ∷ parts)

-- The types that `ExtractTextContent` skips.
abbrev is_skipped : ContentBlock → Bool
is_skipped b = either (is_tool_use b) (
    either (is_tool_result b) (
      either (str_eq (block_type b) "thinking")
        (either (str_eq (block_type b) "image") (str_eq (block_type b) "tool_reference"))))

abbrev first_named : String → String → String
first_named s other = if str_eq s "" then other else s

unfoldable pub textualize_unknown_block : ContentBlock → String
textualize_unknown_block b =
    let identifier = first_named (block_tool_name b) (first_named (block_name b) (block_id b)) in
    if str_eq identifier ""
    then "[" ^^ block_type b ^^ "]"
    else "[" ^^ block_type b ^^ ": " ^^ identifier ^^ "]"

unfoldable pub text_parts : Blocks → List String
text_parts no_block = []
text_parts (next_block b bs) =
    if is_text b
    then block_text b ∷ text_parts bs
    else if is_skipped b
    then text_parts bs
    else textualize_unknown_block b ∷ text_parts bs

unfoldable pub extract_text_content : MessageContent → String
extract_text_content (plain_string s) = s
extract_text_content (block_slice bs) = join " " (text_parts bs)
