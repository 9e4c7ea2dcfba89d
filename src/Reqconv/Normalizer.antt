-- ===== src/Reqconv/Normalizer.antt =====
-- internal/reqconv/message_normalizer.go: the pipeline that makes a conversation out of any list of
-- messages. `marshal` stands for the JSON library's `json.Marshal` of a tool's input.
use kirocc_prox.Base.{
  ℕ, zero, suc, Bool, true, false, List, [], ◌∷◌, ◌++◌, Option, none, some, String, str_eq,
  if◌then◌else◌, map, length, take, drop,
}
use Prim.Native.String.{◌++◌ as ◌^^◌}
use kirocc_prox.Reqconv.Messages.{
  Message, MessageContent, plain_string, block_slice, Blocks, no_block, next_block, ContentBlock,
  text_block, Fields, is_text, is_tool_use, is_tool_result, block_id, block_name, block_type,
  block_text, block_input, block_tool_use_id, block_content, block_tool_name, block_references,
  join, extract_text_content,
}

abbrev pub synthetic_empty : String
synthetic_empty = "(empty)"

-- A nil slice of new blocks makes the content an empty string.
abbrev pub content_of : Blocks → MessageContent
content_of no_block = plain_string ""
content_of (next_block b bs) = block_slice (next_block b bs)

unfoldable pub reference_parts : Blocks → List String
reference_parts no_block = []
reference_parts (next_block ref refs) =
    if str_eq (block_tool_name ref) ""
    then reference_parts refs
    else ("tool_reference: " ^^ block_tool_name ref) ∷ reference_parts refs

abbrev has_references : ContentBlock → Bool
has_references b =
    if str_eq (block_type b) "tool_search_tool_search_result"
    then true
    else elim (block_references b) [ no_block ↦ false | next_block _ _ ↦ true ]

unfoldable pub result_parts : Blocks → List String
result_parts no_block = []
result_parts (next_block b bs) =
    if is_text b
    then block_text b ∷ result_parts bs
    else if has_references b
    then reference_parts (block_references b) ++ result_parts bs
    else result_parts bs

abbrev pub result_text : MessageContent → String
result_text (plain_string s) = s
result_text (block_slice bs) = join "\n" (result_parts bs)

unfoldable pub extract_tool_result_content_text : ContentBlock → String
extract_tool_result_content_text b = result_text (block_content b)

unfoldable pub tool_result_text : ContentBlock → ContentBlock
tool_result_text b =
    text_block
      ("[Tool Result (" ^^ block_tool_use_id b ^^ ")]\n" ^^ extract_tool_result_content_text b)

unfoldable pub tool_use_text : (Fields → String) → ContentBlock → ContentBlock
tool_use_text marshal b =
    text_block
      ("[Tool: " ^^ block_name b ^^ " (" ^^ block_id b ^^ ")]\n" ^^ marshal (block_input b))

unfoldable pub textualize_blocks : (Fields → String) → Blocks → Blocks
textualize_blocks marshal no_block = no_block
textualize_blocks marshal (next_block b bs) =
    next_block
      (if is_tool_use b
        then tool_use_text marshal b
        else if is_tool_result b
        then tool_result_text b
        else b)
      (textualize_blocks marshal bs)

abbrev textualize_content : (Fields → String) → MessageContent → MessageContent
textualize_content marshal (plain_string s) = plain_string s
textualize_content marshal (block_slice bs) = content_of (textualize_blocks marshal bs)

abbrev pub textualize_message : (Fields → String) → Message → Message
textualize_message marshal msg = record msg { content = textualize_content marshal msg.content }

unfoldable pub textualize_all_tool_content : (Fields → String) → List Message → List Message
textualize_all_tool_content marshal = map (textualize_message marshal)

-- The IDs of the tool uses among the blocks.
unfoldable pub tool_use_ids : Blocks → List String
tool_use_ids no_block = []
tool_use_ids (next_block b bs) =
    if is_tool_use b then block_id b ∷ tool_use_ids bs else tool_use_ids bs

unfoldable pub has_id : List String → String → Bool
has_id [] id = false
has_id (i ∷ ids) id = if str_eq i id then true else has_id ids id

abbrev pub ids_of_content : MessageContent → List String
ids_of_content (plain_string s) = []
ids_of_content (block_slice bs) = tool_use_ids bs

-- The tool uses of the message before, if the assistant sent it.
abbrev pub assistant_tool_ids : Option Message → List String
assistant_tool_ids none = []
assistant_tool_ids (some msg) =
    if str_eq msg.role "assistant" then ids_of_content msg.content else []

unfoldable pub textualize_orphans : List String → Blocks → Blocks
textualize_orphans ids no_block = no_block
textualize_orphans ids (next_block b bs) =
    next_block
      (if is_tool_result b
        then (if has_id ids (block_tool_use_id b) then b else tool_result_text b)
        else b)
      (textualize_orphans ids bs)

abbrev pub without_orphans : List String → MessageContent → MessageContent
without_orphans ids (plain_string s) = plain_string s
without_orphans ids (block_slice bs) = content_of (textualize_orphans ids bs)

abbrev pub check_results : Option Message → Message → Message
check_results prev msg =
    if str_eq msg.role "user"
    then record msg { content = without_orphans (assistant_tool_ids prev) msg.content }
    else msg

-- The loop, after the message `prev`.
unfoldable pub textualize_after : Option Message → List Message → List Message
textualize_after prev [] = []
textualize_after prev (msg ∷ msgs) = check_results prev msg ∷ textualize_after (some msg) msgs

unfoldable pub textualize_orphan_tool_results : List Message → List Message
textualize_orphan_tool_results msgs = textualize_after none msgs

unfoldable pub textualize_tool_content : (Fields → String) → List Message → Bool → List Message
textualize_tool_content marshal msgs has_tools =
    if has_tools
    then textualize_orphan_tool_results msgs
    else textualize_all_tool_content marshal msgs

abbrev pub normalized_role : Message → Message
normalized_role msg =
    if str_eq msg.role "user"
    then msg
    else if str_eq msg.role "assistant"
    then msg
    else record msg { role = "user" }

unfoldable pub normalize_roles : List Message → List Message
normalize_roles = map normalized_role

unfoldable pub all_text : Blocks → Bool
all_text no_block = true
all_text (next_block b bs) = if is_text b then all_text bs else false

abbrev pub is_plain_text_content : MessageContent → Bool
is_plain_text_content (plain_string s) = true
is_plain_text_content (block_slice bs) = all_text bs

-- How many of the messages join a run of this role.
unfoldable pub run_length : String → List Message → ℕ
run_length role [] = 0
run_length role (msg ∷ msgs) =
    if str_eq msg.role role
    then (if is_plain_text_content msg.content then suc (run_length role msgs) else 0)
    else 0

abbrev pub run_after : Message → List Message → ℕ
run_after msg msgs = if is_plain_text_content msg.content then run_length msg.role msgs else 0

-- The message for a run: one message stays as it is.
abbrev pub joined : Message → List Message → Message
joined msg [] = msg
joined msg (next ∷ run) = record {
  role = msg.role;
  content = plain_string (join "\n" (map (λ m. extract_text_content m.content) (msg ∷ next ∷ run)));
}

-- The outer loop. Each round takes at least one message, so that the number of messages is fuel enough.
unfoldable pub merge_runs : ℕ → List Message → List Message
merge_runs zero msgs = []
merge_runs (suc k) [] = []
merge_runs (suc k) (msg ∷ msgs) =
    joined msg (take (run_after msg msgs) msgs) ∷ merge_runs k (drop (run_after msg msgs) msgs)

unfoldable pub merge_adjacent_same_role : List Message → List Message
merge_adjacent_same_role msgs = merge_runs (length msgs) msgs

abbrev pub synthetic : String → Message
synthetic role = record { role = role; content = plain_string synthetic_empty }

unfoldable pub ensure_starts_with_user : List Message → List Message
ensure_starts_with_user [] = []
ensure_starts_with_user (msg ∷ msgs) =
    if str_eq msg.role "user" then msg ∷ msgs else synthetic "user" ∷ msg ∷ msgs

abbrev pub opposite_role : String → String
opposite_role role = if str_eq role "assistant" then "user" else "assistant"

-- The loop after a message of the role `last`.
unfoldable pub alternate_after : String → List Message → List Message
alternate_after last [] = []
alternate_after last (msg ∷ msgs) =
    let rest = msg ∷ alternate_after msg.role msgs in
    if str_eq msg.role last then synthetic (opposite_role msg.role) ∷ rest else rest

unfoldable pub ensure_alternating_roles : List Message → List Message
ensure_alternating_roles [] = []
ensure_alternating_roles (msg ∷ msgs) = msg ∷ alternate_after msg.role msgs

unfoldable pub normalize : (Fields → String) → List Message → Bool → List Message
normalize marshal msgs has_tools = ensure_alternating_roles (
    ensure_starts_with_user
      (merge_adjacent_same_role (normalize_roles (textualize_tool_content marshal msgs has_tools))))
