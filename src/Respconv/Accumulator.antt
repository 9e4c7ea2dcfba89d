-- ===== src/Respconv/Accumulator.antt =====
-- internal/respconv/accumulator.go: the state of one response. The counts that only the
-- usage report sets and the percentage of the context, a float, are left out. A builder of text is its
-- content.
use kirocc_prox.Base.{ℕ, Bool, false, true, List, [], ◌∷◌, String, Map, ℤ, pos}
use kirocc_prox.Respconv.Text.{Text}

pub record ToolCall : Type 0 where
  pub id : String
  pub name : String
  pub input : Text

pub record InvalidToolCall : Type 0 where
  pub id : String
  pub name : String
  pub input : Text
  pub reason : String

pub record ResponseAccumulator : Type 0 where
  pub last_content : Text
  pub last_thinking : Text
  pub text_buf : Text
  pub thinking_buf : Text
  pub tool_calls : List ToolCall
  pub invalid_tool_calls : List InvalidToolCall
  pub has_tool_use : Bool
  pub tool_parse_error : Bool
  pub has_metadata : Bool
  pub input_tokens : ℤ
  pub output_tokens : ℤ
  pub cache_read_input_tokens : ℤ
  pub cache_write_input_tokens : ℤ
  pub has_context_usage : Bool
  pub signature : String
  pub conversation_id : String
  pub has_text : Bool
  pub local_stop : Bool
  pub stop_reason : String
  pub stop_sequence : Text
  pub stop_sequences : List Text
  pub stop_seq_max_keep : ℕ
  pub stop_seq_pending : Text
  pub max_tokens_budget : ℤ
  pub output_rune_count : ℕ
  pub thinking_tag_inside : Bool
  pub thinking_tag_buf : Text
  pub suppress_reasoning_content : Bool
  pub drop_tool_name : String
  pub tool_name_map : Map String

-- The zero accumulator with a budget; `newAccumulator` then sets the stop sequences.
abbrev pub empty_accumulator : ℤ → ResponseAccumulator
empty_accumulator max_tokens = record {
  last_content = [];
  last_thinking = [];
  text_buf = [];
  thinking_buf = [];
  tool_calls = [];
  invalid_tool_calls = [];
  has_tool_use = false;
  tool_parse_error = false;
  has_metadata = false;
  input_tokens = pos 0;
  output_tokens = pos 0;
  cache_read_input_tokens = pos 0;
  cache_write_input_tokens = pos 0;
  has_context_usage = false;
  signature = "";
  conversation_id = "";
  has_text = false;
  local_stop = false;
  stop_reason = "";
  stop_sequence = [];
  stop_sequences = [];
  stop_seq_max_keep = 0;
  stop_seq_pending = [];
  max_tokens_budget = max_tokens;
  output_rune_count = 0;
  thinking_tag_inside = false;
  thinking_tag_buf = [];
  suppress_reasoning_content = false;
  drop_tool_name = "";
  tool_name_map = [];
}

-- `IsEmptyVisibleEndTurn`
unfoldable pub is_empty_visible_end_turn : ResponseAccumulator → Bool
is_empty_visible_end_turn a = elim a.local_stop [
  | true ↦ false
  | false ↦ elim a.thinking_buf [
    | [] ↦ false
    | ◌∷◌ _ _ ↦ elim a.text_buf [
      | [] ↦ (elim a.has_tool_use [ true ↦ false | false ↦ true ])
      | ◌∷◌ _ _ ↦ false
    ]
  ]
]
