-- ===== src/Usage/Records.antt =====
-- internal/usage/types.go and the filter and the sums of internal/usage/store_memory.go. Token counts
-- and latencies are natural numbers, and the two credit snapshots, which nothing here reads, are left
-- out. Times are nanoseconds, and 0 is the zero time.
use kirocc_prox.Base.{
  ℕ, ◌+◌, Bool, true, false, not, List, [], ◌∷◌, Option, none, some, String, str_eq, if◌then◌else◌,
  Map, lookup, insert, ltb, ℤ,
}

pub record Record : Type 0 where
  pub timestamp : ℕ
  pub credential_id : String
  pub provider : String
  pub request_path : String
  pub prompt_cache_profile : String
  pub prompt_cache_prefix : String
  pub requested_model : String
  pub resolved_model : String
  pub input_tokens : ℕ
  pub output_tokens : ℕ
  pub cache_read_tokens : ℕ
  pub cache_write_tokens : ℕ
  pub raw_input_tokens : ℕ
  pub raw_output_tokens : ℕ
  pub raw_cache_read_tokens : ℕ
  pub raw_cache_write_tokens : ℕ
  pub status : String
  pub latency_ms : ℕ
  pub first_token_ms : ℕ
  pub trace_id : String
  pub error_message : String
  pub type : String
  pub device : String
  pub device_id : String
  pub api_key_id : String

pub record Filter : Type 0 where
  pub credential_ids : List String
  pub models : List String
  pub statuses : List String
  pub api_key_ids : List String
  pub device_ids : List String

pub record Window : Type 0 where
  pub start : ℕ
  pub end : ℕ
  pub bucket : ℤ

pub record CellStats : Type 0 where
  pub requests : ℕ
  pub success : ℕ
  pub failed : ℕ
  pub input_tokens : ℕ
  pub output_tokens : ℕ
  pub cache_read_tokens : ℕ
  pub cache_write_tokens : ℕ
  pub total_latency_ms : ℕ
  pub last_seen_at : ℕ
  pub device_label : String

pub record TimelineBucket : Type 0 where
  pub start : ℕ
  pub requests : ℕ
  pub success : ℕ
  pub failed : ℕ
  pub input_tokens : ℕ
  pub output_tokens : ℕ
  pub cache_read_tokens : ℕ
  pub cache_write_tokens : ℕ

pub record Aggregate : Type 0 where
  pub total_requests : ℕ
  pub total_success : ℕ
  pub total_failed : ℕ
  pub total_input_tokens : ℕ
  pub total_output_tokens : ℕ
  pub total_cache_read : ℕ
  pub total_cache_write : ℕ
  pub by_cred_model : Map (Map CellStats)
  pub by_api_key : Map CellStats
  pub by_device : Map CellStats
  pub timeline : List TimelineBucket

abbrev pub status_success : String
status_success = "success"

unfoldable pub contains_string : List String → String → Bool
contains_string [] needle = false
contains_string (s ∷ haystack) needle =
    if str_eq s needle then true else contains_string haystack needle

-- `len(f.…) > 0 && !containsString(f.…, …)`
abbrev pub excludes : List String → String → Bool
excludes [] value = false
excludes (s ∷ ss) value = not (contains_string (s ∷ ss) value)

unfoldable pub match_filter : Record → Filter → Bool
match_filter rec f =
    if excludes f.credential_ids rec.credential_id
    then false
    else if excludes f.models rec.resolved_model
    then false
    else if excludes f.statuses rec.status
    then false
    else if excludes f.api_key_ids rec.api_key_id
    then false
    else if excludes f.device_ids rec.device_id
    then false
    else true

abbrev pub zero_cell : CellStats
zero_cell = record {
  requests = 0;
  success = 0;
  failed = 0;
  input_tokens = 0;
  output_tokens = 0;
  cache_read_tokens = 0;
  cache_write_tokens = 0;
  total_latency_ms = 0;
  last_seen_at = 0;
  device_label = "";
}

-- 1 where the test holds.
abbrev pub one_if : Bool → ℕ
one_if true = 1
one_if false = 0

abbrev pub is_success : Record → Bool
is_success rec = str_eq rec.status status_success

unfoldable pub add_to_cell : CellStats → Record → CellStats
add_to_cell cell rec = record cell {
  requests = cell.requests + 1;
  success = cell.success + one_if (is_success rec);
  failed = cell.failed + one_if (not (is_success rec));
  input_tokens = cell.input_tokens + rec.input_tokens;
  output_tokens = cell.output_tokens + rec.output_tokens;
  cache_read_tokens = cell.cache_read_tokens + rec.cache_read_tokens;
  cache_write_tokens = cell.cache_write_tokens + rec.cache_write_tokens;
  total_latency_ms = cell.total_latency_ms + rec.latency_ms;
  last_seen_at = if ltb cell.last_seen_at rec.timestamp then rec.timestamp else cell.last_seen_at;
}

-- `cell := m[key]`: the zero cell where the key is missing.
abbrev pub cell_or_zero : Option CellStats → CellStats
cell_or_zero none = zero_cell
cell_or_zero (some cell) = cell

abbrev pub cells_or_empty : Option (Map CellStats) → Map CellStats
cells_or_empty none = []
cells_or_empty (some cells) = cells

unfoldable pub count_in : Map CellStats → String → Record → Map CellStats
count_in m key rec = insert key (add_to_cell (cell_or_zero (lookup key m)) rec) m

unfoldable pub count_model : Map (Map CellStats) → Record → Map (Map CellStats)
count_model m rec =
    insert rec.credential_id
      (count_in (cells_or_empty (lookup rec.credential_id m)) rec.resolved_model rec) m

abbrev pub labelled : CellStats → Record → CellStats
labelled cell rec = if str_eq rec.device "" then cell else record cell { device_label = rec.device }

unfoldable pub count_device : Map CellStats → Record → Map CellStats
count_device m rec =
    insert rec.device_id (labelled (add_to_cell (cell_or_zero (lookup rec.device_id m)) rec) rec) m

unfoldable pub apply_to_aggregate : Aggregate → Record → Aggregate
apply_to_aggregate agg rec = record agg {
  total_requests = agg.total_requests + 1;
  total_success = agg.total_success + one_if (is_success rec);
  total_failed = agg.total_failed + one_if (not (is_success rec));
  total_input_tokens = agg.total_input_tokens + rec.input_tokens;
  total_output_tokens = agg.total_output_tokens + rec.output_tokens;
  total_cache_read = agg.total_cache_read + rec.cache_read_tokens;
  total_cache_write = agg.total_cache_write + rec.cache_write_tokens;
  by_cred_model = count_model agg.by_cred_model rec;
  by_api_key = count_in agg.by_api_key rec.api_key_id rec;
  by_device = count_device agg.by_device rec;
}
