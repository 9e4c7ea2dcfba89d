-- ===== src/Usage/Tests.antt =====
-- The stores of usage records on concrete records, and their theorems at concrete inputs.
use kirocc_prox.Base.{
  ℕ, ◌<◌, ◌^◌, wrap64, str_eq, not, ◌≡◌, refl, true, false, List, [], ◌∷◌, ◌+◌, none, some, String,
  pos, take, keep_if, length,
}
use kirocc_prox.Usage.Records.{Record, Filter, Window, match_filter, apply_to_aggregate}
use kirocc_prox.Usage.Memory.{
  MemoryStore, new_memory_store, append, recent, scan_ring, query, count_records, count_record,
  count_in_timeline, count_bucket, timeline_of, buckets_from, has_timeline, bucket_count,
  time_between,
}
use kirocc_prox.Usage.Recent.{appends, newest_first, recent-newest}
use kirocc_prox.Usage.Rollup.Parts.{Fits, selected_with, key_requests, requests_at, in_bucket}
use kirocc_prox.Usage.Rollup.{selected, bucket_requests, cell_requests, query-counts}
use kirocc_prox.Usage.Aggregator.Writer.{
  Call, published, written, ended, run, accepted, close-delivers,
}
use kirocc_prox.Usage.Aggregator.{
  new_aggregator, close, Store, Aggregator, recent_records, has_trace, recent_records_lem,
}

abbrev call_at : ℕ → String → String → Record
call_at time status trace = record {
  timestamp = time;
  credential_id = "a";
  provider = "kiro";
  request_path = "/v1/messages";
  prompt_cache_profile = "";
  prompt_cache_prefix = "";
  requested_model = "m";
  resolved_model = "m";
  input_tokens = 10;
  output_tokens = 2;
  cache_read_tokens = 0;
  cache_write_tokens = 0;
  raw_input_tokens = 10;
  raw_output_tokens = 2;
  raw_cache_read_tokens = 0;
  raw_cache_write_tokens = 0;
  status = status;
  latency_ms = 7;
  first_token_ms = 3;
  trace_id = trace;
  error_message = "";
  type = "stream";
  device = "";
  device_id = "";
  api_key_id = "k";
}

abbrev any : Filter
any = record { credential_ids = []; models = []; statuses = []; api_key_ids = []; device_ids = [] }

abbrev calls : List Record
calls = call_at 1 "success" "x" ∷ call_at 5 "auth_error" "y" ∷ call_at 9 "success" "z" ∷ []

-- A ring of two keeps the last two of three.
recent_runs :
    recent (appends (new_memory_store (pos 2)) calls) any (pos 5)
    ≡ some (call_at 9 "success" "z" ∷ call_at 5 "auth_error" "y" ∷ [])
unfolding recent appends new_memory_store append scan_ring match_filter
recent_runs = refl

recent-newest_example :
    recent (appends (new_memory_store (pos 2)) calls) any (pos 1)
    ≡ some (
        take 1 (
          keep_if
            (λ rec. match_filter rec any)
            (take (new_memory_store (pos 2)).cap (newest_first [] calls))))
recent-newest_example = recent-newest (pos 2) (pos 1) any calls

abbrev store_of_calls : MemoryStore
store_of_calls = record { buf = calls; head = 0; full = true; cap = 3 }

abbrev by_four : Window
by_four = record { start = 1; end = 10; bucket = pos 4 }

timeline_runs : bucket_requests (query store_of_calls any by_four).timeline ≡ 3
unfolding bucket_requests query count_records count_record count_in_timeline count_bucket
    timeline_of bucket_count time_between wrap64 buckets_from match_filter
timeline_runs = refl

-- A window of more than 292 years: the sum in the number of buckets wraps around, and none is left.
abbrev for_ages : Window
for_ages = record { start = 0; end = 2 ^ 64; bucket = pos (2 ^ 62) }

ages_runs :
    ((query store_of_calls any for_ages).timeline ≡ [])
    × ((query store_of_calls any for_ages).total_requests ≡ 3)
unfolding query count_records count_record count_in_timeline apply_to_aggregate timeline_of
    bucket_count time_between wrap64 buckets_from match_filter
ages_runs = (refl, refl)

query-counts_example :
    ((query store_of_calls any by_four).total_requests ≡ selected any by_four calls)
    × ((query store_of_calls any by_four).total_success
        ≡ selected_with (λ rec. str_eq rec.status "success") any by_four calls)
    × ((query store_of_calls any by_four).total_failed
        ≡ selected_with (λ rec. not (str_eq rec.status "success")) any by_four calls)
    × ((query store_of_calls any by_four).total_success
          + (query store_of_calls any by_four).total_failed
        ≡ selected any by_four calls)
    × (cell_requests (query store_of_calls any by_four).by_api_key ≡ selected any by_four calls)
    × ((key : String)
        → key_requests (query store_of_calls any by_four).by_api_key key
          ≡ selected_with (λ rec. str_eq rec.api_key_id key) any by_four calls)
    × (has_timeline by_four ≡ true
        → Fits by_four
        → (bucket_requests (query store_of_calls any by_four).timeline ≡ selected any by_four calls)
          × ((i : ℕ)
              → i < length (query store_of_calls any by_four).timeline
              → requests_at (query store_of_calls any by_four).timeline i
                ≡ selected_with (in_bucket by_four i) any by_four calls))
query-counts_example = query-counts store_of_calls any by_four

abbrev table : Store
table = record {
  find_aggregate = λ f w. none;
  find_recent = λ f limit. some (call_at 9 "success" "z" ∷ call_at 0 "success" "w" ∷ []);
}

abbrev both : Aggregator
both = record {
  mem = some store_of_calls;
  store = some table;
  writes = [];
  closed = false;
  appended = [];
  store_closed = false;
}

recent_records_lem_example :
    recent_records both any (pos 4)
    ≡ some (
        call_at 9 "success" "z"
        ∷ call_at 5 "auth_error" "y"
        ∷ call_at 1 "success" "x"
        ∷ call_at 0 "success" "w"
        ∷ [])
unfolding recent scan_ring match_filter has_trace
recent_records_lem_example =
    recent_records_lem both store_of_calls table any (pos 4)
      (call_at 9 "success" "z" ∷ call_at 5 "auth_error" "y" ∷ call_at 1 "success" "x" ∷ []) refl
      refl refl

-- The worker is slower than the publishers, and the aggregator is closed twice.
abbrev busy : List Call
busy =
    published (call_at 1 "success" "x")
    ∷ published (call_at 2 "success" "y")
    ∷ written
    ∷ ended
    ∷ published (call_at 3 "success" "z")
    ∷ ended
    ∷ []

close-delivers_example :
    ((close (run (new_aggregator none (some table)) busy)).appended
      ≡ accepted (new_aggregator none (some table)) busy)
    × ((close (run (new_aggregator none (some table)) busy)).writes ≡ [])
    × ((close (run (new_aggregator none (some table)) busy)).store_closed ≡ true)
close-delivers_example = close-delivers none table busy
