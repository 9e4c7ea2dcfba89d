-- ===== src/Usage/Memory.antt =====
-- internal/usage/store_memory.go: the ring buffer of recent records. An index out of range, which
-- would panic, is `none`.
use kirocc_prox.Base.{
  ℕ, zero, suc, ◌+◌, ◌-◌, ◌/◌, ◌%◌, Bool, true, false, not, List, [], ◌∷◌, ◌++◌, Option, none, some,
  if◌then◌else◌, ltb, leb, ◌^◌, wrap64, ℤ, pos, ltb_ℤ, leb_ℤ, pos_part, length, get_elem?, set,
}
use kirocc_prox.Usage.Records.{
  Record, Filter, Window, TimelineBucket, Aggregate, match_filter, one_if, is_success,
  apply_to_aggregate,
}

abbrev pub default_memory_capacity : ℕ
default_memory_capacity = 10000

pub record MemoryStore : Type 0 where
  pub buf : List Record
  pub head : ℕ
  pub full : Bool
  pub cap : ℕ

unfoldable pub new_memory_store : ℤ → MemoryStore
new_memory_store capacity = record {
  buf = [];
  head = 0;
  full = false;
  cap = if leb_ℤ capacity (pos 0) then default_memory_capacity else pos_part capacity;
}

unfoldable pub append : MemoryStore → Record → MemoryStore
append m rec =
    if ltb (length m.buf) m.cap
    then record m { buf = m.buf ++ rec ∷ [] }
    else record m { buf = set m.buf m.head rec; head = (m.head + 1) % m.cap; full = true }

unfoldable pub len : MemoryStore → ℕ
len m = length m.buf

abbrev pub timestamp_at : List Record → ℕ → Option ℕ
timestamp_at buf i = elim (get_elem? buf i) [ none ↦ none | some rec ↦ some rec.timestamp ]

unfoldable pub oldest : MemoryStore → Option ℕ
oldest m =
    if ltb 0 (length m.buf) then timestamp_at m.buf (if m.full then m.head else 0) else some 0

-- The position that `Recent` reads in round i: the sum is taken before the difference, which is
-- then never negative for i below the capacity.
abbrev pub slot : MemoryStore → ℕ → ℕ
slot m i = if m.full then (m.head + m.cap - 1 - i) % m.cap else length m.buf - 1 - i

-- `out` after a round that read a record: the record is kept where it matches.
abbrev pub collected : Filter → List Record → Option Record → List Record
collected f out none = out
collected f out (some rec) = if match_filter rec f then out ++ rec ∷ [] else out

-- What a round returns, where `rest` is what the rounds after it return.
abbrev pub after_round :
    Filter → ℕ → List Record → Option (List Record) → Option Record → Option (List Record)
after_round f limit out rest none = none
after_round f limit out rest (some rec) =
    if match_filter rec f then (if leb limit (length out) then some out else rest) else rest

-- The loop of `Recent` from round i, with k rounds left.
unfoldable pub scan_ring : MemoryStore → Filter → ℕ → ℕ → ℕ → List Record → Option (List Record)
scan_ring m f limit i zero out = some out
scan_ring m f limit i (suc k) out =
    let rest = scan_ring m f limit (i + 1) k (collected f out (get_elem? m.buf (slot m i))) in
    after_round f limit (collected f out (get_elem? m.buf (slot m i))) rest
      (get_elem? m.buf (slot m i))

unfoldable pub recent : MemoryStore → Filter → ℤ → Option (List Record)
recent m f limit =
    if leb_ℤ limit (pos 0) then some [] else scan_ring m f (pos_part limit) 0 (length m.buf) []

-- n buckets, the first of which starts at `start`.
unfoldable pub buckets_from : ℕ → ℕ → ℕ → List TimelineBucket
buckets_from start bucket zero = []
buckets_from start bucket (suc n) =
    record {
      start = start;
      requests = 0;
      success = 0;
      failed = 0;
      input_tokens = 0;
      output_tokens = 0;
      cache_read_tokens = 0;
      cache_write_tokens = 0;
    }
    ∷ buckets_from (start + bucket) bucket n

-- `window.Bucket > 0 && !window.End.Before(window.Start)`
abbrev pub has_timeline : Window → Bool
has_timeline w = if ltb_ℤ (pos 0) w.bucket then leb w.start w.end else false

-- `later.Sub(earlier)` of two times in order: the longest duration where the difference is longer.
unfoldable pub time_between : ℕ → ℕ → ℕ
time_between earlier later = if ltb (later - earlier) (2 ^ 63) then later - earlier else 2 ^ 63 - 1

-- `int((duration + window.Bucket - 1) / window.Bucket)`: the sum is an `int64` and may wrap around to a
-- negative one, of which no bucket is left.
unfoldable pub bucket_count : Window → ℕ
bucket_count w =
    pos_part (wrap64 (time_between w.start w.end + pos_part w.bucket - 1)) / pos_part w.bucket

unfoldable pub timeline_of : Window → List TimelineBucket
timeline_of w =
    if has_timeline w then buckets_from w.start (pos_part w.bucket) (bucket_count w) else []

unfoldable pub count_bucket : TimelineBucket → Record → TimelineBucket
count_bucket b rec = record b {
  requests = b.requests + 1;
  success = b.success + one_if (is_success rec);
  failed = b.failed + one_if (not (is_success rec));
  input_tokens = b.input_tokens + rec.input_tokens;
  output_tokens = b.output_tokens + rec.output_tokens;
  cache_read_tokens = b.cache_read_tokens + rec.cache_read_tokens;
  cache_write_tokens = b.cache_write_tokens + rec.cache_write_tokens;
}

abbrev pub count_at : Option TimelineBucket → List TimelineBucket → ℕ → Record → List TimelineBucket
count_at none timeline i rec = timeline
count_at (some b) timeline i rec = set timeline i (count_bucket b rec)

-- `idx := int(offset / bucketNanos)`, and the bucket there if there is one.
unfoldable pub count_in_timeline : Window → List TimelineBucket → Record → List TimelineBucket
count_in_timeline w timeline rec =
    if has_timeline w
    then (let i = time_between w.start rec.timestamp / pos_part w.bucket in
        count_at (get_elem? timeline i) timeline i rec)
    else timeline

abbrev pub is_selected : Filter → Window → Record → Bool
is_selected f w rec =
    if ltb rec.timestamp w.start
    then false
    else if ltb rec.timestamp w.end
    then match_filter rec f
    else false

unfoldable pub count_record : Filter → Window → Aggregate → Record → Aggregate
count_record f w agg rec =
    if is_selected f w rec
    then record (apply_to_aggregate agg rec) { timeline = count_in_timeline w agg.timeline rec }
    else agg

unfoldable pub count_records : Filter → Window → Aggregate → List Record → Aggregate
count_records f w agg [] = agg
count_records f w agg (rec ∷ rest) = count_records f w (count_record f w agg rec) rest

abbrev pub empty_aggregate : Window → Aggregate
empty_aggregate w = record {
  total_requests = 0;
  total_success = 0;
  total_failed = 0;
  total_input_tokens = 0;
  total_output_tokens = 0;
  total_cache_read = 0;
  total_cache_write = 0;
  by_cred_model = [];
  by_api_key = [];
  by_device = [];
  timeline = timeline_of w;
}

unfoldable pub query : MemoryStore → Filter → Window → Aggregate
query m f w = count_records f w (empty_aggregate w) m.buf
