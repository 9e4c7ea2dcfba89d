-- ===== src/Usage/Rollup.antt =====
-- The sums of `Query` of internal/usage/store_memory.go.
pub mod Parts
use kirocc_prox.Base.{
  ℕ, zero, suc, ◌+◌, ◌-◌, ◌/◌, ◌≤◌, ◌<◌, ◌≡◌, refl, sym, ap, subst, ◌∙◌, true, arith, List, [], ◌∷◌,
  some, String, str_eq, Map, lookup, insert, pos_part, length, get_elem?, set, Bool-cases,
  length-set, inl, inr, not,
}
use native.Mathlib.Nat.{add-zero, zero-add, le-div_iff_mul-le, div-mul-le_self}
use kirocc_prox.Usage.Rollup.Parts.{
  Fits, bucket_count_lem, time_between_short, selected_with, key_requests, requests_at, in_bucket,
  success_counts, failed_counts, key_counts, bucket_counts,
}
use kirocc_prox.Usage.Records.{
  Record, Filter, Window, TimelineBucket, Aggregate, CellStats, one_if, apply_to_aggregate,
  count_in, add_to_cell, cell_or_zero,
}
use kirocc_prox.Usage.Memory.{
  MemoryStore, query, count_records, count_record, count_in_timeline, count_bucket, is_selected,
  timeline_of, empty_aggregate, buckets_from, has_timeline,
}

-- How many records of a list the filter and the window select.
unfoldable pub selected : Filter → Window → List Record → ℕ
selected f w [] = 0
selected f w (rec ∷ rest) = one_if (is_selected f w rec) + selected f w rest

-- The requests that the buckets of a timeline count.
unfoldable pub bucket_requests : List TimelineBucket → ℕ
bucket_requests [] = 0
bucket_requests (b ∷ bs) = b.requests + bucket_requests bs

-- The requests that the cells of a map count.
unfoldable pub cell_requests : Map CellStats → ℕ
cell_requests [] = 0
cell_requests ((k, cell) ∷ cells) = cell.requests + cell_requests cells

index_in_range :
    (offset duration bucket : ℕ)
    → offset < duration
    → 0 < bucket
    → offset / bucket < (duration + bucket - 1) / bucket
index_in_range offset duration bucket l p =
    (le-div_iff_mul-le p).1 (grind (arith, div-mul-le_self offset bucket))

get_elem?_in_range :
    (bs : List TimelineBucket) (i : ℕ)
    → i < length bs
    → (b : TimelineBucket) × (get_elem? bs i ≡ some b)
get_elem?_in_range [] i l = ground arith
get_elem?_in_range (b ∷ bs) zero l = (b, refl)
get_elem?_in_range (b ∷ bs) (suc i) l = get_elem?_in_range bs i (omega arith)

bucket_requests-set :
    (bs : List TimelineBucket) (i : ℕ) (b c : TimelineBucket)
    → get_elem? bs i ≡ some b
    → bucket_requests (set bs i c) + b.requests ≡ bucket_requests bs + c.requests
unfolding bucket_requests
bucket_requests-set [] i b c e = ground arith
bucket_requests-set (x ∷ bs) zero b c e = ground arith
bucket_requests-set (x ∷ bs) (suc i) b c e = omega (arith, bucket_requests-set bs i b c e)

length-buckets_from : (start bucket n : ℕ) → length (buckets_from start bucket n) ≡ n
unfolding buckets_from
length-buckets_from start bucket zero = refl
length-buckets_from start bucket (suc n) = ap suc (length-buckets_from (start + bucket) bucket n)

bucket_requests-buckets_from :
    (start bucket n : ℕ) → bucket_requests (buckets_from start bucket n) ≡ 0
unfolding buckets_from bucket_requests
bucket_requests-buckets_from start bucket zero = refl
bucket_requests-buckets_from start bucket (suc n) =
    omega (arith, bucket_requests-buckets_from (start + bucket) bucket n)

cell_requests-insert :
    (m : Map CellStats) (key : String) (c : CellStats)
    → cell_requests (insert key c m) + (cell_or_zero (lookup key m)).requests
      ≡ cell_requests m + c.requests
unfolding cell_requests lookup insert
cell_requests-insert [] key c = omega arith
cell_requests-insert ((k, cell) ∷ m) key c = elim (Bool-cases (str_eq k key)) [
  | inl e ↦ rw e (omega arith)
  | inr e ↦ rw e (omega (arith, cell_requests-insert m key c))
]

cell_requests-count_in :
    (m : Map CellStats) (key : String) (rec : Record)
    → cell_requests (count_in m key rec) ≡ cell_requests m + 1
unfolding count_in add_to_cell
cell_requests-count_in m key rec =
    omega (arith, cell_requests-insert m key (add_to_cell (cell_or_zero (lookup key m)) rec))

add_assoc : (a b c : ℕ) → a + b + c ≡ a + (b + c)
add_assoc a b c = omega arith

-- What the loop keeps of the sums: n records are counted so far, and the timeline has its length.
abbrev pub Counts : Window → ℕ → Aggregate → Type 0
Counts w n agg =
    (agg.total_requests ≡ n)
    × (agg.total_success + agg.total_failed ≡ n)
    × (cell_requests agg.by_api_key ≡ n)
    × (has_timeline w ≡ true
        → Fits w
        → (bucket_requests agg.timeline ≡ n)
          × (length agg.timeline ≡ (w.end - w.start + pos_part w.bucket - 1) / pos_part w.bucket))

bucket_positive : (w : Window) → has_timeline w ≡ true → 0 < pos_part w.bucket
bucket_positive w h = ground arith

timeline_counts :
    (w : Window) (timeline : List TimelineBucket) (rec : Record) (n : ℕ)
    → has_timeline w ≡ true
    → Fits w
    → w.start ≤ rec.timestamp
    → rec.timestamp < w.end
    → (bucket_requests timeline ≡ n)
      × (length timeline ≡ (w.end - w.start + pos_part w.bucket - 1) / pos_part w.bucket)
    → (bucket_requests (count_in_timeline w timeline rec) ≡ n + 1)
      × (length (count_in_timeline w timeline rec)
          ≡ (w.end - w.start + pos_part w.bucket - 1) / pos_part w.bucket)
unfolding count_in_timeline count_bucket
timeline_counts w timeline rec n t fits from until (sum, size) =
    let i = (rec.timestamp - w.start) / pos_part w.bucket in
    let l : i < length timeline = rw size (
      index_in_range (rec.timestamp - w.start) (w.end - w.start) (pos_part w.bucket) (omega arith)
        (bucket_positive w t)) in
    let (b, e) = get_elem?_in_range timeline i l in
    rw (t, time_between_short w rec.timestamp t fits from until, e)
      (
        omega (arith, bucket_requests-set timeline i b (count_bucket b rec) e),
        length-set timeline i (count_bucket b rec) ∙ size,
      )

count_record-Counts :
    (f : Filter) (w : Window) (agg : Aggregate) (rec : Record) (n : ℕ)
    → Counts w n agg
    → Counts w (n + one_if (is_selected f w rec)) (count_record f w agg rec)
unfolding count_record apply_to_aggregate
count_record-Counts f w agg rec n (total, parts, keys, times) =
    elim (Bool-cases (is_selected f w rec)) [
      | inl e ↦ rw e (
        omega arith,
        ground arith,
        omega (arith, cell_requests-count_in agg.by_api_key rec.api_key_id rec),
        λ t fits.
            timeline_counts w agg.timeline rec n t fits (ground arith) (ground arith)
              (times t fits),
      )
      | inr e ↦ rw (e, add-zero n) (total, parts, keys, times)
    ]

count_records-Counts :
    (f : Filter) (w : Window) (agg : Aggregate) (recs : List Record) (n : ℕ)
    → Counts w n agg
    → Counts w (n + selected f w recs) (count_records f w agg recs)
unfolding count_records selected
count_records-Counts f w agg [] n h = rw (add-zero n) h
count_records-Counts f w agg (rec ∷ recs) n h =
    subst (λ k. Counts w k (count_records f w (count_record f w agg rec) recs))
      (add_assoc n (one_if (is_selected f w rec)) (selected f w recs))
      (count_records-Counts f w (count_record f w agg rec) recs _
        (count_record-Counts f w agg rec n h))

empty_aggregate-Counts : (w : Window) → Counts w 0 (empty_aggregate w)
unfolding timeline_of cell_requests
empty_aggregate-Counts w = (
  refl,
  refl,
  refl,
  λ t fits.
      rw (t, bucket_count_lem w t fits)
        (
          bucket_requests-buckets_from w.start (pos_part w.bucket) _,
          length-buckets_from w.start (pos_part w.bucket) _,
        ),
)

length_counts :
    (m : MemoryStore) (f : Filter) (w : Window)
    → has_timeline w ≡ true
    → Fits w
    → length (query m f w).timeline ≡ length (timeline_of w)
unfolding query timeline_of
length_counts m f w t fits =
    let (_, _, _, times) =
      count_records-Counts f w (empty_aggregate w) m.buf 0 (empty_aggregate-Counts w) in
    (times t fits).1
    ∙ sym (rw (t, bucket_count_lem w t fits) (length-buckets_from w.start (pos_part w.bucket) _))

-- `Query` counts each record that the filter and the window select exactly once: in the total; as a
-- success, if its status says so, and as a failure otherwise; under its own API key; and, where the query
-- asks for a timeline and the window with one bucket more is no longer than the longest duration of Go's
-- clock, in the bucket of its time.
pub query-counts :
    (m : MemoryStore) (f : Filter) (w : Window)
    → ((query m f w).total_requests ≡ selected f w m.buf)
      × ((query m f w).total_success ≡ selected_with (λ rec. str_eq rec.status "success") f w m.buf)
      × ((query m f w).total_failed
          ≡ selected_with (λ rec. not (str_eq rec.status "success")) f w m.buf)
      × ((query m f w).total_success + (query m f w).total_failed ≡ selected f w m.buf)
      × (cell_requests (query m f w).by_api_key ≡ selected f w m.buf)
      × ((key : String)
          → key_requests (query m f w).by_api_key key
            ≡ selected_with (λ rec. str_eq rec.api_key_id key) f w m.buf)
      × (has_timeline w ≡ true
          → Fits w
          → (bucket_requests (query m f w).timeline ≡ selected f w m.buf)
            × ((i : ℕ)
                → i < length (query m f w).timeline
                → requests_at (query m f w).timeline i ≡ selected_with (in_bucket w i) f w m.buf))
unfolding query
query-counts m f w =
    let (total, parts, keys, times) =
      count_records-Counts f w (empty_aggregate w) m.buf 0 (empty_aggregate-Counts w) in
    let none_yet = zero-add (selected f w m.buf) in
    (
      total ∙ none_yet,
      success_counts f w m.buf,
      failed_counts f w m.buf,
      parts ∙ none_yet,
      keys ∙ none_yet,
      λ key. key_counts f w key m.buf,
      λ t fits. (
        (times t fits).0 ∙ none_yet,
        λ i l. bucket_counts f w i t fits m.buf (subst (λ n. i < n) (length_counts m f w t fits) l),
      ),
    )
