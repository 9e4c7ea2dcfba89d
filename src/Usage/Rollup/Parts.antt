-- ===== src/Usage/Rollup/Parts.antt =====
-- What each part of the result of `Query` of internal/usage/store_memory.go counts: the successes, the
-- failures, the cell of an API key, and a bucket of the timeline.
use kirocc_prox.Base.{
  ℕ, zero, suc, ◌+◌, ◌-◌, ◌/◌, ◌^◌, ◌≤◌, ◌<◌, ◌==◌, ◌≡◌, refl, ap, ◌∙◌, Bool, true, false, not,
  ◌&&◌, arith, List, [], ◌∷◌, Option, none, some, String, str_eq, str_eq_iff, Map, lookup,
  lookup-insert, pos_part, wrap64_small, length, get_elem?, set, Bool-cases, Option-cases,
  length-set, inl, inr,
}
use native.Mathlib.Nat.{zero-add}
use kirocc_prox.Usage.Records.{
  Record, Filter, Window, TimelineBucket, Aggregate, CellStats, one_if, apply_to_aggregate,
  count_in, add_to_cell, cell_or_zero,
}
use kirocc_prox.Usage.Memory.{
  count_records, count_record, count_in_timeline, count_bucket, is_selected, timeline_of,
  empty_aggregate, buckets_from, has_timeline, time_between, bucket_count,
}

-- The window, with one bucket more, is no longer than the longest `time.Duration`.
abbrev pub Fits : Window → Type 0
Fits w = w.end - w.start + pos_part w.bucket ≤ 2 ^ 63

bucket_positive : (w : Window) → has_timeline w ≡ true → 0 < pos_part w.bucket
bucket_positive w h = ground arith

time_between_small :
    (earlier later : ℕ) → later - earlier < 2 ^ 63 → time_between earlier later ≡ later - earlier
unfolding time_between
time_between_small earlier later l = ground arith

pub time_between_short :
    (w : Window) (timestamp : ℕ)
    → has_timeline w ≡ true
    → Fits w
    → w.start ≤ timestamp
    → timestamp < w.end
    → time_between w.start timestamp ≡ timestamp - w.start
time_between_short w timestamp t fits from until =
    time_between_small w.start timestamp (omega (arith, bucket_positive w t))

pub bucket_count_lem :
    (w : Window)
    → has_timeline w ≡ true
    → Fits w
    → bucket_count w ≡ (w.end - w.start + pos_part w.bucket - 1) / pos_part w.bucket
unfolding bucket_count
bucket_count_lem w t fits =
    rw
      (
        time_between_small w.start w.end (omega (arith, bucket_positive w t)),
        wrap64_small (w.end - w.start + pos_part w.bucket - 1) (omega (arith, bucket_positive w t)),
      )
      refl

-- How many of the records that the filter and the window select pass a test.
unfoldable pub selected_with : (Record → Bool) → Filter → Window → List Record → ℕ
selected_with p f w [] = 0
selected_with p f w (rec ∷ rest) = one_if (is_selected f w rec && p rec) + selected_with p f w rest

abbrev counted : Window → Aggregate → Record → Aggregate
counted w agg rec = record (apply_to_aggregate agg rec) {
  timeline = count_in_timeline w agg.timeline rec;
}

-- A number in the result that each selected record raises by one if it passes the test.
module _ (f : Filter) (w : Window) (p : Record → Bool) (measure : Aggregate → ℕ)
    (Inv : Aggregate → Type 0)
    (step : (agg : Aggregate) (rec : Record)
      → Inv agg
      → is_selected f w rec ≡ true
      → Inv (counted w agg rec)
        × (measure (counted w agg rec) ≡ measure agg + one_if (p rec))) where
  measure_counts :
      (agg : Aggregate) (recs : List Record)
      → Inv agg
      → measure (count_records f w agg recs) ≡ measure agg + selected_with p f w recs
  unfolding count_records count_record selected_with
  measure_counts agg [] inv = omega arith
  measure_counts agg (rec ∷ recs) inv = elim (Bool-cases (is_selected f w rec)) [
    | inl e ↦
        let (inv', raised) = step agg rec inv e in
        rw e (omega (arith, measure_counts (counted w agg rec) recs inv', raised))
    | inr e ↦ rw e (omega (arith, measure_counts agg recs inv))
  ]

pub success_counts :
    (f : Filter) (w : Window) (recs : List Record)
    → (count_records f w (empty_aggregate w) recs).total_success
      ≡ selected_with (λ rec. str_eq rec.status "success") f w recs
unfolding apply_to_aggregate
success_counts f w recs =
    measure_counts f w _ (λ agg. agg.total_success) (λ _. Unit) (λ agg rec u e. (tt, refl))
      (empty_aggregate w) recs tt
    ∙ zero-add _

pub failed_counts :
    (f : Filter) (w : Window) (recs : List Record)
    → (count_records f w (empty_aggregate w) recs).total_failed
      ≡ selected_with (λ rec. not (str_eq rec.status "success")) f w recs
unfolding apply_to_aggregate
failed_counts f w recs =
    measure_counts f w _ (λ agg. agg.total_failed) (λ _. Unit) (λ agg rec u e. (tt, refl))
      (empty_aggregate w) recs tt
    ∙ zero-add _

-- The requests of a key's cell, and 0 where it has none.
abbrev pub cell_requests_of : Option CellStats → ℕ
cell_requests_of none = 0
cell_requests_of (some cell) = cell.requests

abbrev pub key_requests : Map CellStats → String → ℕ
key_requests cells key = cell_requests_of (lookup key cells)

key_requests-count_in :
    (cells : Map CellStats) (name key : String) (rec : Record)
    → key_requests (count_in cells name rec) key ≡ key_requests cells key + one_if (str_eq name key)
unfolding count_in add_to_cell
key_requests-count_in cells name key rec = elim (Bool-cases (str_eq name key)) [
  | inl e ↦
      let same : name ≡ key = (str_eq_iff name key).0 e in
      let cell : CellStats = add_to_cell (cell_or_zero (lookup name cells)) rec in
      let found = lookup-insert name key cell cells in
      elim (Option-cases (lookup name cells)) [
        | inl absent ↦ ground (arith, found, e, absent, same)
        | inr (old, present) ↦ ground (arith, found, e, present, same)
      ]
  | inr e ↦
      let cell : CellStats = add_to_cell (cell_or_zero (lookup name cells)) rec in
      rw (lookup-insert name key cell cells, e) (omega arith)
]

pub key_counts :
    (f : Filter) (w : Window) (key : String) (recs : List Record)
    → key_requests (count_records f w (empty_aggregate w) recs).by_api_key key
      ≡ selected_with (λ rec. str_eq rec.api_key_id key) f w recs
unfolding lookup apply_to_aggregate
key_counts f w key recs =
    measure_counts f w _ (λ agg. key_requests agg.by_api_key key) (λ _. Unit)
      (λ agg rec u e. (tt, key_requests-count_in agg.by_api_key rec.api_key_id key rec))
      (empty_aggregate w) recs tt
    ∙ zero-add _

abbrev bucket_requests_of : Option TimelineBucket → ℕ
bucket_requests_of none = 0
bucket_requests_of (some b) = b.requests

abbrev pub requests_at : List TimelineBucket → ℕ → ℕ
requests_at timeline i = bucket_requests_of (get_elem? timeline i)

-- The record's time lies in the bucket.
abbrev pub in_bucket : Window → ℕ → Record → Bool
in_bucket w i rec = (rec.timestamp - w.start) / pos_part w.bucket == i

requests_at-set :
    (bs : List TimelineBucket) (i j : ℕ) (b : TimelineBucket) (rec : Record)
    → get_elem? bs j ≡ some b
    → requests_at (set bs j (count_bucket b rec)) i ≡ requests_at bs i + one_if (j == i)
unfolding count_bucket
requests_at-set [] i j b rec e = ground arith
requests_at-set (x ∷ bs) zero zero b rec e = ground arith
requests_at-set (x ∷ bs) zero (suc j) b rec e = ground arith
requests_at-set (x ∷ bs) (suc i) zero b rec e = ground arith
requests_at-set (x ∷ bs) (suc i) (suc j) b rec e =
    let same : (j == i) ≡ (suc j == suc i) = ground arith in
    requests_at-set bs i j b rec e ∙ ap (λ t. requests_at bs i + one_if t) same

beyond :
    (bs : List TimelineBucket) (i j : ℕ) → i < length bs → get_elem? bs j ≡ none → (j == i) ≡ false
beyond [] i j l e = ground arith
beyond (b ∷ bs) i zero l e = ground arith
beyond (b ∷ bs) zero (suc j) l e = ground arith
beyond (b ∷ bs) (suc i) (suc j) l e =
    let apart = beyond bs i j (omega arith) e in ground (arith, apart)

-- A record in the window raises its own bucket, and the timeline keeps its length.
requests_at-count_in_timeline :
    (w : Window) (timeline : List TimelineBucket) (i : ℕ) (rec : Record)
    → has_timeline w ≡ true
    → Fits w
    → w.start ≤ rec.timestamp
    → rec.timestamp < w.end
    → i < length timeline
    → (i < length (count_in_timeline w timeline rec))
      × (requests_at (count_in_timeline w timeline rec) i
          ≡ requests_at timeline i + one_if (in_bucket w i rec))
unfolding count_in_timeline
requests_at-count_in_timeline w timeline i rec t fits from until l =
    let j = (rec.timestamp - w.start) / pos_part w.bucket in
    elim (Option-cases (get_elem? timeline j)) [
      | inl e ↦
          rw (t, time_between_short w rec.timestamp t fits from until, e, beyond timeline i j l e)
            (l, omega arith)
      | inr (b, e) ↦
          rw (t, time_between_short w rec.timestamp t fits from until, e)
            (
              rw (length-set timeline j (count_bucket b rec)) l,
              requests_at-set timeline i j b rec e,
            )
    ]

requests_at-buckets_from : (start bucket n i : ℕ) → requests_at (buckets_from start bucket n) i ≡ 0
unfolding buckets_from
requests_at-buckets_from start bucket zero i = refl
requests_at-buckets_from start bucket (suc n) zero = refl
requests_at-buckets_from start bucket (suc n) (suc i) =
    requests_at-buckets_from (start + bucket) bucket n i

requests_at-timeline_of :
    (w : Window) (i : ℕ) → has_timeline w ≡ true → requests_at (timeline_of w) i ≡ 0
unfolding timeline_of
requests_at-timeline_of w i t =
    rw t (requests_at-buckets_from w.start (pos_part w.bucket) (bucket_count w) i)

pub bucket_counts :
    (f : Filter) (w : Window) (i : ℕ)
    → has_timeline w ≡ true
    → Fits w
    → (recs : List Record) → i < length (timeline_of w)
    → requests_at (count_records f w (empty_aggregate w) recs).timeline i
      ≡ selected_with (in_bucket w i) f w recs
bucket_counts f w i t fits recs l =
    measure_counts f w (in_bucket w i) (λ agg. requests_at agg.timeline i)
      (λ agg. i < length agg.timeline) step (empty_aggregate w) recs l
    ∙ ap (λ n. n + selected_with (in_bucket w i) f w recs) (requests_at-timeline_of w i t)
    ∙ zero-add _
  where
    step :
        (agg : Aggregate) (rec : Record)
        → i < length agg.timeline
        → is_selected f w rec ≡ true
        → (i < length (counted w agg rec).timeline)
          × (requests_at (counted w agg rec).timeline i
              ≡ requests_at agg.timeline i + one_if (in_bucket w i rec))
    step agg rec within e =
        requests_at-count_in_timeline w agg.timeline i rec t fits (ground arith) (ground arith)
          within
