-- ===== src/Respconv/StopSequence/Accounts.antt =====
-- internal/respconv/stop_sequence.go: what the filter emits and keeps back.
use kirocc_prox.Base.{
  ℕ, suc, ◌+◌, ◌-◌, ◌≤◌, ◌<◌, ◌≡◌, refl, sym, ap, true, arith, List, [], ◌∷◌, ◌++◌, none, some, ltb,
  leb, ◌==◌, length, take, take-append-drop, length-drop, All, All-map, Member, Bool-cases,
  Option-cases, inl, inr, ◌⊎◌,
}
use kirocc_prox.Respconv.Text.{Text, is_prefix, index}
use kirocc_prox.Respconv.Accumulator.{ResponseAccumulator}
use kirocc_prox.Respconv.StopSequence.{
  first_match, keep_back, apply_stop_sequence_filter, resolve_stop_reason, max_keep_with,
  add_sequences, init_stop_sequences,
}

pub is_prefix-append : (s t : Text) → is_prefix s t ≡ true → (rest : Text) × (t ≡ s ++ rest)
unfolding is_prefix
is_prefix-append [] t h = (t, refl)
is_prefix-append (c ∷ s) [] h = ground arith
is_prefix-append (c ∷ s) (d ∷ t) h = elim (Bool-cases (c == d)) [
  | inl e ↦
      let same : d ≡ c = ground arith in
      let (rest, f) = is_prefix-append s t (ground (arith, h, e)) in (rest, rw (same, f) refl)
  | inr e ↦ ground (arith, h, e)
]

-- An index splits the text around the sequence.
pub index-append :
    (t s : Text) (i : ℕ) → index t s ≡ some i → (rest : Text) × (t ≡ take i t ++ s ++ rest)
unfolding index
index-append [] s i h = elim (Bool-cases (is_prefix s [])) [
  | inl e ↦
      let first : i ≡ 0 = ground (arith, h, e) in
      let (rest, f) = is_prefix-append s [] e in (rest, rw first f)
  | inr e ↦ ground (arith, h, e)
]
index-append (c ∷ t) s i h = elim (Bool-cases (is_prefix s (c ∷ t))) [
  | inl e ↦
      let first : i ≡ 0 = ground (arith, h, e) in
      let (rest, f) = is_prefix-append s (c ∷ t) e in (rest, rw first f)
  | inr e ↦ elim (Option-cases (index t s)) [
    | inl f ↦ ground (arith, h, e, f)
    | inr (j, f) ↦
        let later : i ≡ suc j = ground (arith, h, e, f) in
        let (rest, g) = index-append t s j f in (rest, rw later (ap (λ u. c ∷ u) g))
  ]
]

first_match-Member :
    (ss : List Text) (t s : Text) (i : ℕ)
    → first_match ss t ≡ some (s, i)
    → Member s ss × (index t s ≡ some i)
unfolding first_match
first_match-Member [] t s i h = ground arith
first_match-Member (r ∷ ss) t s i h = elim (Option-cases (index t r)) [
  | inl e ↦ let (m, f) = first_match-Member ss t s i (ground (arith, h, e)) in (inr m, f)
  | inr (j, e) ↦
      let text : r ≡ s = ground (arith, h, e) in
      let place : j ≡ i = ground (arith, h, e) in (inl (sym text), rw (sym text, sym place) e)
]

first_match-none :
    (ss : List Text) (t : Text) → first_match ss t ≡ none → All (λ s. index t s ≡ none) ss
unfolding first_match
first_match-none [] t h = tt
first_match-none (r ∷ ss) t h = elim (Option-cases (index t r)) [
  | inl e ↦ (e, first_match-none ss t (ground (arith, h, e)))
  | inr (j, e) ↦ ground (arith, h, e)
]

-- What a call of the filter emits and keeps, where no stop sequence has been found, or where one has.
abbrev pub Kept : ResponseAccumulator → Text → ResponseAccumulator → Text → Type 0
Kept a t a' emit =
    (t ≡ emit ++ a'.stop_seq_pending)
    × (length a'.stop_seq_pending ≤ a.stop_seq_max_keep)
    × (a'.local_stop ≡ a.local_stop)
    × All (λ s. index t s ≡ none) a.stop_sequences

abbrev pub Stopped : ResponseAccumulator → Text → ResponseAccumulator → Text → Type 0
Stopped a t a' emit =
    (rest : Text) × (t ≡ emit ++ a'.stop_sequence ++ rest)
    × Member a'.stop_sequence a.stop_sequences
    × (a'.local_stop ≡ true)
    × (a'.stop_seq_pending ≡ [])
    × (resolve_stop_reason a' ≡ ("stop_sequence", some a'.stop_sequence))

keep_back-Kept :
    (a : ResponseAccumulator) (t : Text)
    → All (λ s. index t s ≡ none) a.stop_sequences
    → Kept a t (keep_back a t).0 (keep_back a t).1
keep_back-Kept a t absent = elim (Bool-cases (leb (length t) a.stop_seq_max_keep)) [
  | inl e ↦ rw e (refl, ground arith, refl, absent)
  | inr e ↦ rw e (
    sym (take-append-drop (length t - a.stop_seq_max_keep) t),
    ground (arith, length-drop (length t - a.stop_seq_max_keep) t),
    refl,
    absent,
  )
]

resolve_stopped :
    (a : ResponseAccumulator)
    → a.stop_reason ≡ "stop_sequence"
    → resolve_stop_reason a ≡ ("stop_sequence", some a.stop_sequence)
unfolding resolve_stop_reason
resolve_stopped a h = rw h refl

-- Each call of the filter accounts for all the text that it had and got. Either no stop sequence occurs
-- there: then what it emits and what it keeps back make up that text, and it keeps back no more than its
-- bound. Or one occurs: then the emitted text is what stands before it, nothing is kept back, and the
-- stop reason names that sequence.
pub apply_stop_sequence_filter-accounts :
    (a : ResponseAccumulator) (delta : Text)
    → Kept a
        (a.stop_seq_pending ++ delta)
        (apply_stop_sequence_filter a delta).0
        (apply_stop_sequence_filter a delta).1
      ⊎ Stopped a
          (a.stop_seq_pending ++ delta)
          (apply_stop_sequence_filter a delta).0
          (apply_stop_sequence_filter a delta).1
unfolding apply_stop_sequence_filter
apply_stop_sequence_filter-accounts a delta =
    let t : Text = a.stop_seq_pending ++ delta in
    elim (Option-cases (first_match a.stop_sequences t)) [
      | inl e ↦ inl (rw e (keep_back-Kept a t (first_match-none a.stop_sequences t e)))
      | inr ((s, i), e) ↦
          let (m, f) = first_match-Member a.stop_sequences t s i e in
          let (rest, g) = index-append t s i f in
          inr (rw e (rest, g, m, refl, refl, resolve_stopped _ refl))
    ]

-- A stop sequence that is not empty and whose proper starts fit in what is kept back.
abbrev pub Fits : ℕ → Text → Type 0
Fits keep s = (0 < length s) × (length s ≤ keep + 1)

All-snoc : (P : Text → Type 0) (xs : List Text) (x : Text) → All P xs → P x → All P (xs ++ x ∷ [])
All-snoc P [] x a g = (g, tt)
All-snoc P (y ∷ xs) x a g = (a.0, All-snoc P xs x a.1 g)

add_sequences-Fits :
    (seqs : List Text) (keep : ℕ) (rest : List Text)
    → All (Fits keep) seqs
    → All (Fits (add_sequences seqs keep rest).1) (add_sequences seqs keep rest).0
unfolding add_sequences
add_sequences-Fits seqs keep [] a = a
add_sequences-Fits seqs keep (s ∷ rest) a = elim (Bool-cases (ltb 0 (length s))) [
  | inl e ↦ rw e (
      add_sequences-Fits (seqs ++ s ∷ []) (max_keep_with keep s) rest (
        All-snoc (Fits (max_keep_with keep s)) seqs s
          (All-map (Fits keep) (Fits (max_keep_with keep s)) seqs
            (λ u f. (f.0, ground (arith, f.1))) a)
          (ground arith, ground arith)))
  | inr e ↦ rw e (add_sequences-Fits seqs keep rest a)
]

-- After `initStopSequences` every stop sequence is non-empty and at most one longer than what the filter
-- keeps back, so that its proper starts always fit.
pub init_stop_sequences-Fits :
    (a : ResponseAccumulator) (seqs : List Text)
    → All
        (Fits (init_stop_sequences a seqs).stop_seq_max_keep)
        (init_stop_sequences a seqs).stop_sequences
unfolding init_stop_sequences
init_stop_sequences-Fits a seqs = add_sequences-Fits [] 0 seqs tt
