-- ===== src/Respconv/Tests.antt =====
-- The stop sequence filter on a concrete stream, and its theorems there.
use kirocc_prox.Base.{◌≡◌, ◌⊎◌, refl, [], ◌∷◌, ◌++◌, List, pos}
use kirocc_prox.Respconv.Text.{Text, index, is_prefix}
use kirocc_prox.Respconv.Accumulator.{ResponseAccumulator, empty_accumulator}
use kirocc_prox.Respconv.StopSequence.{
  apply_stop_sequence_filter, first_match, init_stop_sequences, add_sequences,
}
use kirocc_prox.Respconv.StopSequence.Accounts.{Kept, Stopped, apply_stop_sequence_filter-accounts}

abbrev fresh : ResponseAccumulator
fresh = empty_accumulator (pos 0)

abbrev sequences : List Text
sequences = (7 ∷ 8 ∷ 9 ∷ []) ∷ [] ∷ (5 ∷ []) ∷ []

abbrev first : ResponseAccumulator × Text
first = apply_stop_sequence_filter (init_stop_sequences fresh sequences) (1 ∷ 2 ∷ 7 ∷ 8 ∷ [])

-- The sequence 7 8 9 is found although it is split between two deltas.
split_runs :
    (first.1 ≡ 1 ∷ 2 ∷ [])
    × ((apply_stop_sequence_filter first.0 (9 ∷ 4 ∷ [])).1 ≡ [])
    × ((apply_stop_sequence_filter first.0 (9 ∷ 4 ∷ [])).0.stop_sequence ≡ 7 ∷ 8 ∷ 9 ∷ [])
unfolding apply_stop_sequence_filter first_match index is_prefix init_stop_sequences add_sequences
split_runs = (refl, refl, refl)

apply_stop_sequence_filter-accounts_example :
    Kept first.0
      (first.0.stop_seq_pending ++ (9 ∷ 4 ∷ []))
      (apply_stop_sequence_filter first.0 (9 ∷ 4 ∷ [])).0
      (apply_stop_sequence_filter first.0 (9 ∷ 4 ∷ [])).1
    ⊎ Stopped first.0
        (first.0.stop_seq_pending ++ (9 ∷ 4 ∷ []))
        (apply_stop_sequence_filter first.0 (9 ∷ 4 ∷ [])).0
        (apply_stop_sequence_filter first.0 (9 ∷ 4 ∷ [])).1
apply_stop_sequence_filter-accounts_example =
    apply_stop_sequence_filter-accounts first.0 (9 ∷ 4 ∷ [])
