-- ===== src/Respconv/StopSequence.antt =====
-- internal/respconv/stop_sequence.go: the search for stop sequences in the text as it streams.
pub mod Accounts
use kirocc_prox.Base.{
  ℕ, suc, ◌+◌, ◌-◌, ◌≤◌, ◌<◌, ◌≡◌, refl, sym, ap, Bool, true, false, arith, List, [], ◌∷◌, ◌++◌,
  Option, none, some, String, str_eq, if◌then◌else◌, ltb, leb, ◌==◌, length, take, drop,
  take-append-drop, length-drop, All, All-map, Member, Bool-cases, Option-cases, inl, inr, ◌⊎◌,
}
use kirocc_prox.Respconv.Text.{Text, index}
use kirocc_prox.Respconv.Accumulator.{ResponseAccumulator}

abbrev pub match_or : Text → Option ℕ → Option (Text × ℕ) → Option (Text × ℕ)
match_or s none later = later
match_or s (some i) later = some (s, i)

-- The first stop sequence of the list that occurs, and where.
unfoldable pub first_match : List Text → Text → Option (Text × ℕ)
first_match [] t = none
first_match (s ∷ ss) t = match_or s (index t s) (first_match ss t)

-- With no match, what may be the start of one is kept back.
abbrev pub keep_back : ResponseAccumulator → Text → ResponseAccumulator × Text
keep_back a t =
    if leb (length t) a.stop_seq_max_keep then (record a { stop_seq_pending = t }, []) else (
      record a { stop_seq_pending = drop (length t - a.stop_seq_max_keep) t },
      take (length t - a.stop_seq_max_keep) t,
    )

abbrev pub after_match : ResponseAccumulator → Text → Option (Text × ℕ) → ResponseAccumulator × Text
after_match a t none = keep_back a t
after_match a t (some (s, i)) = (
  record a {
    stop_seq_pending = [];
    local_stop = true;
    stop_reason = "stop_sequence";
    stop_sequence = s;
  },
  take i t,
)

unfoldable pub apply_stop_sequence_filter : ResponseAccumulator → Text → ResponseAccumulator × Text
apply_stop_sequence_filter a delta =
    after_match a (a.stop_seq_pending ++ delta)
      (first_match a.stop_sequences (a.stop_seq_pending ++ delta))

unfoldable pub flush_stop_seq_pending : ResponseAccumulator → ResponseAccumulator × Text
flush_stop_seq_pending a = (record a { stop_seq_pending = [] }, a.stop_seq_pending)

unfoldable pub resolve_stop_reason : ResponseAccumulator → String × Option Text
resolve_stop_reason a =
    if str_eq a.stop_reason ""
    then (if a.has_tool_use then ("tool_use", none) else ("end_turn", none))
    else if str_eq a.stop_reason "stop_sequence"
    then (a.stop_reason, some a.stop_sequence)
    else (a.stop_reason, none)

abbrev pub max_keep_with : ℕ → Text → ℕ
max_keep_with keep s = if ltb keep (length s - 1) then length s - 1 else keep

-- The loop of `initStopSequences` over the sequences that are left.
unfoldable pub add_sequences : List Text → ℕ → List Text → List Text × ℕ
add_sequences seqs keep [] = (seqs, keep)
add_sequences seqs keep (s ∷ rest) =
    let skipped = add_sequences seqs keep rest in
    let added = add_sequences (seqs ++ s ∷ []) (max_keep_with keep s) rest in
    if ltb 0 (length s) then added else skipped

unfoldable pub init_stop_sequences : ResponseAccumulator → List Text → ResponseAccumulator
init_stop_sequences a seqs =
    let r = add_sequences [] 0 seqs in record a { stop_sequences = r.0; stop_seq_max_keep = r.1 }
