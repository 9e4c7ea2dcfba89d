-- ===== src/Usage/Aggregator.antt =====
-- internal/usage/aggregator.go: the memory store in front of a persistent one. The persistent store
-- is the interface `Store` of internal/usage/types.go; each call of it may fail. A read out of range in the
-- memory store is an error here.
pub mod Writer
use kirocc_prox.Base.{
  ℕ, ◌+◌, ◌≤◌, ◌≡◌, refl, ◌∙◌, ap, sym, Bool, true, false, arith, List, [], ◌∷◌, ◌++◌, Option, none,
  some, String, if◌then◌else◌, ltb, leb, ℤ, pos, negsuc, leb_ℤ, pos_part, length, length-append,
  map, Bool-cases, inl, inr, zero, suc, ◌-◌, not, ◌||◌, str_eq, keep_if, take, subst,
}
use kirocc_prox.Usage.Records.{Record, Filter, Window, Aggregate, contains_string}
use kirocc_prox.Usage.Recent.{append_nil, append_assoc}
use kirocc_prox.Usage.Memory.{MemoryStore, append, len, oldest, query, recent}

-- The reads of a persistent store, at one state of it: `none` is an error.
pub record Store : Type 0 where
  pub find_aggregate : Filter → Window → Option Aggregate
  pub find_recent : Filter → ℤ → Option (List Record)

abbrev pub write_buffer_size : ℕ
write_buffer_size = 4096

-- `writes` is the channel's content, the oldest record first; there is no channel without a store.
-- `appended` are the records that the worker has handed to the store's `Append`, in order, whose errors
-- are only logged, and `store_closed` tells that the store's `Close` was called.
pub record Aggregator : Type 0 where
  pub mem : Option MemoryStore
  pub store : Option Store
  pub writes : List Record
  pub closed : Bool
  pub appended : List Record
  pub store_closed : Bool

unfoldable pub new_aggregator : Option MemoryStore → Option Store → Aggregator
new_aggregator mem persistent = record {
  mem = mem;
  store = persistent;
  writes = [];
  closed = false;
  appended = [];
  store_closed = false;
}

abbrev append_mem : Option MemoryStore → Record → Option MemoryStore
append_mem none r = none
append_mem (some m) r = some (append m r)

-- The channel after a send that does not block.
abbrev pub send : Option Store → Bool → List Record → Record → List Record
send none closed writes r = writes
send (some s) true writes r = writes
send (some s) false writes r =
    if ltb (length writes) write_buffer_size then writes ++ r ∷ [] else writes

unfoldable pub publish : Aggregator → Record → Aggregator
publish a r = record a { mem = append_mem a.mem r; writes = send a.store a.closed a.writes r }

-- One turn of the worker's loop, where a record waits.
abbrev pub write_next : Aggregator → List Record → Aggregator
write_next a [] = a
write_next a (r ∷ rest) = record a { writes = rest; appended = a.appended ++ r ∷ [] }

unfoldable pub write : Aggregator → Aggregator
write a = write_next a a.writes

-- The worker's loop after the channel is closed: over all that is left in it.
unfoldable pub run_writer : List Record → List Record → List Record
run_writer appended [] = appended
run_writer appended (r ∷ rest) = run_writer (appended ++ r ∷ []) rest

abbrev pub has_store : Option Store → Bool
has_store none = false
has_store (some s) = true

-- `Close`: no more records are taken, the worker drains the channel, and then the store is closed.
unfoldable pub close : Aggregator → Aggregator
close a = if a.closed then a else record a {
  closed = true;
  writes = [];
  appended = run_writer a.appended a.writes;
  store_closed = has_store a.store;
}

-- `!window.Start.Before(a.mem.Oldest())`
abbrev covers : Option ℕ → Window → Bool
covers none w = false
covers (some t) w = leb t w.start

abbrev query_without : Option MemoryStore → Option Store → Filter → Window → Option Aggregate
query_without mem (some s) f w = s.find_aggregate f w
query_without (some m) none f w = some (query m f w)
query_without none none f w = none

abbrev query_with : Option MemoryStore → Option Store → Filter → Window → Option Aggregate
query_with none store f w = query_without none store f w
query_with (some m) store f w =
    if ltb 0 (len m)
    then (if covers (oldest m) w then some (query m f w) else query_without (some m) store f w)
    else query_without (some m) store f w

unfoldable pub aggregate : Aggregator → Filter → Window → Option Aggregate
aggregate a f w = query_with a.mem a.store f w

abbrev pub trace_ids : List Record → List String
trace_ids = map (λ r. r.trace_id)

-- `len(out) >= limit`, where the limit is signed.
abbrev pub is_enough : List Record → ℤ → Bool
is_enough out limit = leb_ℤ limit (pos (length out))

-- The loop that adds what memory did not return.
unfoldable pub supplement : List String → ℤ → List Record → List Record → List Record
supplement seen limit out [] = out
supplement seen limit out (r ∷ rest) =
    let kept = supplement seen limit out rest in
    let added = supplement seen limit (out ++ r ∷ []) rest in
    if contains_string seen r.trace_id
    then kept
    else if is_enough (out ++ r ∷ []) limit
    then out ++ r ∷ []
    else added

abbrev pub from_store : ℤ → List Record → Option (List Record) → List Record
from_store limit out none = out
from_store limit out (some found) = supplement (trace_ids out) limit out found

abbrev pub recent_beyond : Option Store → Filter → ℤ → Option (List Record) → Option (List Record)
recent_beyond store f limit none = none
recent_beyond none f limit (some out) = some out
recent_beyond (some s) f limit (some out) =
    if is_enough out limit then some out else some (from_store limit out (s.find_recent f limit))

abbrev pub recent_of : Option MemoryStore → Option Store → Filter → ℤ → Option (List Record)
recent_of (some m) store f limit = recent_beyond store f limit (recent m f limit)
recent_of none (some s) f limit = s.find_recent f limit
recent_of none none f limit = none

unfoldable pub recent_records : Aggregator → Filter → ℤ → Option (List Record)
recent_records a f limit = recent_of a.mem a.store f limit

-- Whether one of the records has the trace ID.
unfoldable pub has_trace : List Record → String → Bool
has_trace [] id = false
has_trace (r ∷ out) id = str_eq r.trace_id id || has_trace out id

-- The records with a trace ID that none of `out` has.
abbrev pub new_beside : List Record → List Record → List Record
new_beside out = keep_if (λ r. not (has_trace out r.trace_id))

-- A failure finds nothing.
abbrev pub found_of : Option (List Record) → List Record
found_of none = []
found_of (some found) = found

contains_string-trace_ids :
    (out : List Record) (id : String) → contains_string (trace_ids out) id ≡ has_trace out id
unfolding contains_string has_trace
contains_string-trace_ids [] id = refl
contains_string-trace_ids (r ∷ out) id = ground (arith, contains_string-trace_ids out id)

room_none : (limit : ℤ) (n : ℕ) → leb_ℤ limit (pos n) ≡ true → pos_part limit - n ≡ 0
room_none (pos k) n l = ground arith
room_none (negsuc k) n l = omega arith

room_one :
    (limit : ℤ) (n : ℕ)
    → leb_ℤ limit (pos n) ≡ false
    → pos_part limit - n ≡ suc (pos_part limit - (n + 1))
room_one (pos k) n l = ground arith
room_one (negsuc k) n l = ground arith

length-next : (out : List Record) (r : Record) → length (out ++ r ∷ []) ≡ length out + 1
length-next out r = omega (arith, length-append out (r ∷ []))

take_none : (n : ℕ) → take {A = Record} n [] ≡ []
take_none zero = refl
take_none (suc n) = refl

-- The loop adds the new records in order, as far as there is room.
supplement_lem :
    (base : List Record) (limit : ℤ) (out found : List Record)
    → is_enough out limit ≡ false
    → supplement (trace_ids base) limit out found
      ≡ out ++ take (pos_part limit - length out) (new_beside base found)
unfolding supplement
supplement_lem base limit out [] l =
    rw (take_none (pos_part limit - length out)) (sym (append_nil out))
supplement_lem base limit out (r ∷ found) l =
    rw (contains_string-trace_ids base r.trace_id) (elim (Bool-cases (has_trace base r.trace_id)) [
      | inl e ↦ rw e (supplement_lem base limit out found l)
      | inr e ↦
          rw (e, room_one limit (length out) l)
            (elim (Bool-cases (is_enough (out ++ r ∷ []) limit)) [
              | inl stop ↦
                  let full : pos_part limit - (length out + 1) ≡ 0 =
                    subst (λ n. pos_part limit - n ≡ 0) (length-next out r)
                      (room_none limit (length (out ++ r ∷ [])) stop) in
                  rw (stop, full) refl
              | inr more ↦
                  let later = supplement_lem base limit (out ++ r ∷ []) found more in
                  rw more (
                    later
                    ∙ ap (λ n. (out ++ r ∷ []) ++ take (pos_part limit - n) (new_beside base found))
                        (length-next out r)
                    ∙ append_assoc out r
                        (take (pos_part limit - (length out + 1)) (new_beside base found)))
            ])
    ])

from_store_lem :
    (limit : ℤ) (out : List Record) (found : Option (List Record))
    → is_enough out limit ≡ false
    → from_store limit out found
      ≡ out ++ take (pos_part limit - length out) (new_beside out (found_of found))
from_store_lem limit out none l =
    rw (take_none (pos_part limit - length out)) (sym (append_nil out))
from_store_lem limit out (some found) l = supplement_lem out limit out found l

-- With both stores, and where memory's own `Recent` answers, `Recent` answers with memory's records and
-- then, as far as the limit leaves room, with those records that the persistent store finds, in its
-- order, whose trace ID no record of memory's answer has. A failure of the persistent store leaves
-- memory's answer.
pub recent_records_lem :
    (a : Aggregator) (m : MemoryStore) (s : Store) (f : Filter) (limit : ℤ) (out : List Record)
    → a.mem ≡ some m
    → a.store ≡ some s
    → recent m f limit ≡ some out
    → recent_records a f limit
      ≡ some (
          out
          ++ take (pos_part limit - length out) (new_beside out (found_of (s.find_recent f limit))))
unfolding recent_records
recent_records_lem a m s f limit out has_mem has_store from_mem =
    rw (has_mem, has_store, from_mem)
      (elim (Bool-cases (is_enough out limit)) [
        | inl e ↦ rw (e, room_none limit (length out) e) (ap some (sym (append_nil out)))
        | inr e ↦ rw e (ap some (from_store_lem limit out (s.find_recent f limit) e))
      ])
