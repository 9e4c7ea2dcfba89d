-- ===== src/Usage/Aggregator/Writer.antt =====
-- The records that reach the persistent store, for internal/usage/aggregator.go.
use kirocc_prox.Base.{
  ◌≡◌, refl, sym, ap, ◌∙◌, Bool, true, false, arith, List, [], ◌∷◌, ◌++◌, Option, none, some,
  if◌then◌else◌, ltb, length, Bool-cases, inl, inr, append_nil, append_assoc, if_both, if_cases,
}
use kirocc_prox.Usage.Records.{Record}
use kirocc_prox.Usage.Memory.{MemoryStore}
use kirocc_prox.Usage.Aggregator.{
  Store, Aggregator, write_buffer_size, send, publish, write_next, write, run_writer, close,
  has_store, new_aggregator,
}

-- A call of `Publish`, a turn of the worker, or a call of `Close`.
pub data Call : Type 0 where
  published : Record → Call
  written : Call
  ended : Call

unfoldable pub step : Aggregator → Call → Aggregator
step a (published r) = publish a r
step a written = write a
step a ended = close a

unfoldable pub run : Aggregator → List Call → Aggregator
run a [] = a
run a (c ∷ cs) = run (step a c) cs

-- The record, if there is a store that is not closed and room in the channel.
abbrev pub taken : Option Store → Bool → List Record → Record → List Record
taken none closed writes r = []
taken (some s) true writes r = []
taken (some s) false writes r = if ltb (length writes) write_buffer_size then r ∷ [] else []

-- The records that are taken up among those published, in order.
unfoldable pub accepted : Aggregator → List Call → List Record
accepted a [] = []
accepted a (published r ∷ cs) =
    taken a.store a.closed a.writes r ++ accepted (step a (published r)) cs
accepted a (written ∷ cs) = accepted (step a written) cs
accepted a (ended ∷ cs) = accepted (step a ended) cs

-- All that was handed to the store or still waits for it.
abbrev due : Aggregator → List Record
due a = a.appended ++ a.writes

send-taken :
    (store : Option Store) (closed : Bool) (writes : List Record) (r : Record)
    → send store closed writes r ≡ writes ++ taken store closed writes r
send-taken none closed writes r = sym (append_nil writes)
send-taken (some s) true writes r = sym (append_nil writes)
send-taken (some s) false writes r = elim (Bool-cases (ltb (length writes) write_buffer_size)) [
  | inl e ↦ rw e refl
  | inr e ↦ rw e (sym (append_nil writes))
]

run_writer_lem : (appended writes : List Record) → run_writer appended writes ≡ appended ++ writes
unfolding run_writer
run_writer_lem appended [] = sym (append_nil appended)
run_writer_lem appended (r ∷ rest) =
    run_writer_lem (appended ++ r ∷ []) rest ∙ append_assoc appended (r ∷ []) rest

write-due :
    (a : Aggregator) (ws : List Record) → a.writes ≡ ws → due (write_next a ws) ≡ a.appended ++ ws
write-due a [] e = ap (λ u. a.appended ++ u) e
write-due a (r ∷ rest) e = append_assoc a.appended (r ∷ []) rest

publish-due :
    (a : Aggregator) (r : Record) → due (publish a r) ≡ due a ++ taken a.store a.closed a.writes r
unfolding publish
publish-due a r =
    ap (λ u. a.appended ++ u) (send-taken a.store a.closed a.writes r)
    ∙ sym (append_assoc a.appended a.writes (taken a.store a.closed a.writes r))

-- What `Close` leaves of an aggregator that is open.
abbrev shut : Aggregator → Aggregator
shut a = record a {
  closed = true;
  writes = [];
  appended = run_writer a.appended a.writes;
  store_closed = has_store a.store;
}

close-due : (a : Aggregator) → due (close a) ≡ due a
unfolding close
close-due a =
    if_both {A = Aggregator} (λ b. due b ≡ due a) a.closed {x = a} {y = shut a} refl
      (append_nil (run_writer a.appended a.writes) ∙ run_writer_lem a.appended a.writes)

run-due : (a : Aggregator) (cs : List Call) → due (run a cs) ≡ due a ++ accepted a cs
unfolding run step accepted write
run-due a [] = sym (append_nil (due a))
run-due a (published r ∷ cs) =
    run-due (publish a r) cs
    ∙ ap (λ u. u ++ accepted (publish a r) cs) (publish-due a r)
    ∙ append_assoc (due a) (taken a.store a.closed a.writes r) (accepted (publish a r) cs)
run-due a (written ∷ cs) =
    run-due (write a) cs ∙ ap (λ u. u ++ accepted (write a) cs) (write-due a a.writes refl)
run-due a (ended ∷ cs) = run-due (close a) cs ∙ ap (λ u. u ++ accepted (close a) cs) (close-due a)

-- With a store: once it is closed nothing waits.
abbrev IsShut : Store → Aggregator → Type 0
IsShut s a = (a.store ≡ some s) × (a.closed ≡ true → (a.writes ≡ []) × (a.store_closed ≡ true))

send_shut :
    (store : Option Store) (s : Store) (closed : Bool) (writes : List Record) (r : Record)
    → store ≡ some s
    → closed ≡ true
    → send store closed writes r ≡ writes
send_shut none s closed writes r e h = refl
send_shut (some t) s true writes r e h = refl
send_shut (some t) s false writes r e h = ground (arith, h)

write_next-IsShut :
    (s : Store) (a : Aggregator) (ws : List Record)
    → a.writes ≡ ws
    → IsShut s a
    → IsShut s (write_next a ws)
write_next-IsShut s a [] e h = h
write_next-IsShut s a (r ∷ rest) e (has, shut') = (has, λ c. ground (arith, e, (shut' c).0))

close-IsShut :
    (s : Store) (a : Aggregator) → IsShut s a → IsShut s (close a) × ((close a).closed ≡ true)
unfolding close
close-IsShut s a (has, shut') =
    if_cases {A = Aggregator} (λ b. IsShut s b × (b.closed ≡ true)) a.closed {x = a} {y = shut a}
      (λ e. ((has, shut'), e)) (λ e. ((has, λ c. (refl, ap has_store has)), refl))

step-IsShut : (s : Store) (a : Aggregator) (c : Call) → IsShut s a → IsShut s (step a c)
unfolding step publish write
step-IsShut s a (published r) (has, shut') =
    (has, λ c. (send_shut a.store s a.closed a.writes r has c ∙ (shut' c).0, (shut' c).1))
step-IsShut s a written h = write_next-IsShut s a a.writes refl h
step-IsShut s a ended h = (close-IsShut s a h).0

run-IsShut : (s : Store) (a : Aggregator) (cs : List Call) → IsShut s a → IsShut s (run a cs)
unfolding run
run-IsShut s a [] h = h
run-IsShut s a (c ∷ cs) h = run-IsShut s (step a c) cs (step-IsShut s a c h)

-- However calls of `Publish`, turns of the worker and calls of `Close` follow each other on an aggregator
-- with a store: when it is closed then, every record that was taken up has been handed to the store, once
-- and in the order of publishing, nothing waits any more, and the store is closed.
pub close-delivers :
    (mem : Option MemoryStore) (s : Store) (cs : List Call)
    → ((close (run (new_aggregator mem (some s)) cs)).appended
        ≡ accepted (new_aggregator mem (some s)) cs)
      × ((close (run (new_aggregator mem (some s)) cs)).writes ≡ [])
      × ((close (run (new_aggregator mem (some s)) cs)).store_closed ≡ true)
unfolding new_aggregator
close-delivers mem s cs =
    let a : Aggregator = new_aggregator mem (some s) in
    let b : Aggregator = close (run a cs) in
    let start : IsShut s a = (refl, λ c. ground (arith, c)) in
    let ((has, shut'), closed) = close-IsShut s (run a cs) (run-IsShut s a cs start) in
    let (none_waits, store_shut) = shut' closed in
    (
      sym (append_nil b.appended)
          ∙ ap (λ u. b.appended ++ u) (sym none_waits)
          ∙ close-due (run a cs)
          ∙ run-due a cs,
      none_waits,
      store_shut,
    )
