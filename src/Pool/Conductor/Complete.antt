-- ===== src/Pool/Conductor/Complete.antt =====
-- internal/pool/conductor_default.go: what `Acquire` returns when no other request intervenes.
use kirocc_prox.Base.{
  ℕ, ◌≡◌, refl, sym, ◌∙◌, Bool, true, false, arith, [], Option, none, some, String, lookup, All,
  Empty, Bool-cases, inl, inr,
}
use kirocc_prox.Pool.Credential.{Credential, is_ready_for, reserve, add_in_flight}
use kirocc_prox.Pool.Store.{Heap, update}
use kirocc_prox.Pool.Scheduler.State.{Scheduler}
use kirocc_prox.Pool.Scheduler.Listing.{all}
use kirocc_prox.Pool.Scheduler.Register.{lookup_id}
use kirocc_prox.Pool.Affinity.{Affinity, get}
use kirocc_prox.Pool.Conductor.Candidates.{
  pick-All, pick_nothing, IsReadyAt, IsRegistered, IsCandidate, candidates_lem,
}
use kirocc_prox.Pool.Conductor.{
  Conductor, Acquired, acquired, no_ready, context_done, local_reserve, pick_and_reserve, acquire,
  reserve_picked, pick_one, bind_acquired, acquire_new, acquire_bound, acquire_found, acquire_with,
}

reserve_ready :
    (c : Credential) (model : String) (now : ℕ)
    → is_ready_for c model now ≡ true
    → reserve c model now ≡ (add_in_flight c model, true)
unfolding reserve is_ready_for
reserve_ready c model now h = ground (arith, h)

reserve_refused :
    (c : Credential) (model : String) (now : ℕ)
    → is_ready_for c model now ≡ false
    → reserve c model now ≡ (c, false)
unfolding reserve is_ready_for
reserve_refused c model now h = ground (arith, h)

update_same : (h : Heap) (p q : ℕ) → update h p (h p) q ≡ h q
update_same h p q = ground arith

pub local_reserve_ready :
    (s : Scheduler) (p : ℕ) (model : String) (now : ℕ)
    → IsReadyAt s.heap model now p
    → local_reserve s p model now
      ≡ (record s { heap = update s.heap p (add_in_flight (s.heap p) model) }, true)
unfolding local_reserve
local_reserve_ready s p model now h = rw (reserve_ready (s.heap p) model now h) refl

local_reserve_refused :
    (s : Scheduler) (p : ℕ) (model : String) (now : ℕ)
    → is_ready_for (s.heap p) model now ≡ false
    → local_reserve s p model now ≡ (s, false)
unfolding local_reserve
local_reserve_refused s p model now h =
    rw (reserve_refused (s.heap p) model now h)
      (λ i. (record s { heap = λ q. update_same s.heap p q i }, false))

-- What a request gets from the pool: the slot of a registered account that was ready for the model, and
-- nothing else changes there; or no account, when each registered one was not ready, and no change.
abbrev pub Served : Scheduler → String → ℕ → Scheduler → Acquired → Type 0
Served s model now s' (acquired p) =
    IsRegistered s.creds p
    × IsReadyAt s.heap model now p
    × (s' ≡ record s { heap = update s.heap p (add_in_flight (s.heap p) model) })
Served s model now s' no_ready =
    (s' ≡ s) × All (λ p. is_ready_for (s.heap p) model now ≡ false) (all s)
Served s model now s' context_done = Empty

reserve_picked-none :
    (d : Conductor) (model : String) (now : ℕ) (picked : Option ℕ)
    → picked ≡ none
    → All (λ p. is_ready_for (d.sched.heap p) model now ≡ false) (all d.sched)
    → Served d.sched model now
        (reserve_picked d model now picked).0.sched
        (reserve_picked d model now picked).1
reserve_picked-none d model now none e none_ready = (refl, none_ready)
reserve_picked-none d model now (some p) e none_ready = ground arith

reserve_picked-some :
    (d : Conductor) (model : String) (now : ℕ) (picked : Option ℕ) (p : ℕ)
    → picked ≡ some p
    → IsCandidate d.sched model now p
    → Served d.sched model now
        (reserve_picked d model now picked).0.sched
        (reserve_picked d model now picked).1
reserve_picked-some d model now picked p e (registered, is_ready) =
    rw (e, local_reserve_ready d.sched p model now is_ready) (registered, is_ready, refl)

pick_and_reserve-Served :
    (d : Conductor) (model hint : String) (now : ℕ)
    → Served d.sched model now
        (pick_and_reserve d model hint now []).0.sched
        (pick_and_reserve d model hint now []).1
unfolding pick_and_reserve
pick_and_reserve-Served d model hint now = elim (candidates_lem d.sched model hint now) [
  | inl (e, none_ready) ↦
      reserve_picked-none (pick_one d model hint now).0 model now _
        (rw e (pick_nothing d.sched.heap d.selector)) none_ready
  | inr (c, rest, e, within) ↦
      let (p, picked, candidate) =
        pick-All (IsCandidate d.sched model now) d.sched.heap d.selector c rest within in
      reserve_picked-some (pick_one d model hint now).0 model now _ p (rw e picked) candidate
]

bind_acquired-Served :
    (s : Scheduler) (model : String) (now : ℕ) (r : Conductor × Acquired) (session : String)
    (had_binding : Bool)
    → Served s model now r.0.sched r.1
    → Served s model now
        (bind_acquired r session had_binding now).0.sched
        (bind_acquired r session had_binding now).1
bind_acquired-Served s model now (d, acquired p) session had_binding h = h
bind_acquired-Served s model now (d, no_ready) session had_binding h = h
bind_acquired-Served s model now (d, context_done) session had_binding h = h

acquire_new-Served :
    (d : Conductor) (model session hint : String) (now : ℕ) (had_binding : Bool)
    → Served d.sched model now
        (acquire_new d model session hint now [] had_binding).0.sched
        (acquire_new d model session hint now [] had_binding).1
acquire_new-Served d model session hint now had_binding =
    bind_acquired-Served d.sched model now (pick_and_reserve d model hint now []) session
      had_binding (pick_and_reserve-Served d model hint now)

acquire_bound-Served :
    (d : Conductor) (model session hint : String) (now : ℕ) (bound : Option ℕ)
    → ((p : ℕ) → bound ≡ some p → IsRegistered d.sched.creds p)
    → Served d.sched model now
        (acquire_bound d model session hint now [] bound).0.sched
        (acquire_bound d model session hint now [] bound).1
acquire_bound-Served d model session hint now none f =
    acquire_new-Served d model session hint now true
acquire_bound-Served d model session hint now (some p) f =
    elim (Bool-cases (is_ready_for (d.sched.heap p) model now)) [
      | inl e ↦ rw (local_reserve_ready d.sched p model now e) (f p refl, e, refl)
      | inr e ↦
          rw (local_reserve_refused d.sched p model now e)
            (acquire_new-Served d model session hint now true)
    ]

lookup_id_lem : (s : Scheduler) (id : String) → lookup_id s id ≡ lookup id s.creds
lookup_id_lem s id = refl

acquire_found-Served :
    (d : Conductor) (model session hint : String) (now : ℕ) (found : Option String)
    → Served d.sched model now
        (acquire_found d model session hint now [] found).0.sched
        (acquire_found d model session hint now [] found).1
acquire_found-Served d model session hint now none =
    acquire_new-Served d model session hint now false
acquire_found-Served d model session hint now (some id) =
    acquire_bound-Served d model session hint now (lookup_id d.sched id)
      (λ p e. (id, sym (lookup_id_lem d.sched id) ∙ e))

acquire_with-Served :
    (d : Conductor) (model session hint : String) (now : ℕ) (aff : Option Affinity)
    → Served d.sched model now
        (acquire_with d model session hint now [] aff).0.sched
        (acquire_with d model session hint now [] aff).1
acquire_with-Served d model session hint now none =
    acquire_new-Served d model session hint now false
acquire_with-Served d model session hint now (some a) =
    acquire_found-Served (record d { affinity = some (get a session now).0 }) model session hint now
      (get a session now).1

-- Without Redis and with no other request between `Pick` and `Reserve`, `Acquire` serves a request
-- exactly when it can, with any strategy, session, binding and region hint: it returns a registered
-- account that was ready for the model, with one more request in flight and nothing else changed in the
-- pool; or it reports that none is ready, and then each registered account was not ready and the pool
-- is unchanged. It never gives up otherwise.
pub acquire-IsServed :
    (d : Conductor) (model session hint : String) (now : ℕ)
    → Served d.sched model now
        (acquire d model session hint now []).0.sched
        (acquire d model session hint now []).1
unfolding acquire
acquire-IsServed d model session hint now = acquire_with-Served d model session hint now d.affinity
