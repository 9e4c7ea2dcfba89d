-- ===== src/Pool/Conductor/Sticky.antt =====
-- internal/pool/conductor_default.go: the sticky sessions of `Acquire`.
use kirocc_prox.Base.{
  ℕ, ◌+◌, ◌≤◌, ◌≡◌, refl, ◌∙◌, true, arith, List, [], ◌∷◌, Option, none, some, String, str_eq_refl,
  Bool-cases, inl, inr, All, Empty,
}
use kirocc_prox.Pool.Scheduler.Register.{lookup_id}
use kirocc_prox.Pool.Affinity.{Affinity, get, bound, get-bound}
use kirocc_prox.Pool.Conductor.Candidates.{IsReadyAt}
use kirocc_prox.Pool.Conductor.Complete.{local_reserve_ready}
use kirocc_prox.Pool.Conductor.{
  Conductor, Acquired, acquired, no_ready, context_done, local_reserve, pick_and_reserve, acquire,
  reserve_picked, bind_acquired, acquire_new, acquire_bound, or_again, bind, pick_one,
}

-- A session that is bound to a registered account gets that account whenever it is ready for the model,
-- whatever the strategy, the region hint and other requests would have it.
pub acquire-bound :
    (d : Conductor) (a : Affinity) (model session hint id : String) (p now : ℕ)
    (others : List (Conductor → Conductor))
    → d.affinity ≡ some a
    → bound a session now ≡ some id
    → lookup_id d.sched id ≡ some p
    → IsReadyAt d.sched.heap model now p
    → (acquire d model session hint now others).1 ≡ acquired p
unfolding acquire
acquire-bound d a model session hint id p now others has_affinity is_bound registered is_ready =
    rw
      (
        has_affinity,
        (get-bound a session session now now (omega arith)).0 ∙ is_bound,
        registered,
        local_reserve_ready d.sched p model now is_ready,
      )
      refl

module _ (session id : String) (later : ℕ) where
  -- At that time the session is bound to that account.
  abbrev pub IsBoundIn : Option Affinity → Type 0
  IsBoundIn none = Empty
  IsBoundIn (some a) = bound a session later ≡ some id

  -- A step of another request that does not bind or unbind this session; it may do anything else.
  abbrev pub LeavesBound : (Conductor → Conductor) → Type 0
  LeavesBound other = (d : Conductor) → IsBoundIn d.affinity → IsBoundIn (other d).affinity

  reserve_picked-IsBoundIn :
      (d : Conductor) (model : String) (now : ℕ) (picked : Option ℕ)
      → IsBoundIn d.affinity
      → IsBoundIn (reserve_picked d model now picked).0.affinity
  reserve_picked-IsBoundIn d model now none h = h
  reserve_picked-IsBoundIn d model now (some p) h = h

  or_again-IsBoundIn :
      (r again : Conductor × Acquired)
      → IsBoundIn r.0.affinity
      → IsBoundIn again.0.affinity
      → IsBoundIn (or_again r again).0.affinity
  or_again-IsBoundIn (d, acquired p) again h k = h
  or_again-IsBoundIn (d, no_ready) again h k = h
  or_again-IsBoundIn (d, context_done) again h k = k

  pick_and_reserve-IsBoundIn :
      (d : Conductor) (model hint : String) (now : ℕ) (others : List (Conductor → Conductor))
      → All LeavesBound others
      → IsBoundIn d.affinity
      → IsBoundIn (pick_and_reserve d model hint now others).0.affinity
  unfolding pick_and_reserve
  pick_and_reserve-IsBoundIn d model hint now [] leave h =
      let (d', picked) = pick_one d model hint now in reserve_picked-IsBoundIn d' model now picked h
  pick_and_reserve-IsBoundIn d model hint now (other ∷ others) (leaves, leave) h =
      let (d', picked) = pick_one d model hint now in
      let r : Conductor × Acquired = reserve_picked (other d') model now picked in
      let reserved = reserve_picked-IsBoundIn (other d') model now picked (leaves d' h) in
      or_again-IsBoundIn r (pick_and_reserve r.0 model hint now others) reserved
        (pick_and_reserve-IsBoundIn r.0 model hint now others leave reserved)

  bind-IsBoundIn :
      (aff : Option Affinity) (cred_id : String) (now : ℕ)
      → IsBoundIn aff
      → IsBoundIn (bind aff session true cred_id now)
  bind-IsBoundIn none cred_id now h = elim h [ ]
  bind-IsBoundIn (some a) cred_id now h = h

  bind_acquired-IsBoundIn :
      (r : Conductor × Acquired) (now : ℕ)
      → IsBoundIn r.0.affinity
      → IsBoundIn (bind_acquired r session true now).0.affinity
  bind_acquired-IsBoundIn (d, acquired p) now h =
      bind-IsBoundIn d.affinity (d.sched.heap p).id now h
  bind_acquired-IsBoundIn (d, no_ready) now h = h
  bind_acquired-IsBoundIn (d, context_done) now h = h

  acquire_new-IsBoundIn :
      (d : Conductor) (model hint : String) (now : ℕ) (others : List (Conductor → Conductor))
      → All LeavesBound others
      → IsBoundIn d.affinity
      → IsBoundIn (acquire_new d model session hint now others true).0.affinity
  acquire_new-IsBoundIn d model hint now others leave h =
      bind_acquired-IsBoundIn (pick_and_reserve d model hint now others) now
        (pick_and_reserve-IsBoundIn d model hint now others leave h)

  acquire_bound-IsBoundIn :
      (d : Conductor) (model hint : String) (now : ℕ) (others : List (Conductor → Conductor))
      (held : Option ℕ)
      → All LeavesBound others
      → IsBoundIn d.affinity
      → IsBoundIn (acquire_bound d model session hint now others held).0.affinity
  acquire_bound-IsBoundIn d model hint now others none leave h =
      acquire_new-IsBoundIn d model hint now others leave h
  acquire_bound-IsBoundIn d model hint now others (some p) leave h =
      elim (Bool-cases (local_reserve d.sched p model now).1) [
        | inl e ↦ rw e h
        | inr e ↦ rw e (
            acquire_new-IsBoundIn (record d { sched = (local_reserve d.sched p model now).0 }) model
              hint now others leave h)
      ]

-- A request never rebinds a session that it found bound: the session stays bound to its account for a
-- further term from now, even where the account is cooling down, full or removed and another one serves
-- the request. The steps of other requests between `Pick` and `Reserve` may change the pool, the
-- selector and the other sessions, but do not themselves bind or unbind this session.
pub acquire-keeps_bound :
    (d : Conductor) (a : Affinity) (model session hint id : String) (now later : ℕ)
    (others : List (Conductor → Conductor))
    → d.affinity ≡ some a
    → bound a session now ≡ some id
    → now ≤ later
    → later ≤ now + a.ttl
    → All (LeavesBound session id later) others
    → IsBoundIn session id later (acquire d model session hint now others).0.affinity
unfolding acquire
acquire-keeps_bound d a model session hint id now later others has_affinity is_bound l within
      leave =
    let found : (get a session now).1 ≡ some id =
      (get-bound a session session now later l).0 ∙ is_bound in
    let renewed : bound (get a session now).0 session later ≡ some id =
      ground (arith, (get-bound a session session now later l).1, str_eq_refl session, is_bound) in
    rw (has_affinity, found)
      (acquire_bound-IsBoundIn session id later (record d { affinity = some (get a session now).0 })
        model hint now others (lookup_id d.sched id) leave renewed)
