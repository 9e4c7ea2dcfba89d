-- ===== src/Oauth/StateCache/Nonces.antt =====
-- internal/oauth/state.go: a nonce over any sequence of calls.
use kirocc_prox.Base.{
  ℕ, ◌+◌, ◌≤◌, ◌<◌, ◌≡◌, refl, ◌∙◌, ◌≢◌, arith, List, [], ◌∷◌, none, some, String, str_eq,
  str_eq_iff, str_eq_refl, Map, lookup, lookup-insert, lookup-remove, Bool-cases, Option-cases, inl,
  inr,
}
use kirocc_prox.Oauth.StateCache.{
  StateCache, StateEntry, stamped, put, consume, unexpired, sweep, Call, put_call, consume_call,
  sweep_call, run,
}

-- No call puts an entry under this nonce.
abbrev pub NoPut : String → List Call → Type 0
NoPut state [] = Unit
NoPut state (put_call e now ∷ calls) = (e.state ≢ state) × NoPut state calls
NoPut state (consume_call other now ∷ calls) = NoPut state calls
NoPut state (sweep_call now ∷ calls) = NoPut state calls

unexpired-keeps_none :
    (state : String) (ttl now : ℕ) (m : Map StateEntry)
    → lookup state m ≡ none
    → lookup state (unexpired ttl now m) ≡ none
unfolding lookup unexpired
unexpired-keeps_none state ttl now [] h = refl
unexpired-keeps_none state ttl now ((k, e) ∷ m) h = elim (Bool-cases (str_eq k state)) [
  | inl same ↦ ground (arith, h, same)
  | inr other ↦ ground (arith, h, other, unexpired-keeps_none state ttl now m)
]

consume-forgets :
    (c : StateCache) (state : String) (now : ℕ)
    → lookup state (consume c state now).0.entries ≡ none
unfolding consume
consume-forgets c state now = elim (Option-cases (lookup state c.entries)) [
  | inl e ↦ rw e e
  | inr (v, e) ↦ rw e (ground (arith, lookup-remove state state c.entries, str_eq_refl state))
]

put-keeps_none :
    (c : StateCache) (e : StateEntry) (now : ℕ) (state : String)
    → e.state ≢ state
    → lookup state c.entries ≡ none
    → lookup state (put c e now).entries ≡ none
unfolding put
put-keeps_none c e now state d h =
    ground (arith, lookup-insert e.state state (stamped e now) c.entries, str_eq_iff e.state state)

consume-keeps_none :
    (c : StateCache) (other state : String) (now : ℕ)
    → lookup state c.entries ≡ none
    → lookup state (consume c other now).0.entries ≡ none
unfolding consume
consume-keeps_none c other state now h = elim (Option-cases (lookup other c.entries)) [
  | inl e ↦ rw e h
  | inr (v, e) ↦ rw e (ground (arith, lookup-remove other state c.entries))
]

sweep-keeps_none :
    (c : StateCache) (now : ℕ) (state : String)
    → lookup state c.entries ≡ none
    → lookup state (sweep c now).0.entries ≡ none
unfolding sweep
sweep-keeps_none c now state h = unexpired-keeps_none state c.ttl now c.entries h

run-forgets :
    (c : StateCache) (state : String) (calls : List Call)
    → NoPut state calls
    → lookup state c.entries ≡ none
    → lookup state (run c calls).entries ≡ none
unfolding run
run-forgets c state [] n h = h
run-forgets c state (put_call e now ∷ calls) n h =
    run-forgets (put c e now) state calls n.1 (put-keeps_none c e now state n.0 h)
run-forgets c state (consume_call other now ∷ calls) n h =
    run-forgets (consume c other now).0 state calls n (consume-keeps_none c other state now h)
run-forgets c state (sweep_call now ∷ calls) n h =
    run-forgets (sweep c now).0 state calls n (sweep-keeps_none c now state h)

consume-none :
    (c : StateCache) (state : String) (now : ℕ)
    → lookup state c.entries ≡ none
    → (consume c state now).1 ≡ none
unfolding consume
consume-none c state now h = rw h refl

-- A nonce is good for one callback: once it has been consumed, with success or not, each later attempt
-- fails, whatever other calls come between, unless a new flow puts the same nonce again.
pub consume_once :
    (c : StateCache) (state : String) (now later : ℕ) (calls : List Call)
    → NoPut state calls
    → (consume (run (consume c state now).0 calls) state later).1 ≡ none
consume_once c state now later calls n =
    consume-none (run (consume c state now).0 calls) state later
      (run-forgets (consume c state now).0 state calls n (consume-forgets c state now))

ttl-consume : (c : StateCache) (state : String) (now : ℕ) → (consume c state now).0.ttl ≡ c.ttl
unfolding consume
ttl-consume c state now = elim (Option-cases (lookup state c.entries)) [
  | inl e ↦ rw e refl
  | inr (v, e) ↦ rw e refl
]

consume-keeps :
    (c : StateCache) (other state : String) (now : ℕ) (v : StateEntry)
    → other ≢ state
    → lookup state c.entries ≡ some v
    → lookup state (consume c other now).0.entries ≡ some v
unfolding consume
consume-keeps c other state now v d h = elim (Option-cases (lookup other c.entries)) [
  | inl e ↦ rw e h
  | inr (w, e) ↦ rw e (ground (arith, lookup-remove other state c.entries, str_eq_iff other state))
]

ttl-run : (c : StateCache) (calls : List Call) → (run c calls).ttl ≡ c.ttl
unfolding run put sweep
ttl-run c [] = refl
ttl-run c (put_call e now ∷ calls) = ttl-run (put c e now) calls
ttl-run c (consume_call state now ∷ calls) =
    ttl-run (consume c state now).0 calls ∙ ttl-consume c state now
ttl-run c (sweep_call now ∷ calls) = ttl-run (sweep c now).0 calls

-- No call has this nonce, and each sweep comes before the time.
abbrev pub Spares : String → ℕ → List Call → Type 0
Spares state later [] = Unit
Spares state later (put_call e now ∷ calls) = (e.state ≢ state) × Spares state later calls
Spares state later (consume_call other now ∷ calls) = (other ≢ state) × Spares state later calls
Spares state later (sweep_call now ∷ calls) = (now ≤ later) × Spares state later calls

lookup-unexpired :
    (state : String) (ttl now later : ℕ) (v : StateEntry) (m : Map StateEntry)
    → now ≤ later
    → later ≤ v.created + ttl
    → lookup state m ≡ some v
    → lookup state (unexpired ttl now m) ≡ some v
unfolding lookup unexpired
lookup-unexpired state ttl now later v [] l f h = ground arith
lookup-unexpired state ttl now later v ((k, e) ∷ m) l f h = elim (Bool-cases (str_eq k state)) [
  | inl same ↦ ground (arith, h, same)
  | inr other ↦ ground (arith, h, other, lookup-unexpired state ttl now later v m l f)
]

run-keeps :
    (c : StateCache) (state : String) (later : ℕ) (v : StateEntry) (calls : List Call)
    → Spares state later calls
    → later ≤ v.created + c.ttl
    → lookup state c.entries ≡ some v
    → lookup state (run c calls).entries ≡ some v
unfolding run
run-keeps c state later v [] n f h = h
run-keeps c state later v (put_call e now ∷ calls) n f h =
    run-keeps (put c e now) state later v calls n.1 (unfold put in f) (
      unfold put in
      ground
        (arith, lookup-insert e.state state (stamped e now) c.entries, str_eq_iff e.state state))
run-keeps c state later v (consume_call other now ∷ calls) n f h =
    run-keeps (consume c other now).0 state later v calls n.1 (rw (ttl-consume c other now) f)
      (consume-keeps c other state now v n.0 h)
run-keeps c state later v (sweep_call now ∷ calls) n f h =
    run-keeps (sweep c now).0 state later v calls n.1 (unfold sweep in f)
      (unfold sweep in lookup-unexpired state c.ttl now later v c.entries n.0 f h)

ttl-put : (c : StateCache) (e : StateEntry) (now : ℕ) → (put c e now).ttl ≡ c.ttl
unfolding put
ttl-put c e now = refl

lookup-put :
    (c : StateCache) (e : StateEntry) (now : ℕ)
    → e.created ≡ 0
    → lookup e.state (put c e now).entries ≡ some (record e { created = now })
unfolding put
lookup-put c e now fresh =
    ground
      (arith, lookup-insert e.state e.state (stamped e now) c.entries, str_eq_refl e.state, fresh)

consume-some :
    (c : StateCache) (state : String) (now : ℕ) (v : StateEntry)
    → lookup state c.entries ≡ some v
    → now ≤ v.created + c.ttl
    → (consume c state now).1 ≡ some v
unfolding consume
consume-some c state now v h f = rw h (ground arith)

consume-late :
    (c : StateCache) (state : String) (now : ℕ) (v : StateEntry)
    → lookup state c.entries ≡ some v
    → v.created + c.ttl < now
    → (consume c state now).1 ≡ none
unfolding consume
consume-late c state now v h f = rw h (ground arith)

-- A flow that is put at `now` under a nonce, with its creation time left for the cache to set, is found
-- by its callback within the time to live, with all its data, whatever calls for other nonces and
-- sweeps come between; after the time to live the callback is refused.
pub consume-put :
    (c : StateCache) (e : StateEntry) (now later : ℕ) (calls : List Call)
    → e.created ≡ 0
    → Spares e.state later calls
    → now ≤ later
    → (later ≤ now + c.ttl
        → (consume (run (put c e now) calls) e.state later).1 ≡ some (record e { created = now }))
      × (now + c.ttl < later → (consume (put c e now) e.state later).1 ≡ none)
consume-put c e now later calls fresh n l =
    let found : lookup e.state (put c e now).entries ≡ some (record e { created = now }) =
      lookup-put c e now fresh in
    (
      λ f.
          consume-some (run (put c e now) calls) e.state later (record e { created = now })
            (run-keeps (put c e now) e.state later (record e { created = now }) calls n
              (rw (ttl-put c e now) f) found)
            (rw (ttl-run (put c e now) calls, ttl-put c e now) f),
      λ f.
          consume-late (put c e now) e.state later (record e { created = now }) found
            (rw (ttl-put c e now) f),
    )
