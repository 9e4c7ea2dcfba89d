-- ===== src/Pool/Affinity.antt =====
-- internal/pool/conductor.go: the in-memory map from sessions to accounts, with an expiry that each
-- use renews. Each method runs under the lock, so it is one step; `now` is its `time.Now()`.
use kirocc_prox.Base.{
  ℕ, ◌+◌, ◌≤◌, ◌≡◌, refl, ◌≢◌, List, [], ◌∷◌, arith, Option, none, some, String, str_eq,
  str_eq_refl, str_eq_iff, if◌then◌else◌, Map, lookup, insert, remove, lookup-insert, lookup-remove,
  ltb, ℤ, pos, ltb_ℤ, pos_part, ◌*◌, ◌-◌, length, Option-cases, inl, inr,
}
use kirocc_prox.Pool.Backoff.{minute}

pub record Entry : Type 0 where
  pub cred_id : String
  pub expire_at : ℕ

pub record Affinity : Type 0 where
  pub ttl : ℕ
  pub entries : Map Entry

-- `if ttl <= 0 { ttl = 30 * time.Minute }`
abbrev pub ttl_of : ℤ → ℕ
ttl_of ttl = if ltb_ℤ (pos 0) ttl then pos_part ttl else 30 * minute

unfoldable pub new_affinity : ℤ → Affinity
new_affinity ttl = record { ttl = ttl_of ttl; entries = [] }

abbrev pub get_entry : Affinity → String → ℕ → Option Entry → Affinity × Option String
get_entry a session now none = (a, none)
get_entry a session now (some e) =
    if ltb e.expire_at now then (record a { entries = remove session a.entries }, none) else (
      record a { entries = insert session (record e { expire_at = now + a.ttl }) a.entries },
      some e.cred_id,
    )

unfoldable pub get : Affinity → String → ℕ → Affinity × Option String
get a session now =
    if str_eq session "" then (a, none) else get_entry a session now (lookup session a.entries)

unfoldable pub set : Affinity → String → String → ℕ → Affinity
set a session cred_id now =
    if str_eq session "" then a else if str_eq cred_id "" then a else record a {
      entries = insert session (record { cred_id = cred_id; expire_at = now + a.ttl }) a.entries;
    }

unfoldable pub forget : Affinity → String → Affinity
forget a session = record a { entries = remove session a.entries }

-- The entries that `Sweep` leaves.
unfoldable pub live : ℕ → Map Entry → Map Entry
live now [] = []
live now ((k, e) ∷ m) = if ltb e.expire_at now then live now m else (k, e) ∷ live now m

-- The map after `Sweep`, and how many entries it removed.
unfoldable pub sweep : Affinity → ℕ → Affinity × ℕ
sweep a now =
    (record a { entries = live now a.entries }, length a.entries - length (live now a.entries))

unfoldable pub size : Affinity → ℕ
size a = length a.entries

-- What a session is bound to at a time, with nothing changed.
abbrev pub bound_entry : ℕ → Option Entry → Option String
bound_entry now none = none
bound_entry now (some e) = if ltb e.expire_at now then none else some e.cred_id

unfoldable pub bound : Affinity → String → ℕ → Option String
bound a session now = if str_eq session "" then none else bound_entry now (lookup session a.entries)

-- Each session stands once, as in a Go map.
abbrev pub KeysOnce : Map Entry → Type 0
KeysOnce [] = Unit
KeysOnce ((k, e) ∷ m) = (lookup k m ≡ none) × KeysOnce m

-- `Get` returns the session's binding. Afterwards every other session is bound to what it was, and
-- this one, if it was bound, for another full term from now.
pub get-bound :
    (a : Affinity) (session other : String) (now later : ℕ)
    → now ≤ later
    → ((get a session now).1 ≡ bound a session now)
      × (bound (get a session now).0 other later ≡ (
          if str_eq session other
          then (if ltb (now + a.ttl) later then none else bound a session now)
          else bound a other later))
unfolding get bound
get-bound a session other now later h = elim (Option-cases (lookup session a.entries)) [
  | inl e ↦ rw (e, get_entry) (ground (arith, str_eq_iff session other))
  | inr (v, e) ↦
      rw (e, get_entry)
        (ground (
          arith,
          str_eq_iff session other,
          lookup-insert session other (record v { expire_at = now + a.ttl }) a.entries,
          lookup-remove session other a.entries,
        ))
]

-- `Set` binds the session for a full term and leaves every other binding alone.
pub set-bound :
    (a : Affinity) (session other cred_id : String) (now later : ℕ)
    → session ≢ ""
    → cred_id ≢ ""
    → bound (set a session cred_id now) other later ≡ (
        if str_eq session other
        then (if ltb (now + a.ttl) later then none else some cred_id)
        else bound a other later)
unfolding set bound
set-bound a session other cred_id now later named known = ground (
  arith,
  str_eq_iff session other,
  str_eq_iff session "",
  str_eq_iff cred_id "",
  lookup-insert session other (record { cred_id = cred_id; expire_at = now + a.ttl }) a.entries,
)

lookup-live :
    (k : String) (t : ℕ) (m : Map Entry)
    → KeysOnce m
    → (now : ℕ) → t ≤ now
    → bound_entry now (lookup k (live t m)) ≡ bound_entry now (lookup k m)
unfolding lookup live
lookup-live k t [] h now l = refl
lookup-live k t ((j, e) ∷ m) h now l = ground (arith, str_eq_iff j k, lookup-live k t m h.1 now l)

-- To sweep expired bindings at a time changes no answer of that time or later.
pub sweep-bound :
    (a : Affinity) (session : String) (t now : ℕ)
    → KeysOnce a.entries
    → t ≤ now
    → bound (sweep a t).0 session now ≡ bound a session now
unfolding sweep bound
sweep-bound a session t now h l = ground (arith, lookup-live session t a.entries h now l)

-- The calls of `Get` for a session at the given times.
unfoldable pub gets : Affinity → String → List ℕ → Affinity
gets a session [] = a
gets a session (t ∷ ts) = gets (get a session t).0 session ts

-- Each time follows the one before it within `ttl`, and the last is `later`.
abbrev pub IsBusy : ℕ → ℕ → List ℕ → ℕ → Type 0
IsBusy ttl last [] later = (last ≤ later) × (later ≤ last + ttl)
IsBusy ttl last (t ∷ ts) later = (last ≤ t) × (t ≤ last + ttl) × IsBusy ttl t ts later

ttl-get : (a : Affinity) (session : String) (now : ℕ) → (get a session now).0.ttl ≡ a.ttl
unfolding get
ttl-get a session now = elim (Option-cases (lookup session a.entries)) [
  | inl e ↦ rw (e, get_entry) (ground arith)
  | inr (v, e) ↦ rw (e, get_entry) (ground arith)
]

ttl-set :
    (a : Affinity) (session cred_id : String) (now : ℕ) → (set a session cred_id now).ttl ≡ a.ttl
unfolding set
ttl-set a session cred_id now = ground arith

-- What is bound for a full term from `last` is found by each call of a busy session.
gets-bound :
    (a : Affinity) (session cred_id : String) (last : ℕ) (ts : List ℕ) (later : ℕ)
    → ((t : ℕ)
        → last ≤ t
        → bound a session t ≡ (if ltb (last + a.ttl) t then none else some cred_id))
    → IsBusy a.ttl last ts later
    → bound (gets a session ts) session later ≡ some cred_id
unfolding gets
gets-bound a session cred_id last [] later start busy = ground (arith, start later busy.0)
gets-bound a session cred_id last (t ∷ ts) later start busy =
    gets-bound (get a session t).0 session cred_id t ts later
      (λ u l. rw (ttl-get a session t) (
        ground (arith, (get-bound a session session t u l).1, start t busy.0, str_eq_refl session)))
      (rw (ttl-get a session t) busy.2)

-- A session that keeps coming back within the time to live stays on the account that it was bound
-- to, for any number of calls.
pub gets-set :
    (a : Affinity) (session cred_id : String) (now : ℕ) (ts : List ℕ) (later : ℕ)
    → session ≢ ""
    → cred_id ≢ ""
    → IsBusy a.ttl now ts later
    → bound (gets (set a session cred_id now) session ts) session later ≡ some cred_id
gets-set a session cred_id now ts later named known busy =
    gets-bound (set a session cred_id now) session cred_id now ts later
      (λ t l. ground (
        arith,
        set-bound a session session cred_id now t named known,
        str_eq_refl session,
        ttl-set a session cred_id now,
      ))
      (rw (ttl-set a session cred_id now) busy)
