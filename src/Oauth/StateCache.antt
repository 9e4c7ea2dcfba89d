-- ===== src/Oauth/StateCache.antt =====
-- internal/oauth/state.go: the nonces of login flows under way. Each method runs under the lock and is
-- one step; `now` is its `time.Now()`, and an entry that is created at 0, the zero time, gets `now`.
use kirocc_prox.Base.{
  ℕ, ◌+◌, ◌-◌, ◌*◌, ◌≤◌, ◌<◌, ◌≡◌, refl, ◌∙◌, ◌≢◌, Bool, arith, List, [], ◌∷◌, Option, none, some,
  String, str_eq, str_eq_iff, str_eq_refl, if◌then◌else◌, Map, lookup, insert, remove,
  lookup-insert, lookup-remove, ltb, ◌==◌, ℤ, pos, leb_ℤ, pos_part, length, Bool-cases,
  Option-cases, inl, inr,
}
pub mod Nonces
use kirocc_prox.Pool.Backoff.{minute}

abbrev pub default_state_ttl : ℕ
default_state_ttl = 10 * minute

pub record StateEntry : Type 0 where
  pub state : String
  pub verifier : String
  pub provider_id : String
  pub redirect_uri : String
  pub created : ℕ
  pub extra : Map String

pub record StateCache : Type 0 where
  pub ttl : ℕ
  pub entries : Map StateEntry

unfoldable pub new_state_cache : ℤ → StateCache
new_state_cache ttl = record {
  ttl = if leb_ℤ ttl (pos 0) then default_state_ttl else pos_part ttl;
  entries = [];
}

abbrev pub stamped : StateEntry → ℕ → StateEntry
stamped entry now = if entry.created == 0 then record entry { created = now } else entry

unfoldable pub put : StateCache → StateEntry → ℕ → StateCache
put c entry now = record c { entries = insert entry.state (stamped entry now) c.entries }

-- `time.Since(e.Created) > c.ttl`
abbrev pub is_expired : ℕ → ℕ → StateEntry → Bool
is_expired ttl now e = ltb (e.created + ttl) now

abbrev pub consume_found :
    StateCache → String → ℕ → Option StateEntry → StateCache × Option StateEntry
consume_found c state now none = (c, none)
consume_found c state now (some e) =
    (record c { entries = remove state c.entries }, if is_expired c.ttl now e then none else some e)

-- `none` is `ErrStateNotFound`.
unfoldable pub consume : StateCache → String → ℕ → StateCache × Option StateEntry
consume c state now = consume_found c state now (lookup state c.entries)

unfoldable pub unexpired : ℕ → ℕ → Map StateEntry → Map StateEntry
unexpired ttl now [] = []
unexpired ttl now ((k, e) ∷ m) =
    if is_expired ttl now e then unexpired ttl now m else (k, e) ∷ unexpired ttl now m

unfoldable pub sweep : StateCache → ℕ → StateCache × ℕ
sweep c now = (
  record c { entries = unexpired c.ttl now c.entries },
  length c.entries - length (unexpired c.ttl now c.entries),
)

unfoldable pub size : StateCache → ℕ
size c = length c.entries

-- One call of the cache, by the start of a flow, its callback or the janitor.
pub data Call : Type 0 where
  put_call : StateEntry → ℕ → Call
  consume_call : String → ℕ → Call
  sweep_call : ℕ → Call

unfoldable pub run : StateCache → List Call → StateCache
run c [] = c
run c (put_call e now ∷ calls) = run (put c e now) calls
run c (consume_call state now ∷ calls) = run (consume c state now).0 calls
run c (sweep_call now ∷ calls) = run (sweep c now).0 calls
