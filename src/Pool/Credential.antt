-- ===== src/Pool/Credential.antt =====
-- internal/pool/types.go: a pooled account, its readiness and its in-flight reservations.
-- A method that locks `Mu` runs as one step: it takes the credential and returns the new one. Time is
-- an argument (`time.Now()` of the call), in nanoseconds, and 0 is the zero `time.Time`.
pub mod Ready
pub mod InFlight
use kirocc_prox.Base.{
  ℕ, suc, ◌+◌, ◌-◌, Bool, true, false, not, ◌&&◌, Option, none, some, String, str_eq, ltb, leb,
  if◌then◌else◌, ℤ, pos, ltb_ℤ, leb_ℤ, Map, lookup, insert, remove,
}

pub record QuotaState : Type 0 where
  pub exceeded : Bool
  pub next_recover_at : ℕ
  pub backoff_level : ℕ

pub record ModelState : Type 0 where
  pub quota : QuotaState
  pub success : ℕ
  pub failed : ℕ

-- The fields of a quota snapshot that the pool reads; the rest are figures for display.
pub record KiroQuotaSnapshot : Type 0 where
  pub banned : Bool
  pub ban_reason : String

-- Counters count requests and stay far below the end of `int64`, so they are plain numbers. Of the
-- embedded OAuth credentials the pool itself reads the region.
pub record Credential : Type 0 where
  pub id : String
  pub label : String
  pub provider : String
  pub priority : ℤ
  pub disabled : Bool
  pub disable_cooling : Bool
  pub max_in_flight : ℤ
  pub proxy_url : String
  pub runtime_id : ℕ
  pub region : String
  pub quota : QuotaState
  pub model_states : Map ModelState
  pub success : ℕ
  pub failed : ℕ
  pub in_flight : ℕ
  pub in_flight_by_model : Map ℕ
  pub last_used_at : ℕ
  pub disabled_reason : String
  pub disabled_at : ℕ
  pub last_quota : Option KiroQuotaSnapshot
  pub last_quota_at : ℕ
  pub last_quota_error : String
  pub last_quota_error_at : ℕ

abbrev pub no_quota : QuotaState
no_quota = record { exceeded = false; next_recover_at = 0; backoff_level = 0 }

abbrev pub no_model_state : ModelState
no_model_state = record { quota = no_quota; success = 0; failed = 0 }

-- `q.Exceeded && now.Before(q.NextRecoverAt)`
abbrev pub is_cooling : QuotaState → ℕ → Bool
is_cooling q now = q.exceeded && ltb now q.next_recover_at

-- `model != "" && c.ModelStates != nil && ms != nil && ...` on the model's own quota.
abbrev pub model_cooling : Option ModelState → ℕ → Bool
model_cooling none now = false
model_cooling (some ms) now = is_cooling ms.quota now

abbrev pub is_model_cooling : Credential → String → ℕ → Bool
is_model_cooling c model now =
    not (str_eq model "") && model_cooling (lookup model c.model_states) now

-- `c.MaxInFlight > 0 && c.InFlight >= int64(c.MaxInFlight)`
abbrev pub is_full : Credential → Bool
is_full c = ltb_ℤ (pos 0) c.max_in_flight && leb_ℤ c.max_in_flight (pos c.in_flight)

unfoldable pub is_ready_for : Credential → String → ℕ → Bool
is_ready_for c model now =
    if c.disabled
    then false
    else if is_cooling c.quota now
    then false
    else if is_full c
    then false
    else if is_model_cooling c model now
    then false
    else true

unfoldable pub is_ready : Credential → ℕ → Bool
unfolding is_ready_for
is_ready c now = is_ready_for c "" now

unfoldable pub is_in_cooldown : Credential → ℕ → Bool
is_in_cooldown c now = is_cooling c.quota now

-- A missing counter reads as 0.
abbrev pub count_of : Option ℕ → ℕ
count_of none = 0
count_of (some n) = n

-- `if model != "" { c.InFlightByModel[model]++ }`
abbrev pub bump_model : String → Map ℕ → Map ℕ
bump_model model m = if str_eq model "" then m else insert model (count_of (lookup model m) + 1) m

-- The last lines of `Reserve`, shared with the conductor's reservation after Redis accepted one.
abbrev pub add_in_flight : Credential → String → Credential
add_in_flight c model = record c {
  in_flight = c.in_flight + 1;
  in_flight_by_model = bump_model model c.in_flight_by_model;
}

unfoldable pub reserve : Credential → String → ℕ → Credential × Bool
reserve c model now =
    if c.disabled
    then (c, false)
    else if is_cooling c.quota now
    then (c, false)
    else if is_full c
    then (c, false)
    else if is_model_cooling c model now
    then (c, false)
    else (add_in_flight c model, true)

-- `if c.InFlightByModel[model] > 1 { ...-- } else { delete(...) }`
abbrev pub drop_model : String → Map ℕ → Map ℕ
drop_model model m =
    if str_eq model ""
    then m
    else if ltb 1 (count_of (lookup model m))
    then insert model (count_of (lookup model m) - 1) m
    else remove model m

unfoldable pub release_reservation : Credential → String → ℕ → Credential
release_reservation c model now = record c {
  in_flight = if ltb 0 c.in_flight then c.in_flight - 1 else c.in_flight;
  in_flight_by_model = drop_model model c.in_flight_by_model;
  last_used_at = now;
}
