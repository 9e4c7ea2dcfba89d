-- ===== src/Pool/Backoff.antt =====
-- internal/pool/cooldown.go: the cooldown schedule after a rate limit. Durations are nanoseconds.
use kirocc_prox.Base.{
  ℕ, zero, suc, ◌*◌, ◌%◌, ◌^◌, ◌≤◌, ◌≡◌, refl, arith, ltb, if◌then◌else◌, ℤ, pos, negsuc, ltb_ℤ,
  ◌≤ℤ◌, pos_part, min, Bool, true, false,
}
use native.Mathlib.Nat.{pow-suc}

-- `time.Second` in nanoseconds.
abbrev pub second : ℕ
second = 1_000_000_000

abbrev pub minute : ℕ
minute = 60 * second

abbrev pub default_base_backoff : ℕ
default_base_backoff = 30 * second

abbrev pub default_max_backoff : ℕ
default_max_backoff = 30 * minute

-- `if level < 0 { level = 0 }` and `if level > 6 { level = 6 }`.
unfoldable pub clamp_level : ℤ → ℕ
clamp_level (negsuc n) = 0
clamp_level (pos n) = if ltb 6 n then 6 else n

-- The exponential part: `DefaultBaseBackoff << level`, capped.
unfoldable pub backoff_for : ℕ → ℕ
backoff_for level =
    let d = default_base_backoff * 2 ^ level % 2 ^ 64 in
    if ltb default_max_backoff d then default_max_backoff else d

-- A positive `Retry-After` overrides the schedule and is clamped to its bounds.
unfoldable pub clamp_retry_after : ℕ → ℕ
clamp_retry_after r =
    if ltb r default_base_backoff
    then default_base_backoff
    else if ltb default_max_backoff r
    then default_max_backoff
    else r

unfoldable pub next_backoff : ℤ → ℤ → ℕ
next_backoff level retry_after =
    if ltb_ℤ (pos 0) retry_after
    then clamp_retry_after (pos_part retry_after)
    else backoff_for (clamp_level level)

-- The schedule as the documentation gives it, with no cap on the exponent and no machine word:
-- 30s, 60s, 120s, ... and never more than 30 minutes.
abbrev pub documented_schedule : ℕ → ℕ
documented_schedule n = min (default_base_backoff * 2 ^ n) default_max_backoff

two_pow_large : (n : ℕ) → 128 ≤ 2 ^ suc (suc (suc (suc (suc (suc (suc n))))))
two_pow_large zero = omega arith
two_pow_large (suc n) = rw pow-suc (omega (arith, two_pow_large n))

backoff_for_lem : (n : ℕ) → backoff_for (clamp_level (pos n)) ≡ documented_schedule n
unfolding backoff_for clamp_level
backoff_for_lem zero = refl
backoff_for_lem (suc zero) = refl
backoff_for_lem (suc (suc zero)) = refl
backoff_for_lem (suc (suc (suc zero))) = refl
backoff_for_lem (suc (suc (suc (suc zero)))) = refl
backoff_for_lem (suc (suc (suc (suc (suc zero))))) = refl
backoff_for_lem (suc (suc (suc (suc (suc (suc zero)))))) = refl
backoff_for_lem (suc (suc (suc (suc (suc (suc (suc n))))))) = ground (arith, two_pow_large n)

-- Without a positive `Retry-After`, the cooldown at level n is 30 seconds doubled n times, capped at
-- 30 minutes, for every n: the cap on the exponent and the 64-bit shift never show.
pub next_backoff-documented_schedule :
    (n : ℕ) (retry_after : ℤ)
    → retry_after ≤ℤ pos 0
    → next_backoff (pos n) retry_after ≡ documented_schedule n
unfolding next_backoff
next_backoff-documented_schedule n (pos r) h = ground (arith, backoff_for_lem n)
next_backoff-documented_schedule n (negsuc r) h = ground (arith, backoff_for_lem n)

schedule-pos : (n : ℕ) → 1 ≤ 2 ^ n
schedule-pos zero = omega arith
schedule-pos (suc n) = rw pow-suc (omega (arith, schedule-pos n))

backoff_for_bounds :
    (level : ℤ)
    → (default_base_backoff ≤ backoff_for (clamp_level level))
      × (backoff_for (clamp_level level) ≤ default_max_backoff)
backoff_for_bounds (pos n) = omega (arith, backoff_for_lem n, schedule-pos n)
backoff_for_bounds (negsuc n) = unfold backoff_for clamp_level in (omega arith, omega arith)

clamp_retry_after_bounds :
    (r : ℕ)
    → (default_base_backoff ≤ clamp_retry_after r) × (clamp_retry_after r ≤ default_max_backoff)
unfolding clamp_retry_after
clamp_retry_after_bounds r = ground arith

if_both {ℓ} :
    {A : Type ℓ} (P : A → Type 0) (b : Bool) (x y : A) → P x → P y → P (if b then x else y)
if_both P true x y p q = p
if_both P false x y p q = q

-- Whatever the level and the header, negative ones included, a cooldown lasts at least 30 seconds
-- and at most 30 minutes.
pub next_backoff_bounds :
    (level retry_after : ℤ)
    → (default_base_backoff ≤ next_backoff level retry_after)
      × (next_backoff level retry_after ≤ default_max_backoff)
unfolding next_backoff
next_backoff_bounds level retry_after =
    if_both (λ d. (default_base_backoff ≤ d) × (d ≤ default_max_backoff))
      (ltb_ℤ (pos 0) retry_after) _ _ (clamp_retry_after_bounds (pos_part retry_after))
      (backoff_for_bounds level)
