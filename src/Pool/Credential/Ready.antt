-- ===== src/Pool/Credential/Ready.antt =====
-- When an account can be selected, and that the two copies of the test agree.
use kirocc_prox.Base.{ℕ, suc, ◌≡◌, ◌⊎◌, true, false, String, arith, pos, ◌≤ℤ◌}
use kirocc_prox.Pool.Credential.{Credential, is_cooling, is_model_cooling, is_ready_for, reserve}

-- What the documentation asks of a selectable account.
pub record IsSelectable (c : Credential) (model : String) (now : ℕ) : Type 0 where
  pub enabled : c.disabled ≡ false
  pub cool : is_cooling c.quota now ≡ false
  pub room : (c.max_in_flight ≤ℤ pos 0) ⊎ (pos (suc c.in_flight) ≤ℤ c.max_in_flight)
  pub model_cool : is_model_cooling c model now ≡ false

pub IsSelectable-of_ready :
    (c : Credential) (model : String) (now : ℕ)
    → is_ready_for c model now ≡ true
    → IsSelectable c model now
unfolding is_ready_for
IsSelectable-of_ready c model now h = ground arith

pub ready_of_IsSelectable :
    (c : Credential) (model : String) (now : ℕ)
    → IsSelectable c model now
    → is_ready_for c model now ≡ true
unfolding is_ready_for
ready_of_IsSelectable c model now h = ground arith

-- `Reserve` succeeds exactly when `IsReadyFor` says so at the same instant.
pub reserve-is_ready_for :
    (c : Credential) (model : String) (now : ℕ) → (reserve c model now).1 ≡ is_ready_for c model now
unfolding reserve is_ready_for
reserve-is_ready_for c model now = ground arith
