-- ===== src/Pool/Store.antt =====
-- The `*Credential` pointers of the pool. Requests, the scheduler's map and the selectors share
-- credentials by pointer, so a heap gives the object behind each address.
use kirocc_prox.Base.{ℕ, ◌==◌, if◌then◌else◌, ◌≡◌, arith}
use kirocc_prox.Pool.Credential.{Credential}

abbrev pub Heap : Type 0
Heap = ℕ → Credential

-- A write through the pointer `p`.
abbrev pub update : Heap → ℕ → Credential → Heap
update h p c q = if q == p then c else h q

pub update_self : (h : Heap) (p : ℕ) (c : Credential) → update h p c p ≡ c
update_self h p c = ground arith
