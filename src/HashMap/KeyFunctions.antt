-- ===== src/HashMap/KeyFunctions.antt =====
-- The two function pointers of `struct hashmap_t` in skel/hashmap.h.
use hashring_load_balancer.Base.{ℕ, ◌≡◌, ◌↔◌, Bool, true}
use hashring_load_balancer.Base.Int.{ℤ, is_zero}

pub record Key (K : Type 0) : Type 0 where
  pub hash : K → ℕ
  pub compare : K → K → ℤ
  -- zero exactly on equal keys
  pub compare_iff : (a b : K) → (is_zero (compare a b) ≡ true) ↔ (a ≡ b)

-- `key_compare_func(a, b) == 0`
infix 50 ◌≈◌
abbrev pub ◌≈◌ : {K : Type 0} ⦃key : Key K⦄ → K → K → Bool
◌≈◌ ⦃key⦄ a b = is_zero (key.compare a b)
