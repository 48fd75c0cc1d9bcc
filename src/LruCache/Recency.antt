-- ===== src/LruCache/Recency.antt =====
-- What skel/lru_cache.c promises: a list of distinct keys with their values, the most recently used
-- one first, of bounded length.
use hashring_load_balancer.Base.{
  ℕ, ◌==◌, if◌then◌else◌, Bool, true, false, Option, none, some, List, [], ◌∷◌, length,
}
use hashring_load_balancer.HashMap.KeyFunctions.{Key, ◌≈◌}

abbrev pub Entries : Type 0 → Type 0 → Type 0
Entries K V = List (K × V)

module _ {A : Type 0} where
  abbrev pub drop_last : List A → List A
  drop_last [] = []
  drop_last (a ∷ []) = []
  drop_last (a ∷ b ∷ l) = a ∷ drop_last (b ∷ l)

  abbrev pub last_of : A → List A → A
  last_of a [] = a
  last_of a (b ∷ l) = last_of b l

module _ {K V : Type 0} ⦃key : Key K⦄ where
  abbrev pub lookup : K → Entries K V → Option V
  lookup k [] = none
  lookup k (e ∷ es) = if k ≈ e.0 then some e.1 else lookup k es

  abbrev pub without : K → Entries K V → Entries K V
  without k [] = []
  without k (e ∷ es) = if k ≈ e.0 then es else e ∷ without k es

  -- a use of `k`
  abbrev pub touched : K → Option V → Entries K V → Entries K V
  touched k none es = es
  touched k (some v) es = (k, v) ∷ without k es

  -- the key that gives way to a new one
  abbrev pub victim : ℕ → Entries K V → Option K
  victim cap [] = none
  victim cap (e ∷ es) = if length (e ∷ es) == cap then some (last_of e es).0 else none

  abbrev pub made_room : ℕ → Entries K V → Entries K V
  made_room cap es = if length es == cap then drop_last es else es

  -- the answer to a write of `k`, which had the given value
  abbrev pub answered : ℕ → Option V → Entries K V → Bool × Option K
  answered cap none es = (false, victim cap es)
  answered cap (some old) es = (true, none)

  abbrev pub stored : ℕ → K → V → Option V → Entries K V → Entries K V
  stored cap k v none es = (k, v) ∷ made_room cap es
  stored cap k v (some old) es = (k, v) ∷ without k es
