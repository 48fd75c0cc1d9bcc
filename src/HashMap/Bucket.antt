-- ===== src/HashMap/Bucket.antt =====
-- One bucket of the hash map of skel/hashmap.c: the loops over its nodes.
pub mod Laws
use mathlib.Core.Option
use hashring_load_balancer.Base.{
  ℕ, ◌+◌, ◌≡◌, true, if◌then◌else◌, Option, none, some, List, [], ◌∷◌,
}
use hashring_load_balancer.HashMap.KeyFunctions.{Key, ◌≈◌}

module _ {K V : Type 0} ⦃key : Key K⦄ where
  -- the loop of `hm_get`
  unfoldable pub find : K → List (K × V) → Option V
  find k [] = none
  find k (e ∷ nodes) = if e.0 ≈ k then some e.1 else find k nodes

  -- the loop of `hm_set`: the value of the first node with the key is replaced; `none` if no node
  -- has it
  unfoldable pub assign : K → V → List (K × V) → Option (List (K × V))
  assign k v [] = none
  assign k v (e ∷ nodes) =
      if e.0 ≈ k then some ((e.0, v) ∷ nodes) else Option.map (◌∷◌ e) (assign k v nodes)

  -- the loop of `hm_remove`: the index of the first node with the key
  unfoldable pub index_of : ℕ → K → List (K × V) → Option ℕ
  index_of index k [] = none
  index_of index k (e ∷ nodes) = if e.0 ≈ k then some index else index_of (index + 1) k nodes

  -- no key twice
  abbrev pub Distinct : List (K × V) → Type 0
  Distinct [] = Unit
  Distinct (e ∷ nodes) = (find e.0 nodes ≡ none) × Distinct nodes

abbrev pub AllKeys : {K V : Type 0} → (K → Type 0) → List (K × V) → Type 0
AllKeys P [] = Unit
AllKeys P (e ∷ nodes) = P e.0 × AllKeys P nodes
