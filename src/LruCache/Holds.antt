-- ===== src/LruCache/Holds.antt =====
-- When the cache of skel/lru_cache.c represents a list of entries.
use hashring_load_balancer.Base.{
  ℕ, ◌-◌, ◌^◌, ◌≤◌, ◌<◌, ◌≡◌, refl, sym, ap, ◌∙◌, true, false, if◌then◌else◌, Bool-cases, inl, inr,
  Option, none, some, List, [], ◌∷◌, ◌++◌, map, length, arith,
}
use hashring_load_balancer.HashMap.KeyFunctions.{Key, ◌≈◌}
use hashring_load_balancer.HashMap.Holds.{IsMap, view, hm_init-IsMap}
use hashring_load_balancer.DoublyLinkedList.Chain.{Nodes}
use hashring_load_balancer.DoublyLinkedList.Holds.{IsDll, dll_init-IsDll}
use hashring_load_balancer.Strings.{hashmap_size}
use hashring_load_balancer.LruCache.{LruCache, init_lru_cache}
use hashring_load_balancer.LruCache.Recency.{Entries, lookup, without}

abbrev pub contents : {A : Type 0} → Nodes A → List A
contents = map (λ e. e.1)

module _ {K : Type 0} ⦃key : Key K⦄ where
  pub ≈-sym : (a b : K) → (a ≈ b) ≡ (b ≈ a)
  ≈-sym a b = elim (Bool-cases (a ≈ b)) [
    | inl same ↦ rw ((key.compare_iff a b).0 same) refl
    | inr other ↦ ground (arith, key.compare_iff a b, key.compare_iff b a)
  ]

  gone_tail :
      (k q h : K) (a : ℕ) (r s : Option ℕ)
      → (k ≈ h) ≡ false
      → r ≡ (if k ≈ q then none else s)
      → (if q ≈ h then some a else r) ≡ (if k ≈ q then none else (if q ≈ h then some a else s))
  gone_tail k q h a r s other e = elim (Bool-cases (q ≈ h)) [
    | inl here ↦
        let away : (k ≈ q) ≡ false = rw ((key.compare_iff q h).0 here) other in rw (here, away) refl
    | inr there ↦ rw there e
  ]

  pub ≈-refl : (k : K) → (k ≈ k) ≡ true
  ≈-refl k = (key.compare_iff k k).1 refl

  pub gone_self : (k : K) (r s : Option ℕ) → r ≡ (if k ≈ k then none else s) → r ≡ none
  gone_self k r s e = e ∙ rw (≈-refl k) refl

  -- The lookup of `q` after the entry of `k` has moved to the front; `r` is the lookup behind it.
  pub front_leads :
      (k q : K) (p : ℕ) (r s t : Option ℕ)
      → t ≡ some p
      → (k ≡ q → s ≡ t)
      → r ≡ (if k ≈ q then none else s)
      → s ≡ (if q ≈ k then some p else r)
  front_leads k q p r s t t_is same_key e = elim (Bool-cases (q ≈ k)) [
    | inl same ↦ rw same (same_key (sym ((key.compare_iff q k).0 same)) ∙ t_is)
    | inr other ↦ let away : (k ≈ q) ≡ false = ≈-sym k q ∙ other in rw other (sym (rw away at e))
  ]

module _ {K V : Type 0} ⦃key : Key K⦄ where
  abbrev pub address_of : K → Nodes (K × V) → Option ℕ
  address_of k [] = none
  address_of k (x ∷ xs) = if k ≈ x.1.0 then some x.0 else address_of k xs

  abbrev pub KeysApart : Nodes (K × V) → Type 0
  KeysApart [] = Unit
  KeysApart (x ∷ xs) = (address_of x.1.0 xs ≡ none) × KeysApart xs

  -- The list holds `xs`, with distinct keys; the map leads from every key to its node, and from no
  -- other key to any.
  pub record IsCache (cache : LruCache K V) (xs : Nodes (K × V)) : Type 0 where
    pub linked : IsDll cache.dll xs
    pub is_map : IsMap (length xs) cache.map
    pub leads : (k : K) → view cache.map k ≡ address_of k xs
    pub keys_apart : KeysApart xs
    pub within : length xs ≤ cache.cap
    pub small : cache.cap < 2 ^ 32 - 1

  -- The cache stands for the entries `es`.
  pub record Represents (cache : LruCache K V) (es : Entries K V) : Type 0 where
    pub nodes : Nodes (K × V)
    pub is_cache : IsCache cache nodes
    pub entries : contents nodes ≡ es

  -- A new cache is empty.
  pub init_lru_cache-Represents : (cap : ℕ) → cap < 2 ^ 32 - 1 → Represents (init_lru_cache cap) []
  unfolding init_lru_cache
  init_lru_cache-Represents capacity small =
      let (is_map, leads) = hm_init-IsMap {V = ℕ} hashmap_size (omega arith) in
      record {
        nodes = [];
        is_cache = record {
          linked = dll_init-IsDll;
          is_map = is_map;
          leads = leads;
          keys_apart = tt;
          within = omega arith;
          small = small;
        };
        entries = refl;
      }

  -- The node of a key that the map leads to.
  pub record Located (k : K) (p : ℕ) (xs ys : Nodes (K × V)) (v : V) (zs : Nodes (K × V))
      : Type 0 where
    pub parts : xs ≡ ys ++ (p, (k, v)) ∷ zs
    pub found : lookup k (contents xs) ≡ some v
    pub rest : without k (contents xs) ≡ contents (ys ++ zs)
    pub rest_apart : KeysApart (ys ++ zs)
    pub gone : (q : K) → address_of q (ys ++ zs) ≡ (if k ≈ q then none else address_of q xs)

  pub without-absent :
      (k : K) (xs : Nodes (K × V)) → address_of k xs ≡ none → without k (contents xs) ≡ contents xs
  without-absent k [] e = refl
  without-absent k (x ∷ xs) e = ground (arith, without-absent k xs)

  pub address_none :
      (k q : K) (xs : Nodes (K × V))
      → address_of k xs ≡ none
      → (if k ≈ q then none else address_of q xs) ≡ address_of q xs
  address_none k q xs e = elim (Bool-cases (k ≈ q)) [
    | inl same ↦ rw (same, ← (key.compare_iff k q).0 same) (sym e)
    | inr other ↦ rw other refl
  ]

  pub lookup-absent :
      (k : K) (xs : Nodes (K × V)) → address_of k xs ≡ none → lookup k (contents xs) ≡ none
  lookup-absent k [] e = refl
  lookup-absent k (x ∷ xs) e = ground (arith, lookup-absent k xs)

  gone_head :
      (k q : K) (a : ℕ) (xs : Nodes (K × V))
      → address_of k xs ≡ none
      → address_of q xs ≡ (if k ≈ q then none else (if q ≈ k then some a else address_of q xs))
  gone_head k q a xs e = elim (Bool-cases (k ≈ q)) [
    | inl same ↦ rw same (rw (← (key.compare_iff k q).0 same) e)
    | inr other ↦ rw (≈-sym q k, other) refl
  ]

  pub absent_address :
      (k : K) (xs : Nodes (K × V)) → lookup k (contents xs) ≡ none → address_of k xs ≡ none
  absent_address k [] e = refl
  absent_address k (x ∷ xs) e = ground (arith, absent_address k xs)

  pub located :
      (k : K) (p : ℕ) (xs : Nodes (K × V))
      → address_of k xs ≡ some p
      → KeysApart xs
      → (ys : Nodes (K × V)) × (v : V) × (zs : Nodes (K × V)) × Located k p xs ys v zs
  located k p [] e apart = cc
  located k p (x ∷ xs) e apart = elim (Bool-cases (k ≈ x.1.0)) [
    | inl here ↦
        let same : k ≡ x.1.0 = (key.compare_iff k x.1.0).0 here in
        let at : x.0 ≡ p = ground arith in
        (
          [],
          x.1.1,
          xs,
          record {
            parts = rw (← at, same) refl;
            found = ground arith;
            rest = ground arith;
            rest_apart = apart.1;
            gone = λ q. rw same (gone_head x.1.0 q x.0 xs apart.0);
          },
        )
    | inr other ↦
        let (ys, v, zs, l) = located k p xs (ground arith) apart.1 in
        (
          x ∷ ys,
          v,
          zs,
          record {
            parts = ap (λ l. x ∷ l) l.parts;
            found = rw other l.found;
            rest = rw other (ap (λ l. x.1 ∷ l) l.rest);
            rest_apart = (rw (l.gone x.1.0, other) apart.0, l.rest_apart);
            gone = λ q. gone_tail k q x.1.0 x.0 _ _ other (l.gone q);
          },
        )
  ]
