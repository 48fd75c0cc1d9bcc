-- ===== src/HashMap/Bucket/Laws.antt =====
-- What the three loops of skel/hashmap.c do to the lookups in a bucket.

use hashring_load_balancer.Base.{
  ℕ, zero, suc, ◌+◌, ◌≡◌, ◌≢◌, refl, ap, true, if◌then◌else◌, Bool-cases, inl, inr, none, some,
  List, [], ◌∷◌, ◌++◌, length, get_elem?, erase_at, arith,
}
use hashring_load_balancer.HashMap.KeyFunctions.{Key, ◌≈◌}
use hashring_load_balancer.HashMap.Bucket.{find, assign, index_of, Distinct, AllKeys}

pub ≈-refl : {K : Type 0} ⦃key : Key K⦄ → (k : K) → (k ≈ k) ≡ true
≈-refl ⦃key⦄ k = (key.compare_iff k k).1 refl

module _ {K V : Type 0} ⦃key : Key K⦄ where
  -- the bucket that `assign` leaves when it finds the key
  pub replace : K → V → List (K × V) → List (K × V)
  replace k v [] = []
  replace k v (e ∷ c) = if e.0 ≈ k then (e.0, v) ∷ c else e ∷ replace k v c

  pub assign-none : (k : K) (v : V) (c : List (K × V)) → find k c ≡ none → assign k v c ≡ none
  unfolding assign find
  assign-none k v [] h = refl
  assign-none k v (e ∷ c) h = ground (arith, assign-none k v c)

  pub assign-replace :
      (k : K) (v : V) (c : List (K × V)) (old : V)
      → find k c ≡ some old
      → assign k v c ≡ some (replace k v c)
  unfolding assign find replace
  assign-replace k v [] old h = cc
  assign-replace k v (e ∷ c) old h = ground (arith, assign-replace k v c old)

  module _ (k q : K) (v : V) where
    pub find-replace :
        (c : List (K × V)) (old : V)
        → find k c ≡ some old
        → find q (replace k v c) ≡ (if k ≈ q then some v else find q c)
    unfolding replace find
    find-replace [] old h = cc
    find-replace (e ∷ c) old h = ground (
      arith,
      find-replace c old,
      key.compare_iff e.0 k,
      key.compare_iff e.0 q,
      key.compare_iff k q,
    )

    pub find-append :
        (c : List (K × V))
        → find k c ≡ none
        → find q (c ++ (k, v) ∷ []) ≡ (if k ≈ q then some v else find q c)
    unfolding find
    find-append [] h = refl
    find-append (e ∷ c) h =
        ground
          (arith, find-append c, key.compare_iff e.0 k, key.compare_iff e.0 q, key.compare_iff k q)

  pub length-replace : (k : K) (v : V) (c : List (K × V)) → length (replace k v c) ≡ length c
  unfolding replace
  length-replace k v [] = refl
  length-replace k v (e ∷ c) = ground (arith, length-replace k v c)

  pub Distinct-replace :
      (k : K) (v old : V) (c : List (K × V))
      → find k c ≡ some old
      → Distinct c
      → Distinct (replace k v c)
  unfolding replace find
  Distinct-replace k v old [] h d = tt
  Distinct-replace k v old (e ∷ c) h d = ground (
    arith,
    Distinct-replace k v old c,
    find-replace k e.0 v c old,
    key.compare_iff e.0 k,
    key.compare_iff k e.0,
  )

  pub Distinct-append :
      (k : K) (v : V) (c : List (K × V))
      → find k c ≡ none
      → Distinct c
      → Distinct (c ++ (k, v) ∷ [])
  unfolding find
  Distinct-append k v [] h d = (refl, tt)
  Distinct-append k v (e ∷ c) h d = ground (
    arith,
    Distinct-append k v c,
    find-append k e.0 v c,
    key.compare_iff e.0 k,
    key.compare_iff k e.0,
  )

  -- where the loop of `hm_remove` stops
  pub record Found (k : K) (c : List (K × V)) (v : V) (t : ℕ) (e : K × V) : Type 0 where
    pub entry : get_elem? c t ≡ some e
    pub same : e.0 ≡ k
    pub value : e.1 ≡ v

  pub index_of-none : (i : ℕ) (k : K) (c : List (K × V)) → find k c ≡ none → index_of i k c ≡ none
  unfolding index_of find
  index_of-none i k [] h = refl
  index_of-none i k (e ∷ c) h = ground (arith, index_of-none (i + 1) k c)

  pub index_of-Found :
      (i : ℕ) (k : K) (c : List (K × V)) (v : V)
      → find k c ≡ some v
      → (t : ℕ) × (e : K × V) × (index_of i k c ≡ some (i + t)) × Found k c v t e
  unfolding index_of find
  index_of-Found i k [] v h = cc
  index_of-Found i k (e ∷ c) v h = elim (Bool-cases (e.0 ≈ k)) [
    | inl here ↦ (
      0,
      e,
      rw here (ap some (omega arith)),
      record { entry = refl; same = (key.compare_iff e.0 k).0 here; value = ground arith },
    )
    | inr ahead ↦
        let (t, e', run, f) = index_of-Found (i + 1) k c v (ground arith) in
        (
          suc t,
          e',
          rw (ahead, run) (ap some (omega arith)),
          record { entry = f.entry; same = f.same; value = f.value },
        )
  ]

  find-entry : (c : List (K × V)) (t : ℕ) (e : K × V) → get_elem? c t ≡ some e → find e.0 c ≢ none
  unfolding find
  find-entry [] t e h = cc
  find-entry (x ∷ c) zero e h = let same : x ≡ e = ground arith in rw (← same, ≈-refl) (λ n. cc)
  find-entry (x ∷ c) (suc t) e h = ground (arith, find-entry c t e h)

  pub find-erase_at :
      (k q : K) (c : List (K × V)) (t : ℕ) (e : K × V)
      → get_elem? c t ≡ some e
      → e.0 ≡ k
      → Distinct c
      → find q (erase_at c t) ≡ (if k ≈ q then none else find q c)
  unfolding find
  find-erase_at k q [] t e h same d = cc
  find-erase_at k q (x ∷ c) zero e h same d =
      let at : x.0 ≡ k = ground arith in
      let gone : find k c ≡ none = rw at at d.0 in
      ground (arith, key.compare_iff k q, key.compare_iff x.0 q)
  find-erase_at k q (x ∷ c) (suc t) e h same d =
      let present : find k c ≢ none = rw same at (find-entry c t e h) in
      ground (arith, find-erase_at k q c t e h same d.1, key.compare_iff k q, key.compare_iff x.0 q)

  find-erase_at-none :
      (k : K) (c : List (K × V)) (t : ℕ) → find k c ≡ none → find k (erase_at c t) ≡ none
  unfolding find
  find-erase_at-none k [] t h = refl
  find-erase_at-none k (x ∷ c) zero h = ground arith
  find-erase_at-none k (x ∷ c) (suc t) h = ground (arith, find-erase_at-none k c t)

  pub Distinct-erase_at : (c : List (K × V)) (t : ℕ) → Distinct c → Distinct (erase_at c t)
  unfolding find
  Distinct-erase_at [] t d = tt
  Distinct-erase_at (x ∷ c) zero d = d.1
  Distinct-erase_at (x ∷ c) (suc t) d = (find-erase_at-none x.0 c t d.0, Distinct-erase_at c t d.1)

module _ {K V : Type 0} ⦃key : Key K⦄ (P : K → Type 0) where
  pub AllKeys-replace : (k : K) (v : V) (c : List (K × V)) → AllKeys P c → AllKeys P (replace k v c)
  unfolding replace
  AllKeys-replace k v [] a = tt
  AllKeys-replace k v (e ∷ c) a = elim (Bool-cases (e.0 ≈ k)) [
    | inl here ↦ rw here a
    | inr ahead ↦ rw ahead (a.0, AllKeys-replace k v c a.1)
  ]

module _ {K V : Type 0} (P : K → Type 0) where
  pub AllKeys-append :
      (k : K) (v : V) (c : List (K × V)) → P k → AllKeys P c → AllKeys P (c ++ (k, v) ∷ [])
  AllKeys-append k v [] p a = (p, tt)
  AllKeys-append k v (e ∷ c) p a = (a.0, AllKeys-append k v c p a.1)

  pub AllKeys-erase_at : (c : List (K × V)) (t : ℕ) → AllKeys P c → AllKeys P (erase_at c t)
  AllKeys-erase_at [] t a = tt
  AllKeys-erase_at (x ∷ c) zero a = a.1
  AllKeys-erase_at (x ∷ c) (suc t) a = (a.0, AllKeys-erase_at c t a.1)
