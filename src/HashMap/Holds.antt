-- ===== src/HashMap/Holds.antt =====
-- The invariant of the hash map of skel/hashmap.c, and the finite map that it stands for.
use mathlib.Core.Path.{◌∙◌}
use hashring_load_balancer.Base.{
  ℕ, zero, suc, ◌+◌, ◌-◌, ◌%◌, ◌^◌, ◌≤◌, ◌<◌, ◌≡◌, refl, false, ◌==◌, if◌then◌else◌, Bool-cases,
  inl, inr, Option, none, some, List, [], ◌∷◌, length, get_elem?, set, replicate, length-set,
  length-replicate, get_elem?-set, get_elem?_total, get_elem?_bound, get_elem?-replicate, ok, arith,
}
use hashring_load_balancer.LinkedList.{LinkedList, ll_init}
use hashring_load_balancer.HashMap.KeyFunctions.{Key, ◌≈◌}
use hashring_load_balancer.HashMap.Bucket.{find, Distinct, AllKeys}
use hashring_load_balancer.HashMap.{HashMap, hm_init, locate, bucket_at, hm_get}

-- the number of nodes in all buckets
pub total : {A : Type 0} → List (LinkedList A) → ℕ
total [] = 0
total (list ∷ lists) = length list.nodes + total lists

total-replicate : (A : Type 0) (n : ℕ) → total (replicate n (ll_init {A = A})) ≡ 0
unfolding total ll_init
total-replicate A zero = refl
total-replicate A (suc n) = omega (arith, total-replicate A n)

module _ {A : Type 0} where
  pub total-get_elem? :
      (lists : List (LinkedList A)) (i : ℕ) (list : LinkedList A)
      → get_elem? lists i ≡ some list
      → length list.nodes ≤ total lists
  unfolding total
  total-get_elem? [] i list e = cc
  total-get_elem? (x ∷ lists) zero list e = ground arith
  total-get_elem? (x ∷ lists) (suc i) list e = omega (arith, total-get_elem? lists i list e)

  pub total-set :
      (lists : List (LinkedList A)) (i : ℕ) (old new : LinkedList A)
      → get_elem? lists i ≡ some old
      → total (set lists i new) + length old.nodes ≡ total lists + length new.nodes
  unfolding total
  total-set [] i old new e = cc
  total-set (x ∷ lists) zero old new e = ground arith
  total-set (x ∷ lists) (suc i) old new e = omega (arith, total-set lists i old new e)

module _ {K V : Type 0} ⦃key : Key K⦄ where
  -- Bucket `i` of `hmax`: its `size` counts its nodes, no key is in it twice, and all belong there.
  pub record IsBucket (hmax i : ℕ) (list : LinkedList (K × V)) : Type 0 where
    pub counted : list.size ≡ length list.nodes
    pub distinct : Distinct list.nodes
    pub placed : AllKeys (λ k. key.hash k % hmax ≡ i) list.nodes

  -- A map with at most `n` entries.
  pub record IsMap (n : ℕ) (map : HashMap K V) : Type 0 where
    pub positive : 0 < map.hmax
    pub width : length map.buckets ≡ map.hmax
    pub entries : total map.buckets ≤ n
    pub small : n < 2 ^ 32 - 1
    pub each :
        (i : ℕ) (list : LinkedList (K × V))
        → get_elem? map.buckets i ≡ some list
        → IsBucket map.hmax i list

  unfoldable pub find_in : K → Option (LinkedList (K × V)) → Option V
  find_in k none = none
  find_in k (some list) = find k list.nodes

  -- the finite map that the buckets stand for
  unfoldable pub view : HashMap K V → K → Option V
  view map k = find_in k (get_elem? map.buckets (key.hash k % map.hmax))

  -- the home bucket of a key
  pub record Home (map : HashMap K V) (k : K) (list : LinkedList (K × V)) : Type 0 where
    pub entry : get_elem? map.buckets (key.hash k % map.hmax) ≡ some list
    pub located : locate map k ≡ ok (key.hash k % map.hmax, list)
    pub viewed : view map k ≡ find k list.nodes

  pub home :
      (map : HashMap K V) (k : K)
      → 0 < map.hmax
      → length map.buckets ≡ map.hmax
      → (list : LinkedList (K × V)) × Home map k list
  unfolding view find_in locate
  home map k positive width =
      let i = key.hash k % map.hmax in
      let (list, e) = get_elem?_total map.buckets i (omega arith) in
      let nonzero : (map.hmax == 0) ≡ false = ground arith in
      (list, record { entry = e; located = rw (nonzero, bucket_at, e); viewed = rw e })

  -- hm_get does not fault, and reads the finite map that the buckets stand for.
  pub hm_get-view :
      {n : ℕ} (map : HashMap K V) (k : K) → IsMap n map → hm_get map k ≡ ok (view map k)
  unfolding hm_get
  hm_get-view map k m = let (list, h) = home map k m.positive m.width in rw (h.located, h.viewed)

  pub hm_init-IsMap :
      (hmax : ℕ)
      → 0 < hmax
      → IsMap 0 (hm_init {V = V} hmax) × ((q : K) → view (hm_init {V = V} hmax) q ≡ none)
  unfolding hm_init view find_in find ll_init
  hm_init-IsMap hmax pos = (
    record {
      positive = pos;
      width = length-replicate hmax ll_init;
      entries = omega (arith, total-replicate (K × V) hmax);
      small = omega arith;
      each = λ i list e.
          let empty : ll_init ≡ list = ground (
            arith,
            get_elem?-replicate hmax i (ll_init {A = K × V}),
            get_elem?_bound (replicate hmax (ll_init {A = K × V})) i e,
            length-replicate hmax (ll_init {A = K × V}),
          ) in
          rw (← empty) empty-IsBucket;
    },
    λ q. rw (get_elem?-replicate hmax (key.hash q % hmax) (ll_init {A = K × V}) (omega arith)),
  )
    where
      empty-IsBucket : {i : ℕ} → IsBucket hmax i ll_init
      empty-IsBucket = record { counted = refl; distinct = tt; placed = tt }

  -- What becomes of the map when the home bucket of `k` is replaced by `new`.
  pub set-IsMap :
      {n n' : ℕ} {map : HashMap K V} {k : K} {old : LinkedList (K × V)} (new : LinkedList (K × V))
      (size : ℕ)
      → IsMap n map
      → Home map k old
      → n + length new.nodes ≤ n' + length old.nodes
      → n' < 2 ^ 32 - 1
      → IsBucket map.hmax (key.hash k % map.hmax) new
      → IsMap n' (record map { size = size; buckets = set map.buckets (key.hash k % map.hmax) new })
  set-IsMap {map} {k} {old} new size m h more small b =
      let i = key.hash k % map.hmax in
      record {
        positive = m.positive;
        width = length-set map.buckets i new ∙ m.width;
        entries = omega (arith, total-set map.buckets i old new h.entry, m.entries);
        small = small;
        each = λ j list e. elim (Bool-cases (j == i)) [
          | inl here ↦
              let at : j ≡ i = ground arith in
              let same : new ≡ list = ground (
                arith,
                get_elem?-set map.buckets i j new (get_elem?_bound map.buckets i h.entry),
              ) in
              rw (at, ← same) b
          | inr away ↦ m.each j list (
              ground
                (arith, get_elem?-set map.buckets i j new (get_elem?_bound map.buckets i h.entry)))
        ];
      }

  pub view-set :
      {map : HashMap K V} {k : K} {old : LinkedList (K × V)} (new : LinkedList (K × V)) (size : ℕ)
      (v : Option V) (q : K)
      → Home map k old
      → find q new.nodes ≡ (if k ≈ q then v else find q old.nodes)
      → view (record map { size = size; buckets = set map.buckets (key.hash k % map.hmax) new }) q
        ≡ (if k ≈ q then v else view map q)
  unfolding view find_in
  view-set {map} {k} {old} new size v q h e =
      let i = key.hash k % map.hmax in
      let j = key.hash q % map.hmax in
      let inside = get_elem?_bound map.buckets i h.entry in
      let read = get_elem?-set map.buckets i j new inside in
      elim (Bool-cases (j == i)) [
        | inl here ↦
            let at : j ≡ i = ground arith in
            let now : get_elem? (set map.buckets i new) j ≡ some new = ground arith in
            let before : get_elem? map.buckets j ≡ some old = rw at h.entry in rw (now, before) e
        | inr away ↦
            let other : (k ≈ q) ≡ false = ground (arith, key.compare_iff k q, hash_congr) in
            let same : get_elem? (set map.buckets i new) j ≡ get_elem? map.buckets j =
              ground arith in
            rw (other, same)
      ]
    where
      hash_congr : k ≡ q → key.hash q % map.hmax ≡ key.hash k % map.hmax
      hash_congr same = rw same
