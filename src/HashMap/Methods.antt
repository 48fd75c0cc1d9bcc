-- ===== src/HashMap/Methods.antt =====
-- `hm_set` and `hm_remove` of skel/hashmap.c against the finite map that the buckets stand for.
use mathlib.Core.Path.{◌∙◌}
use mathlib.Core.Option
use hashring_load_balancer.Base.{
  ℕ, ◌+◌, ◌-◌, ◌%◌, ◌^◌, ◌≤◌, ◌<◌, ◌≡◌, refl, sym, if◌then◌else◌, Bool-cases, Option-cases, inl,
  inr, Option, none, some, [], ◌∷◌, ◌++◌, length, set, erase_at, length-append, length-erase_at,
  get_elem?_bound, ◌>>=◌, Returns, arith,
}
use hashring_load_balancer.LinkedList.{LinkedList}
use hashring_load_balancer.LinkedList.Laws.{IsList, ll_insert_nth-size, ll_remove_nth_node-erase_at}
use hashring_load_balancer.HashMap.KeyFunctions.{Key, ◌≈◌}
use hashring_load_balancer.HashMap.Bucket.{find}
use hashring_load_balancer.HashMap.Bucket.Laws.{
  replace, assign-none, assign-replace, find-replace, find-append, length-replace, Distinct-replace,
  Distinct-append, index_of-none, index_of-Found, find-erase_at, Distinct-erase_at, AllKeys-replace,
  AllKeys-append, AllKeys-erase_at,
}
use hashring_load_balancer.HashMap.{HashMap, hm_set, hm_remove}
use hashring_load_balancer.HashMap.Holds.{
  total-get_elem?, IsBucket, IsMap, view, Home, home, set-IsMap, view-set,
}

module _ {V : Type 0} where
  -- the number of entries after a write, and after a removal, at a key with this value before it
  abbrev pub grown : ℕ → Option V → ℕ
  grown n none = n + 1
  grown n (some v) = n

  abbrev pub shrunk : ℕ → Option V → ℕ
  shrunk n none = n
  shrunk n (some v) = n - 1

module _ {K V : Type 0} ⦃key : Key K⦄ where
  -- `map'` is `map` with `v` written at `k`.
  pub record Writes (n : ℕ) (map : HashMap K V) (k : K) (v : Option V) (map' : HashMap K V)
      : Type 0 where
    pub is_map : IsMap n map'
    pub reads : (q : K) → view map' q ≡ (if k ≈ q then v else view map q)
    pub hmax : map'.hmax ≡ map.hmax

  IsMap-IsList :
      {n : ℕ} {map : HashMap K V} {k : K} {list : LinkedList (K × V)}
      → IsMap n map
      → Home map k list
      → IsBucket map.hmax (key.hash k % map.hmax) list × IsList list × (length list.nodes ≤ n)
  IsMap-IsList {map} {k} {list} m h =
      let b = m.each _ list h.entry in
      let fits = total-get_elem? map.buckets _ list h.entry in
      (
        b,
        record { counted = b.counted; small = omega (arith, m.entries, m.small) },
        omega (arith, m.entries),
      )

  -- On a map with fewer than 2 ^ 32 - 2 entries hm_set does not fault; afterwards the key has the
  -- new value, all other keys have theirs, there is one entry more if the key had no value, and
  -- the field size has not changed.
  pub hm_set-Writes :
      {n : ℕ} (map : HashMap K V) (k : K) (v : V)
      → IsMap n map
      → n < 2 ^ 32 - 2
      → Returns
          (hm_set map k v)
          (λ map'. Writes (grown n (view map k)) map k (some v) map' × (map'.size ≡ map.size))
  unfolding hm_set
  hm_set-Writes {n} map k v m small =
      let (list, h) = home map k m.positive m.width in
      let (b, is, fits) = IsMap-IsList m h in
      elim (Option-cases (find k list.nodes)) [
        | inr (old, e) ↦
            let new : LinkedList (K × V) = record list { nodes = replace k v list.nodes } in
            (
              record map { buckets = set map.buckets (key.hash k % map.hmax) new },
              rw (h.located, ◌>>=◌, assign-replace k v list.nodes old e),
              (
                record {
                  is_map =
                      rw (h.viewed, e)
                        (set-IsMap new map.size m h (omega (arith, length-replace k v list.nodes))
                          m.small
                          (record {
                            counted = b.counted ∙ sym (length-replace k v list.nodes);
                            distinct = Distinct-replace k v old list.nodes e b.distinct;
                            placed = AllKeys-replace _ k v list.nodes b.placed;
                          }));
                  reads =
                      λ q. view-set new map.size (some v) q h (find-replace k q v list.nodes old e);
                  hmax = refl;
                },
                refl,
              ),
            )
        | inl e ↦
            let new : LinkedList (K × V) = record {
              nodes = list.nodes ++ (k, v) ∷ [];
              size = list.size + 1;
            } in
            let longer = length-append list.nodes ((k, v) ∷ []) in
            (
              record map { buckets = set map.buckets (key.hash k % map.hmax) new },
              rw (h.located, ◌>>=◌, assign-none k v list.nodes e)
                  (rw (ll_insert_nth-size list (k, v) is)),
              (
                record {
                  is_map =
                      rw (h.viewed, e)
                        (set-IsMap new map.size m h (omega arith) (omega arith) (record {
                          counted = omega (arith, b.counted);
                          distinct = Distinct-append k v list.nodes e b.distinct;
                          placed = AllKeys-append _ k v list.nodes refl b.placed;
                        }));
                  reads = λ q. view-set new map.size (some v) q h (find-append k q v list.nodes e);
                  hmax = refl;
                },
                refl,
              ),
            )
      ]

  abbrev pub value_of : Option (K × V) → Option V
  value_of = Option.map (λ e. e.1)

  -- hm_remove does not fault; it returns the value of the key, or null, and afterwards the key is
  -- gone, all other keys have their values, and there is one entry less if the key had a value.
  pub hm_remove-Writes :
      {n : ℕ} (map : HashMap K V) (k : K)
      → IsMap n map
      → Returns
          (hm_remove map k)
          (λ r. (value_of r.0 ≡ view map k) × Writes (shrunk n (view map k)) map k none r.1)
  unfolding hm_remove
  hm_remove-Writes {n} map k m =
      let (list, h) = home map k m.positive m.width in
      let (b, is, fits) = IsMap-IsList m h in
      elim (Option-cases (find k list.nodes)) [
        | inl e ↦ (
          (none, map),
          rw (h.located, ◌>>=◌, index_of-none 0 k list.nodes e),
          (
            rw (h.viewed, e),
            record { is_map = rw (h.viewed, e) m; reads = absent (rw (h.viewed, e)); hmax = refl },
          ),
        )
        | inr (old, e) ↦
            let (t, entry, run, f) = index_of-Found 0 k list.nodes old e in
            let new : LinkedList (K × V) = record {
              nodes = erase_at list.nodes t;
              size = list.size - 1;
            } in
            let shorter = length-erase_at list.nodes t (get_elem?_bound list.nodes t f.entry) in
            let t' : 0 + t ≡ t = omega arith in
            (
              (
                some entry,
                record map {
                  size = (map.size + 2 ^ 32 - 1) % 2 ^ 32;
                  buckets = set map.buckets (key.hash k % map.hmax) new;
                },
              ),
              rw (h.located, ◌>>=◌, run, t')
                  (rw (ll_remove_nth_node-erase_at list t entry is f.entry)),
              (
                rw (h.viewed, e, f.value),
                record {
                  is_map =
                      rw (h.viewed, e)
                        (set-IsMap new _ m h (omega arith) (omega (arith, m.small)) (record {
                          counted = omega (arith, b.counted);
                          distinct = Distinct-erase_at list.nodes t b.distinct;
                          placed = AllKeys-erase_at _ list.nodes t b.placed;
                        }));
                  reads = λ q.
                      view-set new _ none q h
                        (find-erase_at k q list.nodes t entry f.entry f.same b.distinct);
                  hmax = refl;
                },
              ),
            )
      ]
    where
      absent : view map k ≡ none → (q : K) → view map q ≡ (if k ≈ q then none else view map q)
      absent e q = elim (Bool-cases (k ≈ q)) [
        | inl same ↦ rw same (rw ((key.compare_iff k q).0 same) at e)
        | inr other ↦ rw other
      ]
