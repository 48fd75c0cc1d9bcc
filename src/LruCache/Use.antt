-- ===== src/LruCache/Use.antt =====
-- `lru_cache_get` of skel/lru_cache.c against the list of entries that the cache stands for.
use mathlib.Core.Path.{subst}
use hashring_load_balancer.Base.{
  ℕ, suc, ◌≡◌, refl, sym, ap, ◌∙◌, Option-cases, inl, inr, none, some, ◌∷◌, ◌++◌, length, arith,
  Returns, ok,
}
use hashring_load_balancer.HashMap.KeyFunctions.{Key}
use hashring_load_balancer.HashMap.{hm_get}
use hashring_load_balancer.HashMap.Holds.{IsMap, hm_get-view}
use hashring_load_balancer.DoublyLinkedList.{
  DoublyLinkedList, Node, dll_remove_node, dll_insert_nth,
}
use hashring_load_balancer.DoublyLinkedList.Chain.{Nodes, has_self}
use hashring_load_balancer.DoublyLinkedList.Holds.{IsDll, load-some}
use hashring_load_balancer.DoublyLinkedList.Remove.{entry_at, dll_remove_node-IsDll}
use hashring_load_balancer.DoublyLinkedList.Insert.{insert_front-IsDll, dll_insert_nth-front}
use hashring_load_balancer.LruCache.{LruCache, move_to_front, lru_cache_get}
use hashring_load_balancer.LruCache.Recency.{Entries, lookup, touched}
use hashring_load_balancer.LruCache.Remove.{length_parts}
use hashring_load_balancer.LruCache.Holds.{
  address_of, IsCache, Represents, Located, located, gone_self, front_leads, lookup-absent,
}

module _ {K V : Type 0} ⦃key : Key K⦄ where
  move_to_front_step :
      (cache : LruCache K V) (p : ℕ) (dll dll2 : DoublyLinkedList (K × V))
      → dll_remove_node cache.dll p ≡ ok dll
      → dll_insert_nth dll 0 p ≡ ok dll2
      → move_to_front cache p ≡ ok (record cache { dll = dll2 })
  unfolding move_to_front
  move_to_front_step cache p dll dll2 run run2 = rw (run, run2) refl

  -- The entry of a node becomes the first one.
  pub moved :
      (cache : LruCache K V) (xs ys zs : Nodes (K × V)) (p : ℕ) (k : K) (v w : V)
      (dll : DoublyLinkedList (K × V))
      → IsCache cache xs
      → address_of k xs ≡ some p
      → Located k p xs ys v zs
      → IsDll dll (ys ++ (p, (k, w)) ∷ zs)
      → Returns
          (move_to_front (record cache { dll = dll }) p)
          (λ c. IsCache c ((p, (k, w)) ∷ (ys ++ zs)) × (c.cap ≡ cache.cap))
  moved cache xs ys zs p k v w dll is at l holds =
      let (dll1, run1, (holds1, out, fresh_is, kept)) =
        dll_remove_node-IsDll dll ys p (k, w) zs holds in
      let longer = length_parts xs ys (p, (k, v)) zs l.parts in
      let longer1 : length xs ≡ suc (length (ys ++ zs)) = omega (arith, longer) in
      let (dll2, run2, (holds2, fresh_is2)) =
        insert_front-IsDll dll1 (ys ++ zs) p _ holds1 kept out
          (rw fresh_is (holds.old p (has_self p ys (k, w) zs)))
          (omega (arith, longer, is.within, is.small)) in
      (
        record cache { dll = dll2 },
        move_to_front_step (record cache { dll = dll }) p dll1 dll2 run1
            (dll_insert_nth-front dll1 p ∙ run2),
        (
          record {
            linked = holds2;
            is_map = subst (λ n. IsMap n cache.map) longer1 is.is_map;
            leads = λ q.
                is.leads q
                ∙ front_leads k q p _ _ (address_of k xs) at
                    (λ e. ap (λ a. address_of a xs) (sym e)) (l.gone q);
            keys_apart = (gone_self k _ _ (l.gone k), l.rest_apart);
            within = omega (arith, longer, is.within);
            small = is.small;
          },
          refl,
        ),
      )

  get_nothing :
      (cache : LruCache K V) (k : K)
      → hm_get cache.map k ≡ ok none
      → lru_cache_get cache k ≡ ok (none, cache)
  unfolding lru_cache_get
  get_nothing cache k e = rw e refl

  get_node :
      (cache : LruCache K V) (k : K) (p : ℕ) (node : Node (K × V)) (c : LruCache K V)
      → hm_get cache.map k ≡ ok (some p)
      → cache.dll.cells p ≡ some node
      → move_to_front cache p ≡ ok c
      → lru_cache_get cache k ≡ ok (some node.entry.1, c)
  unfolding lru_cache_get
  get_node cache k p node c e at run = rw (e, load-some cache.dll p node at, run) refl

  -- lru_cache_get does not fault; it returns the value of the key, or null, and moves the entry
  -- of a key that it finds to the front.
  pub lru_cache_get-Represents :
      (cache : LruCache K V) (es : Entries K V) (k : K)
      → Represents cache es
      → Returns (lru_cache_get cache k) (λ r.
        (r.0 ≡ lookup k es) × Represents r.1 (touched k (lookup k es) es) × (r.1.cap ≡ cache.cap))
  lru_cache_get-Represents cache es k r =
      let xs = r.nodes in
      let is = r.is_cache in
      let got = hm_get-view cache.map k is.is_map in
      elim (Option-cases (address_of k xs)) [
        | inl absent ↦
            let none_is : lookup k es ≡ none = rw (← r.entries) (lookup-absent k xs absent) in
            (
              (none, cache),
              get_nothing cache k (got ∙ ap ok (is.leads k ∙ absent)),
              (sym none_is, rw none_is r, refl),
            )
        | inr (p, at) ↦
            let (ys, v, zs, l) = located k p xs at is.keys_apart in
            let holds : IsDll cache.dll (ys ++ (p, (k, v)) ∷ zs) = rw (← l.parts) is.linked in
            let (c, run, (is2, cap_is)) = moved cache xs ys zs p k v v cache.dll is at l holds in
            let some_is : lookup k es ≡ some v = rw (← r.entries) l.found in
            (
              (some v, c),
              get_node cache k p _ c (got ∙ ap ok (is.leads k ∙ at))
                  (entry_at cache.dll ys p (k, v) zs holds) run,
              (
                sym some_is,
                rw some_is (record {
                  nodes = (p, (k, v)) ∷ (ys ++ zs);
                  is_cache = is2;
                  entries = ap (λ t. (k, v) ∷ t) (rw (← r.entries) (sym l.rest));
                }),
                cap_is,
              ),
            )
      ]
