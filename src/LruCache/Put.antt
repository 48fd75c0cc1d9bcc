-- ===== src/LruCache/Put.antt =====
-- `lru_cache_put` of skel/lru_cache.c against the list of entries that the cache stands for.
use mathlib.Core.Path.{subst}
use hashring_load_balancer.Base.{
  ℕ, ◌<◌, ◌≡◌, refl, sym, ap, ◌∙◌, true, false, if◌then◌else◌, Option-cases, inl, inr, Option, none,
  some, ◌∷◌, ◌++◌, length, arith, Returns, ok,
}
use hashring_load_balancer.HashMap.KeyFunctions.{Key, ◌≈◌}
use hashring_load_balancer.HashMap.{hm_get, hm_set, HashMap}
use hashring_load_balancer.HashMap.Holds.{IsMap, hm_get-view}
use hashring_load_balancer.HashMap.Methods.{grown, hm_set-Writes}
use hashring_load_balancer.DoublyLinkedList.{DoublyLinkedList, Node, dll_insert_nth_node, store}
use hashring_load_balancer.DoublyLinkedList.Chain.{Nodes}
use hashring_load_balancer.DoublyLinkedList.Holds.{IsDll, load-some}
use hashring_load_balancer.DoublyLinkedList.Remove.{entry_at}
use hashring_load_balancer.DoublyLinkedList.Entry.{store-IsDll}
use hashring_load_balancer.DoublyLinkedList.Insert.{dll_insert_nth_node-IsDll}
use hashring_load_balancer.LruCache.{
  LruCache, move_to_front, add_front, evict_node, lru_cache_is_full, lru_cache_put,
}
use hashring_load_balancer.LruCache.Recency.{Entries, lookup, made_room, answered, stored}
use hashring_load_balancer.LruCache.Eviction.{
  length-contents, lookup-made_room, make_room-Represents,
}
use hashring_load_balancer.LruCache.Use.{moved}
use hashring_load_balancer.LruCache.Holds.{
  address_of, IsCache, Represents, located, lookup-absent, absent_address, ≈-sym,
}

module _ {K : Type 0} ⦃key : Key K⦄ where
  new_leads :
      (k q : K) (a : ℕ) (o : Option ℕ)
      → (if k ≈ q then some a else o) ≡ (if q ≈ k then some a else o)
  new_leads k q a o = rw (≈-sym k q) refl

module _ {K V : Type 0} ⦃key : Key K⦄ where
  add_front_step :
      (cache : LruCache K V) (k : K) (v : V) (r : DoublyLinkedList (K × V) × ℕ) (m : HashMap K ℕ)
      → dll_insert_nth_node cache.dll 0 (k, v) ≡ ok r
      → hm_set cache.map k r.1 ≡ ok m
      → add_front cache k v ≡ ok (record cache { dll = r.0; map = m })
  unfolding add_front
  add_front_step cache k v r m run run2 = rw (run, run2) refl

  -- A new key in a cache with room.
  added :
      (cache : LruCache K V) (xs : Nodes (K × V)) (k : K) (v : V)
      → IsCache cache xs
      → address_of k xs ≡ none
      → length xs < cache.cap
      → Returns
          (add_front cache k v)
          (λ c. IsCache c ((cache.dll.fresh, (k, v)) ∷ xs) × (c.cap ≡ cache.cap))
  added cache xs k v is absent room =
      let p = cache.dll.fresh in
      let (r, run, (p_is, holds, fresh_is, out)) =
        dll_insert_nth_node-IsDll cache.dll xs (k, v) is.linked (omega (arith, is.small)) in
      let (m, run2, (writes, size_is)) =
        hm_set-Writes cache.map k r.1 is.is_map (omega (arith, is.small)) in
      (
        record cache { dll = r.0; map = m },
        add_front_step cache k v r m run run2,
        (
          record {
            linked = holds;
            is_map =
                subst (λ n. IsMap n m) (omega arith)
                  (subst (λ o. IsMap (grown (length xs) o) m) (is.leads k ∙ absent) writes.is_map);
            leads = λ q. writes.reads q ∙ rw (is.leads q, p_is) (new_leads k q p (address_of q xs));
            keys_apart = (absent, is.keys_apart);
            within = omega (arith, room);
            small = is.small;
          },
          refl,
        ),
      )

  put_node :
      (cache : LruCache K V) (k : K) (v : V) (p : ℕ) (node : Node (K × V)) (c : LruCache K V)
      → hm_get cache.map k ≡ ok (some p)
      → cache.dll.cells p ≡ some node
      → move_to_front
          (record cache { dll = store cache.dll p (record node { entry = (node.entry.0, v) }) })
          p
        ≡ ok c
      → lru_cache_put cache k v ≡ ok ((true, none), c)
  unfolding lru_cache_put
  put_node cache k v p node c e at run = rw (e, load-some cache.dll p node at, run) refl

  put_new :
      (cache : LruCache K V) (k : K) (v : V) (r : Option K × LruCache K V) (c : LruCache K V)
      → hm_get cache.map k ≡ ok none
      → (if lru_cache_is_full cache then evict_node cache cache.dll.tail else ok (none, cache))
        ≡ ok r
      → add_front r.1 k v ≡ ok c
      → lru_cache_put cache k v ≡ ok ((false, r.0), c)
  unfolding lru_cache_put
  put_new cache k v r c e room run = rw (e, room, run) refl

  added-Represents :
      (cache : LruCache K V) (es : Entries K V) (k : K) (v : V)
      → Represents cache es
      → lookup k es ≡ none
      → length es < cache.cap
      → Returns (add_front cache k v) (λ c. Represents c ((k, v) ∷ es) × (c.cap ≡ cache.cap))
  added-Represents cache es k v r absent room =
      let length_is : length r.nodes ≡ length es =
        sym (length-contents r.nodes) ∙ ap length r.entries in
      let (c, run, (is, cap_is)) =
        added cache r.nodes k v r.is_cache (absent_address k r.nodes (rw r.entries absent))
          (rw length_is room) in
      (
        c,
        run,
        (
          record {
            nodes = (cache.dll.fresh, (k, v)) ∷ r.nodes;
            is_cache = is;
            entries = ap (λ t. (k, v) ∷ t) r.entries;
          },
          cap_is,
        ),
      )

  -- On a cache with a positive capacity lru_cache_put does not fault; a new key with its value
  -- becomes the first entry, the least recently used entry gives way if the cache was full, and
  -- its key is returned; a key that is there gets the new value and moves to the front. The
  -- answer tells whether the key was there.
  pub lru_cache_put-Represents :
      (cache : LruCache K V) (es : Entries K V) (k : K) (v : V)
      → Represents cache es
      → 0 < cache.cap
      → Returns (lru_cache_put cache k v) (λ r.
        (r.0 ≡ answered cache.cap (lookup k es) es)
        × Represents r.1 (stored cache.cap k v (lookup k es) es)
        × (r.1.cap ≡ cache.cap))
  lru_cache_put-Represents cache es k v r positive =
      let xs = r.nodes in
      let is = r.is_cache in
      let got = hm_get-view cache.map k is.is_map in
      elim (Option-cases (address_of k xs)) [
        | inl absent ↦
            let none_is : lookup k es ≡ none = rw (← r.entries) (lookup-absent k xs absent) in
            let (c1, run1, (key_is, rep1, cap1, room)) = make_room-Represents cache es r positive in
            let (c2, run2, (rep2, cap2)) =
              added-Represents c1.1 (made_room cache.cap es) k v rep1
                (lookup-made_room k cache.cap es none_is) (rw cap1 room) in
            (
              ((false, c1.0), c2),
              put_new cache k v c1 c2 (got ∙ ap ok (is.leads k ∙ absent)) run1 run2,
              (rw none_is (ap (λ o. (false, o)) key_is), rw none_is rep2, cap2 ∙ cap1),
            )
        | inr (p, at) ↦
            let (ys, old, zs, l) = located k p xs at is.keys_apart in
            let holds : IsDll cache.dll (ys ++ (p, (k, old)) ∷ zs) = rw (← l.parts) is.linked in
            let holds2 = store-IsDll cache.dll ys p (k, old) (k, v) zs holds in
            let (c, run, (is2, cap_is)) = moved cache xs ys zs p k old v _ is at l holds2 in
            let some_is : lookup k es ≡ some old = rw (← r.entries) l.found in
            (
              ((true, none), c),
              put_node cache k v p _ c (got ∙ ap ok (is.leads k ∙ at))
                  (entry_at cache.dll ys p (k, old) zs holds) run,
              (
                rw some_is refl,
                rw some_is (record {
                  nodes = (p, (k, v)) ∷ (ys ++ zs);
                  is_cache = is2;
                  entries = ap (λ t. (k, v) ∷ t) (rw (← r.entries) (sym l.rest));
                }),
                cap_is,
              ),
            )
      ]
