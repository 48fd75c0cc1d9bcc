-- ===== src/LruCache/Remove.antt =====
-- The operations of skel/lru_cache.c against the list of entries that the cache stands for.
use mathlib.Core.Path.{subst}
use hashring_load_balancer.Base.{
  ℕ, ◌+◌, ◌-◌, ◌≡◌, refl, sym, ◌∙◌, Option-cases, inl, inr, Option, none, some, ◌∷◌, ◌++◌, map,
  length, length-append, arith, Returns, ok,
}
use hashring_load_balancer.HashMap.KeyFunctions.{Key}
use hashring_load_balancer.HashMap.{hm_remove, HashMap}
use hashring_load_balancer.HashMap.Holds.{IsMap}
use hashring_load_balancer.HashMap.Methods.{shrunk, value_of, hm_remove-Writes}
use hashring_load_balancer.DoublyLinkedList.{DoublyLinkedList, dll_remove_node, free_node}
use hashring_load_balancer.DoublyLinkedList.Chain.{Nodes}
use hashring_load_balancer.DoublyLinkedList.Holds.{IsDll}
use hashring_load_balancer.DoublyLinkedList.Remove.{free_node-IsDll, dll_remove_node-IsDll}
use hashring_load_balancer.LruCache.{LruCache, lru_cache_remove}
use hashring_load_balancer.LruCache.Recency.{Entries, without}
use hashring_load_balancer.LruCache.Holds.{
  address_of, Represents, located, without-absent, address_none,
}

module _ {K V : Type 0} ⦃key : Key K⦄ where
  remove_nothing :
      (cache : LruCache K V) (k : K) (removed : Option (K × ℕ) × HashMap K ℕ)
      → hm_remove cache.map k ≡ ok removed
      → value_of removed.0 ≡ none
      → lru_cache_remove cache k ≡ ok (record cache { map = removed.1 })
  unfolding lru_cache_remove
  remove_nothing cache k (none, map) run e = rw run refl
  remove_nothing cache k (some info, map) run e = cc

  remove_node :
      (cache : LruCache K V) (k : K) (removed : Option (K × ℕ) × HashMap K ℕ) (p : ℕ)
      (dll dll2 : DoublyLinkedList (K × V))
      → hm_remove cache.map k ≡ ok removed
      → value_of removed.0 ≡ some p
      → dll_remove_node cache.dll p ≡ ok dll
      → free_node dll p ≡ ok dll2
      → lru_cache_remove cache k ≡ ok (record cache { dll = dll2; map = removed.1 })
  unfolding lru_cache_remove
  remove_node cache k (none, map) p dll dll2 run e run2 run3 = cc
  remove_node cache k (some info, map) p dll dll2 run e run2 run3 =
      let same : info.1 ≡ p = ground arith in rw (run, same, run2, run3) refl

  pub length_parts :
      (xs ys : Nodes (K × V)) (x : ℕ × (K × V)) (zs : Nodes (K × V))
      → xs ≡ ys ++ x ∷ zs
      → length xs ≡ length (ys ++ zs) + 1
  length_parts xs ys x zs e = rw e (omega (arith, length-append ys (x ∷ zs), length-append ys zs))

  -- lru_cache_remove does not fault; it takes the entry of the key out, if there is one, and
  -- keeps the others in order.
  pub lru_cache_remove-Represents :
      (cache : LruCache K V) (es : Entries K V) (k : K)
      → Represents cache es
      → Returns (lru_cache_remove cache k) (λ c. Represents c (without k es) × (c.cap ≡ cache.cap))
  lru_cache_remove-Represents cache es k r =
      let xs = r.nodes in
      let is = r.is_cache in
      let (removed, run, (found, writes)) = hm_remove-Writes cache.map k is.is_map in
      elim (Option-cases (address_of k xs)) [
        | inl absent ↦ (
          record cache { map = removed.1 },
          remove_nothing cache k removed run (found ∙ is.leads k ∙ absent),
          (
            record {
              nodes = xs;
              is_cache = record {
                linked = is.linked;
                is_map =
                    subst (λ o. IsMap (shrunk (length xs) o) removed.1) (is.leads k ∙ absent)
                      writes.is_map;
                leads = λ q. writes.reads q ∙ rw (is.leads q) (address_none k q xs absent);
                keys_apart = is.keys_apart;
                within = is.within;
                small = is.small;
              };
              entries = rw (← r.entries) (sym (without-absent k xs absent));
            },
            refl,
          ),
        )
        | inr (p, at) ↦
            let (ys, v, zs, l) = located k p xs at is.keys_apart in
            let holds : IsDll cache.dll (ys ++ (p, (k, v)) ∷ zs) = rw (← l.parts) is.linked in
            let (dll, run2, (holds2, out, fresh_is, kept)) =
              dll_remove_node-IsDll cache.dll ys p (k, v) zs holds in
            let (dll2, run3, holds3) = free_node-IsDll dll (ys ++ zs) p _ holds2 kept out in
            let longer = length_parts xs ys (p, (k, v)) zs l.parts in
            let shorter : length xs - 1 ≡ length (ys ++ zs) = omega (arith, longer) in
            (
              record cache { dll = dll2; map = removed.1 },
              remove_node cache k removed p dll dll2 run (found ∙ is.leads k ∙ at) run2 run3,
              (
                record {
                  nodes = ys ++ zs;
                  is_cache = record {
                    linked = holds3;
                    is_map =
                        subst (λ n. IsMap n removed.1) shorter
                          (subst (λ o. IsMap (shrunk (length xs) o) removed.1) (is.leads k ∙ at)
                            writes.is_map);
                    leads = λ q. writes.reads q ∙ rw (is.leads q) (sym (l.gone q));
                    keys_apart = l.rest_apart;
                    within = omega (arith, is.within);
                    small = is.small;
                  };
                  entries = rw (← r.entries) (sym l.rest);
                },
                refl,
              ),
            )
      ]
