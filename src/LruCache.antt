-- ===== src/LruCache.antt =====
-- The cache of skel/lru_cache.c: a doubly linked list of the entries, the most recently used one
-- first, and a hash map from the key of an entry to the address of its node. Keys and values are
-- kept by value, so that releasing their strings is not part of the model.
pub mod Recency
pub mod Holds
pub mod Remove
pub mod Use
pub mod Eviction
pub mod Put
mod Tests
use hashring_load_balancer.Base.{
  ℕ, ◌==◌, if◌then◌else◌, Option, none, some, Bool, true, false, Run, ok, fault, null_pointer,
  ◌>>=◌,
}
use hashring_load_balancer.DoublyLinkedList.{
  Ptr, Node, DoublyLinkedList, dll_init, load, store, dll_insert_nth, dll_insert_nth_node,
  dll_remove_node, free_node,
}
use hashring_load_balancer.HashMap.KeyFunctions.{Key}
use hashring_load_balancer.HashMap.{HashMap, hm_init, hm_get, hm_set, hm_remove}
use hashring_load_balancer.Strings.{hashmap_size}

-- The data of a node are the two fields of `lru_dll_data`.
pub record LruCache (K V : Type 0) : Type 0 where
  pub dll : DoublyLinkedList (K × V)
  pub map : HashMap K ℕ
  pub cap : ℕ

unfoldable pub init_lru_cache : {K V : Type 0} → ℕ → LruCache K V
init_lru_cache cap = record { cap = cap; dll = dll_init; map = hm_init hashmap_size }

unfoldable pub lru_cache_is_full : {K V : Type 0} → LruCache K V → Bool
lru_cache_is_full cache = cache.dll.size == cache.cap

module _ {K V : Type 0} ⦃key : Key K⦄ where
  -- No node is at the null address.
  unfoldable pub lru_cache_remove : LruCache K V → K → Run (LruCache K V)
  lru_cache_remove cache k = hm_remove cache.map k >>= λ removed. elim removed.0 [
    | none ↦ ok (record cache { map = removed.1 })
    | some info ↦ dll_remove_node cache.dll info.1 >>= λ dll.
        free_node dll info.1 >>= λ dll2. ok (record cache { dll = dll2; map = removed.1 })
  ]

  -- `dll_remove_node` and `dll_insert_nth(…, 0, …)`
  unfoldable pub move_to_front : LruCache K V → ℕ → Run (LruCache K V)
  move_to_front cache p = do
    dll ← dll_remove_node cache.dll p
    dll2 ← dll_insert_nth dll 0 p
    ok (record cache { dll = dll2 })

  -- `none` is the null pointer.
  unfoldable pub lru_cache_get : LruCache K V → K → Run (Option V × LruCache K V)
  lru_cache_get cache k = hm_get cache.map k >>= λ response. elim response [
    | none ↦ ok (none, cache)
    | some p ↦ load cache.dll p >>= λ info.
        move_to_front cache p >>= λ cache2. ok (some info.entry.1, cache2)
  ]

  -- the branch of a full cache, for the node at the tail: the evicted key
  unfoldable pub evict_node : LruCache K V → Ptr → Run (Option K × LruCache K V)
  evict_node cache none = fault null_pointer
  evict_node cache (some p) = load cache.dll p >>= λ removed.
      lru_cache_remove cache removed.entry.0 >>= λ cache2. ok (some removed.entry.0, cache2)

  -- the branch of a key that is not in the cache, behind the eviction
  unfoldable pub add_front : LruCache K V → K → V → Run (LruCache K V)
  add_front cache k v = do
    (dll, p) ← dll_insert_nth_node cache.dll 0 (k, v)
    map ← hm_set cache.map k p
    ok (record cache { dll = dll; map = map })

  -- Returned are whether the key was there, and the evicted key.
  unfoldable pub lru_cache_put : LruCache K V → K → V → Run ((Bool × Option K) × LruCache K V)
  unfolding store
  lru_cache_put cache k v = hm_get cache.map k >>= λ response. elim response [
    | none ↦
        (if lru_cache_is_full cache then evict_node cache cache.dll.tail else ok (none, cache))
        >>= λ evicted. add_front evicted.1 k v >>= λ cache2. ok ((false, evicted.0), cache2)
    | some p ↦ load cache.dll p >>= λ node.
        let dll = store cache.dll p (record node { entry = (node.entry.0, v) }) in
        move_to_front (record cache { dll = dll }) p >>= λ cache2. ok ((true, none), cache2)
  ]
