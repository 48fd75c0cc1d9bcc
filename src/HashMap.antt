-- ===== src/HashMap.antt =====
-- The chained hash map of skel/hashmap.c. Keys and values are kept by value; the hash and compare
-- functions that `hm_init` stores come as the instance `Key`, with what the map asks of them.
pub mod KeyFunctions
pub mod Bucket
pub mod Holds
pub mod Entry
pub mod Methods
mod Tests
use hashring_load_balancer.Base.{
  ℕ, ◌+◌, ◌-◌, ◌%◌, ◌^◌, ◌==◌, if◌then◌else◌, Option, none, some, List, [], ◌∷◌, get_elem?, set,
  replicate, Run, ok, fault, out_of_bounds, division_by_zero, ◌>>=◌,
}
use hashring_load_balancer.LinkedList.{LinkedList, ll_init, ll_insert_nth, ll_remove_nth_node}
use KeyFunctions.{Key}
use Bucket.{find, assign, index_of}

pub record HashMap (K V : Type 0) : Type 0 where
  pub hmax : ℕ
  pub size : ℕ
  pub buckets : List (LinkedList (K × V))

unfoldable pub hm_init : {K V : Type 0} → ℕ → HashMap K V
hm_init hmax = record { hmax = hmax; size = 0; buckets = replicate hmax ll_init }

-- `hash_function_key(key) % hmax`
unfoldable pub slot : {K : Type 0} ⦃key : Key K⦄ → ℕ → K → Run ℕ
slot ⦃key⦄ hmax k = if hmax == 0 then fault division_by_zero else ok (key.hash k % hmax)

-- `buckets[i]`
unfoldable pub bucket_at : {A : Type 0} → List (LinkedList A) → ℕ → Run (LinkedList A)
bucket_at buckets i = elim (get_elem? buckets i) [ none ↦ fault out_of_bounds | some l ↦ ok l ]

module _ {K V : Type 0} ⦃key : Key K⦄ where
  unfoldable pub locate : HashMap K V → K → Run (ℕ × LinkedList (K × V))
  unfolding slot bucket_at
  locate map k = do i ← slot map.hmax k; list ← bucket_at map.buckets i; ok (i, list)

  -- `none` is the null pointer.
  unfoldable pub hm_get : HashMap K V → K → Run (Option V)
  hm_get map k = do (i, list) ← locate map k; ok (find k list.nodes)

  -- The field `size` is not changed.
  unfoldable pub hm_set : HashMap K V → K → V → Run (HashMap K V)
  hm_set map k v = locate map k >>= λ at. elim (assign k v at.1.nodes) [
    | some nodes ↦
        ok (record map { buckets = set map.buckets at.0 (record at.1 { nodes = nodes }) })
    | none ↦ ll_insert_nth at.1 at.1.size (k, v) >>= λ list.
        ok (record map { buckets = set map.buckets at.0 list })
  ]

  unfoldable pub hm_remove : HashMap K V → K → Run (Option (K × V) × HashMap K V)
  hm_remove map k = locate map k >>= λ at. elim (index_of 0 k at.1.nodes) [
    | none ↦ ok (none, map)
    | some index ↦ ll_remove_nth_node at.1 index >>= λ removed. ok (
      some removed.0,
      record map {
        size = (map.size + 2 ^ 32 - 1) % 2 ^ 32;
        buckets = set map.buckets at.0 removed.1;
      },
    )
  ]
