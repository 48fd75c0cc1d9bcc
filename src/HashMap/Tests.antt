-- ===== src/HashMap/Tests.antt =====
-- A map with three buckets over document names, and the theorems on the hash map there.
use hashring_load_balancer.Base.{ℕ, ◌≡◌, refl, none, some, List, [], ◌∷◌, ok, ◌>>=◌, Returns, arith}
use hashring_load_balancer.LinkedList.{
  ll_init, ll_insert_nth, ll_remove_nth_node, insert_within, unlink,
}
use hashring_load_balancer.Hash.{hash_string}
use hashring_load_balancer.Strings.{string_key, compare_string}
use hashring_load_balancer.HashMap.{HashMap, hm_init, locate, hm_get, hm_set, hm_remove}
use hashring_load_balancer.HashMap.Bucket.{find, assign, index_of}
use hashring_load_balancer.HashMap.Holds.{IsMap, view, hm_init-IsMap}
use hashring_load_balancer.HashMap.Entry.{Entry, hm_get-Entry}
use hashring_load_balancer.HashMap.Methods.{
  Writes, value_of, grown, shrunk, hm_set-Writes, hm_remove-Writes,
}

abbrev Map : Type 0
Map = HashMap (List ℕ) ℕ

abbrev name : List ℕ
name = 97 ∷ 98 ∷ []

abbrev empty : Map
empty = hm_init 3

empty-IsMap : IsMap 0 empty
empty-IsMap = (hm_init-IsMap {V = ℕ} 3 (omega arith)).0

hm_set-Writes_example :
    Returns
      (hm_set empty name 5)
      (λ map. Writes (grown 0 (view empty name)) empty name (some 5) map × (map.size ≡ empty.size))
hm_set-Writes_example = hm_set-Writes empty name 5 empty-IsMap (omega arith)

abbrev one : Map
one = hm_set-Writes_example.0

one-IsMap : IsMap (grown 0 (view empty name)) one
one-IsMap = hm_set-Writes_example.2.0.is_map

hm_get-Entry_example :
    Returns
      (hm_get one name)
      (λ o. (v : ℕ) → (o ≡ some v → Entry one name v) × (Entry one name v → o ≡ some v))
hm_get-Entry_example = hm_get-Entry one name one-IsMap

hm_remove-Writes_example : Returns (hm_remove one name) (λ r.
    (value_of r.0 ≡ view one name)
    × Writes (shrunk (grown 0 (view empty name)) (view one name)) one name none r.1)
hm_remove-Writes_example = hm_remove-Writes one name one-IsMap

-- `size` stays 0 under `hm_set`, and wraps under `hm_remove`.
size_wraps :
    (hm_set empty name 5 >>= λ map. hm_remove map name >>= λ r. ok r.1.size) ≡ ok 4294967295
unfolding hm_init locate hm_set hm_remove hash_string compare_string find assign index_of ll_init
    insert_within unlink ll_insert_nth ll_remove_nth_node
size_wraps = refl
