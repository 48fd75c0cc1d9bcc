-- ===== src/LruCache/Tests.antt =====
-- Runs of the cache over document names, and its theorems at a cache with room for one entry.
use hashring_load_balancer.Base.{ℕ, ◌≡◌, List, [], ◌∷◌, Returns, arith}
use hashring_load_balancer.Strings.{string_key}
use hashring_load_balancer.LruCache.{
  LruCache, init_lru_cache, lru_cache_put, lru_cache_get, lru_cache_remove,
}
use hashring_load_balancer.LruCache.Recency.{Entries, lookup, without, touched, answered, stored}
use hashring_load_balancer.LruCache.Holds.{Represents, init_lru_cache-Represents}
use hashring_load_balancer.LruCache.Remove.{lru_cache_remove-Represents}
use hashring_load_balancer.LruCache.Use.{lru_cache_get-Represents}
use hashring_load_balancer.LruCache.Put.{lru_cache_put-Represents}

abbrev Cache : Type 0
Cache = LruCache (List ℕ) (List ℕ)

abbrev name : List ℕ
name = 97 ∷ []

abbrev other : List ℕ
other = 98 ∷ []

abbrev text : List ℕ
text = 120 ∷ 121 ∷ []

abbrev empty : Cache
empty = init_lru_cache 1

init_lru_cache-Represents_example : Represents empty []
init_lru_cache-Represents_example = init_lru_cache-Represents 1 (omega arith)

lru_cache_put-Represents_example : Returns (lru_cache_put empty name text) (λ r.
    (r.0 ≡ answered {V = List ℕ} 1 (lookup name []) [])
    × Represents r.1 (stored 1 name text (lookup name []) [])
    × (r.1.cap ≡ 1))
unfolding init_lru_cache
lru_cache_put-Represents_example =
    lru_cache_put-Represents empty [] name text init_lru_cache-Represents_example (omega arith)

abbrev one : Cache
one = lru_cache_put-Represents_example.0.1

abbrev entries : Entries (List ℕ) (List ℕ)
entries = (name, text) ∷ []

one-Represents : Represents one entries
one-Represents = lru_cache_put-Represents_example.2.1

lru_cache_get-Represents_example : Returns (lru_cache_get one name) (λ r.
    (r.0 ≡ lookup name entries)
    × Represents r.1 (touched name (lookup name entries) entries)
    × (r.1.cap ≡ one.cap))
lru_cache_get-Represents_example = lru_cache_get-Represents one entries name one-Represents

lru_cache_remove-Represents_example :
    Returns
      (lru_cache_remove one name)
      (λ c. Represents c (without name entries) × (c.cap ≡ one.cap))
lru_cache_remove-Represents_example = lru_cache_remove-Represents one entries name one-Represents
