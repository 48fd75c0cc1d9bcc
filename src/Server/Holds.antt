-- ===== src/Server/Holds.antt =====
-- When the memory of a server of skel/server.c holds given documents.
use hashring_load_balancer.Base.{
  ℕ, ◌-◌, ◌^◌, ◌≤◌, ◌<◌, ◌≡◌, refl, sym, ◌∙◌, false, if◌then◌else◌, Bool-cases, inl, inr, Option,
  none, some, [], ◌∷◌, arith,
}
use hashring_load_balancer.HashMap.KeyFunctions.{Key, ◌≈◌}
use hashring_load_balancer.HashMap.{HashMap}
use hashring_load_balancer.HashMap.Holds.{IsMap, view, hm_init-IsMap}
use hashring_load_balancer.LruCache.Recency.{
  Entries, lookup, without, touched, stored, drop_last, made_room,
}
use hashring_load_balancer.LruCache.Holds.{Represents, init_lru_cache-Represents, ≈-sym}
use hashring_load_balancer.LruCache.{init_lru_cache}
use hashring_load_balancer.Strings.{string_key, hashmap_size}
use hashring_load_balancer.Server.{Text, Memory, init_server}

-- the documents of a server
abbrev pub Documents : Type 0
Documents = Text → Option Text

abbrev pub edited : Documents → Text → Text → Documents
edited docs name content q = if name ≈ q then some content else docs q

module _ {K V : Type 0} ⦃key : Key K⦄ where
  -- Every entry agrees with the documents.
  abbrev pub Coherent : Entries K V → (K → Option V) → Type 0
  Coherent es docs = (q : K) (w : V) → lookup q es ≡ some w → docs q ≡ some w

  lookup-drop_last :
      (q : K) (w : V) (es : Entries K V) → lookup q (drop_last es) ≡ some w → lookup q es ≡ some w
  lookup-drop_last q w [] e = e
  lookup-drop_last q w (x ∷ []) e = cc
  lookup-drop_last q w (x ∷ y ∷ es) e = ground (arith, lookup-drop_last q w (y ∷ es))

  lookup-made_room :
      (q : K) (w : V) (cap : ℕ) (es : Entries K V)
      → lookup q (made_room cap es) ≡ some w
      → lookup q es ≡ some w
  lookup-made_room q w cap es e = ground (arith, lookup-drop_last q w es)

  pub lookup-without :
      (q k : K) (es : Entries K V) → (q ≈ k) ≡ false → lookup q (without k es) ≡ lookup q es
  lookup-without q k [] e = refl
  lookup-without q k (x ∷ es) e = elim (Bool-cases (k ≈ x.0)) [
    | inl here ↦ rw (here, ← (key.compare_iff k x.0).0 here, e) refl
    | inr there ↦ rw (there, lookup-without q k es e) refl
  ]

  touched_by :
      (k : K) (o : Option V) (es : Entries K V) (docs : K → Option V)
      → lookup k es ≡ o
      → Coherent es docs
      → Coherent (touched k o es) docs
  touched_by k none es docs o_is c q w e = c q w e
  touched_by k (some v) es docs o_is c q w e = elim (Bool-cases (q ≈ k)) [
    | inl here ↦
        let same : q ≡ k = (key.compare_iff q k).0 here in
        let value : some v ≡ some w = rw here at e in c q w (rw same (o_is ∙ value))
    | inr there ↦
        let behind : lookup q (without k es) ≡ some w = rw there at e in
        c q w (sym (lookup-without q k es there) ∙ behind)
  ]

  -- A use keeps every entry in agreement.
  pub touched-Coherent :
      (k : K) (es : Entries K V) (docs : K → Option V)
      → Coherent es docs
      → Coherent (touched k (lookup k es) es) docs
  touched-Coherent k es docs c = touched_by k (lookup k es) es docs refl c

  written :
      (k q : K) (v w : V) (r : Option V) (docs : K → Option V)
      → (if q ≈ k then some v else r) ≡ some w
      → ((q ≈ k) ≡ false → r ≡ some w → docs q ≡ some w)
      → (if k ≈ q then some v else docs q) ≡ some w
  written k q v w r docs e behind = elim (Bool-cases (q ≈ k)) [
    | inl here ↦ rw (≈-sym k q, here) (rw here at e)
    | inr there ↦ rw (≈-sym k q, there) (behind there (rw there at e))
  ]

  -- So does a write of a document in both.
  pub stored-Coherent :
      (cap : ℕ) (k : K) (v : V) (o : Option V) (es : Entries K V) (docs : K → Option V)
      → Coherent es docs
      → Coherent (stored cap k v o es) (λ q. if k ≈ q then some v else docs q)
  stored-Coherent cap k v none es docs c q w e =
      written k q v w _ docs e (λ there r. c q w (lookup-made_room q w cap es r))
  stored-Coherent cap k v (some old) es docs c q w e =
      written k q v w _ docs e (λ there r. c q w (sym (lookup-without q k es there) ∙ r))

-- The map of the server stands for `docs`, with at most `n` of them, and every entry of the cache,
-- which are `es`, agrees with them.
pub record IsStore (n : ℕ) (m : Memory) (docs : Documents) (es : Entries Text Text) : Type 0 where
  pub is_map : IsMap n m.local_db
  pub reads : (q : Text) → view m.local_db q ≡ docs q
  pub cached : Represents m.cache es
  pub coherent : Coherent es docs
  pub positive : 0 < m.cache.cap

pub init_server-IsStore :
    (cache_size : ℕ)
    → 0 < cache_size
    → cache_size < 2 ^ 32 - 1
    → IsStore 0 (init_server cache_size) (λ q. none) []
unfolding init_server init_lru_cache
init_server-IsStore cache_size positive small =
    let (is_map, reads) = hm_init-IsMap {V = Text} hashmap_size (omega arith) in
    record {
      is_map = is_map;
      reads = reads;
      cached = init_lru_cache-Represents cache_size small;
      coherent = λ q w e. e;
      positive = positive;
    }

pub more-IsMap :
    {n : ℕ} (n' : ℕ) {map : HashMap Text Text}
    → IsMap n map
    → n ≤ n'
    → n' < 2 ^ 32 - 1
    → IsMap n' map
more-IsMap n' m more small = record {
  positive = m.positive;
  width = m.width;
  entries = omega (arith, m.entries);
  small = small;
  each = m.each;
}
