-- ===== src/LruCache/Eviction.antt =====
-- The eviction in `lru_cache_put` of skel/lru_cache.c takes the least recently used entry.
use mathlib.Core.Path.{subst}
use hashring_load_balancer.Base.{
  ℕ, suc, ◌<◌, ◌≡◌, refl, sym, ap, ◌∙◌, Bool, true, false, ◌==◌, if◌then◌else◌, Bool-cases, inl,
  inr, Option, none, some, List, [], ◌∷◌, ◌++◌, length, arith, Returns, ok,
}
use hashring_load_balancer.HashMap.KeyFunctions.{Key, ◌≈◌}
use hashring_load_balancer.DoublyLinkedList.{Node}
use hashring_load_balancer.DoublyLinkedList.Chain.{Nodes, last}
use hashring_load_balancer.DoublyLinkedList.Holds.{IsDll, load-some}
use hashring_load_balancer.DoublyLinkedList.Remove.{entry_at}
use hashring_load_balancer.LruCache.{LruCache, evict_node, lru_cache_is_full, lru_cache_remove}
use hashring_load_balancer.LruCache.Recency.{
  Entries, lookup, without, drop_last, last_of, victim, made_room,
}
use hashring_load_balancer.LruCache.Remove.{lru_cache_remove-Represents}
use hashring_load_balancer.LruCache.Holds.{
  contents, address_of, IsCache, Represents, KeysApart, ≈-refl, ≈-sym,
}

module _ {A : Type 0} where
  length-drop_last : (b : A) (l : List A) → length (drop_last (b ∷ l)) ≡ length l
  length-drop_last b [] = refl
  length-drop_last b (c ∷ l) = ap (λ n. suc n) (length-drop_last c l)

  drop_last_less :
      (a : A) (l : List A) (cap : ℕ)
      → (length (a ∷ l) == cap) ≡ true
      → length (drop_last (a ∷ l)) < cap
  drop_last_less a l cap e = let shorter = length-drop_last a l in ground (arith, shorter)

  first_branch : (c : Bool) (a b : A) → c ≡ true → (if c then a else b) ≡ a
  first_branch c a b e = rw e refl

  second_branch : (c : Bool) (a b : A) → c ≡ false → (if c then a else b) ≡ b
  second_branch c a b e = rw e refl

  pub length-contents : (xs : Nodes A) → length (contents xs) ≡ length xs
  length-contents [] = refl
  length-contents (x ∷ xs) = ap (λ n. suc n) (length-contents xs)

  last_split :
      (start : Option ℕ) (x : ℕ × A) (xs : Nodes A)
      → (ys : Nodes A) × (z : ℕ × A) × (x ∷ xs ≡ ys ++ z ∷ [])
        × (last start (x ∷ xs) ≡ some z.0)
        × (last_of x.1 (contents xs) ≡ z.1)
  last_split start x [] = ([], x, refl, refl, refl)
  last_split start x (y ∷ xs) =
      let (ys, z, parts, at, entry) = last_split (some x.0) y xs in
      (x ∷ ys, z, ap (λ l. x ∷ l) parts, at, entry)

module _ {K V : Type 0} ⦃key : Key K⦄ where
  last_other :
      (k : K) (x : ℕ × (K × V)) (xs : Nodes (K × V))
      → address_of k (x ∷ xs) ≡ none
      → (k ≈ (last_of x.1 (contents xs)).0) ≡ false
  last_other k x [] e = ground arith
  last_other k x (y ∷ xs) e = last_other k y xs (ground arith)

  without_last :
      (x : ℕ × (K × V)) (xs : Nodes (K × V))
      → KeysApart (x ∷ xs)
      → without (last_of x.1 (contents xs)).0 (contents (x ∷ xs)) ≡ drop_last (contents (x ∷ xs))
  without_last x [] apart = rw (≈-refl x.1.0) refl
  without_last x (y ∷ xs) apart =
      rw (≈-sym (last_of y.1 (contents xs)).0 x.1.0, last_other x.1.0 y xs apart.0)
        (ap (λ l. x.1 ∷ l) (without_last y xs apart.1))

  lookup-drop_last :
      (k : K) (es : Entries K V) → lookup k es ≡ none → lookup k (drop_last es) ≡ none
  lookup-drop_last k [] e = refl
  lookup-drop_last k (x ∷ []) e = refl
  lookup-drop_last k (x ∷ y ∷ es) e = ground (arith, lookup-drop_last k (y ∷ es))

  pub lookup-made_room :
      (k : K) (cap : ℕ) (es : Entries K V) → lookup k es ≡ none → lookup k (made_room cap es) ≡ none
  lookup-made_room k cap es e = ground (arith, lookup-drop_last k es e)

  evict_step :
      (cache : LruCache K V) (tail : Option ℕ) (p : ℕ) (node : Node (K × V)) (c : LruCache K V)
      → tail ≡ some p
      → cache.dll.cells p ≡ some node
      → lru_cache_remove cache node.entry.0 ≡ ok c
      → evict_node cache tail ≡ ok (some node.entry.0, c)
  unfolding evict_node
  evict_step cache tail p node c tail_is at run =
      rw (tail_is, load-some cache.dll p node at, run) refl

  evict-last :
      (cache : LruCache K V) (x : ℕ × (K × V)) (xs : Nodes (K × V))
      → IsCache cache (x ∷ xs)
      → Returns (evict_node cache cache.dll.tail) (λ r.
        (r.0 ≡ some (last_of x.1 (contents xs)).0)
        × Represents r.1 (drop_last (contents (x ∷ xs)))
        × (r.1.cap ≡ cache.cap))
  evict-last cache x xs is =
      let (ys, z, parts, tail_is, entry) = last_split none x xs in
      let holds : IsDll cache.dll (ys ++ z ∷ []) = rw (← parts) is.linked in
      let (c, run, (rep, cap_is)) =
        lru_cache_remove-Represents cache (contents (x ∷ xs)) z.1.0
          (record { nodes = x ∷ xs; is_cache = is; entries = refl }) in
      (
        (some z.1.0, c),
        evict_step cache cache.dll.tail z.0 _ c (is.linked.tail_is ∙ tail_is)
            (entry_at cache.dll ys z.0 z.1 [] holds) run,
        (
          ap (λ e. some e.0) (sym entry),
          subst (Represents c)
              (ap (λ e. without e.0 (contents (x ∷ xs))) (sym entry)
                ∙ without_last x xs is.keys_apart)
              rep,
          cap_is,
        ),
      )

  -- What the eviction leaves, with the answer.
  abbrev pub RoomFor : LruCache K V → Entries K V → Option K × LruCache K V → Type 0
  RoomFor cache es r =
      (r.0 ≡ victim cache.cap es)
      × Represents r.1 (made_room cache.cap es)
      × (r.1.cap ≡ cache.cap)
      × (length (made_room cache.cap es) < cache.cap)

  victim-absent : (cap : ℕ) (es : Entries K V) → (length es == cap) ≡ false → victim cap es ≡ none
  victim-absent cap [] e = refl
  victim-absent cap (x ∷ es) e = rw e refl

  stays :
      (cache : LruCache K V) (xs : Nodes (K × V))
      → IsCache cache xs
      → (length (contents xs) == cache.cap) ≡ false
      → RoomFor cache (contents xs) (none, cache)
  stays cache xs is e = (
    sym (victim-absent cache.cap (contents xs) e),
    rw e (record { nodes = xs; is_cache = is; entries = refl }),
    refl,
    rw e (ground (arith, is.within, length-contents xs)),
  )

  leaves :
      (cache : LruCache K V) (xs : Nodes (K × V))
      → IsCache cache xs
      → 0 < cache.cap
      → (length (contents xs) == cache.cap) ≡ true
      → Returns (evict_node cache cache.dll.tail) (RoomFor cache (contents xs))
  leaves cache [] is positive e = absurd (ground (arith, positive))
  leaves cache (x ∷ xs) is positive e =
      let (r, run, (key_is, rep, cap_is)) = evict-last cache x xs is in
      (r, run, (rw e key_is, rw e rep, cap_is, rw e (drop_last_less x.1 (contents xs) cache.cap e)))

  full_test :
      (cache : LruCache K V) (xs : Nodes (K × V))
      → IsCache cache xs
      → lru_cache_is_full cache ≡ (length (contents xs) == cache.cap)
  unfolding lru_cache_is_full
  full_test cache xs is = ap (λ n. n == cache.cap) (is.linked.size_is ∙ sym (length-contents xs))

  -- In a cache with a positive capacity, there is room for a new key after this.
  pub make_room-Represents :
      (cache : LruCache K V) (es : Entries K V)
      → Represents cache es
      → 0 < cache.cap
      → Returns
          (if lru_cache_is_full cache then evict_node cache cache.dll.tail else ok (none, cache))
          (RoomFor cache es)
  make_room-Represents cache es r positive =
      let is = r.is_cache in
      let full_is : lru_cache_is_full cache ≡ (length (contents r.nodes) == cache.cap) =
        full_test cache r.nodes is in
      rw (← r.entries) (elim (Bool-cases (length (contents r.nodes) == cache.cap)) [
        | inl full ↦
            let (c, run, room) = leaves cache r.nodes is positive full in
            (c, first_branch _ _ _ (full_is ∙ full) ∙ run, room)
        | inr room ↦
            ((none, cache), second_branch _ _ _ (full_is ∙ room), stays cache r.nodes is room)
      ])
