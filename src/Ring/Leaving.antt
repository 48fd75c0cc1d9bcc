-- ===== src/Ring/Leaving.antt =====
-- The documents of a server that leaves the ring of skel/load_balancer.c go to the next server,
-- where `internal_loader_remove_server` moves them.
use native.Mathlib.Decide.{dec_lt}
use hashring_load_balancer.Base.{
  ℕ, ◌+◌, ◌-◌, ◌%◌, ◌≤◌, ◌<◌, ◌≡◌, refl, sym, ◌∙◌, true, false, ltb, ◌==◌, if◌then◌else◌, some,
  List, length, get_elem?, erase_at, length-erase_at, get_elem?-erase_at, get_elem?_bound,
  get_elem?_total, arith,
}
use hashring_load_balancer.ArrayList.Search.{Splits}
use hashring_load_balancer.Ring.{Server}
use hashring_load_balancer.Ring.Owner.{
  place, IsRing, reaches, owner, rank, rank-Splits, owner-Splits,
}

-- The owner of a hash is on the ring.
pub owner-member :
    {xs : List Server} {o : Server} (h : ℕ)
    → IsRing xs
    → owner h xs ≡ some o
    → (i : ℕ) × (get_elem? xs i ≡ some o)
owner-member {xs} h ring e =
    let r = rank h xs in
    (if ltb r (length xs) then r else 0, sym (owner-Splits h xs r (rank-Splits h xs ring)) ∙ e)

-- Every hash has an owner if there are servers.
pub owner_total :
    {xs : List Server} (h : ℕ) → IsRing xs → 0 < length xs → (o : Server) × (owner h xs ≡ some o)
owner_total {xs} h ring filled =
    let r = rank h xs in
    let (o, e) = get_elem?_total xs (if ltb r (length xs) then r else 0) (ground (arith, filled)) in
    (o, owner-Splits h xs r (rank-Splits h xs ring) ∙ e)

-- The ring without the server is a ring.
pub left-IsRing : {xs : List Server} (k : ℕ) → IsRing xs → IsRing (erase_at xs k)
left-IsRing {xs} k ring = record {
  ordered = λ i j t u p e f. ground (
    arith,
    get_elem?-erase_at xs k i,
    get_elem?-erase_at xs k j,
    ring.ordered i j t u,
    ring.ordered i (j + 1) t u,
    ring.ordered (i + 1) (j + 1) t u,
  );
}

-- the index behind `k`, going round
next_at : (k n : ℕ) → k < n → (k + 1) % n ≡ (if ltb (k + 1) n then k + 1 else 0)
next_at k n inside = elim (dec_lt (k + 1) n) [
  | yes inner ↦
      let small : (k + 1) % n ≡ k + 1 = grind (arith, inner) in
      let test : ltb (k + 1) n ≡ true = ground (arith, inner) in rw (small, test) refl
  | no outer ↦
      let last : k + 1 ≡ n = omega arith in
      let round : (k + 1) % n ≡ 0 = grind (arith, last) in
      let test : ltb (k + 1) n ≡ false = ground (arith, last) in rw (round, test) refl
]

module _ {xs : List Server} {s : Server} (k : ℕ) (ring : IsRing xs)
    (at : get_elem? xs k ≡ some s) where
  module _ (h r : ℕ) (split : Splits (reaches h) xs r) where
    front-Splits : r ≤ k → Splits (reaches h) (erase_at xs k) r
    front-Splits early =
        let inside = get_elem?_bound xs k at in
        record {
          inside = omega (arith, length-erase_at xs k inside, inside);
          below = λ i v p e. ground (arith, get_elem?-erase_at xs k i, split.below i v);
          above = λ i v p e.
              ground (arith, get_elem?-erase_at xs k i, split.above i v, split.above (i + 1) v);
        }

    back-Splits : k < r → Splits (reaches h) (erase_at xs k) (r - 1)
    back-Splits late =
        let inside = get_elem?_bound xs k at in
        record {
          inside = omega (arith, split.inside, length-erase_at xs k inside);
          below = λ i v p e.
              ground (arith, get_elem?-erase_at xs k i, split.below i v, split.below (i + 1) v);
          above = λ i v p e. ground (arith, get_elem?-erase_at xs k i, split.above (i + 1) v);
        }

  module _ {dest o : Server} (r : ℕ) (two : 1 < length xs)
      (e : get_elem? xs (if ltb r (length xs) then r else 0) ≡ some o)
      (n : get_elem? xs (if ltb (k + 1) (length xs) then k + 1 else 0) ≡ some dest) where
    before-left :
        r < k
        → get_elem? (erase_at xs k) (if ltb r (length (erase_at xs k)) then r else 0)
          ≡ some (if place o == place s then dest else o)
    before-left early =
        let inside = get_elem?_bound xs k at in
        ground (arith, length-erase_at xs k inside, get_elem?-erase_at xs k r, ring.ordered r k o s)

    itself-left :
        r ≡ k
        → get_elem? (erase_at xs k) (if ltb r (length (erase_at xs k)) then r else 0)
          ≡ some (if place o == place s then dest else o)
    itself-left same =
        let inside = get_elem?_bound xs k at in
        ground
          (arith, length-erase_at xs k inside, get_elem?-erase_at xs k r, get_elem?-erase_at xs k 0)

    behind-left :
        k < r
        → r ≤ length xs
        → get_elem? (erase_at xs k) (if ltb (r - 1) (length (erase_at xs k)) then r - 1 else 0)
          ≡ some (if place o == place s then dest else o)
    behind-left late bound =
        let inside = get_elem?_bound xs k at in
        let back : r - 1 + 1 ≡ r = omega arith in
        ground (
          arith,
          length-erase_at xs k inside,
          get_elem?-erase_at xs k (r - 1),
          get_elem?-erase_at xs k 0,
          ring.ordered k r s o,
          ring.ordered 0 k o s,
        )

  -- When a server leaves a ring of two or more, its documents belong to the next server on the ring,
  -- and every other document keeps its owner.
  pub owner_left :
      (h : ℕ) (dest o : Server)
      → 1 < length xs
      → owner h xs ≡ some o
      → get_elem? xs ((k + 1) % length xs) ≡ some dest
      → owner h (erase_at xs k) ≡ some (if place o == place s then dest else o)
  owner_left h dest o two e next =
      let r = rank h xs in
      let split = rank-Splits h xs ring in
      let own = sym (owner-Splits h xs r split) ∙ e in
      let next' = rw (next_at k (length xs) (get_elem?_bound xs k at)) at next in
      elim (dec_lt k r) [
        | yes late ↦
            owner-Splits h (erase_at xs k) (r - 1) (back-Splits h r split late)
            ∙ behind-left r two own next' late split.inside
        | no not_late ↦
            owner-Splits h (erase_at xs k) r (front-Splits h r split (omega arith))
            ∙ (elim (dec_lt r k) [
              | yes early ↦ before-left r two own next' early
              | no other ↦ itself-left r two own next' (omega arith)
            ])
      ]
