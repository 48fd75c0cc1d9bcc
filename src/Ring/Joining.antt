-- ===== src/Ring/Joining.antt =====
-- The documents that `transfer_files` of skel/server.c moves when a server joins the ring of
-- skel/load_balancer.c are those whose owner changes.
use native.Mathlib.Decide.{dec_lt}
use hashring_load_balancer.Base.{
  ℕ, suc, ◌+◌, ◌-◌, ◌%◌, ◌≤◌, ◌<◌, ◌≡◌, ◌≢◌, sym, ◌∙◌, Bool, false, ◌&&◌, ltb, ◌==◌, if◌then◌else◌,
  some, List, length, get_elem?, insert_at, length-insert_at, get_elem?-insert_at, get_elem?_bound,
  get_elem?_total, arith,
}
use hashring_load_balancer.Base.Int.{is_positive}
use hashring_load_balancer.ArrayList.Search.{Splits}
use hashring_load_balancer.Ring.{Server, compare_uints, cmp_servers, should_move}
use hashring_load_balancer.Ring.Owner.{
  place, IsRing, reaches, owner, owner-filled, rank, rank-Splits, owner-Splits,
}

-- The server `d` stands at index `k` of the ring `xs` that it joins, and no server is at its place.
pub record Joins (xs : List Server) (d : Server) (k : ℕ) : Type 0 where
  pub inside : k ≤ length xs
  pub before : (i : ℕ) (s : Server) → i < k → get_elem? xs i ≡ some s → place s < place d
  pub behind : (i : ℕ) (s : Server) → k ≤ i → get_elem? xs i ≡ some s → place d < place s

-- The index that `al_insert_ordered` finds, when no server has the same place.
pub Splits-Joins :
    {xs : List Server} {d : Server} {k : ℕ}
    → Splits (λ m. is_positive (cmp_servers m d)) xs k
    → ((i : ℕ) (s : Server) → get_elem? xs i ≡ some s → place s ≢ place d)
    → Joins xs d k
unfolding cmp_servers compare_uints
Splits-Joins s new = record {
  inside = s.inside;
  before = λ i v p e. ground (arith, s.below i v, new i v);
  behind = λ i v p e. ground (arith, s.above i v, new i v);
}

-- what `transfer_files` from `src` to `d` decides about a document of `o`
abbrev pub moves : Server → Server → Server → ℕ → Bool
moves d src o h = place o == place src && should_move (place src) h (place d)

module _ {xs : List Server} {d : Server} {k : ℕ} (ring : IsRing xs) (j : Joins xs d k) where
  -- The ring with the new server is a ring.
  pub joined-IsRing : IsRing (insert_at xs k d)
  joined-IsRing = record {
    ordered = λ i j' s t p e f. ground (
      arith,
      get_elem?-insert_at xs k i d,
      get_elem?-insert_at xs k j' d,
      ring.ordered i j' s t,
      ring.ordered i (j' - 1) s t,
      ring.ordered (i - 1) (j' - 1) s t,
      j.before i s,
      j.behind (j' - 1) t,
      j.inside,
    );
  }

  module _ (h r : ℕ) (split : Splits (reaches h) xs r) where
    -- A hash before the new server: the split stays.
    before-Splits : h ≤ place d → (r ≤ k) × Splits (reaches h) (insert_at xs k d) r
    unfolding reaches
    before-Splits le =
        let early : r ≤ k = not_behind le in
        (
          early,
          record {
            inside = omega (arith, split.inside, length-insert_at xs k d);
            below =
                λ i v p e. ground (arith, get_elem?-insert_at xs k i d, j.inside, split.below i v);
            above = λ i v p e. ground (
              arith,
              get_elem?-insert_at xs k i d,
              j.inside,
              split.above i v,
              split.above (i - 1) v,
            );
          },
        )
      where
        not_behind : h ≤ place d → r ≤ k
        not_behind le' = elim (dec_lt k r) [
          | no early ↦ omega arith
          | yes late ↦
              let (s, e) = get_elem?_total xs k (omega (arith, split.inside)) in
              absurd (ground (arith, j.behind k s, split.below k s))
        ]

    behind-Splits : place d < h → (k ≤ r) × Splits (reaches h) (insert_at xs k d) (suc r)
    unfolding reaches
    behind-Splits lt =
        let late : k ≤ r = not_before lt in
        (
          late,
          record {
            inside = omega (arith, split.inside, length-insert_at xs k d);
            below = λ i v p e. ground (
              arith,
              get_elem?-insert_at xs k i d,
              j.inside,
              split.below i v,
              split.below (i - 1) v,
            );
            above = λ i v p e.
                ground (arith, get_elem?-insert_at xs k i d, j.inside, split.above (i - 1) v);
          },
        )
      where
        not_before : place d < h → k ≤ r
        not_before lt' = elim (dec_lt r k) [
          | no late ↦ omega arith
          | yes early ↦
              let (s, e) = get_elem?_total xs r (omega (arith, j.inside)) in
              absurd (ground (arith, j.before r s, split.above r s))
        ]

  -- The source is the next server on the ring, clockwise.
  source_at :
      {src : Server}
      → 0 < length xs
      → get_elem? (insert_at xs k d) ((k + 1) % length (insert_at xs k d)) ≡ some src
      → get_elem? xs (if ltb k (length xs) then k else 0) ≡ some src
  source_at {src} filled e = elim (dec_lt k (length xs)) [
    | yes inner ↦
        let at : (k + 1) % length (insert_at xs k d) ≡ k + 1 =
          grind (arith, length-insert_at xs k d) in
        let e' : get_elem? (insert_at xs k d) (k + 1) ≡ some src = rw at at e in
        let read = get_elem?-insert_at xs k (k + 1) d j.inside in
        let back : k + 1 - 1 ≡ k = omega arith in ground arith
    | no outer ↦
        let last : k ≡ length xs = omega (arith, j.inside) in
        let at : (k + 1) % length (insert_at xs k d) ≡ 0 = grind (arith, length-insert_at xs k d) in
        let e' : get_elem? (insert_at xs k d) 0 ≡ some src = rw at at e in
        let read = get_elem?-insert_at xs k 0 d j.inside in ground arith
  ]

  module _ {h r : ℕ} {src o : Server} (split : Splits (reaches h) xs r)
      (e : get_elem? xs (if ltb r (length xs) then r else 0) ≡ some o)
      (s : get_elem? xs (if ltb k (length xs) then k else 0) ≡ some src) where
    before-owner :
        h < place d
        → r ≤ k
        → get_elem? (insert_at xs k d) (if ltb r (length (insert_at xs k d)) then r else 0)
          ≡ some (if moves d src o h then d else o)
    unfolding should_move reaches
    before-owner lt early = elim (dec_lt r k) [
      | yes r-lt-k ↦ ground (
        arith,
        length-insert_at xs k d,
        get_elem?-insert_at xs k r d,
        j.inside,
        split.inside,
        ring.ordered r k o src,
        ring.ordered 0 r src o,
        ring.ordered 0 k o src,
        split.above 0 src,
        split.above k src,
        split.below 0 src,
        j.before 0 src,
        j.behind k src,
        j.behind 0 src,
        get_elem?_bound xs 0 {a = src},
        get_elem?_bound xs 0 {a = o},
        split.above r o,
      )
      | no r-ge-k ↦ ground (
        arith,
        length-insert_at xs k d,
        get_elem?-insert_at xs k r d,
        j.inside,
        split.inside,
        ring.ordered r k o src,
        ring.ordered 0 r src o,
        ring.ordered 0 k o src,
        split.above 0 src,
        split.above k src,
        split.below 0 src,
        j.before 0 src,
        j.behind k src,
        j.behind 0 src,
        get_elem?_bound xs 0 {a = src},
        get_elem?_bound xs 0 {a = o},
        split.above r o,
      )
    ]

    behind-owner :
        place d < h
        → k ≤ r
        → get_elem?
            (insert_at xs k d)
            (if ltb (suc r) (length (insert_at xs k d)) then suc r else 0)
          ≡ some (if moves d src o h then d else o)
    unfolding should_move reaches
    behind-owner lt late =
        let back : suc r - 1 ≡ r = omega arith in
        ground (
          arith,
          length-insert_at xs k d,
          get_elem?-insert_at xs k (suc r) d,
          get_elem?-insert_at xs k 0 d,
          j.inside,
          split.inside,
          ring.ordered r k o src,
          ring.ordered 0 r src o,
          ring.ordered 0 k o src,
          split.above 0 src,
          split.above k src,
          split.below 0 src,
          j.before 0 src,
          j.behind k src,
          j.behind 0 src,
          get_elem?_bound xs 0 {a = src},
          get_elem?_bound xs 0 {a = o},
          split.above r o,
        )

  -- When a server joins a ring, a document whose hash is not the new server's own belongs to the new
  -- server exactly if it belonged to the next server on the ring and `transfer_files` moves it from
  -- there; every other document keeps its owner.
  pub owner_joined :
      (h : ℕ) (src o : Server)
      → h ≢ place d
      → owner h xs ≡ some o
      → get_elem? (insert_at xs k d) ((k + 1) % length (insert_at xs k d)) ≡ some src
      → owner h (insert_at xs k d) ≡ some (if moves d src o h then d else o)
  owner_joined h src o away e s =
      let r = rank h xs in
      let split = rank-Splits h xs ring in
      let at = sym (owner-Splits h xs r split) ∙ e in
      let s' = source_at (filled e) s in
      elim (dec_lt h (place d)) [
        | yes lt ↦
            let (early, new) = before-Splits h r split (omega arith) in
            owner-Splits h (insert_at xs k d) r new ∙ before-owner split at s' lt early
        | no ge ↦
            let (late, new) = behind-Splits h r split (omega arith) in
            owner-Splits h (insert_at xs k d) (suc r) new
            ∙ behind-owner split at s' (omega arith) late
      ]
    where
      filled : owner h xs ≡ some o → 0 < length xs
      filled e' = owner-filled h xs e'

  -- A document whose hash is the new server's own belongs to the new server, but `transfer_files`
  -- moves it from no server.
  pub owner_joined-boundary :
      (h : ℕ) (src : Server)
      → h ≡ place d
      → (owner h (insert_at xs k d) ≡ some d) × (should_move (place src) h (place d) ≡ false)
  unfolding should_move reaches
  owner_joined-boundary h src same =
      let r = rank h xs in
      let split = rank-Splits h xs ring in
      let (early, new) = before-Splits h r split (omega arith) in
      (owner-Splits h (insert_at xs k d) r new ∙ at_split r early split, ground arith)
    where
      at_split :
          (r : ℕ)
          → r ≤ k
          → Splits (reaches h) xs r
          → get_elem? (insert_at xs k d) (if ltb r (length (insert_at xs k d)) then r else 0)
            ≡ some d
      at_split r early split = elim (dec_lt r k) [
        | yes sooner ↦
            let (s, e) = get_elem?_total xs r (omega (arith, j.inside)) in
            absurd (ground (arith, j.before r s, split.above r s))
        | no later ↦
            ground
              (arith, get_elem?-insert_at xs k r d, length-insert_at xs k d, j.inside, split.inside)
      ]
