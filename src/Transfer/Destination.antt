-- ===== src/Transfer/Destination.antt =====
-- The destination that `pick_dest` of skel/server.c chooses for a document of a server that leaves.
use mathlib.Core.Path.{subst}
use hashring_load_balancer.Base.{
  ℕ, ◌%◌, ◌^◌, ◌≤◌, ◌<◌, ◌≡◌, ◌≢◌, refl, sym, ◌∙◌, Bool, true, false, ◌==◌, Bool-cases, inl, inr,
  ◌⊎◌, none, some, List, [], ◌∷◌, ok, Returns, arith,
}
use hashring_load_balancer.Transfer.Pick.{Replica, better_dest, pick_dest_loop, pick_dest}
use hashring_load_balancer.Transfer.Nearest.{
  ahead, AllPlaced, OneOf, unequal, ahead_after, ahead_before,
}

-- whether the replica is one of the server with the id
abbrev pub of_server : ℕ → Replica → Bool
of_server src_id r = r.0.id % 100000 == src_id % 100000

-- No replica of another server than that with the id is nearer than `best`.
abbrev pub AllFarther : ℕ → ℕ → Replica → List Replica → Type 0
AllFarther name_hash src_id best [] = Unit
AllFarther name_hash src_id best (r ∷ dests) =
    (of_server src_id r ≡ false → ahead name_hash best.1 ≤ ahead name_hash r.1)
    × AllFarther name_hash src_id best dests

-- The tests hold only for a place that is not farther ahead, and for all that are nearer.
better_dest_lem :
    (n b h : ℕ) (t : Bool)
    → n < 2 ^ 32
    → b < 2 ^ 32
    → h < 2 ^ 32
    → b ≢ n
    → h ≢ n
    → better_dest n b h ≡ t
    → (t ≡ true → ahead n h ≤ ahead n b) × (t ≡ false → ahead n b ≤ ahead n h)
unfolding better_dest
better_dest_lem n b h t n32 b32 h32 bn hn e = cases (unequal n b bn) (unequal n h hn)
  where
    cases :
        (n < b) ⊎ (b < n)
        → (n < h) ⊎ (h < n)
        → (t ≡ true → ahead n h ≤ ahead n b) × (t ≡ false → ahead n b ≤ ahead n h)
    cases (inl nb) (inl nh) =
        rw (ahead_after n b nb b32, ahead_after n h nh h32)
          (λ yes. ground (arith, e, yes), λ no. ground (arith, e, no))
    cases (inl nb) (inr hn) =
        rw (ahead_after n b nb b32, ahead_before n h hn n32)
          (λ yes. ground (arith, e, yes), λ no. ground (arith, e, no))
    cases (inr bn) (inl nh) =
        rw (ahead_before n b bn n32, ahead_after n h nh h32)
          (λ yes. ground (arith, e, yes), λ no. ground (arith, e, no))
    cases (inr bn) (inr hn) =
        rw (ahead_before n b bn n32, ahead_before n h hn n32)
          (λ yes. ground (arith, e, yes), λ no. ground (arith, e, no))

distinct_bools : true ≢ false
distinct_bools e = cc

skip : (r b y : Replica) (l : List Replica) → OneOf r (b ∷ l) → OneOf r (b ∷ y ∷ l)
skip r b y l (inl e) = inl e
skip r b y l (inr o) = inr (inr o)

-- The rest of the loop, with an answer so far.
rest_chosen :
    (n src_id : ℕ) (dests : List Replica) (best : Replica)
    → n < 2 ^ 32
    → AllPlaced n (best ∷ dests)
    → of_server src_id best ≡ false
    → (r : Replica) × (pick_dest_loop n src_id dests (some best) ≡ some r)
      × OneOf r (best ∷ dests)
      × (of_server src_id r ≡ false)
      × AllFarther n src_id r (best ∷ dests)
unfolding pick_dest_loop
rest_chosen n src_id [] best n32 placed other =
    (best, refl, inl refl, other, (λ o. omega arith, tt))
rest_chosen n src_id (x ∷ dests) best n32 (b32, bn, (x32, xn, placed)) other =
    elim (Bool-cases (of_server src_id x)) [
      | inl own ↦
          let (r, run, one, apart, (near, behind)) =
            rest_chosen n src_id dests best n32 (b32, bn, placed) other in
          (
            r,
            rw own run,
            skip r best x dests one,
            apart,
            (near, (λ o. absurd (distinct_bools (sym own ∙ o)), behind)),
          )
      | inr foreign ↦ elim (Bool-cases (better_dest n best.1 x.1)) [
        | inl better ↦
            let (r, run, one, apart, (near, behind)) =
              rest_chosen n src_id dests x n32 (x32, xn, placed) foreign in
            let nearer = (better_dest_lem n best.1 x.1 true n32 b32 x32 bn xn better).0 refl in
            (
              r,
              rw (foreign, better) run,
              inr one,
              apart,
              (λ o. omega (arith, near foreign, nearer), (near, behind)),
            )
        | inr farther ↦
            let (r, run, one, apart, (near, behind)) =
              rest_chosen n src_id dests best n32 (b32, bn, placed) other in
            let beyond = (better_dest_lem n best.1 x.1 false n32 b32 x32 bn xn farther).1 refl in
            (
              r,
              rw (foreign, farther) run,
              skip r best x dests one,
              apart,
              (near, (λ o. omega (arith, near other, beyond), behind)),
            )
      ]
    ]

-- The loop from the start, if there is an answer.
chosen :
    (n src_id : ℕ) (dests : List Replica) (x : Replica)
    → n < 2 ^ 32
    → AllPlaced n dests
    → OneOf x dests
    → of_server src_id x ≡ false
    → (r : Replica) × (pick_dest_loop n src_id dests none ≡ some r)
      × OneOf r dests
      × (of_server src_id r ≡ false)
      × AllFarther n src_id r dests
unfolding pick_dest_loop
chosen n src_id [] x n32 placed one other = absurd (distinct_bools (sym one))
chosen n src_id (d ∷ dests) x n32 (d32, dn, placed) one other =
    elim (Bool-cases (of_server src_id d)) [
      | inl own ↦
          let (r, run, one', apart, behind) =
            chosen n src_id dests x n32 placed (later one own) other in
          (r, rw own run, inr one', apart, (λ o. absurd (distinct_bools (sym own ∙ o)), behind))
      | inr foreign ↦
          let (r, run, one', apart, behind) =
            rest_chosen n src_id dests d n32 (d32, dn, placed) foreign in
          (r, rw foreign run, one', apart, behind)
    ]
  where
    later : OneOf x (d ∷ dests) → of_server src_id d ≡ true → OneOf x dests
    later (inl e) own =
        absurd (distinct_bools (sym (subst (λ r. of_server src_id r ≡ true) (sym e) own) ∙ other))
    later (inr o) own = o

picked_lem :
    (n src_id : ℕ) (dests : List Replica) (r : Replica)
    → pick_dest_loop n src_id dests none ≡ some r
    → pick_dest n src_id dests ≡ ok r
unfolding pick_dest
picked_lem n src_id dests r e = rw (pick_dest, e) refl

-- Among destinations with 32-bit hashes, none at the place of the name itself, one of which at
-- least is not a replica of the server that leaves, pick_dest does not end the program; it
-- returns one of them that is not a replica of that server, and none of these is nearer to the
-- name's hash, going round the ring.
pub pick_dest-nearest :
    (n src_id : ℕ) (dests : List Replica) (x : Replica)
    → n < 2 ^ 32
    → AllPlaced n dests
    → OneOf x dests
    → of_server src_id x ≡ false
    → Returns
        (pick_dest n src_id dests)
        (λ r. OneOf r dests × (of_server src_id r ≡ false) × AllFarther n src_id r dests)
pick_dest-nearest n src_id dests x n32 placed one other =
    let (r, run, one', apart, farther) = chosen n src_id dests x n32 placed one other in
    (r, picked_lem n src_id dests r run, (one', apart, farther))
