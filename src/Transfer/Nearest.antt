-- ===== src/Transfer/Nearest.antt =====
-- The replicas that `pick_src` and `pick_dest` of skel/server.c choose are the nearest ones.
use hashring_load_balancer.Base.{
  ℕ, ◌+◌, ◌-◌, ◌%◌, ◌^◌, ◌≤◌, ◌<◌, ◌≡◌, ◌≢◌, refl, sym, ◌∙◌, true, false, ltb, Bool-cases, inl, inr,
  ◌⊎◌, none, some, List, [], ◌∷◌, arith,
}
use hashring_load_balancer.Transfer.Pick.{Replica, better_src, pick_src}

-- how far it is from the hash to the place, going round
abbrev pub ahead : ℕ → ℕ → ℕ
ahead name_hash hash = (hash + 2 ^ 32 - name_hash) % 2 ^ 32

-- The replicas have 32-bit hashes, none the name's own.
abbrev pub AllPlaced : ℕ → List Replica → Type 0
AllPlaced name_hash [] = Unit
AllPlaced name_hash (r ∷ replicas) =
    (r.1 < 2 ^ 32) × (r.1 ≢ name_hash) × AllPlaced name_hash replicas

-- No replica is nearer than `best`.
abbrev pub AllBehind : ℕ → Replica → List Replica → Type 0
AllBehind name_hash best [] = Unit
AllBehind name_hash best (r ∷ replicas) =
    (ahead name_hash best.1 ≤ ahead name_hash r.1) × AllBehind name_hash best replicas

pub ahead_after : (n h : ℕ) → n < h → h < 2 ^ 32 → ahead n h ≡ h - n
ahead_after n h less h32 = omega arith

pub ahead_before : (n h : ℕ) → h < n → n < 2 ^ 32 → ahead n h ≡ h + 2 ^ 32 - n
ahead_before n h less n32 = omega arith

pub unequal : (n h : ℕ) → h ≢ n → (n < h) ⊎ (h < n)
unequal n h e = elim (Bool-cases (ltb n h)) [
  | inl less ↦ inl (ground (arith, less))
  | inr other ↦ inr (ground (arith, other, e))
]

-- The tests compare how far ahead the two places are.
better_src_lem :
    (n b h : ℕ)
    → n < 2 ^ 32
    → b < 2 ^ 32
    → h < 2 ^ 32
    → b ≢ n
    → h ≢ n
    → better_src n b h ≡ ltb (ahead n h) (ahead n b)
unfolding better_src
better_src_lem n b h n32 b32 h32 bn hn = cases (unequal n b bn) (unequal n h hn)
  where
    cases : (n < b) ⊎ (b < n) → (n < h) ⊎ (h < n) → better_src n b h ≡ ltb (ahead n h) (ahead n b)
    cases (inl nb) (inl nh) = rw (ahead_after n b nb b32, ahead_after n h nh h32) (ground arith)
    cases (inl nb) (inr hn) = rw (ahead_after n b nb b32, ahead_before n h hn n32) (ground arith)
    cases (inr bn) (inl nh) = rw (ahead_before n b bn n32, ahead_after n h nh h32) (ground arith)
    cases (inr bn) (inr hn) = rw (ahead_before n b bn n32, ahead_before n h hn n32) (ground arith)

abbrev pub OneOf : Replica → List Replica → Type 0
OneOf r [] = false ≡ true
OneOf r (x ∷ replicas) = (r ≡ x) ⊎ OneOf r replicas

no_less : (a b : ℕ) → ltb a b ≡ false → b ≤ a
no_less a b e = ground arith

less : (a b : ℕ) → ltb a b ≡ true → a < b
less a b e = ground arith

-- The rest of the loop of `pick_src`.
rest_picked :
    (n : ℕ) (replicas : List Replica) (best : Replica)
    → n < 2 ^ 32
    → AllPlaced n (best ∷ replicas)
    → (r : Replica) × (pick_src n replicas (some best) ≡ some r)
      × OneOf r (best ∷ replicas)
      × AllBehind n r (best ∷ replicas)
unfolding pick_src
rest_picked n [] best n32 placed = (best, refl, inl refl, (omega arith, tt))
rest_picked n (x ∷ replicas) best n32 (b32, bn, (x32, xn, placed)) =
    let same = better_src_lem n best.1 x.1 n32 b32 x32 bn xn in
    elim (Bool-cases (better_src n best.1 x.1)) [
      | inl better ↦
          let (r, run, one, (near, behind)) = rest_picked n replicas x n32 (x32, xn, placed) in
          let nearer = less (ahead n x.1) (ahead n best.1) (sym same ∙ better) in
          (r, rw better run, inr one, (omega (arith, near, nearer), (near, behind)))
      | inr other ↦
          let (r, run, one, (near, behind)) = rest_picked n replicas best n32 (b32, bn, placed) in
          let farther = no_less (ahead n x.1) (ahead n best.1) (sym same ∙ other) in
          (
            r,
            rw other run,
            skip r best x replicas one,
            (near, (omega (arith, near, farther), behind)),
          )
    ]
  where
    skip : (r b y : Replica) (l : List Replica) → OneOf r (b ∷ l) → OneOf r (b ∷ y ∷ l)
    skip r b y l (inl e) = inl e
    skip r b y l (inr o) = inr (inr o)

-- Among replicas with 32-bit hashes, none at the place of the name itself, pick_src returns one
-- of them, and none is nearer to the name's hash, going round the ring.
pub pick_src-nearest :
    (n : ℕ) (x : Replica) (replicas : List Replica)
    → n < 2 ^ 32
    → AllPlaced n (x ∷ replicas)
    → (r : Replica) × (pick_src n (x ∷ replicas) none ≡ some r)
      × OneOf r (x ∷ replicas)
      × AllBehind n r (x ∷ replicas)
unfolding pick_src
pick_src-nearest n x replicas n32 placed = rest_picked n replicas x n32 placed
