-- ===== src/Ring/Tests.antt =====
-- A ring of two servers that a third joins, and the theorems there.
use hashring_load_balancer.Base.{
  ℕ, zero, suc, ◌≤◌, ◌<◌, ◌≡◌, ◌≢◌, refl, true, false, if◌then◌else◌, some, List, [], ◌∷◌,
  get_elem?, insert_at, ok, arith,
}
use hashring_load_balancer.Hash.{hash_uint}
use hashring_load_balancer.ArrayList.{ArrayList, al_get_ordered}
use hashring_load_balancer.ArrayList.Holds.{Holds}
use hashring_load_balancer.ArrayList.Search.{first_or}
use hashring_load_balancer.Ring.{Server, cmp_server_to_hash, should_move}
use hashring_load_balancer.Ring.Owner.{place, IsRing, reaches, owner, al_get_ordered-owner}
use hashring_load_balancer.Ring.Joining.{Joins, moves, owner_joined, owner_joined-boundary}

abbrev pub server : ℕ → Server
server n = record { id = n; memory = n }

-- at the places 824515495 and 1722258072
abbrev pub ring : List Server
ring = server 1 ∷ server 2 ∷ []

-- at the place 1185298084
abbrev pub joining : Server
joining = server 10

pub ring-IsRing : IsRing ring
unfolding hash_uint
ring-IsRing = record { ordered = in_order }
  where
    in_order :
        (i j : ℕ) (s t : Server)
        → i < j
        → get_elem? ring i ≡ some s
        → get_elem? ring j ≡ some t
        → place s < place t
    in_order zero zero s t p e f = absurd (omega arith)
    in_order zero (suc zero) s t p e f =
        let first : server 1 ≡ s = ground arith in
        let second : server 2 ≡ t = ground arith in rw (← first, ← second) (omega arith)
    in_order (suc zero) zero s t p e f = absurd (omega arith)
    in_order (suc zero) (suc zero) s t p e f = absurd (omega arith)
    in_order (suc (suc i)) j s t p e f = cc
    in_order i (suc (suc j)) s t p e f = cc

pub ring-Joins : Joins ring joining 1
unfolding hash_uint
ring-Joins = record { inside = omega arith; before = earlier; behind = later }
  where
    earlier : (i : ℕ) (s : Server) → i < 1 → get_elem? ring i ≡ some s → place s < place joining
    earlier zero s p e = let first : server 1 ≡ s = ground arith in rw (← first) (omega arith)
    earlier (suc i) s p e = absurd (omega arith)

    later : (i : ℕ) (s : Server) → 1 ≤ i → get_elem? ring i ≡ some s → place joining < place s
    later zero s p e = absurd (omega arith)
    later (suc zero) s p e = let second : server 2 ≡ s = ground arith in rw (← second) (omega arith)
    later (suc (suc i)) s p e = cc

abbrev name_hash : ℕ
name_hash = 1000000000

owner_before : owner name_hash ring ≡ some (server 2)
unfolding owner first_or reaches hash_uint
owner_before = refl

moved : should_move (place (server 2)) name_hash (place joining) ≡ true
unfolding should_move hash_uint
moved = refl

away : name_hash ≢ place joining
unfolding hash_uint
away = omega arith

owner_joined_example :
    owner name_hash (insert_at ring 1 joining)
    ≡ some (if moves joining (server 2) (server 2) name_hash then joining else server 2)
owner_joined_example =
    owner_joined ring-IsRing ring-Joins name_hash (server 2) (server 2) away owner_before refl

owner_joined-boundary_example :
    (owner (place joining) (insert_at ring 1 joining) ≡ some joining)
    × (should_move (place (server 2)) (place joining) (place joining) ≡ false)
owner_joined-boundary_example =
    owner_joined-boundary ring-IsRing ring-Joins (place joining) (server 2) refl

-- the ring in a buffer of two slots
abbrev servers : ArrayList Server
servers = record { size = 2; capacity = 2; slots = some (server 1) ∷ some (server 2) ∷ [] }

servers-Holds : Holds servers ring
servers-Holds = record {
  size = refl;
  room = omega arith;
  buffer = refl;
  positive = omega arith;
  small = omega arith;
  few = omega arith;
  elements = stored;
}
  where
    stored : (i : ℕ) → i < 2 → get_elem? servers.slots i ≡ some (get_elem? ring i)
    stored zero h = refl
    stored (suc zero) h = refl
    stored (suc (suc i)) h = absurd (omega arith)

al_get_ordered-owner_example : al_get_ordered servers name_hash cmp_server_to_hash ≡ ok (server 2)
al_get_ordered-owner_example = al_get_ordered-owner name_hash servers-Holds ring-IsRing owner_before
