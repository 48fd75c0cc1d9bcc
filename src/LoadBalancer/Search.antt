-- ===== src/LoadBalancer/Search.antt =====
-- The searches for replicas in skel/load_balancer.c: they end without a fault, whether or not there is a
-- server with the id.
use native.Mathlib.Decide.{dec_lt}
use hashring_load_balancer.Base.{
  ℕ, zero, suc, ◌-◌, ◌%◌, ◌^◌, ◌<◌, ◌≡◌, ◌≢◌, refl, sym, ap, ◌∙◌, true, false, ◌==◌, ==_iff,
  Bool-cases, inl, inr, ◌⊎◌, some, List, [], ◌∷◌, length, get_elem?, get_elem?_bound,
  get_elem?_total, ok, arith,
}
use hashring_load_balancer.Base.Int.{negsuc, to_unsigned, is_zero}
use hashring_load_balancer.ArrayList.{ArrayList, al_get, clamp}
use hashring_load_balancer.ArrayList.Holds.{Holds, al_get-ok, read-ok}
use hashring_load_balancer.ArrayList.Find.{al_find_by-found, al_find_by-absent}
use hashring_load_balancer.Hash.{hash_uint}
use hashring_load_balancer.Ring
use hashring_load_balancer.Ring.{compare_uints, cmp_server_to_hash, cmp_server_to_id}
use hashring_load_balancer.Ring.Owner.{place, IsRing}
use hashring_load_balancer.LoadBalancer.{find_server, find_replicas}

-- Small ids are compared exactly.
id_test :
    (s : Ring.Server) (id : ℕ)
    → s.id < 300000
    → id < 300000
    → is_zero (cmp_server_to_id s id) ≡ (s.id == id)
unfolding cmp_server_to_id
id_test s id p q = ground arith

hash_test : (s : Ring.Server) (h : ℕ) → is_zero (cmp_server_to_hash s h) ≡ (place s == h)
unfolding cmp_server_to_hash compare_uints
hash_test s h = ground arith

-- a server with the id, or none
id_cases :
    (ring : List Ring.Server) (id : ℕ)
    → ((i : ℕ) × (s : Ring.Server) × (get_elem? ring i ≡ some s) × (s.id ≡ id))
      ⊎ ((i : ℕ) (s : Ring.Server) → get_elem? ring i ≡ some s → (s.id == id) ≡ false)
id_cases [] id = inr (λ i s e. cc)
id_cases (t ∷ ring) id = elim (Bool-cases (t.id == id)) [
  | inl here ↦ inl (0, t, refl, (==_iff t.id id).0 here)
  | inr there ↦ elim (id_cases ring id) [
    | inl (i, s, e, same) ↦ inl (suc i, s, e, same)
    | inr others ↦ inr (λ i s e. both there others i s e)
  ]
]
  where
    both :
        (t.id == id) ≡ false
        → ((i : ℕ) (s : Ring.Server) → get_elem? ring i ≡ some s → (s.id == id) ≡ false)
        → (i : ℕ) (s : Ring.Server) → get_elem? (t ∷ ring) i ≡ some s
        → (s.id == id) ≡ false
    both there others zero s e = ground arith
    both there others (suc i) s e = others i s e

abbrev pub AllSmall : List ℕ → Type 0
AllSmall [] = Unit
AllSmall (id ∷ ids) = (id < 300000) × AllSmall ids

-- The servers of a list are on the ring and have the given ids.
abbrev pub AllFound : List Ring.Server → List ℕ → List Ring.Server → Type 0
AllFound ring [] [] = Unit
AllFound ring [] (r ∷ replicas) = false ≡ true
AllFound ring (id ∷ ids) [] = false ≡ true
AllFound ring (id ∷ ids) (r ∷ replicas) =
    ((i : ℕ) × (get_elem? ring i ≡ some r)) × (r.id ≡ id) × AllFound ring ids replicas

module _ {servers : ArrayList Ring.Server} {ring : List Ring.Server} (held : Holds servers ring)
    (is_ring : IsRing ring)
    (ids : (i : ℕ) (s : Ring.Server) → get_elem? ring i ≡ some s → s.id < 300000) where
  pub find_server-found :
      (k : ℕ) (s : Ring.Server) → get_elem? ring k ≡ some s → find_server servers s.id ≡ ok k
  unfolding find_server
  find_server-found k s at =
      let inside : k < length ring = get_elem?_bound ring k at in
      let found =
        al_find_by-found held (hash_uint s.id) s.id cmp_server_to_hash cmp_server_to_id k s at
          (id_test s s.id (ids k s at) (ids k s at) ∙ ground arith)
          (λ j w before e.
            let other : place w ≢ place s =
              λ same. absurd (omega (arith, is_ring.ordered j k w s before e at, same)) in
            id_test w s.id (ids j w e) (ids k s at)
            ∙ ids_differ w.id s.id (λ same. other (ap hash_uint same)))
          (λ j w behind e.
            hash_test w (place s) ∙ ground (arith, is_ring.ordered k j s w behind at e)) in
      let exact : k % 2 ^ 32 ≡ k = omega (arith, held.room, held.small) in rw found (rw exact refl)
    where
      ids_differ : (i j : ℕ) → i ≢ j → (i == j) ≡ false
      ids_differ i j other = ground (arith, other)

  find_server-total : (id : ℕ) → id < 300000 → (k : ℕ) × (find_server servers id ≡ ok k)
  unfolding find_server
  find_server-total id small = elim (id_cases ring id) [
    | inl (i, s, at, same) ↦ (i, ap (find_server servers) (sym same) ∙ find_server-found i s at)
    | inr others ↦
        let absent =
          al_find_by-absent held (hash_uint id) id cmp_server_to_hash cmp_server_to_id
            (λ j w e. id_test w id (ids j w e) small ∙ others j w e) in
        (to_unsigned (negsuc 0), rw absent refl)
  ]

  -- An index past the end reads the last element.
  al_get-total : (i : ℕ) → 0 < length ring → (s : Ring.Server) × (al_get servers i ≡ ok s)
  unfolding al_get clamp
  al_get-total i filled = elim (dec_lt i (length ring)) [
    | yes inside ↦ let (s, at) = get_elem?_total ring i inside in (s, al_get-ok i held inside at)
    | no past ↦
        let (s, at) = get_elem?_total ring (length ring - 1) (omega arith) in
        let last : clamp servers i ≡ length ring - 1 =
          ground (arith, held.size, held.room, held.small) in
        (
          s,
          rw last (
              read-ok servers.slots (length ring - 1)
                (held.elements (length ring - 1) (omega arith) ∙ ap some at)),
        )
  ]

  -- So the search for replicas ends, whether or not they are there,
  pub find_replicas-total :
      (ids' : List ℕ)
      → AllSmall ids'
      → 0 < length ring
      → (replicas : List Ring.Server) × (find_replicas servers ids' ≡ ok replicas)
  unfolding find_replicas
  find_replicas-total [] small filled = ([], refl)
  find_replicas-total (id ∷ ids') (small, rest_small) filled =
      let (k, run) = find_server-total id small in
      let (s, run2) = al_get-total k filled in
      let (rest, run3) = find_replicas-total ids' rest_small filled in
      (s ∷ rest, rw (run, run2, run3) refl)

  -- and finds those that are.
  pub find_replicas-found :
      (ids' : List ℕ) (replicas : List Ring.Server)
      → AllFound ring ids' replicas
      → find_replicas servers ids' ≡ ok replicas
  unfolding find_replicas
  find_replicas-found [] [] found = refl
  find_replicas-found [] (r ∷ replicas) found = cc
  find_replicas-found (id ∷ ids') [] found = cc
  find_replicas-found (id ∷ ids') (r ∷ replicas) ((i, at), same, found) =
      let run = ap (find_server servers) (sym same) ∙ find_server-found i r at in
      let run2 = al_get-ok i held (get_elem?_bound ring i at) at in
      let run3 = find_replicas-found ids' replicas found in rw (run, run2, run3) refl
