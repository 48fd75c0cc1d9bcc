-- ===== src/LoadBalancer/AddingReplicas.antt =====
-- `loader_add_server` of skel/load_balancer.c on a ring where each server has three places.
use mathlib.Core.Path.{subst}
use hashring_load_balancer.Base.{
  ℕ, zero, suc, ◌+◌, ◌-◌, ◌*◌, ◌%◌, ◌^◌, ◌≤◌, ◌<◌, ◌≡◌, ◌≢◌, refl, sym, ap, ◌∙◌, true, false, ◌==◌,
  ==_iff, Bool-cases, Option-cases, inl, inr, none, some, List, ◌++◌, length, get_elem?, insert_at,
  length-insert_at, ok, Run, Returns, arith,
}
use hashring_load_balancer.ArrayList.{ArrayList}
use hashring_load_balancer.Hash.{hash_string}
use hashring_load_balancer.Ring
use hashring_load_balancer.Ring.Owner.{place, IsRing, owner}
use hashring_load_balancer.Ring.Leaving.{owner-member}
use hashring_load_balancer.Server.{Text, Memory, Line, init_server}
use hashring_load_balancer.Server.Holds.{Documents}
use hashring_load_balancer.Server.Handling.{init_server-IsServer}
use hashring_load_balancer.LoadBalancer.{
  LoadBalancer, make_server, write_both, internal_loader_add_server_with_vnodes, add_server_for,
  loader_add_server,
}
use hashring_load_balancer.LoadBalancer.Balanced.{held_by, share, more-IsServer, same-IsServer}
use hashring_load_balancer.LoadBalancer.Steps.{
  joining_server, enlarged, written_itself, written_other, at_memory,
}
use hashring_load_balancer.LoadBalancer.Joined.{joined_member, new_at}
use hashring_load_balancer.LoadBalancer.Replicated.{group, Spread, Complete, IsReplicated}
use hashring_load_balancer.LoadBalancer.Replica.{vnode_run}
use hashring_load_balancer.LoadBalancer.Growing.{Growing, place-Inserted, place-Growing}

abbrev Run3 : Type 0
Run3 = Run (Ring.Server × (List Line × LoadBalancer))

three_steps :
    (lb : LoadBalancer) (id cache : ℕ) (r1 r2 r3 : Ring.Server × (List Line × LoadBalancer))
    → lb.has_vnodes ≡ true
    → internal_loader_add_server_with_vnodes lb id cache none ≡ ok r1
    → internal_loader_add_server_with_vnodes r1.1.1 ((id + 100000) % 2 ^ 32) cache (some r1.0)
      ≡ ok r2
    → internal_loader_add_server_with_vnodes r2.1.1 ((id + 200000) % 2 ^ 32) cache (some r1.0)
      ≡ ok r3
    → loader_add_server lb id cache ≡ ok (r1.1.0 ++ r2.1.0 ++ r3.1.0, r3.1.1)
unfolding loader_add_server add_server_for
three_steps lb id cache r1 r2 r3 e e1 e2 e3 = ap (λ v. add_server_for v lb id cache) e ∙ steps
  where
    steps : add_server_for true lb id cache ≡ ok (r1.1.0 ++ r2.1.0 ++ r3.1.0, r3.1.1)
    steps = rw (e1, e2, e3) refl

made_first :
    (lb : LoadBalancer) (id cache : ℕ)
    → make_server lb id cache none
      ≡ (joining_server lb id, record lb { memories = enlarged lb cache; fresh = suc lb.fresh })
unfolding make_server
made_first lb id cache = refl

made_replica :
    (lb : LoadBalancer) (id cache : ℕ) (d : Ring.Server)
    → make_server lb id cache (some d) ≡ (record { id = id; memory = d.memory }, lb)
unfolding make_server
made_replica lb id cache d = refl

-- No server has documents at a memory that is not in use.
unused_share :
    (ring : List Ring.Server) (docs : Documents) (a : ℕ) (q : Text)
    → IsRing ring
    → ((i : ℕ) (t : Ring.Server) → get_elem? ring i ≡ some t → t.memory < a)
    → share ring docs a q ≡ none
unused_share ring docs a q is_ring used = elim (Option-cases (owner (hash_string q) ring)) [
  | inl absent ↦ ap (λ o. held_by a o (docs q)) absent
  | inr (o, own) ↦
      let (i, at) = owner-member (hash_string q) is_ring own in
      let away : (o.memory == a) ≡ false = ground (arith, used i o at) in
      ap (λ x. held_by a x (docs q)) own ∙ rw away refl
]

module _ {n : ℕ} (ring : List Ring.Server) (lb : LoadBalancer) (docs : Documents) (id cache : ℕ)
    (b : IsReplicated n ring lb docs) (small_id : id < 100000)
    (new : (i : ℕ) (t : Ring.Server) → get_elem? ring i ≡ some t → group t ≢ id)
    (positive : 0 < cache) (small : cache < 2 ^ 32 - 1) where
  start-Growing :
      Growing (group (joining_server lb id)) lb.fresh id n ring lb.servers (enlarged lb cache) docs
  start-Growing =
      let s = b.spread in
      let exact : id % 100000 ≡ id = omega arith in
      record {
        spread = record {
          held = s.held;
          is_ring = s.is_ring;
          ids = s.ids;
          together = s.together;
          apart = s.apart;
          each = λ i t e.
              let old : (t.memory == lb.fresh) ≡ false = ground (arith, b.used i t e) in
              at_memory (written_other lb.memories lb.fresh t.memory (init_server cache) old)
                (s.each i t e);
          free = s.free;
          unplaced = s.unplaced;
          small = s.small;
        };
        complete = λ i t c e other less. b.complete i t c e refl less;
        joins = λ i t e same. absurd (new i t e (same ∙ exact));
        parts = λ i t e same. absurd (omega (arith, b.used i t e, same));
        low = λ i t e same. absurd (new i t e (same ∙ exact));
        used = λ i t e. omega (arith, b.used i t e);
        own = at_memory (written_itself lb.memories lb.fresh (init_server cache)) (
            same-IsServer _
              (more-IsServer n (init_server-IsServer cache positive small) (omega arith) s.small)
              (λ q. sym (unused_share ring docs lb.fresh q s.is_ring b.used)));
      }

abbrev pub next_place : LoadBalancer → ℕ → ℕ → Ring.Server
next_place lb id c = joining_server lb ((id + c) % 2 ^ 32)

abbrev pub three_places : List Ring.Server → LoadBalancer → ℕ → ℕ → ℕ → ℕ → List Ring.Server
three_places ring lb id k0 k1 k2 =
    insert_at (insert_at (insert_at ring k0 (joining_server lb id)) k1 (next_place lb id 100000)) k2
      (next_place lb id 200000)

-- A ring on which all places of the last server are is complete.
all_Complete :
    {g a b n : ℕ} {ring : List Ring.Server} {servers : ArrayList Ring.Server}
    {memories : ℕ → Memory} {docs : Documents}
    → Growing g a b n ring servers memories docs
    → ((c : ℕ)
        → c < 3
        → (j : ℕ) × (t : Ring.Server) × (get_elem? ring j ≡ some t) × (t.id ≡ g + c * 100000))
    → Complete ring (λ h. false)
all_Complete {g} w places i t c e other less = elim (Bool-cases (group t == g)) [
  | inl mine ↦
      let (j, u, at, id) = places c less in
      (j, u, at, id ∙ ap (λ x. x + c * 100000) (sym ((==_iff (group t) g).0 mine)))
  | inr old ↦ w.complete i t c e old less
]

in_group :
    {g g' a b n : ℕ} {ring : List Ring.Server} {servers : ArrayList Ring.Server}
    {memories : ℕ → Memory} {docs : Documents}
    → g' ≡ g
    → Growing g a b n ring servers memories docs
    → Growing g' a b n ring servers memories docs
in_group {a} {b} {n} {ring} {servers} {memories} {docs} e w =
    subst (λ h. Growing h a b n ring servers memories docs) (sym e) w

module _ {n : ℕ} (ring : List Ring.Server) (lb : LoadBalancer) (docs : Documents) (id cache : ℕ)
    (b : IsReplicated n ring lb docs) (small_id : id < 100000)
    (new : (i : ℕ) (t : Ring.Server) → get_elem? ring i ≡ some t → group t ≢ id)
    (away0 : (q w : Text) → docs q ≡ some w → hash_string q ≢ place (joining_server lb id))
    (away1 : (q w : Text) → docs q ≡ some w → hash_string q ≢ place (next_place lb id 100000))
    (away2 : (q w : Text) → docs q ≡ some w → hash_string q ≢ place (next_place lb id 200000))
    (short : length ring + 2 < 2 ^ 30) (positive : 0 < cache) (small : cache < 2 ^ 32 - 1)
    (bound : 8 * n < 2 ^ 32 - 1) where
  -- On a balancer with replicas, where each server has its three places on the ring and its
  -- memory holds exactly the documents that they own, adding a server with an id below 100000
  -- that no other server has does not fault, and the same then holds with the three places of the
  -- new server on the ring, its memory included; it may be the first one. The conditions are that
  -- no document's hash is that of one of the new places, that there are fewer than 2 ^ 30 - 2
  -- places, that the cache has room for at least one document and fewer than 2 ^ 32 - 1, and that
  -- the bound on each server's documents and edits, times 8, is below 2 ^ 32 - 1.
  pub loader_add_server-IsReplicated : Returns (loader_add_server lb id cache) (λ r.
      (k0 : ℕ) × (k1 : ℕ) × (k2 : ℕ) × IsReplicated
        (8 * n)
        (three_places ring lb id k0 k1 k2)
        r.1
        docs)
  loader_add_server-IsReplicated =
      let d0 = joining_server lb id in
      let d1 = next_place lb id 100000 in
      let d2 = next_place lb id 200000 in
      let g1 : group d1 ≡ group d0 = omega arith in
      let g2 : group d2 ≡ group d0 = omega arith in
      let lb0 : LoadBalancer = record lb { memories = enlarged lb cache; fresh = suc lb.fresh } in
      let w0 = start-Growing ring lb docs id cache b small_id new positive small in
      let x0 =
        place-Inserted d0 w0 refl (omega arith) away0 (omega (arith, short))
          (omega (arith, bound)) in
      let w1 =
        place-Growing d0 w0 refl (omega arith) away0 (omega (arith, short)) (omega (arith, bound))
          x0 in
      let lb1 = write_both (record lb0 { servers = x0.list }) x0.src d0 x0.moved.1 in
      let w1' = in_group g1 w1 in
      let x1 =
        place-Inserted d1 w1' (omega arith) (omega arith) away1
          (omega (arith, short, length-insert_at ring x0.k d0)) (omega (arith, bound)) in
      let w2 =
        place-Growing d1 w1' (omega arith) (omega arith) away1
          (omega (arith, short, length-insert_at ring x0.k d0)) (omega (arith, bound)) x1 in
      let lb2 = write_both (record lb1 { servers = x1.list }) x1.src d1 x1.moved.1 in
      let w2' = in_group (g2 ∙ sym g1) w2 in
      let ring1 = insert_at ring x0.k d0 in
      let ring2 = insert_at ring1 x1.k d1 in
      let shorter : length ring2 < 2 ^ 30 =
        omega (arith, short, length-insert_at ring x0.k d0, length-insert_at ring1 x1.k d1) in
      let x2 =
        place-Inserted d2 w2' (omega arith) (omega arith) away2 shorter (omega (arith, bound)) in
      let w3 =
        place-Growing d2 w2' (omega arith) (omega arith) away2 shorter (omega (arith, bound)) x2 in
      let lb3 = write_both (record lb2 { servers = x2.list }) x2.src d2 x2.moved.1 in
      let ring3 = insert_at ring2 x2.k d2 in
      (
        (x0.moved.0 ++ x1.moved.0 ++ x2.moved.0, lb3),
        three_steps lb id cache (d0, (x0.moved.0, lb1)) (d1, (x1.moved.0, lb2))
            (d2, (x2.moved.0, lb3)) b.vnodes
            (vnode_run lb id cache none (d0, lb0) (made_first lb id cache) x0)
            (vnode_run lb1 ((id + 100000) % 2 ^ 32) cache (some d0) (d1, lb1)
              (made_replica lb1 ((id + 100000) % 2 ^ 32) cache d0) x1)
            (vnode_run lb2 ((id + 200000) % 2 ^ 32) cache (some d0) (d2, lb2)
              (made_replica lb2 ((id + 200000) % 2 ^ 32) cache d0) x2),
        (
          x0.k,
          x1.k,
          x2.k,
          record {
            vnodes = b.vnodes;
            spread =
                subst (λ m. Spread m ring3 lb3.servers lb3.memories docs) (omega arith) w3.spread;
            complete = all_Complete w3 (places ring x0.k x1.k x2.k x0.inside x1.inside x2.inside);
            used = λ i t e. omega (arith, w3.used i t e);
          },
        ),
      )
    where
      places :
          (r : List Ring.Server) (k0 k1 k2 : ℕ)
          → k0 ≤ length r
          → k1 ≤ length (insert_at r k0 (joining_server lb id))
          → k2
            ≤ length
                (insert_at (insert_at r k0 (joining_server lb id)) k1 (next_place lb id 100000))
          → (c : ℕ) → c < 3
          → (j : ℕ) × (t : Ring.Server) × (get_elem? (three_places r lb id k0 k1 k2) j ≡ some t)
            × (t.id ≡ group (next_place lb id 200000) + c * 100000)
      places r k0 k1 k2 in0 in1 in2 zero less = (
        _,
        joining_server lb id,
        joined_member
            (insert_at (insert_at r k0 (joining_server lb id)) k1 (next_place lb id 100000)) k2 _
            (next_place lb id 200000) (joining_server lb id) in2
            (joined_member (insert_at r k0 (joining_server lb id)) k1 _ (next_place lb id 100000)
              (joining_server lb id) in1 (new_at r k0 (joining_server lb id) in0)),
        omega arith,
      )
      places r k0 k1 k2 in0 in1 in2 (suc zero) less = (
        _,
        next_place lb id 100000,
        joined_member
            (insert_at (insert_at r k0 (joining_server lb id)) k1 (next_place lb id 100000)) k2 _
            (next_place lb id 200000) (next_place lb id 100000) in2
            (new_at (insert_at r k0 (joining_server lb id)) k1 (next_place lb id 100000) in1),
        omega arith,
      )
      places r k0 k1 k2 in0 in1 in2 (suc (suc zero)) less = (
        _,
        next_place lb id 200000,
        new_at (insert_at (insert_at r k0 (joining_server lb id)) k1 (next_place lb id 100000)) k2
            (next_place lb id 200000) in2,
        omega arith,
      )
      places r k0 k1 k2 in0 in1 in2 (suc (suc (suc c))) less = absurd (omega arith)
