-- ===== src/LoadBalancer/Replicated.antt =====
-- What the load balancer of skel/load_balancer.c keeps on a ring where each server has three places.
use hashring_load_balancer.Base.{
  ℕ, ◌+◌, ◌-◌, ◌*◌, ◌%◌, ◌^◌, ◌<◌, ◌≡◌, ◌≢◌, refl, sym, ap, ◌∙◌, Bool, true, false, ◌&&◌, ◌==◌,
  ==_iff, if◌then◌else◌, Bool-cases, Option-cases, inl, inr, none, some, List, [], ◌∷◌, length,
  get_elem?, insert_at, get_elem?_bound, arith,
}
use hashring_load_balancer.ArrayList.{ArrayList}
use hashring_load_balancer.ArrayList.Holds.{Holds, al_init-Holds}
use hashring_load_balancer.Hash.{hash_string, word}
use hashring_load_balancer.Ring
use hashring_load_balancer.Ring.{should_move}
use hashring_load_balancer.Ring.Owner.{place, IsRing, owner}
use hashring_load_balancer.Ring.Joining.{Joins, moves, owner_joined}
use hashring_load_balancer.Ring.Leaving.{owner-member, owner_total}
use hashring_load_balancer.Server.{Text, Memory}
use hashring_load_balancer.Server.Holds.{Documents}
use hashring_load_balancer.Server.Handling.{IsServer}
use hashring_load_balancer.Transfer.Homes.{left_behind, arrived}
use hashring_load_balancer.Transfer.Replicas.{moved_from_replica}
use hashring_load_balancer.Transfer.Owners.{AllOn, Among, NoneAt, moved_from_replica-owner}
use hashring_load_balancer.LoadBalancer.{LoadBalancer, init_load_balancer}
use hashring_load_balancer.Transfer.Step.{some-absurd}
use hashring_load_balancer.LoadBalancer.Balanced.{held_by, share, share-absent}
use hashring_load_balancer.LoadBalancer.Joined.{left_lem, other_lem, left_none}

-- The server of which a place is a replica, by its id.
abbrev pub group : Ring.Server → ℕ
group s = s.id % 100000

-- Replicas have their memory in common with those of the same server, and with no others; each memory
-- holds the documents that its replicas own; no document has the hash of a server.
pub record Spread (n : ℕ) (ring : List Ring.Server) (servers : ArrayList Ring.Server)
    (memories : ℕ → Memory) (docs : Documents) : Type 0 where
  pub held : Holds servers ring
  pub is_ring : IsRing ring
  pub ids : (i : ℕ) (s : Ring.Server) → get_elem? ring i ≡ some s → s.id < 300000
  pub together :
      (i j : ℕ) (s t : Ring.Server)
      → get_elem? ring i ≡ some s
      → get_elem? ring j ≡ some t
      → group s ≡ group t
      → s.memory ≡ t.memory
  pub apart :
      (i j : ℕ) (s t : Ring.Server)
      → get_elem? ring i ≡ some s
      → get_elem? ring j ≡ some t
      → s.memory ≡ t.memory
      → group s ≡ group t
  pub each :
      (i : ℕ) (s : Ring.Server)
      → get_elem? ring i ≡ some s
      → IsServer n (memories s.memory) (share ring docs s.memory)
  pub free :
      (q w : Text) (i : ℕ) (s : Ring.Server)
      → docs q ≡ some w
      → get_elem? ring i ≡ some s
      → place s ≢ hash_string q
  pub unplaced : length ring ≡ 0 → (q : Text) → docs q ≡ none
  pub small : n < 2 ^ 32 - 1

-- A server has all its three places, unless `but` names its group.
abbrev pub Complete : List Ring.Server → (ℕ → Bool) → Type 0
Complete ring but =
    (i : ℕ) (s : Ring.Server) (c : ℕ)
    → get_elem? ring i ≡ some s
    → but (group s) ≡ false
    → c < 3
    → (j : ℕ) × (t : Ring.Server) × (get_elem? ring j ≡ some t) × (t.id ≡ group s + c * 100000)

pub record IsReplicated (n : ℕ) (ring : List Ring.Server) (lb : LoadBalancer) (docs : Documents)
    : Type 0 where
  pub vnodes : lb.has_vnodes ≡ true
  pub spread : Spread n ring lb.servers lb.memories docs
  pub complete : Complete ring (λ g. false)
  pub used : (i : ℕ) (s : Ring.Server) → get_elem? ring i ≡ some s → s.memory < lb.fresh

-- The balancer that `init_load_balancer` makes.
pub init_load_balancer-IsReplicated : IsReplicated 0 [] (init_load_balancer true) (λ q. none)
unfolding init_load_balancer
init_load_balancer-IsReplicated = record {
  vnodes = refl;
  spread = record {
    held = al_init-Holds;
    is_ring = record { ordered = λ i j s t less e f. absurd (some-absurd s (sym e)) };
    ids = λ i s e. absurd (some-absurd s (sym e));
    together = λ i j s t e f same. absurd (some-absurd s (sym e));
    apart = λ i j s t e f same. absurd (some-absurd s (sym e));
    each = λ i s e. absurd (some-absurd s (sym e));
    free = λ q w i s e at. absurd (some-absurd w (sym e));
    unplaced = λ e q. refl;
    small = omega arith;
  };
  complete = λ i s c e other less. absurd (some-absurd s (sym e));
  used = λ i s e. absurd (some-absurd s (sym e));
}

arrived_lem :
    (p m : Bool) (d o src : Ring.Server) (w : Text)
    → (o.memory == src.memory) ≡ p
    → arrived m
        (if o.memory == src.memory then some w else none)
        (if o.memory == d.memory then some w else none)
      ≡ held_by d.memory (some (if p && m then d else o)) (some w)
arrived_lem true true d o src w e =
    let itself : (d.memory == d.memory) ≡ true = ground arith in rw (e, itself) refl
arrived_lem true false d o src w e = rw e refl
arrived_lem false true d o src w e = rw e refl
arrived_lem false false d o src w e = rw e refl

and_left : (a b : Bool) → (a && b) ≡ true → a ≡ true
and_left true b e = refl
and_left false b e = e

distinct_bools : true ≢ false
distinct_bools e = cc

-- The transfer from the next server to a place `d` that joins.
module _ {n : ℕ} {ring : List Ring.Server} {servers : ArrayList Ring.Server} {memories : ℕ → Memory}
    {docs : Documents} {d : Ring.Server} {k : ℕ} (s : Spread n ring servers memories docs)
    (j : Joins ring d k) (away : (q w : Text) → docs q ≡ some w → hash_string q ≢ place d)
    (src : Ring.Server) (i : ℕ) (src_at : get_elem? ring i ≡ some src)
    (next : get_elem? (insert_at ring k d) ((k + 1) % length (insert_at ring k d)) ≡ some src) where
  small_ids : (l : ℕ) (t : Ring.Server) → get_elem? ring l ≡ some t → t.id < word
  small_ids l t e = omega (arith, s.ids l t e)

  same_group :
      (l : ℕ) (o : Ring.Server)
      → get_elem? ring l ≡ some o
      → (o.memory == src.memory) ≡ false
      → (place o == place src) ≡ false
  same_group l o at other = ground (arith, s.is_ring.ordered l i o src, s.is_ring.ordered i l src o)

  -- A document that is there, with its owner before and after.
  owners :
      (x : Ring.Server) (replicas : List Ring.Server) (q w : Text)
      → AllOn ring (x ∷ replicas)
      → NoneAt (hash_string q) (x ∷ replicas)
      → ((l : ℕ) (o : Ring.Server)
          → get_elem? ring l ≡ some o
          → (o.memory == src.memory) ≡ true
          → Among o (x ∷ replicas))
      → docs q ≡ some w
      → (o : Ring.Server) × (owner (hash_string q) ring ≡ some o)
        × (owner (hash_string q) (insert_at ring k d)
            ≡ some (
                if (o.memory == src.memory) && moved_from_replica (x ∷ replicas) src d q
                then d
                else o))
  owners x replicas q w on none' all e =
      let (o, own) =
        owner_total (hash_string q) s.is_ring (omega (arith, get_elem?_bound ring i src_at)) in
      let (l, at) = owner-member (hash_string q) s.is_ring own in
      (
        o,
        own,
        (elim (Bool-cases (o.memory == src.memory)) [
          | inl mine ↦ rw mine (
              moved_from_replica-owner i x replicas src o q s.is_ring small_ids j src_at next on
                none' (all l o at mine) own (away q w e))
          | inr other ↦ rw other (
              owner_joined s.is_ring j (hash_string q) src o (away q w e) own next
              ∙ ap
                  (λ p.
                    some (if p && should_move (place src) (hash_string q) (place d) then d else o))
                  (same_group l o at other))
        ]),
      )

  share_at :
      (r : List Ring.Server) (a : ℕ) (q w : Text) {o : Ring.Server}
      → docs q ≡ some w
      → owner (hash_string q) r ≡ some o
      → share r docs a q ≡ held_by a (some o) (some w)
  share_at r a q w e own = rw (own, e) refl

  module _ (x : Ring.Server) (replicas : List Ring.Server) (on : AllOn ring (x ∷ replicas))
      (free' : (q w : Text) → docs q ≡ some w → NoneAt (hash_string q) (x ∷ replicas))
      (all : (l : ℕ) (o : Ring.Server)
        → get_elem? ring l ≡ some o
        → (o.memory == src.memory) ≡ true
        → Among o (x ∷ replicas)) where
    -- The memory of the new place has what was moved to it too,
    pub shared_dest :
        (q : Text)
        → arrived
            (moved_from_replica (x ∷ replicas) src d q)
            (share ring docs src.memory q)
            (share ring docs d.memory q)
          ≡ share (insert_at ring k d) docs d.memory q
    shared_dest q = elim (Option-cases (docs q)) [
      | inl absent ↦
          ap
            (λ y.
              arrived (moved_from_replica (x ∷ replicas) src d q) y (share ring docs d.memory q))
            (share-absent ring docs src.memory q absent)
          ∙ share-absent ring docs d.memory q absent
          ∙ sym (share-absent (insert_at ring k d) docs d.memory q absent)
      | inr (w, e) ↦
          let (o, own, own') = owners x replicas q w on (free' q w e) all e in
          let m = moved_from_replica (x ∷ replicas) src d q in
          ap (λ y. arrived m y (share ring docs d.memory q)) (share_at ring src.memory q w e own)
          ∙ ap (arrived m (held_by src.memory (some o) (some w))) (share_at ring d.memory q w e own)
          ∙ arrived_lem (o.memory == src.memory) m d o src w refl
          ∙ sym (share_at (insert_at ring k d) d.memory q w e own')
    ]

    -- that of the source what was not,
    pub shared_src :
        (d.memory == src.memory) ≡ false
        → (q : Text)
        → left_behind (moved_from_replica (x ∷ replicas) src d q) (share ring docs src.memory q)
          ≡ share (insert_at ring k d) docs src.memory q
    shared_src other q = elim (Option-cases (docs q)) [
      | inl absent ↦
          let m = moved_from_replica (x ∷ replicas) src d q in
          ap (left_behind m) (share-absent ring docs src.memory q absent)
          ∙ left_none m
          ∙ sym (share-absent (insert_at ring k d) docs src.memory q absent)
      | inr (w, e) ↦
          let (o, own, own') = owners x replicas q w on (free' q w e) all e in
          let m = moved_from_replica (x ∷ replicas) src d q in
          ap (left_behind m) (share_at ring src.memory q w e own)
          ∙ left_lem (o.memory == src.memory) m d o src w refl other
          ∙ sym (share_at (insert_at ring k d) src.memory q w e own')
    ]

    -- and every other one what it had.
    pub shared_other :
        (a : ℕ)
        → (d.memory == a) ≡ false
        → (src.memory == a) ≡ false
        → (q : Text) → share ring docs a q ≡ share (insert_at ring k d) docs a q
    shared_other a f g q = elim (Option-cases (docs q)) [
      | inl absent ↦
          share-absent ring docs a q absent
          ∙ sym (share-absent (insert_at ring k d) docs a q absent)
      | inr (w, e) ↦
          let (o, own, own') = owners x replicas q w on (free' q w e) all e in
          let m = moved_from_replica (x ∷ replicas) src d q in
          share_at ring a q w e own
          ∙ other_lem (o.memory == src.memory) m a d o src w refl f g
          ∙ sym (share_at (insert_at ring k d) a q w e own')
    ]

  -- If the next place is one of the same server, nothing has to move.
  pub shared_itself :
      src.memory ≡ d.memory
      → (a : ℕ) (q : Text) → share ring docs a q ≡ share (insert_at ring k d) docs a q
  shared_itself same a q = elim (Option-cases (docs q)) [
    | inl absent ↦
        share-absent ring docs a q absent ∙ sym (share-absent (insert_at ring k d) docs a q absent)
    | inr (w, e) ↦
        let (o, own) =
          owner_total (hash_string q) s.is_ring (omega (arith, get_elem?_bound ring i src_at)) in
        let (l, at) = owner-member (hash_string q) s.is_ring own in
        share_at ring a q w e own
        ∙ itself_lem (moves d src o (hash_string q)) o w
            (same_memory (moves d src o (hash_string q)) l o (hash_string q) at refl)
        ∙ sym (
            share_at (insert_at ring k d) a q w e
              (owner_joined s.is_ring j (hash_string q) src o (away q w e) own next))
  ]
    where
      same_memory :
          (m : Bool) (l : ℕ) (o : Ring.Server) (h : ℕ)
          → get_elem? ring l ≡ some o
          → moves d src o h ≡ m
          → (if m then d.memory else o.memory) ≡ o.memory
      same_memory false l o h at e = refl
      same_memory true l o h at e = elim (Bool-cases (o.memory == src.memory)) [
        | inl mine ↦ sym same ∙ sym ((==_iff o.memory src.memory).0 mine)
        | inr other ↦ absurd (distinct_bools (sym (and_left _ _ e) ∙ same_group l o at other))
      ]

      itself_lem :
          (m : Bool) (o : Ring.Server) (w : Text)
          → (if m then d.memory else o.memory) ≡ o.memory
          → held_by a (some o) (some w) ≡ held_by a (some (if m then d else o)) (some w)
      itself_lem true o w e = ap (λ b. if b == a then some w else none) (sym e)
      itself_lem false o w e = refl
