-- ===== src/LoadBalancer/Joined.antt =====
-- The documents of the servers of skel/load_balancer.c after a server has joined the ring.
use hashring_load_balancer.Base.{
  ℕ, suc, ◌+◌, ◌-◌, ◌%◌, ◌≤◌, ◌<◌, ◌≡◌, ◌≢◌, refl, sym, ap, ◌∙◌, Bool, true, false, ◌&&◌, ◌==◌, ltb,
  if◌then◌else◌, Option-cases, inl, inr, ◌⊎◌, none, some, List, length, get_elem?, insert_at,
  length-insert_at, get_elem?-insert_at, get_elem?_bound, arith,
}
use hashring_load_balancer.ArrayList.{ArrayList}
use hashring_load_balancer.ArrayList.Holds.{Holds}
use hashring_load_balancer.Hash.{hash_string}
use hashring_load_balancer.Ring
use hashring_load_balancer.Ring.{should_move}
use hashring_load_balancer.Ring.Owner.{place, owner}
use hashring_load_balancer.Ring.Joining.{Joins, joined-IsRing, owner_joined}
use hashring_load_balancer.Ring.Leaving.{owner-member, owner_total}
use hashring_load_balancer.Server.{Text, Memory}
use hashring_load_balancer.Server.Holds.{Documents}
use hashring_load_balancer.Server.Handling.{IsServer}
use hashring_load_balancer.Transfer.{moved_from}
use hashring_load_balancer.Transfer.Homes.{left_behind, arrived}
use hashring_load_balancer.LoadBalancer.{LoadBalancer}
use hashring_load_balancer.LoadBalancer.Balanced.{IsBalancer, held_by, share, share-absent}

-- A member of the ring with the new server is that server or was there before.
pub inserted_cases :
    {A : Type 0} (xs : List A) (k i : ℕ) (v t : A)
    → k ≤ length xs
    → get_elem? (insert_at xs k v) i ≡ some t
    → ((i ≡ k) × (t ≡ v)) ⊎ ((i ≢ k) × (get_elem? xs (if ltb i k then i else i - 1) ≡ some t))
inserted_cases xs k i v t inside e = ground (arith, get_elem?-insert_at xs k i v inside)

-- and a member that was there is on it too
pub joined_member :
    {A : Type 0} (xs : List A) (k i : ℕ) (d s : A)
    → k ≤ length xs
    → get_elem? xs i ≡ some s
    → get_elem? (insert_at xs k d) (if ltb i k then i else i + 1) ≡ some s
joined_member xs k i d s inside e =
    let back : i + 1 - 1 ≡ i = omega arith in
    ground (arith, get_elem?-insert_at xs k i d inside, get_elem?-insert_at xs k (i + 1) d inside)

-- so is the new one
pub new_at :
    {A : Type 0} (xs : List A) (k : ℕ) (d : A)
    → k ≤ length xs
    → get_elem? (insert_at xs k d) k ≡ some d
new_at xs k d inside = ground (arith, get_elem?-insert_at xs k k d inside)

-- On a ring of servers with distinct memories, memories and places tell them apart.
pub same_place :
    {n : ℕ} {ring : List Ring.Server} {lb : LoadBalancer} {docs : Documents} (i j : ℕ)
    (s t : Ring.Server)
    → IsBalancer n ring lb docs
    → get_elem? ring i ≡ some s
    → get_elem? ring j ≡ some t
    → (place s == place t) ≡ (s.memory == t.memory)
same_place i j s t b e f =
    ground (arith, b.apart i j s t, b.is_ring.ordered i j s t, b.is_ring.ordered j i t s)

-- What becomes of a document `w` of `o` when `d` joins: `p` tells whether `o` is the source, `m` what
-- the test of the transfer says.
arrived_lem :
    (p m : Bool) (d o src : Ring.Server) (w : Text)
    → (o.memory == src.memory) ≡ p
    → (o.memory == d.memory) ≡ false
    → arrived m (if o.memory == src.memory then some w else none) none
      ≡ held_by d.memory (some (if p && m then d else o)) (some w)
arrived_lem true true d o src w e f =
    let itself : (d.memory == d.memory) ≡ true = ground arith in rw (e, itself) refl
arrived_lem true false d o src w e f = rw (e, f) refl
arrived_lem false true d o src w e f = rw (e, f) refl
arrived_lem false false d o src w e f = rw (e, f) refl

pub left_lem :
    (p m : Bool) (d o src : Ring.Server) (w : Text)
    → (o.memory == src.memory) ≡ p
    → (d.memory == src.memory) ≡ false
    → left_behind m (if o.memory == src.memory then some w else none)
      ≡ held_by src.memory (some (if p && m then d else o)) (some w)
left_lem true true d o src w e f = rw f refl
left_lem true false d o src w e f = rw e refl
left_lem false true d o src w e f = rw e refl
left_lem false false d o src w e f = rw e refl

pub left_none : (m : Bool) → left_behind m none ≡ none
left_none true = refl
left_none false = refl

pub other_lem :
    (p m : Bool) (a : ℕ) (d o src : Ring.Server) (w : Text)
    → (o.memory == src.memory) ≡ p
    → (d.memory == a) ≡ false
    → (src.memory == a) ≡ false
    → (if o.memory == a then some w else none) ≡ held_by a (some (if p && m then d else o)) (some w)
other_lem true true a d o src w e f g =
    let away : (o.memory == a) ≡ false = ground (arith, e, g) in rw (away, f) refl
other_lem true false a d o src w e f g = refl
other_lem false m a d o src w e f g = refl

module _ {n : ℕ} {ring : List Ring.Server} {lb : LoadBalancer} {docs : Documents} {d : Ring.Server}
    {k : ℕ} (b : IsBalancer n ring lb docs) (j : Joins ring d k) (new : d.memory ≡ lb.fresh)
    (away : (q w : Text) → docs q ≡ some w → hash_string q ≢ place d) where
  module _ (src : Ring.Server) (i : ℕ) (src_at : get_elem? ring i ≡ some src)
      (next : get_elem? (insert_at ring k d) ((k + 1) % length (insert_at ring k d))
        ≡ some src) where
    -- A document that is there, with its owner before and after.
    owners :
        (q w : Text)
        → docs q ≡ some w
        → (o : Ring.Server) × (l : ℕ) × (get_elem? ring l ≡ some o)
          × (owner (hash_string q) ring ≡ some o)
          × (owner (hash_string q) (insert_at ring k d)
              ≡ some (
                  if (o.memory == src.memory) && should_move (place src) (hash_string q) (place d)
                  then d
                  else o))
    owners q w e =
        let (o, own) =
          owner_total (hash_string q) b.is_ring (omega (arith, get_elem?_bound ring i src_at)) in
        let (l, at) = owner-member (hash_string q) b.is_ring own in
        (
          o,
          l,
          at,
          own,
          owner_joined b.is_ring j (hash_string q) src o (away q w e) own next
              ∙ ap
                  (λ p.
                    some (if p && should_move (place src) (hash_string q) (place d) then d else o))
                  (same_place l i o src b at src_at),
        )

    src_memory : (d.memory == src.memory) ≡ false
    src_memory = ground (arith, new, b.used i src src_at)

    -- at an owner `o`
    share_at :
        (r : List Ring.Server) (a : ℕ) (q w : Text) {o : Ring.Server}
        → docs q ≡ some w
        → owner (hash_string q) r ≡ some o
        → share r docs a q ≡ held_by a (some o) (some w)
    share_at r a q w e own = rw (own, e) refl

    -- The new server has what was moved to it,
    pub joined_dest :
        (q : Text)
        → arrived (moved_from src.id d.id false q) (share ring docs src.memory q) none
          ≡ share (insert_at ring k d) docs d.memory q
    unfolding moved_from
    joined_dest q = elim (Option-cases (docs q)) [
      | inl absent ↦
          let m = should_move (place src) (hash_string q) (place d) in
          ap (λ x. arrived m x none) (share-absent ring docs src.memory q absent)
          ∙ sym (share-absent (insert_at ring k d) docs d.memory q absent)
      | inr (w, e) ↦
          let (o, l, at, own, own') = owners q w e in
          let m = should_move (place src) (hash_string q) (place d) in
          let old : (o.memory == d.memory) ≡ false = ground (arith, new, b.used l o at) in
          ap (λ x. arrived m x none) (share_at ring src.memory q w e own)
          ∙ arrived_lem (o.memory == src.memory) m d o src w refl old
          ∙ sym (share_at (insert_at ring k d) d.memory q w e own')
    ]

    -- the source what was not,
    pub joined_src :
        (q : Text)
        → left_behind (moved_from src.id d.id false q) (share ring docs src.memory q)
          ≡ share (insert_at ring k d) docs src.memory q
    unfolding moved_from
    joined_src q = elim (Option-cases (docs q)) [
      | inl absent ↦
          let m = should_move (place src) (hash_string q) (place d) in
          ap (left_behind m) (share-absent ring docs src.memory q absent)
          ∙ left_none m
          ∙ sym (share-absent (insert_at ring k d) docs src.memory q absent)
      | inr (w, e) ↦
          let (o, l, at, own, own') = owners q w e in
          let m = should_move (place src) (hash_string q) (place d) in
          ap (left_behind m) (share_at ring src.memory q w e own)
          ∙ left_lem (o.memory == src.memory) m d o src w refl src_memory
          ∙ sym (share_at (insert_at ring k d) src.memory q w e own')
    ]

    -- and every other server what it had.
    pub joined_other :
        (a : ℕ)
        → (d.memory == a) ≡ false
        → (src.memory == a) ≡ false
        → (q : Text) → share ring docs a q ≡ share (insert_at ring k d) docs a q
    joined_other a f g q = elim (Option-cases (docs q)) [
      | inl absent ↦
          share-absent ring docs a q absent
          ∙ sym (share-absent (insert_at ring k d) docs a q absent)
      | inr (w, e) ↦
          let (o, l, at, own, own') = owners q w e in
          let m = should_move (place src) (hash_string q) (place d) in
          share_at ring a q w e own
          ∙ other_lem (o.memory == src.memory) m a d o src w refl f g
          ∙ sym (share_at (insert_at ring k d) a q w e own')
    ]

  -- The invariant on the ring with the new server, if each server holds its share.
  pub joined-IsBalancer :
      (servers : ArrayList Ring.Server) (memories : ℕ → Memory)
      → d.id < 100000
      → Holds servers (insert_at ring k d)
      → ((i : ℕ) (t : Ring.Server)
          → get_elem? (insert_at ring k d) i ≡ some t
          → IsServer n (memories t.memory) (share (insert_at ring k d) docs t.memory))
      → IsBalancer n
          (insert_at ring k d)
          (record lb { servers = servers; memories = memories; fresh = suc lb.fresh })
          docs
  joined-IsBalancer servers memories small_id held each = record {
    plain = b.plain;
    held = held;
    is_ring = joined-IsRing b.is_ring j;
    apart = λ i i' s t e f same. ground (
      arith,
      new,
      j.inside,
      inserted_cases ring k i d s j.inside e,
      inserted_cases ring k i' d t j.inside f,
      b.used (if ltb i k then i else i - 1) s,
      b.used (if ltb i' k then i' else i' - 1) t,
      b.apart (if ltb i k then i else i - 1) (if ltb i' k then i' else i' - 1) s t,
    );
    used = λ i s e. ground (
      arith,
      new,
      inserted_cases ring k i d s j.inside e,
      b.used (if ltb i k then i else i - 1) s,
    );
    ids = λ i s e.
        ground
          (arith, inserted_cases ring k i d s j.inside e, b.ids (if ltb i k then i else i - 1) s);
    each = each;
    unplaced = λ e. absurd (omega (arith, e, length-insert_at ring k d));
    small = b.small;
  }
