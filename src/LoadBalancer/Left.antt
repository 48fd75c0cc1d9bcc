-- ===== src/LoadBalancer/Left.antt =====
-- The documents of the servers of skel/load_balancer.c after a server has left the ring.
use hashring_load_balancer.Base.{
  ℕ, ◌+◌, ◌-◌, ◌%◌, ◌^◌, ◌<◌, ◌≡◌, ◌≢◌, refl, sym, ap, ◌∙◌, Bool, true, false, ◌==◌, ltb,
  if◌then◌else◌, Option, none, some, List, length, get_elem?, erase_at, length-erase_at,
  get_elem?-erase_at, get_elem?_bound, arith,
}
use hashring_load_balancer.ArrayList.{ArrayList}
use hashring_load_balancer.ArrayList.Holds.{Holds}
use hashring_load_balancer.Hash.{hash_string, hash_uint}
use hashring_load_balancer.Ring
use hashring_load_balancer.Ring.Owner.{place, owner}
use hashring_load_balancer.Ring.Leaving.{owner-member, owner_total, left-IsRing, owner_left}
use hashring_load_balancer.Server.{Text, Memory}
use hashring_load_balancer.Server.Holds.{Documents}
use hashring_load_balancer.Server.Handling.{IsServer}
use hashring_load_balancer.Transfer.Homes.{Apart, arrived}
use hashring_load_balancer.LoadBalancer.{LoadBalancer}
use hashring_load_balancer.LoadBalancer.Balanced.{IsBalancer, held_by, share, share-owner}
use hashring_load_balancer.LoadBalancer.Joined.{same_place}

-- A member of the ring without the server at `k` was there before, at another index.
pub erased_at :
    {A : Type 0} (xs : List A) (k i : ℕ) (t : A)
    → get_elem? (erase_at xs k) i ≡ some t
    → ((if ltb i k then i else i + 1) ≢ k) × (get_elem? xs (if ltb i k then i else i + 1) ≡ some t)
erased_at xs k i t e = ground (arith, get_elem?-erase_at xs k i)

-- What becomes of a document of `o` when `s` leaves: `p` tells whether it was a document of `s`.
arrived_lem :
    (p : Bool) (s dest o : Ring.Server) (d : Option Text)
    → (o.memory == s.memory) ≡ p
    → (s.memory == dest.memory) ≡ false
    → arrived true (if p then d else none) (if o.memory == dest.memory then d else none)
      ≡ held_by dest.memory (some (if p then dest else o)) d
arrived_lem true s dest o none e f =
    let away : (o.memory == dest.memory) ≡ false = ground arith in
    let itself : (dest.memory == dest.memory) ≡ true = ground arith in rw (away, itself) refl
arrived_lem true s dest o (some w) e f =
    let itself : (dest.memory == dest.memory) ≡ true = ground arith in rw itself refl
arrived_lem false s dest o d e f = refl

other_lem :
    (p : Bool) (a : ℕ) (s dest o : Ring.Server) (d : Option Text)
    → (o.memory == s.memory) ≡ p
    → (s.memory == a) ≡ false
    → (dest.memory == a) ≡ false
    → (if o.memory == a then d else none) ≡ held_by a (some (if p then dest else o)) d
other_lem true a s dest o d e f g =
    let away : (o.memory == a) ≡ false = ground (arith, e, f) in rw (away, g) refl
other_lem false a s dest o d e f g = refl

module _ {n : ℕ} {ring : List Ring.Server} {lb : LoadBalancer} {docs : Documents}
    (b : IsBalancer n ring lb docs) (k l : ℕ) (s dest : Ring.Server)
    (at : get_elem? ring k ≡ some s) (dest_at : get_elem? ring l ≡ some dest) (other : l ≢ k) where
  memories_apart : (s.memory == dest.memory) ≡ false
  memories_apart = ground (arith, b.apart k l s dest at dest_at)

  pub ids_apart : s.id ≢ dest.id
  ids_apart same =
      let places : place s ≡ place dest = ap hash_uint same in
      absurd (ground (arith, b.is_ring.ordered k l s dest, b.is_ring.ordered l k dest s))

  -- No document is on two servers.
  pub shares-Apart : Apart (share ring docs s.memory) (share ring docs dest.memory)
  shares-Apart q w e =
      let (o, own) =
        owner_total (hash_string q) b.is_ring (omega (arith, get_elem?_bound ring k at)) in
      let e' = sym (share-owner ring docs s.memory q own) ∙ e in
      share-owner ring docs dest.memory q own ∙ ground (arith, memories_apart)

  module _ (two : 1 < length ring) (next : l ≡ (k + 1) % length ring) where
    owners :
        (q : Text)
        → (o : Ring.Server) × (owner (hash_string q) ring ≡ some o)
          × (owner (hash_string q) (erase_at ring k)
              ≡ some (if o.memory == s.memory then dest else o))
    owners q =
        let (o, own) = owner_total (hash_string q) b.is_ring (omega (arith, two)) in
        let (i, o_at) = owner-member (hash_string q) b.is_ring own in
        (
          o,
          own,
          owner_left k b.is_ring at (hash_string q) dest o two own
                (ap (get_elem? ring) (sym next) ∙ dest_at)
              ∙ ap (λ p. some (if p then dest else o)) (same_place i k o s b o_at at),
        )

    -- The next server has the documents of both,
    pub left_dest :
        (q : Text)
        → arrived true (share ring docs s.memory q) (share ring docs dest.memory q)
          ≡ share (erase_at ring k) docs dest.memory q
    left_dest q =
        let (o, own, own') = owners q in
        rw (own, own') (arrived_lem (o.memory == s.memory) s dest o (docs q) refl memories_apart)

    -- and every other server what it had.
    pub left_other :
        (a : ℕ)
        → (s.memory == a) ≡ false
        → (dest.memory == a) ≡ false
        → (q : Text) → share ring docs a q ≡ share (erase_at ring k) docs a q
    left_other a f g q =
        let (o, own, own') = owners q in
        rw (own, own') (other_lem (o.memory == s.memory) a s dest o (docs q) refl f g)

    -- The invariant on the ring without the server, if each other server holds its share.
    pub left-IsBalancer :
        {n' : ℕ} (servers : ArrayList Ring.Server) (memories : ℕ → Memory)
        → Holds servers (erase_at ring k)
        → ((i : ℕ) (t : Ring.Server)
            → get_elem? (erase_at ring k) i ≡ some t
            → IsServer n' (memories t.memory) (share (erase_at ring k) docs t.memory))
        → n' < 2 ^ 32 - 1
        → IsBalancer n'
            (erase_at ring k)
            (record lb { servers = servers; memories = memories })
            docs
    left-IsBalancer servers memories held each small = record {
      plain = b.plain;
      held = held;
      is_ring = left-IsRing k b.is_ring;
      apart = λ i j t u e f same. ground (
        arith,
        erased_at ring k i t e,
        erased_at ring k j u f,
        b.apart (if ltb i k then i else i + 1) (if ltb j k then j else j + 1) t u,
      );
      used = λ i t e. b.used _ t (erased_at ring k i t e).1;
      ids = λ i t e. b.ids _ t (erased_at ring k i t e).1;
      each = each;
      unplaced =
          λ e. absurd (omega (arith, e, two, length-erase_at ring k (get_elem?_bound ring k at)));
      small = small;
    }
