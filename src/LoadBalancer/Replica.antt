-- ===== src/LoadBalancer/Replica.antt =====
-- One place of a server joins the ring of skel/load_balancer.c:
-- `internal_loader_add_server_with_vnodes`.
use hashring_load_balancer.Base.{
  ℕ, ◌+◌, ◌-◌, ◌%◌, ◌^◌, ◌≤◌, ◌<◌, ◌≡◌, ◌≢◌, refl, sym, ap, ◌∙◌, true, false, ◌==◌, ==_iff, ltb,
  if◌then◌else◌, Bool-cases, inl, inr, Option, none, some, List, [], ◌∷◌, length, get_elem?,
  insert_at, length-insert_at, get_elem?-insert_at, get_elem?_bound, ok, arith,
}
use hashring_load_balancer.ArrayList.{ArrayList, al_get, al_insert_ordered}
use hashring_load_balancer.ArrayList.Holds.{Holds, al_get-ok}
use hashring_load_balancer.Hash.{hash_string}
use hashring_load_balancer.Ring
use hashring_load_balancer.Ring.{cmp_servers}
use hashring_load_balancer.Ring.Owner.{place, IsRing, owner}
use hashring_load_balancer.Ring.Joining.{Joins, joined-IsRing}
use hashring_load_balancer.Server.{Text, Memory, Line, write_memory}
use hashring_load_balancer.Server.Holds.{Documents}
use hashring_load_balancer.Server.Handling.{IsServer}
use hashring_load_balancer.Transfer.Homes.{Apart}
use hashring_load_balancer.Transfer.Replicas.{moved_from_replica, transfer_files_multiple_srcs}
use hashring_load_balancer.Transfer.Owners.{AllOn, Among, NoneAt}
use hashring_load_balancer.Transfer.Servers.{transfer_files_multiple_srcs-IsServer}
use hashring_load_balancer.LoadBalancer.{
  LoadBalancer, make_server, next_index, find_replicas, replica_ids, write_both,
  internal_loader_add_server_with_vnodes,
}
use hashring_load_balancer.LoadBalancer.Balanced.{held_by, share}
use hashring_load_balancer.LoadBalancer.Steps.{next_index-ok, ==-flip}
use hashring_load_balancer.LoadBalancer.Joined.{inserted_cases, joined_member}
use hashring_load_balancer.LoadBalancer.Search.{AllFound, find_replicas-total, find_replicas-found}
use hashring_load_balancer.LoadBalancer.Moving.{each_unchanged, each_moved, every_place}
use hashring_load_balancer.LoadBalancer.Replicated.{
  group, Spread, Complete, shared_dest, shared_src, shared_other,
}

-- The run, for what `make_server` gives.
vnode_step :
    (lb : LoadBalancer) (server_id cache_size : ℕ) (ref : Option Ring.Server)
    (made : Ring.Server × LoadBalancer) (r : ArrayList Ring.Server × ℕ) (x : ℕ) (src : Ring.Server)
    (replicas : List Ring.Server) (t : List Line × (Memory × Memory))
    → make_server lb server_id cache_size ref ≡ made
    → al_insert_ordered lb.servers made.0 cmp_servers ≡ ok r
    → al_get r.0 r.1 ≡ ok made.0
    → next_index r.0.size r.1 ≡ ok x
    → al_get r.0 x ≡ ok src
    → find_replicas r.0 (replica_ids (src.id % 100000)) ≡ ok replicas
    → transfer_files_multiple_srcs replicas src made.0
        (made.1.memories src.memory)
        (made.1.memories made.0.memory)
      ≡ ok t
    → internal_loader_add_server_with_vnodes lb server_id cache_size ref
      ≡ ok (made.0, (t.0, write_both (record made.1 { servers = r.0 }) src made.0 t.1))
unfolding internal_loader_add_server_with_vnodes
vnode_step lb server_id cache_size ref made r x src replicas t e0 e1 e2 e3 e4 e5 e6 =
    rw (e0, e1, e2, e3, e4, e5, e6) refl

-- A transfer between two places of one server does nothing.
transfer-same :
    (replicas : List Ring.Server) (src dest : Ring.Server) (m m' : Memory)
    → group src ≡ group dest
    → transfer_files_multiple_srcs replicas src dest m m' ≡ ok ([], (m, m'))
unfolding transfer_files_multiple_srcs
transfer-same replicas src dest m m' same =
    let test : (src.id % 100000 == dest.id % 100000) ≡ true = ground (arith, same) in rw test refl

apart_at :
    (a b : ℕ) (o : Option Ring.Server) (content : Option Text) (w : Text)
    → (a == b) ≡ false
    → held_by a o content ≡ some w
    → held_by b o content ≡ none
apart_at a b none content w differ e = refl
apart_at a b (some o) content w differ e = ground (arith, differ, e)

-- What the run leaves on the ring with the new place.
pub record Inserted (n : ℕ) (ring : List Ring.Server) (d : Ring.Server)
    (servers : ArrayList Ring.Server) (memories : ℕ → Memory) (docs : Documents) : Type 0 where
  pub k : ℕ
  pub inside : k ≤ length ring
  pub list : ArrayList Ring.Server
  pub insert : al_insert_ordered servers d cmp_servers ≡ ok (list, k)
  pub own : al_get list k ≡ ok d
  pub next : ℕ
  pub index : next_index list.size k ≡ ok next
  pub src : Ring.Server
  pub source : al_get list next ≡ ok src
  pub replicas : List Ring.Server
  pub search : find_replicas list (replica_ids (src.id % 100000)) ≡ ok replicas
  pub moved : List Line × (Memory × Memory)
  pub transfer :
      transfer_files_multiple_srcs replicas src d (memories src.memory) (memories d.memory)
      ≡ ok moved
  pub spread :
      Spread
        (n + n)
        (insert_at ring k d)
        list
        (write_memory (write_memory memories src.memory moved.1.0) d.memory moved.1.1)
        docs

module _ {n : ℕ} {ring : List Ring.Server} {servers : ArrayList Ring.Server} {memories : ℕ → Memory}
    {docs : Documents} {d : Ring.Server} {k : ℕ} (s : Spread n ring servers memories docs)
    (j : Joins ring d k) (away : (q w : Text) → docs q ≡ some w → hash_string q ≢ place d)
    (small_id : d.id < 300000)
    (joins : (i : ℕ) (t : Ring.Server)
      → get_elem? ring i ≡ some t
      → group t ≡ group d
      → t.memory ≡ d.memory)
    (parts : (i : ℕ) (t : Ring.Server)
      → get_elem? ring i ≡ some t
      → t.memory ≡ d.memory
      → group t ≡ group d) where
  -- The invariant on the ring with the place, if each memory holds its share.
  joined-Spread :
      {n' : ℕ} (list : ArrayList Ring.Server) (memories' : ℕ → Memory)
      → Holds list (insert_at ring k d)
      → ((i : ℕ) (t : Ring.Server)
          → get_elem? (insert_at ring k d) i ≡ some t
          → IsServer n' (memories' t.memory) (share (insert_at ring k d) docs t.memory))
      → n' < 2 ^ 32 - 1
      → Spread n' (insert_at ring k d) list memories' docs
  joined-Spread list memories' held each small = record {
    held = held;
    is_ring = joined-IsRing s.is_ring j;
    ids = λ i t e.
        ground
          (arith, inserted_cases ring k i d t j.inside e, s.ids (if ltb i k then i else i - 1) t);
    together = λ i i' t u e f same. elim (inserted_cases ring k i d t j.inside e) [
      | inl (here, t_is) ↦ elim (inserted_cases ring k i' d u j.inside f) [
        | inl (here', u_is) ↦ ap (λ (v : Ring.Server). v.memory) (t_is ∙ sym u_is)
        | inr (other', at') ↦
            ap (λ (v : Ring.Server). v.memory) t_is ∙ sym (joins _ u at' (sym same ∙ ap group t_is))
      ]
      | inr (other, at) ↦ elim (inserted_cases ring k i' d u j.inside f) [
        | inl (here', u_is) ↦
            joins _ t at (same ∙ ap group u_is) ∙ sym (ap (λ (v : Ring.Server). v.memory) u_is)
        | inr (other', at') ↦ s.together _ _ t u at at' same
      ]
    ];
    apart = λ i i' t u e f same. elim (inserted_cases ring k i d t j.inside e) [
      | inl (here, t_is) ↦ elim (inserted_cases ring k i' d u j.inside f) [
        | inl (here', u_is) ↦ ap group (t_is ∙ sym u_is)
        | inr (other', at') ↦
            ap group t_is ∙ sym (parts _ u at' (sym same ∙ ap (λ (v : Ring.Server). v.memory) t_is))
      ]
      | inr (other, at) ↦ elim (inserted_cases ring k i' d u j.inside f) [
        | inl (here', u_is) ↦
            parts _ t at (same ∙ ap (λ (v : Ring.Server). v.memory) u_is) ∙ sym (ap group u_is)
        | inr (other', at') ↦ s.apart _ _ t u at at' same
      ]
    ];
    each = each;
    free = λ q w i t e at. elim (inserted_cases ring k i d t j.inside at) [
      | inl (here, t_is) ↦ λ same. away q w e (sym same ∙ ap place t_is)
      | inr (other, old) ↦ s.free q w _ t e old
    ];
    unplaced = λ e. absurd (omega (arith, e, length-insert_at ring k d));
    small = small;
  }

  module _ (own : IsServer n (memories d.memory) (share ring docs d.memory))
      (short : length ring < 2 ^ 30) (small : n + n < 2 ^ 32 - 1) (list : ArrayList Ring.Server)
      (insert : al_insert_ordered servers d cmp_servers ≡ ok (list, k))
      (held : Holds list (insert_at ring k d)) where
    own_at : get_elem? (insert_at ring k d) k ≡ some d
    own_at = ground (arith, get_elem?-insert_at ring k k d j.inside)

    inside : k < length (insert_at ring k d)
    inside = omega (arith, j.inside, length-insert_at ring k d)

    step : next_index list.size k ≡ ok ((k + 1) % length (insert_at ring k d))
    step =
        ap (λ z. next_index z k) held.size
        ∙ next_index-ok (length (insert_at ring k d)) k inside
            (omega (arith, length-insert_at ring k d, short))

    -- the parts that do not depend on the next server
    insert_common :
        (src : Ring.Server) (replicas : List Ring.Server) (moved : List Line × (Memory × Memory))
        → get_elem? (insert_at ring k d) ((k + 1) % length (insert_at ring k d)) ≡ some src
        → find_replicas list (replica_ids (src.id % 100000)) ≡ ok replicas
        → transfer_files_multiple_srcs replicas src d (memories src.memory) (memories d.memory)
          ≡ ok moved
        → ((i : ℕ) (t : Ring.Server)
            → get_elem? (insert_at ring k d) i ≡ some t
            → IsServer
                (n + n)
                (write_memory
                  (write_memory memories src.memory moved.1.0)
                  d.memory
                  moved.1.1
                  t.memory)
                (share (insert_at ring k d) docs t.memory))
        → Inserted n ring d servers memories docs
    insert_common src replicas moved next search transfer each = record {
      k = k;
      inside = j.inside;
      list = list;
      insert = insert;
      own = al_get-ok k held inside own_at;
      next = (k + 1) % length (insert_at ring k d);
      index = step;
      src = src;
      source = al_get-ok _ held (get_elem?_bound (insert_at ring k d) _ next) next;
      replicas = replicas;
      search = search;
      moved = moved;
      transfer = transfer;
      spread = joined-Spread list _ held each small;
    }

    ring' : IsRing (insert_at ring k d)
    ring' = joined-IsRing s.is_ring j

    ids' : (i : ℕ) (t : Ring.Server) → get_elem? (insert_at ring k d) i ≡ some t → t.id < 300000
    ids' i t e =
        ground
          (arith, inserted_cases ring k i d t j.inside e, s.ids (if ltb i k then i else i - 1) t)

    -- the next place is one of the same server
    pub insert_before_own :
        (src : Ring.Server)
        → get_elem? (insert_at ring k d) ((k + 1) % length (insert_at ring k d)) ≡ some src
        → group src ≡ group d
        → ((a : ℕ) (q : Text) → share ring docs a q ≡ share (insert_at ring k d) docs a q)
        → Inserted n ring d servers memories docs
    insert_before_own src next same shares =
        let (replicas, search) =
          find_replicas-total held ring' ids' (replica_ids (src.id % 100000))
            (omega arith, (omega arith, (omega arith, tt))) (omega (arith, inside)) in
        insert_common src replicas ([], (memories src.memory, memories d.memory)) next search
          (transfer-same replicas src d (memories src.memory) (memories d.memory) same)
          (each_unchanged s j own src.memory shares small)

    memories_differ :
        (src : Ring.Server) (l : ℕ)
        → get_elem? ring l ≡ some src
        → (group src == group d) ≡ false
        → (d.memory == src.memory) ≡ false
    memories_differ src l src_at other = elim (Bool-cases (d.memory == src.memory)) [
      | inl same ↦
          let groups = parts l src src_at (sym ((==_iff d.memory src.memory).0 same)) in
          absurd (ground (arith, other, groups))
      | inr differ ↦ differ
    ]

    shares-Apart :
        (src : Ring.Server)
        → (d.memory == src.memory) ≡ false
        → Apart (share ring docs src.memory) (share ring docs d.memory)
    shares-Apart src differ q w e =
        apart_at src.memory d.memory (owner (hash_string q) ring) (docs q) w
          (==-flip d.memory src.memory differ) e

    -- the next place is another server's
    pub insert_before_other :
        (src : Ring.Server) (l : ℕ)
        → get_elem? (insert_at ring k d) ((k + 1) % length (insert_at ring k d)) ≡ some src
        → get_elem? ring l ≡ some src
        → (group src == group d) ≡ false
        → Complete ring (λ g. g == group d)
        → Inserted n ring d servers memories docs
    insert_before_other src l next src_at other complete =
        let (j0, t0, a0, e0) = complete l src 0 src_at other (omega arith) in
        let (j1, t1, a1, e1) = complete l src 1 src_at other (omega arith) in
        let (j2, t2, a2, e2) = complete l src 2 src_at other (omega arith) in
        let replicas = t0 ∷ t1 ∷ t2 ∷ [] in
        let memory : (d.memory == src.memory) ≡ false = memories_differ src l src_at other in
        let all : (l' : ℕ) (o : Ring.Server)
            → get_elem? ring l' ≡ some o
            → (o.memory == src.memory) ≡ true
            → Among o replicas =
          λ l' o o_at mine.
            every_place s j own src o t0 t1 t2 l l' j0 j1 j2 src_at o_at mine (a0, e0) (a1, e1)
              (a2, e2) in
        let on : AllOn ring replicas = ((j0, a0), ((j1, a1), ((j2, a2), tt))) in
        let free' : (q w : Text) → docs q ≡ some w → NoneAt (hash_string q) replicas =
          λ q w e. (s.free q w j0 t0 e a0, (s.free q w j1 t1 e a1, (s.free q w j2 t2 e a2, tt))) in
        let found : AllFound (insert_at ring k d) (replica_ids (src.id % 100000)) replicas = (
          (_, joined_member ring k j0 d t0 j.inside a0),
          omega (arith, e0),
          (
            (_, joined_member ring k j1 d t1 j.inside a1),
            omega (arith, e1),
            ((_, joined_member ring k j2 d t2 j.inside a2), omega (arith, e2), tt),
          ),
        ) in
        let (moved, run, (s0, s1, empty)) =
          transfer_files_multiple_srcs-IsServer replicas src d (memories src.memory)
            (memories d.memory) (share ring docs src.memory) (share ring docs d.memory) other
            (s.each l src src_at) own (shares-Apart src memory) small in
        insert_common src replicas moved next
          (find_replicas-found held ring' ids' (replica_ids (src.id % 100000)) replicas found) run
          (each_moved s j own src (moved_from_replica replicas src d) moved.1 memory s0 s1
            (shared_dest s j away src l src_at next t0 (t1 ∷ t2 ∷ []) on free' all)
            (shared_src s j away src l src_at next t0 (t1 ∷ t2 ∷ []) on free' all memory)
            (shared_other s j away src l src_at next t0 (t1 ∷ t2 ∷ []) on free' all) small)

-- The run that puts a place on the ring.
pub vnode_run :
    {n : ℕ} {ring : List Ring.Server} {docs : Documents} (lb : LoadBalancer)
    (server_id cache_size : ℕ) (ref : Option Ring.Server) (made : Ring.Server × LoadBalancer)
    → make_server lb server_id cache_size ref ≡ made
    → (x : Inserted n ring made.0 lb.servers made.1.memories docs)
    → internal_loader_add_server_with_vnodes lb server_id cache_size ref
      ≡ ok (
        made.0,
        (x.moved.0, write_both (record made.1 { servers = x.list }) x.src made.0 x.moved.1),
      )
vnode_run lb server_id cache_size ref made e x =
    vnode_step lb server_id cache_size ref made (x.list, x.k) x.next x.src x.replicas x.moved e
      x.insert x.own x.index x.source x.search x.transfer
