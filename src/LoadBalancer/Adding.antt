-- ===== src/LoadBalancer/Adding.antt =====
-- `loader_add_server` of skel/load_balancer.c on a ring without replicas: documents go to the new
-- server, and none is lost.
use native.Mathlib.Decide.{dec_lt}
use hashring_load_balancer.Transfer.Servers.{transfer_files-IsServer}
use hashring_load_balancer.Base.{
  ℕ, suc, ◌+◌, ◌-◌, ◌%◌, ◌^◌, ◌≤◌, ◌<◌, ◌≡◌, ◌≢◌, refl, sym, ap, ◌∙◌, false, ◌==◌, inl, inr, none,
  some, List, [], length, get_elem?, insert_at, length-insert_at, get_elem?-insert_at,
  get_elem?_total, get_elem?_bound, ok, Returns, arith,
}
use hashring_load_balancer.ArrayList.{ArrayList, al_insert_ordered}
use hashring_load_balancer.ArrayList.Holds.{Holds, al_get-ok}
use hashring_load_balancer.ArrayList.Search.{Monotone, al_insert_ordered-Holds}
use hashring_load_balancer.Hash.Injective.{hash_uint_injective}
use hashring_load_balancer.Base.Int.{is_positive}
use hashring_load_balancer.Hash.{hash_string, hash_uint}
use hashring_load_balancer.Ring
use hashring_load_balancer.Ring.{compare_uints, cmp_servers}
use hashring_load_balancer.Ring.Owner.{IsRing}
use hashring_load_balancer.Ring.Joining.{Joins, Splits-Joins}
use hashring_load_balancer.Server.{Text, Memory, Line, init_server, write_memory}
use hashring_load_balancer.Server.Holds.{Documents}
use hashring_load_balancer.Server.Handling.{IsServer, init_server-IsServer}
use hashring_load_balancer.Transfer.{transfer_files}
use hashring_load_balancer.LoadBalancer.{LoadBalancer, next_index, loader_add_server}
use hashring_load_balancer.LoadBalancer.Balanced.{
  IsBalancer, share, share-absent, more-IsServer, same-IsServer,
}
use hashring_load_balancer.LoadBalancer.Joined.{inserted_cases, joined-IsBalancer}
use hashring_load_balancer.LoadBalancer.Steps.{
  old_source, joining_server, enlarged, plain_lem, internal_step, then_ok, next_index-ok,
  written_itself, written_other, at_memory, transfer_files-itself, distinct_ids,
}
use hashring_load_balancer.LoadBalancer.Shares.{each_joined}

pub place-Monotone :
    (ring : List Ring.Server) (d : Ring.Server)
    → IsRing ring
    → Monotone (λ m. is_positive (cmp_servers m d)) ring
unfolding cmp_servers compare_uints
place-Monotone ring d is_ring i i' v w p e f t = ground (arith, is_ring.ordered i i' v w)

module _ {n : ℕ} (ring : List Ring.Server) (lb : LoadBalancer) (docs : Documents)
    (server_id cache_size : ℕ) (b : IsBalancer n ring lb docs) (small_id : server_id < 100000)
    (fresh_id : (i : ℕ) (s : Ring.Server) → get_elem? ring i ≡ some s → s.id ≢ server_id)
    (away : (q w : Text) → docs q ≡ some w → hash_string q ≢ hash_uint server_id)
    (short : length ring < 2 ^ 30) (positive : 0 < cache_size)
    (small : cache_size < 2 ^ 32 - 1) where
  -- The place of the new server, and the list with it.
  inserted : Returns (al_insert_ordered lb.servers (joining_server lb server_id) cmp_servers) (λ r.
      Holds r.0 (insert_at ring r.1 (joining_server lb server_id))
      × Joins ring (joining_server lb server_id) r.1)
  inserted =
      let d = joining_server lb server_id in
      let (r, run, (held, split)) =
        al_insert_ordered-Holds d cmp_servers b.held (place-Monotone ring d b.is_ring) short in
      (
        r,
        run,
        (
          held,
          Splits-Joins split (λ i s e same.
              fresh_id i s e (
                hash_uint_injective s.id server_id (omega (arith, b.ids i s e)) (omega arith)
                  same)),
        ),
      )

  abbrev Joined : List Line × LoadBalancer → Type 0
  Joined r =
      (k : ℕ) × (k ≤ length ring)
      × IsBalancer n (insert_at ring k (joining_server lb server_id)) r.1 docs

  own_memory :
      (k : ℕ)
      → Joins ring (joining_server lb server_id) k
      → get_elem? (insert_at ring k (joining_server lb server_id)) k
        ≡ some (joining_server lb server_id)
  own_memory k j =
      ground (arith, get_elem?-insert_at ring k k (joining_server lb server_id) j.inside)

  -- the runs before the transfer, for the next server `src`
  joined_run :
      (r : ArrayList Ring.Server × ℕ) (src : Ring.Server) (t : List Line × (Memory × Memory))
      → al_insert_ordered lb.servers (joining_server lb server_id) cmp_servers ≡ ok r
      → Holds r.0 (insert_at ring r.1 (joining_server lb server_id))
      → Joins ring (joining_server lb server_id) r.1
      → get_elem?
          (insert_at ring r.1 (joining_server lb server_id))
          ((r.1 + 1) % length (insert_at ring r.1 (joining_server lb server_id)))
        ≡ some src
      → transfer_files src.id server_id
          (enlarged lb cache_size src.memory)
          (enlarged lb cache_size lb.fresh)
          false
        ≡ ok t
      → loader_add_server lb server_id cache_size
        ≡ ok (
          t.0,
          record lb {
            servers = r.0;
            memories =
                write_memory
                  (write_memory (enlarged lb cache_size) src.memory t.1.0)
                  lb.fresh
                  t.1.1;
            fresh = suc lb.fresh;
          },
        )
  joined_run r src t run held j next moved =
      let d = joining_server lb server_id in
      let ring' = insert_at ring r.1 d in
      let long : length ring' ≡ suc (length ring) = length-insert_at ring r.1 d in
      let inside : r.1 < length ring' = omega (arith, long, j.inside) in
      let step =
        ap (λ z. next_index z r.1) held.size
        ∙ next_index-ok (length ring') r.1 inside (omega (arith, long, short)) in
      plain_lem lb server_id cache_size b.plain
      ∙ then_ok _ _ _ (
          internal_step lb server_id cache_size r ((r.1 + 1) % length ring') src d t run step
            (al_get-ok _ held (get_elem?_bound ring' _ next) next)
            (al_get-ok r.1 held inside (own_memory r.1 j)) moved)

  add_first : length ring ≡ 0 → Returns (loader_add_server lb server_id cache_size) Joined
  add_first empty =
      let d = joining_server lb server_id in
      let (r, run, (held, j)) = inserted in
      let first : r.1 ≡ 0 = omega (arith, j.inside) in
      let one : length (insert_at ring r.1 d) ≡ 1 = omega (arith, length-insert_at ring r.1 d) in
      let index : (r.1 + 1) % length (insert_at ring r.1 d) ≡ r.1 = rw (one, first) refl in
      let next = ap (get_elem? (insert_at ring r.1 d)) index ∙ own_memory r.1 j in
      let m0 = enlarged lb cache_size in
      (
        _,
        joined_run r d ([], (m0 lb.fresh, m0 lb.fresh)) run held j next
            (transfer_files-itself server_id (m0 lb.fresh) (m0 lb.fresh)),
        (r.1, j.inside, joined-IsBalancer b j refl away r.0 _ small_id held (each_first r.1 j)),
      )
    where
      each_first :
          (k : ℕ)
          → Joins ring (joining_server lb server_id) k
          → (i : ℕ) (t : Ring.Server)
          → get_elem? (insert_at ring k (joining_server lb server_id)) i ≡ some t
          → IsServer n
              (write_memory
                (write_memory (enlarged lb cache_size) lb.fresh (enlarged lb cache_size lb.fresh))
                lb.fresh
                (enlarged lb cache_size lb.fresh)
                t.memory)
              (share (insert_at ring k (joining_server lb server_id)) docs t.memory)
      each_first k j i t e =
          elim (inserted_cases ring k i (joining_server lb server_id) t j.inside e) [
            | inl (same, new) ↦
                at_memory
                  (ap
                      (λ a.
                        write_memory
                          (write_memory (enlarged lb cache_size) lb.fresh
                            (enlarged lb cache_size lb.fresh))
                          lb.fresh (enlarged lb cache_size lb.fresh) a)
                      (ap (λ (u : Ring.Server). u.memory) new)
                    ∙ written_itself
                        (write_memory (enlarged lb cache_size) lb.fresh
                          (enlarged lb cache_size lb.fresh))
                        lb.fresh (enlarged lb cache_size lb.fresh)
                    ∙ written_itself lb.memories lb.fresh (init_server cache_size))
                  (same-IsServer _
                    (more-IsServer n (init_server-IsServer cache_size positive small) (omega arith)
                      b.small)
                    (λ q. sym (
                      share-absent (insert_at ring k (joining_server lb server_id)) docs t.memory q
                        (b.unplaced empty q))))
            | inr (other, at) ↦ absurd (omega (arith, get_elem?_bound ring _ at, empty))
          ]

  add_next : 0 < length ring → Returns (loader_add_server lb server_id cache_size) Joined
  add_next filled =
      let d = joining_server lb server_id in
      let (r, run, (held, j)) = inserted in
      let ring' = insert_at ring r.1 d in
      let long : length ring' ≡ suc (length ring) = length-insert_at ring r.1 d in
      let (src, next) = get_elem?_total ring' ((r.1 + 1) % length ring') (omega (arith, long)) in
      let (l, src_at) = old_source ring r.1 d src filled j.inside next in
      let m0 = enlarged lb cache_size in
      let old : (src.memory == lb.fresh) ≡ false = ground (arith, b.used l src src_at) in
      let (t, moved, (s, d', empty)) =
        transfer_files-IsServer src.id server_id (m0 src.memory) (m0 lb.fresh)
          (share ring docs src.memory) (λ q. none) false
          (distinct_ids src.id server_id (b.ids l src src_at) small_id (fresh_id l src src_at))
          (at_memory (written_other lb.memories lb.fresh src.memory (init_server cache_size) old)
            (b.each l src src_at))
          (at_memory (written_itself lb.memories lb.fresh (init_server cache_size))
            (init_server-IsServer cache_size positive small))
          (λ q w e. refl) (omega (arith, b.small)) in
      (
        _,
        joined_run r src t run held j next moved,
        (
          r.1,
          j.inside,
          joined-IsBalancer b j refl away r.0 _ small_id held
              (each_joined server_id cache_size r.1 b j away src l src_at next t.1 s d'),
        ),
      )

  -- On a balancer without replicas whose servers each hold exactly the documents that they own,
  -- adding a server with an id below 100000 that no other server has does not fault, and each
  -- server, the new one included, then holds exactly the documents that it owns on the ring with
  -- the new server; it may be the first one. The conditions are that no document's hash is the
  -- new server's own, that there are fewer than 2 ^ 30 servers, and that the cache has room for
  -- at least one document and fewer than 2 ^ 32 - 1.
  pub loader_add_server-IsBalancer : Returns (loader_add_server lb server_id cache_size) (λ r.
      (k : ℕ) × (k ≤ length ring)
      × IsBalancer n (insert_at ring k (joining_server lb server_id)) r.1 docs)
  loader_add_server-IsBalancer = elim (dec_lt 0 (length ring)) [
    | yes filled ↦ add_next filled
    | no none' ↦ add_first (omega arith)
  ]
