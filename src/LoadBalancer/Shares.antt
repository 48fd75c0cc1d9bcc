-- ===== src/LoadBalancer/Shares.antt =====
-- The memories that `loader_add_server` of skel/load_balancer.c leaves hold the servers' shares.
use mathlib.Core.Path.{subst}
use hashring_load_balancer.Base.{
  ℕ, ◌+◌, ◌%◌, ◌≡◌, ◌≢◌, refl, sym, ◌∙◌, false, ◌==◌, ==_iff, Bool-cases, inl, inr, none, some,
  List, length, get_elem?, insert_at, arith,
}
use hashring_load_balancer.Hash.{hash_string, hash_uint}
use hashring_load_balancer.Ring
use hashring_load_balancer.Ring.{compare_uints, cmp_servers}
use hashring_load_balancer.Ring.Joining.{Joins}
use hashring_load_balancer.Server.{Text, Memory, init_server, write_memory}
use hashring_load_balancer.Server.Holds.{Documents}
use hashring_load_balancer.Server.Handling.{IsServer}
use hashring_load_balancer.Transfer.{moved_from}
use hashring_load_balancer.Transfer.Homes.{left_behind, arrived}
use hashring_load_balancer.LoadBalancer.{LoadBalancer}
use hashring_load_balancer.LoadBalancer.Balanced.{IsBalancer, share, more-IsServer, same-IsServer}
use hashring_load_balancer.LoadBalancer.Joined.{
  inserted_cases, joined_dest, joined_src, joined_other,
}
use hashring_load_balancer.LoadBalancer.Steps.{
  joining_server, enlarged, written_itself, written_other, at_memory, ==-flip,
}

module _ {n : ℕ} {ring : List Ring.Server} {lb : LoadBalancer} {docs : Documents}
    (server_id cache_size k : ℕ) (b : IsBalancer n ring lb docs)
    (j : Joins ring (joining_server lb server_id) k)
    (away : (q w : Text) → docs q ≡ some w → hash_string q ≢ hash_uint server_id)
    (src : Ring.Server) (l : ℕ) (src_at : get_elem? ring l ≡ some src)
    (next : get_elem?
        (insert_at ring k (joining_server lb server_id))
        ((k + 1) % length (insert_at ring k (joining_server lb server_id)))
      ≡ some src) where
  -- The memories after the transfer hold the shares of the ring with the new server.
  pub each_joined :
      (m : Memory × Memory)
      → IsServer
          (n + 0)
          m.0
          (λ q. left_behind (moved_from src.id server_id false q) (share ring docs src.memory q))
      → IsServer
          (n + 0)
          m.1
          (λ q. arrived (moved_from src.id server_id false q) (share ring docs src.memory q) none)
      → (i : ℕ) (t : Ring.Server)
      → get_elem? (insert_at ring k (joining_server lb server_id)) i ≡ some t
      → IsServer n
          (write_memory
            (write_memory (enlarged lb cache_size) src.memory m.0)
            lb.fresh
            m.1
            t.memory)
          (share (insert_at ring k (joining_server lb server_id)) docs t.memory)
  each_joined m s d i t e =
      let new_server = joining_server lb server_id in
      let written = write_memory (enlarged lb cache_size) src.memory m.0 in
      elim (inserted_cases ring k i new_server t j.inside e) [
        | inl (same, new) ↦
            let there : IsServer n (write_memory written lb.fresh m.1 lb.fresh)
                (share (insert_at ring k new_server) docs lb.fresh) =
              at_memory (written_itself written lb.fresh m.1) (
                same-IsServer _ (more-IsServer n d (omega arith) b.small)
                  (joined_dest b j refl away src l src_at next)) in
            subst
              (λ (u : Ring.Server).
                IsServer n (write_memory written lb.fresh m.1 u.memory)
                  (share (insert_at ring k new_server) docs u.memory))
              (sym new) there
        | inr (other, at) ↦
            let old : (t.memory == lb.fresh) ≡ false = ground (arith, b.used _ t at) in
            let read = written_other written lb.fresh t.memory m.1 old in
            elim (Bool-cases (t.memory == src.memory)) [
              | inl here ↦
                  let source : IsServer n m.0
                      (share (insert_at ring k new_server) docs src.memory) =
                    same-IsServer _ (more-IsServer n s (omega arith) b.small)
                      (joined_src b j refl away src l src_at next) in
                  at_memory (read ∙ rw here refl) (
                    subst (λ a. IsServer n m.0 (share (insert_at ring k new_server) docs a))
                      (sym ((==_iff t.memory src.memory).0 here)) source)
              | inr elsewhere ↦
                  at_memory
                    (read
                      ∙ written_other (enlarged lb cache_size) src.memory t.memory m.0 elsewhere
                      ∙ written_other lb.memories lb.fresh t.memory (init_server cache_size) old)
                    (same-IsServer _ (b.each _ t at) (
                      joined_other b j refl away src l src_at next t.memory
                        (==-flip t.memory lb.fresh old) (==-flip t.memory src.memory elsewhere)))
            ]
      ]
