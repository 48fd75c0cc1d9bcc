-- ===== src/Transfer/Replicas.antt =====
-- `transfer_files_multiple_srcs` and `transfer_files_multiple_dests` of skel/server.c, for a ring on
-- which each server has three places.
use hashring_load_balancer.Base.{
  ℕ, zero, suc, ◌+◌, ◌%◌, ◌==◌, if◌then◌else◌, Bool, false, ◌&&◌, none, some, List, [], ◌∷◌, map,
  Run, ok, ◌>>=◌,
}
use hashring_load_balancer.Hash.{hash_uint, hash_string}
use hashring_load_balancer.HashMap.{bucket_at}
use hashring_load_balancer.Ring
use hashring_load_balancer.Ring.{should_move}
use hashring_load_balancer.Strings.{string_key}
use hashring_load_balancer.Server.{Text, Memory, Line, solve_queue, write_memory}
use hashring_load_balancer.Transfer.{move_document, move_buckets}
use hashring_load_balancer.Transfer.Pick.{Replica, pick_src, pick_dest}

-- the arrays of replicas and of their hashes
unfoldable pub hashed : List Ring.Server → List Replica
hashed replicas = map (λ r. (r, hash_uint r.id)) replicas

-- The condition on which a document moves. With three replicas `pick_src` never returns NULL.
unfoldable pub moved_from_replica : List Ring.Server → Ring.Server → Ring.Server → Text → Bool
moved_from_replica replicas src dest name =
    elim (pick_src (hash_string name) (hashed replicas) none) [
      | none ↦ false
      | some true_src ↦
          true_src.0.id == src.id
          && should_move (hash_uint src.id) (hash_string name) (hash_uint dest.id)
    ]

unfoldable pub transfer_files_multiple_srcs :
    List Ring.Server
    → Ring.Server
    → Ring.Server
    → Memory
    → Memory
    → Run (List Line × (Memory × Memory))
transfer_files_multiple_srcs replicas src dest src_memory dest_memory =
    if src.id % 100000 == dest.id % 100000
    then ok ([], (src_memory, dest_memory))
    else solve_queue src.id src_memory false >>= λ solved.
        move_buckets (moved_from_replica replicas src dest) solved.1.local_db.hmax 0 solved.1
          dest_memory
        >>= λ r. ok (solved.0, r)

-- the loop over a bucket
unfoldable pub scatter_nodes :
    List Replica → Ring.Server → List (Text × Text) → (ℕ → Memory) → Run (ℕ → Memory)
scatter_nodes dests src [] memories = ok memories
scatter_nodes dests src (e ∷ nodes) memories = pick_dest (hash_string e.0) src.id dests >>= λ dest.
    move_document (memories src.memory) (memories dest.0.memory) e.0 e.1 >>= λ r.
    scatter_nodes dests src nodes
      (write_memory (write_memory memories src.memory r.0) dest.0.memory r.1)

-- the loop over the buckets, with `left` of them left
unfoldable pub scatter_buckets :
    List Replica → Ring.Server → ℕ → ℕ → (ℕ → Memory) → Run (ℕ → Memory)
scatter_buckets dests src zero i memories = ok memories
scatter_buckets dests src (suc left) i memories =
    bucket_at (memories src.memory).local_db.buckets i >>= λ list.
    scatter_nodes dests src list.nodes memories >>= λ after.
    scatter_buckets dests src left (i + 1) after

unfoldable pub transfer_files_multiple_dests :
    Ring.Server → List Ring.Server → (ℕ → Memory) → Run (List Line × (ℕ → Memory))
transfer_files_multiple_dests src dests memories =
    solve_queue src.id (memories src.memory) false >>= λ solved.
    scatter_buckets (hashed dests) src solved.1.local_db.hmax 0
      (write_memory memories src.memory solved.1)
    >>= λ r. ok (solved.0, r)
