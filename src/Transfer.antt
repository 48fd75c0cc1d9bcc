-- ===== src/Transfer.antt =====
-- `transfer_files` of skel/server.c, from the memory of one server to that of another. A bucket is
-- walked as it was when the walk began: the code takes the next node before it removes one, and only
-- the node that it stands on is removed.
pub mod Step
pub mod Walk
pub mod Homes
pub mod Buckets
pub mod Files
pub mod Servers
pub mod Pick
pub mod Nearest
pub mod Destination
pub mod Replicas
pub mod Owners
mod Tests
use hashring_load_balancer.Base.{
  ℕ, zero, suc, ◌+◌, ◌%◌, ◌==◌, if◌then◌else◌, Bool, true, false, ◌||◌, List, [], ◌∷◌, Run, ok,
  ◌>>=◌,
}
use hashring_load_balancer.Hash.{hash_uint, hash_string}
use hashring_load_balancer.HashMap.{hm_set, hm_remove, bucket_at}
use hashring_load_balancer.LruCache.{lru_cache_remove}
use hashring_load_balancer.Ring.{should_move}
use hashring_load_balancer.Strings.{string_key}
use hashring_load_balancer.Server.{Text, Memory, Line, solve_queue}

-- the body of the `if`
unfoldable pub move_document : Memory → Memory → Text → Text → Run (Memory × Memory)
move_document src dest name content = hm_set dest.local_db name content >>= λ db.
    hm_remove src.local_db name >>= λ removed. lru_cache_remove src.cache name >>= λ cache.
    ok (record src { local_db = removed.1; cache = cache }, record dest { local_db = db })

-- the loop over a bucket, where `moves` is the condition
unfoldable pub move_nodes :
    (Text → Bool) → List (Text × Text) → Memory → Memory → Run (Memory × Memory)
move_nodes moves [] src dest = ok (src, dest)
move_nodes moves (e ∷ nodes) src dest =
    (if moves e.0 then move_document src dest e.0 e.1 else ok (src, dest)) >>= λ r.
    move_nodes moves nodes r.0 r.1

-- the loop over the buckets, with `left` of them left
unfoldable pub move_buckets : (Text → Bool) → ℕ → ℕ → Memory → Memory → Run (Memory × Memory)
move_buckets moves zero i src dest = ok (src, dest)
move_buckets moves (suc left) i src dest = bucket_at src.local_db.buckets i >>= λ list.
    move_nodes moves list.nodes src dest >>= λ r. move_buckets moves left (i + 1) r.0 r.1

-- `force_move || should_move`
unfoldable pub moved_from : ℕ → ℕ → Bool → Text → Bool
moved_from src_id dest_id force_move name =
    force_move || should_move (hash_uint src_id) (hash_string name) (hash_uint dest_id)

-- With the responses of the edits that wait at the source. Servers whose ids differ modulo 100000
-- have different memories.
unfoldable pub transfer_files : ℕ → ℕ → Memory → Memory → Bool → Run (List Line × (Memory × Memory))
transfer_files src_id dest_id src dest force_move =
    if src_id % 100000 == dest_id % 100000
    then ok ([], (src, dest))
    else solve_queue src_id src false >>= λ solved.
        move_buckets (moved_from src_id dest_id force_move) solved.1.local_db.hmax 0 solved.1 dest
        >>= λ r. ok (solved.0, r)
