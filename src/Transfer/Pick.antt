-- ===== src/Transfer/Pick.antt =====
-- `pick_src` and `pick_dest` of skel/server.c: which of some replicas is the next one behind a hash,
-- going round the ring. The arrays of replicas and of their hashes are read as one list.
use hashring_load_balancer.Base.{
  ℕ, ◌%◌, Bool, ◌&&◌, ◌||◌, ◌==◌, ltb, leb, if◌then◌else◌, Option, none, some, List, [], ◌∷◌, Run,
  ok, fault, aborted,
}
use hashring_load_balancer.Ring
use hashring_load_balancer.Ring.{should_move}

-- the replica and its hash
abbrev pub Replica : Type 0
Replica = Ring.Server × ℕ

-- The three tests of `pick_src`; where the first one holds, the others do not hold afterwards.
unfoldable pub better_src : ℕ → ℕ → ℕ → Bool
better_src name_hash best hash =
    (ltb name_hash hash && ltb hash best)
    || (ltb name_hash hash && ltb best name_hash)
    || (ltb best name_hash && ltb hash best)

-- those of `pick_dest`
unfoldable pub better_dest : ℕ → ℕ → ℕ → Bool
better_dest name_hash best hash =
    (ltb name_hash hash && leb hash best)
    || (ltb name_hash hash && ltb best name_hash)
    || (ltb best name_hash && ltb hash best)

-- The loop of `pick_src`; `none` is NULL.
unfoldable pub pick_src : ℕ → List Replica → Option Replica → Option Replica
pick_src name_hash [] ans = ans
pick_src name_hash (r ∷ replicas) none = pick_src name_hash replicas (some r)
pick_src name_hash (r ∷ replicas) (some best) =
    pick_src name_hash replicas (if better_src name_hash best.1 r.1 then some r else some best)

-- the loop of `pick_dest`, which passes over the replicas of the source
unfoldable pub pick_dest_loop : ℕ → ℕ → List Replica → Option Replica → Option Replica
pick_dest_loop name_hash src_id [] ans = ans
pick_dest_loop name_hash src_id (r ∷ dests) none =
    pick_dest_loop name_hash src_id dests
      (if r.0.id % 100000 == src_id % 100000 then none else some r)
pick_dest_loop name_hash src_id (r ∷ dests) (some best) = pick_dest_loop name_hash src_id dests (
    if r.0.id % 100000 == src_id % 100000
    then some best
    else if better_dest name_hash best.1 r.1
    then some r
    else some best)

-- Without an answer the program exits.
unfoldable pub pick_dest : ℕ → ℕ → List Replica → Run Replica
pick_dest name_hash src_id dests = elim (pick_dest_loop name_hash src_id dests none) [
  | none ↦ fault aborted
  | some best ↦ ok best
]
