-- ===== src/Transfer/Files.antt =====
-- `transfer_files` of skel/server.c moves exactly the documents that its test chooses.
use mathlib.Core.Path.{subst}
use hashring_load_balancer.Queue.Fifo.{Waiting}
use hashring_load_balancer.Base.{
  ℕ, ◌+◌, ◌-◌, ◌%◌, ◌^◌, ◌<◌, ◌≡◌, refl, ap, ◌∙◌, Bool, false, ◌==◌, List, ok, Run, ◌>>=◌, Returns,
  arith, sym, [],
}
use hashring_load_balancer.LruCache.Recency.{Entries}
use hashring_load_balancer.Server.{Text, Memory, Line, solve_queue, solve_loop}
use hashring_load_balancer.Server.Holds.{Documents, IsStore}
use hashring_load_balancer.Server.Requests.{solve_loop-Solved}
use hashring_load_balancer.Server.Handling.{IsServer}
use hashring_load_balancer.Transfer.{move_buckets, moved_from, transfer_files}
use hashring_load_balancer.Ring
use hashring_load_balancer.Transfer.Replicas.{moved_from_replica, transfer_files_multiple_srcs}
use hashring_load_balancer.Transfer.Step.{Stores, with_documents}
use hashring_load_balancer.Transfer.Walk.{with_both}
use hashring_load_balancer.Transfer.Homes.{Apart, left_behind, arrived, coming}
use hashring_load_balancer.Transfer.Buckets.{move_buckets-Stores}

-- the part that transfer_files and transfer_files_multiple_srcs have in common
abbrev pub walk : ℕ → (Text → Bool) → Memory → Memory → Run (List Line × (Memory × Memory))
walk id moves src dest = solve_queue id src false >>= λ solved.
    move_buckets moves solved.1.local_db.hmax 0 solved.1 dest >>= λ r. ok (solved.0, r)

walk_step :
    (id : ℕ) (moves : Text → Bool) (src dest : Memory) (solved : List Line × Memory)
    (r : Memory × Memory)
    → solve_loop id src.task_queue.size false src ≡ ok solved
    → move_buckets moves solved.1.local_db.hmax 0 solved.1 dest ≡ ok r
    → walk id moves src dest ≡ ok (solved.0, r)
unfolding solve_queue
walk_step id moves src dest solved r run run2 = rw (run, run2) refl

pub transfer_step :
    (src_id dest_id : ℕ) (src dest : Memory) (force : Bool)
    → (src_id % 100000 == dest_id % 100000) ≡ false
    → transfer_files src_id dest_id src dest force
      ≡ walk src_id (moved_from src_id dest_id force) src dest
unfolding transfer_files
transfer_step src_id dest_id src dest force e = rw e refl

pub replicas_step :
    (replicas : List Ring.Server) (src dest : Ring.Server) (m m' : Memory)
    → (src.id % 100000 == dest.id % 100000) ≡ false
    → transfer_files_multiple_srcs replicas src dest m m'
      ≡ walk src.id (moved_from_replica replicas src dest) m m'
unfolding transfer_files_multiple_srcs
replicas_step replicas src dest m m' e = rw e refl

all_coming : (hmax : ℕ) (moves : Text → Bool) (q : Text) → coming 0 hmax moves q ≡ moves q
all_coming hmax moves q = ground arith

-- What a transfer leaves, where `stored` are the documents of the destination without its waiting
-- edits: the moves, an empty queue at the source, and the destination's own queue.
pub record Moved (total : ℕ) (moves : Text → Bool) (docs stored : Documents) (dest : Memory)
    (r : Memory × Memory) : Type 0 where
  pub stores :
      Stores total r.0
        (λ q. left_behind (moves q) (docs q))
        r.1
        (λ q. arrived (moves q) (docs q) (stored q))
  pub empty : Waiting r.0.task_queue []
  pub queue : r.1.task_queue ≡ dest.task_queue

pub walk-Moved :
    {n k : ℕ} (id : ℕ) (moves : Text → Bool) (src dest : Memory) (docs docs2 : Documents)
    (es2 : Entries Text Text)
    → IsServer n src docs
    → IsStore k dest docs2 es2
    → Apart docs docs2
    → n + k < 2 ^ 32 - 1
    → Returns (walk id moves src dest) (λ r. Moved (n + k) moves docs docs2 dest r.1)
walk-Moved {n} {k} id moves src dest docs docs2 es2 s d apart small =
    let (solved, run, after) =
      solve_loop-Solved id s.count n src s.stored s.tasks s.entries s.is_store s.waiting s.bounded
        s.small in
    let both : Stores (n + k) solved.1 docs dest docs2 = record {
      n = n;
      k = k;
      es = after.entries;
      es2 = es2;
      bounded = omega arith;
      small = small;
      src_store = with_documents docs after.is_store s.current;
      dest_store = d;
    } in
    let hmax = solved.1.local_db.hmax in
    let (r, run2, (moved, kept)) =
      move_buckets-Stores moves hmax 0 hmax solved.1 dest docs docs2 both apart (omega arith)
        refl in
    (
      (solved.0, r),
      walk_step id moves src dest solved r
          (ap (λ l. solve_loop id l false src) s.waiting.size ∙ run) run2,
      record {
        stores =
            with_both _ _ moved (λ q. ap (λ c. left_behind c (docs q)) (all_coming hmax moves q))
              (λ q. ap (λ c. arrived c (docs q) (docs2 q)) (all_coming hmax moves q));
        empty = subst (λ t. Waiting t []) (sym kept.src_queue) after.empty;
        queue = kept.dest_queue;
      },
    )

-- Between servers whose ids differ modulo 100000, that have no document in common and fewer than
-- 2 ^ 32 - 1 documents and edits together, transfer_files does not fault; the edits that wait at
-- the source are made, and then exactly the documents that the test chooses, or all if the move
-- is forced, are at the destination and no longer at the source, and both caches agree with the
-- documents.
pub transfer_files-Stores :
    {n k : ℕ} (src_id dest_id : ℕ) (src dest : Memory) (docs docs2 : Documents)
    (es2 : Entries Text Text) (force : Bool)
    → (src_id % 100000 == dest_id % 100000) ≡ false
    → IsServer n src docs
    → IsStore k dest docs2 es2
    → Apart docs docs2
    → n + k < 2 ^ 32 - 1
    → Returns (transfer_files src_id dest_id src dest force) (λ r.
      Stores
        (n + k)
        r.1.0
        (λ q. left_behind (moved_from src_id dest_id force q) (docs q))
        r.1.1
        (λ q. arrived (moved_from src_id dest_id force q) (docs q) (docs2 q)))
transfer_files-Stores src_id dest_id src dest docs docs2 es2 force other s d apart small =
    let (r, run, moved) =
      walk-Moved src_id (moved_from src_id dest_id force) src dest docs docs2 es2 s d apart small in
    (r, transfer_step src_id dest_id src dest force other ∙ run, moved.stores)
