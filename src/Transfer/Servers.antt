-- ===== src/Transfer/Servers.antt =====
-- The servers after `transfer_files` or `transfer_files_multiple_srcs` of skel/server.c, whatever edits
-- wait at either.
use mathlib.Core.Path.{subst}
use hashring_load_balancer.Queue.Fifo.{Waiting}
use hashring_load_balancer.Base.{
  ℕ, ◌+◌, ◌-◌, ◌%◌, ◌^◌, ◌<◌, ◌≡◌, refl, ap, ◌∙◌, Bool, false, ◌==◌, List, Returns, arith, sym,
  none, Option-cases, inl, inr, [], ◌∷◌,
}
use hashring_load_balancer.Server.{Text, Memory, Request}
use hashring_load_balancer.Server.Holds.{Documents, edited}
use hashring_load_balancer.Server.Requests.{after_all}
use hashring_load_balancer.Server.Handling.{IsServer}
use hashring_load_balancer.Transfer.{moved_from, transfer_files}
use hashring_load_balancer.Ring
use hashring_load_balancer.Transfer.Replicas.{moved_from_replica, transfer_files_multiple_srcs}
use hashring_load_balancer.Transfer.Homes.{Apart, left_behind, arrived}
use hashring_load_balancer.Transfer.Files.{walk, walk-Moved, transfer_step, replicas_step}

absent_before :
    (docs : Documents) (tasks : List Request) (q : Text)
    → after_all docs tasks q ≡ none
    → docs q ≡ none
absent_before docs [] q e = e
absent_before docs (t ∷ tasks) q e =
    let e' = absent_before (edited docs t.doc_name t.doc_content) tasks q e in ground arith

-- edits elsewhere do not matter at `q`
unchanged :
    (docs docs' : Documents) (tasks : List Request) (q : Text)
    → after_all docs tasks q ≡ none
    → after_all docs' tasks q ≡ docs' q
unchanged docs docs' [] q e = refl
unchanged docs docs' (t ∷ tasks) q e =
    let here = absent_before (edited docs t.doc_name t.doc_content) tasks q e in
    unchanged (edited docs t.doc_name t.doc_content) (edited docs' t.doc_name t.doc_content) tasks q
      e
    ∙ ground arith

pointwise :
    (docs docs' : Documents) (tasks : List Request) (q : Text)
    → docs q ≡ docs' q
    → after_all docs tasks q ≡ after_all docs' tasks q
pointwise docs docs' [] q e = e
pointwise docs docs' (t ∷ tasks) q e =
    pointwise (edited docs t.doc_name t.doc_content) (edited docs' t.doc_name t.doc_content) tasks q
      (ground arith)

-- The edits that wait at the destination are of other documents than those that arrive.
arrived_edited :
    (m : Bool) (docs docs2 stored : Documents) (after : Documents) (tasks : List Request) (q : Text)
    → Apart docs docs2
    → after_all stored tasks q ≡ docs2 q
    → after q ≡ arrived m (docs q) (stored q)
    → after_all after tasks q ≡ arrived m (docs q) (docs2 q)
arrived_edited m docs docs2 stored after tasks q apart current e = elim (Option-cases (docs q)) [
  | inl absent ↦
      pointwise after stored tasks q (e ∙ ap (λ o. arrived m o (stored q)) absent)
      ∙ current
      ∙ ap (λ o. arrived m o (docs2 q)) (sym absent)
  | inr (w, present) ↦
      let gone = apart q w present in
      let never = absent_before stored tasks q (current ∙ gone) in
      unchanged stored after tasks q (current ∙ gone)
      ∙ e
      ∙ ap (arrived m (docs q)) (never ∙ sym gone)
]

walk-IsServer :
    {n k : ℕ} (id : ℕ) (moves : Text → Bool) (src dest : Memory) (docs docs2 : Documents)
    → IsServer n src docs
    → IsServer k dest docs2
    → Apart docs docs2
    → n + k < 2 ^ 32 - 1
    → Returns (walk id moves src dest) (λ r.
      IsServer (n + k) r.1.0 (λ q. left_behind (moves q) (docs q))
      × IsServer (n + k) r.1.1 (λ q. arrived (moves q) (docs q) (docs2 q))
      × Waiting r.1.0.task_queue [])
walk-IsServer {n} {k} id moves src dest docs docs2 s d apart small =
    let (r, run, moved) =
      walk-Moved id moves src dest docs d.stored d.entries s d.is_store
        (λ q w present. absent_before d.stored d.tasks q (d.current q ∙ apart q w present))
        (omega (arith, d.bounded)) in
    let t = moved.stores in
    (
      r,
      run,
      (
        record {
          stored = λ q. left_behind (moves q) (docs q);
          tasks = [];
          entries = t.es;
          count = t.n;
          is_store = t.src_store;
          waiting = moved.empty;
          bounded = omega (arith, t.bounded, d.bounded);
          small = small;
          current = λ q. refl;
        },
        record {
          stored = λ q. arrived (moves q) (docs q) (d.stored q);
          tasks = d.tasks;
          entries = t.es2;
          count = t.k;
          is_store = t.dest_store;
          waiting = subst (λ w. Waiting w d.tasks) (sym moved.queue) d.waiting;
          bounded = omega (arith, t.bounded, d.bounded);
          small = small;
          current = λ q.
              arrived_edited (moves q) docs docs2 d.stored _ d.tasks q apart (d.current q) refl;
        },
        moved.empty,
      ),
    )

-- Between two servers that hold documents, have ids that differ modulo 100000, no document in
-- common and fewer than 2 ^ 32 - 1 documents and edits together, transfer_files does not fault,
-- and leaves two such servers: the chosen documents are those of the destination, whatever edits
-- wait at either, the other ones stay, and no edit waits at the source any more.
pub transfer_files-IsServer :
    {n k : ℕ} (src_id dest_id : ℕ) (src dest : Memory) (docs docs2 : Documents) (force : Bool)
    → (src_id % 100000 == dest_id % 100000) ≡ false
    → IsServer n src docs
    → IsServer k dest docs2
    → Apart docs docs2
    → n + k < 2 ^ 32 - 1
    → Returns (transfer_files src_id dest_id src dest force) (λ r.
      IsServer (n + k) r.1.0 (λ q. left_behind (moved_from src_id dest_id force q) (docs q))
      × IsServer (n + k) r.1.1 (λ q. arrived (moved_from src_id dest_id force q) (docs q) (docs2 q))
      × Waiting r.1.0.task_queue [])
transfer_files-IsServer src_id dest_id src dest docs docs2 force other s d apart small =
    let (r, run, after) =
      walk-IsServer src_id (moved_from src_id dest_id force) src dest docs docs2 s d apart small in
    (r, transfer_step src_id dest_id src dest force other ∙ run, after)

-- The same of transfer_files_multiple_srcs, with its own choice of documents.
pub transfer_files_multiple_srcs-IsServer :
    {n k : ℕ} (replicas : List Ring.Server) (src dest : Ring.Server) (m m' : Memory)
    (docs docs2 : Documents)
    → (src.id % 100000 == dest.id % 100000) ≡ false
    → IsServer n m docs
    → IsServer k m' docs2
    → Apart docs docs2
    → n + k < 2 ^ 32 - 1
    → Returns (transfer_files_multiple_srcs replicas src dest m m') (λ r.
      IsServer (n + k) r.1.0 (λ q. left_behind (moved_from_replica replicas src dest q) (docs q))
      × IsServer
          (n + k)
          r.1.1
          (λ q. arrived (moved_from_replica replicas src dest q) (docs q) (docs2 q))
      × Waiting r.1.0.task_queue [])
transfer_files_multiple_srcs-IsServer replicas src dest m m' docs docs2 other s d apart small =
    let (r, run, after) =
      walk-IsServer src.id (moved_from_replica replicas src dest) m m' docs docs2 s d apart small in
    (r, replicas_step replicas src dest m m' other ∙ run, after)
