-- ===== src/Server/Requests.antt =====
-- `solve_queue` and `server_handle_request` of skel/server.c: edits wait in the queue, and a lookup
-- answers as if they had been made at once.
use mathlib.Core.Path.{subst}
use hashring_load_balancer.Base.{
  ℕ, zero, suc, ◌+◌, ◌-◌, ◌^◌, ◌≤◌, ◌<◌, ◌≡◌, refl, sym, ap, ◌∙◌, false, ◌==◌, some, List, [], ◌∷◌,
  ◌++◌, length, map, ok, Returns, arith,
}
use hashring_load_balancer.LruCache.Recency.{Entries}
use hashring_load_balancer.Strings.{string_key}
use hashring_load_balancer.Queue.{Queue, q_pop}
use hashring_load_balancer.Queue.Fifo.{Waiting, q_pop-cons}
use hashring_load_balancer.Server.{
  Text, Request, Memory, Response, Line, ServerResponse, line, server_edit_document, solve_task,
  solve_loop,
}
use hashring_load_balancer.Server.Holds.{Documents, edited, IsStore, more-IsMap}
use hashring_load_balancer.Server.Documents.{edit_answer, rewritten, server_edit_document-IsStore}

-- the documents after the waiting edits, first in front
abbrev pub after_all : Documents → List Request → Documents
after_all docs [] = docs
after_all docs (t ∷ tasks) = after_all (edited docs t.doc_name t.doc_content) tasks

abbrev pub answers : Documents → List Request → List ServerResponse
answers docs [] = []
answers docs (t ∷ tasks) =
    edit_answer t.doc_name (docs t.doc_name) ∷ answers (edited docs t.doc_name t.doc_content) tasks

abbrev pub responses : List Line → List ServerResponse
responses = map (λ r. r.server_response)

pub after_all-append :
    (docs : Documents) (tasks : List Request) (t : Request)
    → after_all docs (tasks ++ t ∷ []) ≡ edited (after_all docs tasks) t.doc_name t.doc_content
after_all-append docs [] t = refl
after_all-append docs (u ∷ tasks) t =
    after_all-append (edited docs u.doc_name u.doc_content) tasks t

nonempty : (s n : ℕ) → s ≡ suc n → (s == 0) ≡ false
nonempty s n e = ground (arith, e)

cons_cong : {A : Type 0} {x y : A} {xs ys : List A} → x ≡ y → xs ≡ ys → x ∷ xs ≡ y ∷ ys
cons_cong e f = rw (e, f) refl

solve_step :
    (id fuel : ℕ) (m : Memory) (t : Request) (queue : Queue Request) (r : Response × Memory)
    (rest : List Line × Memory)
    → (m.task_queue.size == 0) ≡ false
    → q_pop m.task_queue ≡ ok (some t, queue)
    → server_edit_document (record m { task_queue = queue }) t.doc_name t.doc_content ≡ ok r
    → solve_loop id fuel false r.1 ≡ ok rest
    → solve_loop id (suc fuel) false m ≡ ok (line id r.0 ∷ rest.0, rest.1)
unfolding solve_loop solve_task
solve_step id fuel m t queue r rest more popped run run2 =
    rw (solve_loop, more, popped, run, run2) refl

solve_end : (id : ℕ) (m : Memory) → m.task_queue.size ≡ 0 → solve_loop id zero false m ≡ ok ([], m)
unfolding solve_loop
solve_end id m e = ground (arith, e)

-- What the loop leaves and prints.
pub record Solved (n : ℕ) (docs : Documents) (tasks : List Request) (r : List Line × Memory)
    : Type 0 where
  pub entries : Entries Text Text
  pub is_store : IsStore n r.1 (after_all docs tasks) entries
  pub empty : Waiting r.1.task_queue []
  pub printed : responses r.0 ≡ answers docs tasks

more-IsStore :
    {n : ℕ} (n' : ℕ) (m : Memory) (docs : Documents) (es : Entries Text Text)
    → IsStore n m docs es
    → n ≤ n'
    → n' < 2 ^ 32 - 1
    → IsStore n' m docs es
more-IsStore n' m docs es s more small = record {
  is_map = more-IsMap n' s.is_map more small;
  reads = s.reads;
  cached = s.cached;
  coherent = s.coherent;
  positive = s.positive;
}

pub with_queue :
    {n : ℕ} (m : Memory) (docs : Documents) (es : Entries Text Text) (queue : Queue Request)
    → IsStore n m docs es
    → IsStore n (record m { task_queue = queue }) docs es
with_queue m docs es queue s = record {
  is_map = s.is_map;
  reads = s.reads;
  cached = s.cached;
  coherent = s.coherent;
  positive = s.positive;
}

-- `n` bounds the documents and the waiting edits together.
pub solve_loop-Solved :
    (id n n' : ℕ) (m : Memory) (docs : Documents) (tasks : List Request) (es : Entries Text Text)
    → IsStore n m docs es
    → Waiting m.task_queue tasks
    → n + length tasks ≤ n'
    → n' < 2 ^ 32 - 1
    → Returns (solve_loop id (length tasks) false m) (Solved n' docs tasks)
solve_loop-Solved id n n' m docs [] es s w more small = (
  ([], m),
  solve_end id m w.size,
  record {
    entries = es;
    is_store = more-IsStore n' m docs es s (omega arith) small;
    empty = w;
    printed = refl;
  },
)
solve_loop-Solved id n n' m docs (t ∷ tasks) es s w more small =
    let (popped, run, (first_is, w1)) = q_pop-cons w in
    let m1 : Memory = record m { task_queue = popped.1 } in
    let (r, run2, (s2, answer, queue)) =
      server_edit_document-IsStore m1 docs es t.doc_name t.doc_content
        (with_queue m docs es popped.1 s) (omega arith) in
    let (rest, run3, solved) =
      solve_loop-Solved id (n + 1) n' r.1 (edited docs t.doc_name t.doc_content) tasks
        (rewritten m.cache.cap t.doc_name t.doc_content es) s2
        (subst (λ q. Waiting q tasks) (sym queue) w1) (omega arith) small in
    (
      (line id r.0 ∷ rest.0, rest.1),
      solve_step id (length tasks) m t popped.1 r rest
          (nonempty m.task_queue.size (length tasks) w.size)
          (run ∙ ap (λ o. ok (o, popped.1)) first_is) run2 run3,
      record {
        entries = solved.entries;
        is_store = solved.is_store;
        empty = solved.empty;
        printed = cons_cong answer solved.printed;
      },
    )
