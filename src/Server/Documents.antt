-- ===== src/Server/Documents.antt =====
-- `server_edit_document` and `server_get_document` of skel/server.c against the documents.
use mathlib.Core.Path.{subst}
use hashring_load_balancer.Base.{
  ℕ, ◌+◌, ◌-◌, ◌^◌, ◌≤◌, ◌<◌, ◌≡◌, refl, sym, ap, ◌∙◌, Bool, Bool-cases, Option, Option-cases, inl,
  inr, none, some, length, ok, fault, out_of_bounds, Returns, arith,
}
use hashring_load_balancer.HashMap.KeyFunctions.{◌≈◌}
use hashring_load_balancer.HashMap.{HashMap, hm_get, hm_set}
use hashring_load_balancer.HashMap.Holds.{view, hm_get-view}
use hashring_load_balancer.HashMap.Methods.{grown, hm_set-Writes}
use hashring_load_balancer.LruCache.{LruCache, lru_cache_get, lru_cache_put}
use hashring_load_balancer.LruCache.Recency.{Entries, lookup, touched, stored}
use hashring_load_balancer.LruCache.Holds.{Represents, ≈-refl}
use hashring_load_balancer.LruCache.Use.{lru_cache_get-Represents}
use hashring_load_balancer.LruCache.Put.{lru_cache_put-Represents}
use hashring_load_balancer.Strings.{string_key}
use hashring_load_balancer.Server.{
  Text, Memory, Response, ServerResponse, msg_b, msg_c, document, null_document, log_hit, cache_log,
  edit_response, server_edit_document, response_size, printed_content, server_get_document,
  get_cached, get_local,
}
use hashring_load_balancer.Server.Holds.{
  Documents, edited, Coherent, touched-Coherent, stored-Coherent, IsStore, more-IsMap,
}

-- the cache after a lookup
abbrev pub used : Text → Entries Text Text → Entries Text Text
used name es = touched name (lookup name es) es

-- and after the lookup and a write
abbrev pub rewritten : ℕ → Text → Text → Entries Text Text → Entries Text Text
rewritten cap name content es = stored cap name content (lookup name (used name es)) (used name es)

abbrev pub edit_answer : Text → Option Text → ServerResponse
edit_answer name none = msg_c name
edit_answer name (some old) = msg_b name

abbrev pub get_answer : Option Text → ServerResponse
get_answer none = null_document
get_answer (some content) = document content

-- A cache that agrees with the documents does not change the answer to an edit.
edit_response_lem :
    (name : Text) (docs : Documents) (es : Entries Text Text)
    → Coherent es docs
    → edit_response name (lookup name es) (docs name) ≡ edit_answer name (docs name)
unfolding edit_response
edit_response_lem name docs es c = elim (Option-cases (lookup name es)) [
  | inl absent ↦ rw absent (missed (docs name))
  | inr (v, hit) ↦ rw (hit, c name v hit) refl
]
  where
    missed : (o : Option Text) → edit_response name none o ≡ edit_answer name o
    missed none = refl
    missed (some old) = refl

grown_bound : (n : ℕ) (o : Option Text) → grown n o ≤ n + 1
grown_bound n none = omega arith
grown_bound n (some old) = omega arith

edit_step :
    (m : Memory) (name content : Text) (got : Option Text × LruCache Text Text)
    (before : Option Text) (db : HashMap Text Text)
    (put : (Bool × Option Text) × LruCache Text Text)
    → lru_cache_get m.cache name ≡ ok got
    → hm_get m.local_db name ≡ ok before
    → hm_set m.local_db name content ≡ ok db
    → lru_cache_put got.1 name content ≡ ok put
    → server_edit_document m name content
      ≡ ok (
        record {
          server_id = none;
          server_log = cache_log name got.0 put.0.1;
          server_response = edit_response name got.0 before;
        },
        record m { local_db = db; cache = put.1 },
      )
unfolding server_edit_document
edit_step m name content got before db put e1 e2 e3 e4 = rw (e1, e2, e3, e4) refl

-- On a server with fewer than 2 ^ 32 - 2 documents, whose cache agrees with them, an edit does
-- not fault; the document then has the new content, the others theirs, the cache still agrees and
-- holds the document first, the queue is the same, and the answer tells whether the document is
-- new.
pub server_edit_document-IsStore :
    {n : ℕ} (m : Memory) (docs : Documents) (es : Entries Text Text) (name content : Text)
    → IsStore n m docs es
    → n < 2 ^ 32 - 2
    → Returns (server_edit_document m name content) (λ r.
      IsStore (n + 1) r.1 (edited docs name content) (rewritten m.cache.cap name content es)
      × (r.0.server_response ≡ edit_answer name (docs name))
      × (r.1.task_queue ≡ m.task_queue))
server_edit_document-IsStore {n} m docs es name content s small =
    let (got, run, (value, rep, cap)) = lru_cache_get-Represents m.cache es name s.cached in
    let before = hm_get-view m.local_db name s.is_map in
    let (db, run2, (writes, size)) = hm_set-Writes m.local_db name content s.is_map small in
    let (put, run3, (answer, rep2, cap2)) =
      lru_cache_put-Represents got.1 (used name es) name content rep (rw cap s.positive) in
    (
      (_, record m { local_db = db; cache = put.1 }),
      edit_step m name content got (docs name) db put run (before ∙ ap ok (s.reads name)) run2 run3,
      (
        record {
          is_map =
              more-IsMap (n + 1) writes.is_map (grown_bound n (view m.local_db name))
                (omega (arith, small));
          reads = λ q. writes.reads q ∙ rw (s.reads q) refl;
          cached =
              subst
                (λ c.
                  Represents put.1
                    (stored c name content (lookup name (used name es)) (used name es)))
                cap rep2;
          coherent =
              stored-Coherent m.cache.cap name content _ (used name es) docs
                (touched-Coherent name es docs s.coherent);
          positive = rw (cap2, cap) s.positive;
        },
        ap (λ o. edit_response name o (docs name)) value
            ∙ edit_response_lem name docs es s.coherent,
        refl,
      ),
    )

-- What a lookup leaves: the same documents, and the answer.
pub record Answers (n : ℕ) (m : Memory) (docs : Documents) (name : Text) (r : Response × Memory)
    : Type 0 where
  pub entries : Entries Text Text
  pub is_store : IsStore n r.1 docs entries
  pub answer : r.0.server_response ≡ get_answer (docs name)
  pub queue : r.1.task_queue ≡ m.task_queue

same_documents :
    (docs : Documents) (name content : Text) (q : Text)
    → docs name ≡ some content
    → edited docs name content q ≡ docs q
same_documents docs name content q e = elim (Bool-cases (name ≈ q)) [
  | inl here ↦ rw (here, ← (string_key.compare_iff name q).0 here) (sym e)
  | inr there ↦ rw there refl
]

-- A content, if there is one, is short enough for the buffer of a response.
abbrev pub Printable : Option Text → Type 0
Printable o = (w : Text) → o ≡ some w → length w < response_size

some_lem : {v w : Text} → some v ≡ some w → v ≡ w
some_lem h = ground arith

pub edited-Printable :
    (docs : Documents) (name content : Text)
    → length content < response_size
    → Printable (edited docs name content name)
edited-Printable docs name content short w e =
    let same : content ≡ w = some_lem (sym (rw (≈-refl name) refl) ∙ e) in rw (← same) short

fits :
    (content : Text)
    → length content < response_size
    → printed_content content ≡ ok (document content)
unfolding printed_content
fits content short = ground arith

overflows :
    (content : Text)
    → response_size ≤ length content
    → printed_content content ≡ fault out_of_bounds
unfolding printed_content
overflows content long = ground arith

-- the branch of a document that is only in the map
get_stored :
    {n : ℕ} (m : Memory) (docs : Documents) (es : Entries Text Text) (name content : Text)
    → IsStore n m docs es
    → docs name ≡ some content
    → length content < response_size
    → Returns (get_local m name (some content)) (Answers n m docs name)
unfolding get_local
get_stored m docs es name content s e short =
    let (put, run, (answer, rep, cap)) =
      lru_cache_put-Represents m.cache es name content s.cached s.positive in
    (
      (
        record {
          server_id = none;
          server_log = cache_log name none put.0.1;
          server_response = document content;
        },
        record m { cache = put.1 },
      ),
      rw (fits content short, run) refl,
      record {
        entries = stored m.cache.cap name content (lookup name es) es;
        is_store = record {
          is_map = s.is_map;
          reads = s.reads;
          cached = rep;
          coherent = λ q w h.
              sym (same_documents docs name content q e)
              ∙ stored-Coherent m.cache.cap name content (lookup name es) es docs s.coherent q w h;
          positive = rw cap s.positive;
        };
        answer = rw e refl;
        queue = refl;
      },
    )

-- the branch of a document that is not in the cache
get_missed :
    {n : ℕ} (id : ℕ) (m : Memory) (docs : Documents) (es : Entries Text Text) (name : Text)
    → IsStore n m docs es
    → Printable (docs name)
    → Returns (get_cached id m name none) (Answers n m docs name)
unfolding get_cached get_local
get_missed id m docs es name s short =
    let read : get_cached id m name none ≡ get_local m name (docs name) =
      rw (hm_get-view m.local_db name s.is_map) (ap (get_local m name) (s.reads name)) in
    elim (Option-cases (docs name)) [
      | inl absent ↦ (
        (_, m),
        read ∙ ap (get_local m name) absent,
        record { entries = es; is_store = s; answer = rw absent refl; queue = refl },
      )
      | inr (content, e) ↦
          let (r, run, answers) = get_stored m docs es name content s e (short content e) in
          (r, read ∙ ap (get_local m name) e ∙ run, answers)
    ]

get_step :
    (id : ℕ) (m : Memory) (name : Text) (got : Option Text × LruCache Text Text)
    → lru_cache_get m.cache name ≡ ok got
    → server_get_document id m name ≡ get_cached id (record m { cache = got.1 }) name got.0
unfolding server_get_document
get_step id m name got run = rw run refl

get_hit :
    (id : ℕ) (m : Memory) (name content : Text)
    → length content < response_size
    → get_cached id m name (some content)
      ≡ ok (
        record {
          server_id = some id;
          server_log = log_hit name;
          server_response = document content;
        },
        m,
      )
unfolding get_cached
get_hit id m name content short = rw (fits content short) refl

-- On a server whose cache agrees with its documents, a lookup does not fault and answers with the
-- content of the document, or that there is none, whether or not it is in the cache; documents
-- and queue stay the same, and the cache still agrees. The condition is that this content, if
-- there is one, is shorter than the 1000 bytes of the buffer of a response.
pub server_get_document-Answers :
    {n : ℕ} (id : ℕ) (m : Memory) (docs : Documents) (es : Entries Text Text) (name : Text)
    → IsStore n m docs es
    → Printable (docs name)
    → Returns (server_get_document id m name) (Answers n m docs name)
server_get_document-Answers id m docs es name s short =
    let (got, run, (value, rep, cap)) = lru_cache_get-Represents m.cache es name s.cached in
    let m1 : Memory = record m { cache = got.1 } in
    let s1 : IsStore _ m1 docs (used name es) = record {
      is_map = s.is_map;
      reads = s.reads;
      cached = rep;
      coherent = touched-Coherent name es docs s.coherent;
      positive = rw cap s.positive;
    } in
    elim (Option-cases (lookup name es)) [
      | inl absent ↦
          let (r, run2, a) = get_missed id m1 docs (used name es) name s1 short in
          (
            r,
            get_step id m name got run ∙ ap (get_cached id m1 name) (value ∙ absent) ∙ run2,
            record {
              entries = a.entries;
              is_store = a.is_store;
              answer = a.answer;
              queue = a.queue;
            },
          )
      | inr (content, hit) ↦ (
        (_, m1),
        get_step id m name got run
            ∙ ap (get_cached id m1 name) (value ∙ hit)
            ∙ get_hit id m1 name content (short content (s.coherent name content hit)),
        record {
          entries = used name es;
          is_store = s1;
          answer = rw (s.coherent name content hit) refl;
          queue = refl;
        },
      )
    ]

missed_overflows :
    (id : ℕ) (m : Memory) (name content : Text)
    → response_size ≤ length content
    → hm_get m.local_db name ≡ ok (some content)
    → get_cached id m name none ≡ fault out_of_bounds
unfolding get_cached get_local
missed_overflows id m name content long e = rw (e, overflows content long) refl

hit_overflows :
    (id : ℕ) (m : Memory) (name content : Text)
    → response_size ≤ length content
    → get_cached id m name (some content) ≡ fault out_of_bounds
unfolding get_cached
hit_overflows id m name content long = rw (overflows content long) refl

-- On a server whose cache agrees with its documents, a lookup of a document with a content of
-- 1000 bytes or more writes out of the bounds of the buffer of the response, whether or not it is
-- in the cache.
pub server_get_document-overflows :
    {n : ℕ} (id : ℕ) (m : Memory) (docs : Documents) (es : Entries Text Text) (name content : Text)
    → IsStore n m docs es
    → docs name ≡ some content
    → response_size ≤ length content
    → server_get_document id m name ≡ fault out_of_bounds
server_get_document-overflows id m docs es name content s e long =
    let (got, run, (value, rep, cap)) = lru_cache_get-Represents m.cache es name s.cached in
    let m1 : Memory = record m { cache = got.1 } in
    let step = get_step id m name got run in
    elim (Option-cases (lookup name es)) [
      | inl absent ↦
          step
          ∙ ap (get_cached id m1 name) (value ∙ absent)
          ∙ missed_overflows id m1 name content long
              (hm_get-view m.local_db name s.is_map ∙ ap ok (s.reads name ∙ e))
      | inr (v, hit) ↦
          let same : v ≡ content = some_lem (sym (s.coherent name v hit) ∙ e) in
          step
          ∙ ap (get_cached id m1 name) (value ∙ hit ∙ ap some same)
          ∙ hit_overflows id m1 name content long
    ]
