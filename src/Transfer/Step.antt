-- ===== src/Transfer/Step.antt =====
-- One document moves in `transfer_files` of skel/server.c.
use mathlib.Core.Path.{subst}
use hashring_load_balancer.Base.{
  ℕ, ◌+◌, ◌-◌, ◌^◌, ◌≤◌, ◌<◌, ◌≡◌, ◌≢◌, refl, sym, ap, ◌∙◌, false, if◌then◌else◌, Bool-cases, inl,
  inr, Option, none, some, List, [], ◌∷◌, length, ok, Returns, arith,
}
use hashring_load_balancer.HashMap.KeyFunctions.{Key, ◌≈◌}
use hashring_load_balancer.HashMap.{HashMap, hm_set, hm_remove}
use hashring_load_balancer.HashMap.Bucket.{find}
use hashring_load_balancer.HashMap.Holds.{IsMap, view, home, total-get_elem?}
use hashring_load_balancer.HashMap.Methods.{shrunk, grown, hm_set-Writes, hm_remove-Writes}
use hashring_load_balancer.DoublyLinkedList.Chain.{Nodes}
use hashring_load_balancer.LruCache.{LruCache, lru_cache_remove}
use hashring_load_balancer.LruCache.Recency.{Entries, lookup, without}
use hashring_load_balancer.LruCache.Holds.{contents, Represents, KeysApart, lookup-absent, ≈-sym}
use hashring_load_balancer.LruCache.Remove.{lru_cache_remove-Represents}
use hashring_load_balancer.Strings.{string_key}
use hashring_load_balancer.Server.{Text, Memory}
use hashring_load_balancer.Server.Holds.{Documents, edited, Coherent, IsStore, lookup-without}
use hashring_load_balancer.Transfer.{move_document}

abbrev pub removed : Documents → Text → Documents
removed docs name q = if name ≈ q then none else docs q

-- Two servers with their documents, at most `total` together.
pub record Stores (total : ℕ) (src : Memory) (docs : Documents) (dest : Memory) (docs2 : Documents)
    : Type 0 where
  pub n : ℕ
  pub k : ℕ
  pub es : Entries Text Text
  pub es2 : Entries Text Text
  pub bounded : n + k ≤ total
  pub small : total < 2 ^ 32 - 1
  pub src_store : IsStore n src docs es
  pub dest_store : IsStore k dest docs2 es2

-- What a move does not change.
pub record Kept (src dest : Memory) (r : Memory × Memory) : Type 0 where
  pub hmax : r.0.local_db.hmax ≡ src.local_db.hmax
  pub src_queue : r.0.task_queue ≡ src.task_queue
  pub dest_queue : r.1.task_queue ≡ dest.task_queue

pub Kept-refl : (src dest : Memory) → Kept src dest (src, dest)
Kept-refl src dest = record { hmax = refl; src_queue = refl; dest_queue = refl }

pub Kept-trans :
    (src dest : Memory) (r rest : Memory × Memory)
    → Kept src dest r
    → Kept r.0 r.1 rest
    → Kept src dest rest
Kept-trans src dest r rest a b = record {
  hmax = b.hmax ∙ a.hmax;
  src_queue = b.src_queue ∙ a.src_queue;
  dest_queue = b.dest_queue ∙ a.dest_queue;
}

pub some-absurd : {A : Type 0} (a : A) → some a ≢ none
some-absurd a e = cc

pub with_documents :
    {n : ℕ} {m : Memory} {docs : Documents} (docs' : Documents) {es : Entries Text Text}
    → IsStore n m docs es
    → ((q : Text) → docs q ≡ docs' q)
    → IsStore n m docs' es
with_documents docs' s same = record {
  is_map = s.is_map;
  reads = λ q. s.reads q ∙ same q;
  cached = s.cached;
  coherent = λ q w e. sym (same q) ∙ s.coherent q w e;
  positive = s.positive;
}

module _ {K V : Type 0} ⦃key : Key K⦄ where
  without_itself :
      (k : K) (xs : Nodes (K × V)) → KeysApart xs → lookup k (without k (contents xs)) ≡ none
  without_itself k [] apart = refl
  without_itself k (x ∷ xs) apart = elim (Bool-cases (k ≈ x.1.0)) [
    | inl here ↦ rw (here, (key.compare_iff k x.1.0).0 here) (lookup-absent x.1.0 xs apart.0)
    | inr there ↦ rw (there, there) (without_itself k xs apart.1)
  ]

  found_length : (k : K) (v : V) (nodes : List (K × V)) → find k nodes ≡ some v → 0 < length nodes
  unfolding find
  found_length k v [] e = cc
  found_length k v (x ∷ nodes) e = omega arith

  some_less :
      {n : ℕ} (map : HashMap K V) (k : K) (v : V) → IsMap n map → view map k ≡ some v → 0 < n
  some_less map k v m e =
      let (list, h) = home map k m.positive m.width in
      let some_node = found_length k v list.nodes (sym h.viewed ∙ e) in
      omega (arith, total-get_elem? map.buckets _ list h.entry, m.entries)

removed-Coherent :
    {m : LruCache Text Text} (name : Text) (es : Entries Text Text) (docs : Documents)
    → Represents m es
    → Coherent es docs
    → Coherent (without name es) (removed docs name)
removed-Coherent name es docs r c q w e = elim (Bool-cases (name ≈ q)) [
  | inl here ↦
      let same : name ≡ q = (string_key.compare_iff name q).0 here in
      let gone : lookup name (without name es) ≡ none =
        ap (λ l. lookup name (without name l)) (sym r.entries)
        ∙ without_itself name r.nodes r.is_cache.keys_apart in
      absurd (some-absurd w (sym e ∙ ap (λ k. lookup k (without name es)) (sym same) ∙ gone))
  | inr there ↦
      let other : (q ≈ name) ≡ false = ≈-sym q name ∙ there in
      rw there (c q w (sym (lookup-without q name es other) ∙ e))
]

edited-Coherent :
    (name content : Text) (es : Entries Text Text) (docs : Documents)
    → Coherent es docs
    → docs name ≡ none
    → Coherent es (edited docs name content)
edited-Coherent name content es docs c absent q w e = elim (Bool-cases (name ≈ q)) [
  | inl here ↦
      let same : name ≡ q = (string_key.compare_iff name q).0 here in
      absurd (some-absurd w (sym (c q w e) ∙ ap docs (sym same) ∙ absent))
  | inr there ↦ rw there (c q w e)
]

move_step :
    (src dest : Memory) (name content : Text) (db : HashMap Text Text)
    (rest : Option (Text × Text) × HashMap Text Text) (cache : LruCache Text Text)
    → hm_set dest.local_db name content ≡ ok db
    → hm_remove src.local_db name ≡ ok rest
    → lru_cache_remove src.cache name ≡ ok cache
    → move_document src dest name content
      ≡ ok (record src { local_db = rest.1; cache = cache }, record dest { local_db = db })
unfolding move_document
move_step src dest name content db rest cache e1 e2 e3 = rw (e1, e2, e3) refl

-- The document is at the destination, and no longer at the source.
pub move_document-Stores :
    {total : ℕ} (src dest : Memory) (docs docs2 : Documents) (name content : Text)
    → Stores total src docs dest docs2
    → docs name ≡ some content
    → docs2 name ≡ none
    → Returns (move_document src dest name content) (λ r.
      Stores total r.0 (removed docs name) r.1 (edited docs2 name content) × Kept src dest r)
move_document-Stores {total} src dest docs docs2 name content s at absent =
    let a = s.src_store in
    let b = s.dest_store in
    let present : view src.local_db name ≡ some content = a.reads name ∙ at in
    let less = some_less src.local_db name content a.is_map present in
    let (db, run1, (writes, size_is)) =
      hm_set-Writes dest.local_db name content b.is_map (omega (arith, s.bounded, s.small)) in
    let (rest, run2, (value, taken)) = hm_remove-Writes src.local_db name a.is_map in
    let (cache, run3, (rep, cap)) = lru_cache_remove-Represents src.cache s.es name a.cached in
    (
      (record src { local_db = rest.1; cache = cache }, record dest { local_db = db }),
      move_step src dest name content db rest cache run1 run2 run3,
      (
        record {
          n = s.n - 1;
          k = s.k + 1;
          es = without name s.es;
          es2 = s.es2;
          bounded = omega (arith, s.bounded);
          small = s.small;
          src_store = record {
            is_map = subst (λ o. IsMap (shrunk s.n o) rest.1) present taken.is_map;
            reads = λ q. taken.reads q ∙ rw (a.reads q) refl;
            cached = rep;
            coherent = removed-Coherent name s.es docs a.cached a.coherent;
            positive = rw cap a.positive;
          };
          dest_store = record {
            is_map = subst (λ o. IsMap (grown s.k o) db) (b.reads name ∙ absent) writes.is_map;
            reads = λ q. writes.reads q ∙ rw (b.reads q) refl;
            cached = b.cached;
            coherent = edited-Coherent name content s.es2 docs2 b.coherent absent;
            positive = b.positive;
          };
        },
        record { hmax = taken.hmax; src_queue = refl; dest_queue = refl },
      ),
    )
