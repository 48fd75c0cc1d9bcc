-- ===== src/Transfer/Walk.antt =====
-- The loop of `transfer_files` of skel/server.c over one bucket.
use mathlib.Core.Path.{subst}
use hashring_load_balancer.Base.{
  ℕ, ◌≡◌, refl, sym, ap, ◌∙◌, Bool, true, false, if◌then◌else◌, Bool-cases, inl, inr, Option, none,
  some, List, [], ◌∷◌, ok, Returns,
}
use hashring_load_balancer.HashMap.KeyFunctions.{◌≈◌}
use hashring_load_balancer.HashMap.Bucket.{find, Distinct}
use hashring_load_balancer.LruCache.Holds.{≈-sym, ≈-refl}
use hashring_load_balancer.Strings.{string_key}
use hashring_load_balancer.Server.{Text, Memory}
use hashring_load_balancer.Server.Holds.{Documents, edited}
use hashring_load_balancer.Transfer.{move_document, move_nodes}
use hashring_load_balancer.Transfer.Step.{
  removed, Stores, Kept, Kept-refl, Kept-trans, with_documents, some-absurd, move_document-Stores,
}

abbrev dropped : Bool → Text → Documents → Documents
dropped m name docs q = if m then removed docs name q else docs q

abbrev put : Bool → Text → Text → Documents → Documents
put m name content docs q = if m then edited docs name content q else docs q

-- The documents of the source and the destination behind the nodes.
abbrev pub kept : (Text → Bool) → List (Text × Text) → Documents → Documents
kept moves [] docs = docs
kept moves (e ∷ nodes) docs = kept moves nodes (dropped (moves e.0) e.0 docs)

abbrev pub gained : (Text → Bool) → List (Text × Text) → Documents → Documents
gained moves [] docs = docs
gained moves (e ∷ nodes) docs = gained moves nodes (put (moves e.0) e.0 e.1 docs)

-- The nodes are documents of the source, and not of the destination.
abbrev pub AllDocuments : Documents → Documents → List (Text × Text) → Type 0
AllDocuments docs docs2 [] = Unit
AllDocuments docs docs2 (e ∷ nodes) =
    (docs e.0 ≡ some e.1) × (docs2 e.0 ≡ none) × AllDocuments docs docs2 nodes

other_key :
    (k : Text) (e : Text × Text) (nodes : List (Text × Text))
    → find k (e ∷ nodes) ≡ none
    → ((k ≈ e.0) ≡ false) × (find k nodes ≡ none)
unfolding find
other_key k e nodes absent = elim (Bool-cases (e.0 ≈ k)) [
  | inl here ↦ absurd (some-absurd e.1 (rw here at absent))
  | inr there ↦ (≈-sym k e.0 ∙ there, rw there at absent)
]

dropped_other :
    (m : Bool) (name q : Text) (docs : Documents)
    → (name ≈ q) ≡ false
    → dropped m name docs q ≡ docs q
dropped_other true name q docs e = rw e refl
dropped_other false name q docs e = refl

put_other :
    (m : Bool) (name content q : Text) (docs : Documents)
    → (name ≈ q) ≡ false
    → put m name content docs q ≡ docs q
put_other true name content q docs e = rw e refl
put_other false name content q docs e = refl

behind-AllDocuments :
    (m : Bool) (name content : Text) (nodes : List (Text × Text)) (docs docs2 : Documents)
    → find name nodes ≡ none
    → AllDocuments docs docs2 nodes
    → AllDocuments (dropped m name docs) (put m name content docs2) nodes
behind-AllDocuments m name content [] docs docs2 absent all = tt
behind-AllDocuments m name content (e ∷ nodes) docs docs2 absent all =
    let (other, rest) = other_key name e nodes absent in
    (
      dropped_other m name e.0 docs other ∙ all.0,
      put_other m name content e.0 docs2 other ∙ all.1,
      behind-AllDocuments m name content nodes docs docs2 rest all.2,
    )

pub with_both :
    {total : ℕ} {src dest : Memory} {docs docs2 : Documents} (docs' docs2' : Documents)
    → Stores total src docs dest docs2
    → ((q : Text) → docs q ≡ docs' q)
    → ((q : Text) → docs2 q ≡ docs2' q)
    → Stores total src docs' dest docs2'
with_both docs' docs2' s same same2 = record {
  n = s.n;
  k = s.k;
  es = s.es;
  es2 = s.es2;
  bounded = s.bounded;
  small = s.small;
  src_store = with_documents docs' s.src_store same;
  dest_store = with_documents docs2' s.dest_store same2;
}

-- one node, whether or not it moves
move_one :
    {total : ℕ} (m : Bool) (src dest : Memory) (docs docs2 : Documents) (name content : Text)
    → Stores total src docs dest docs2
    → docs name ≡ some content
    → docs2 name ≡ none
    → Returns (if m then move_document src dest name content else ok (src, dest)) (λ r.
      Stores total r.0 (dropped m name docs) r.1 (put m name content docs2) × Kept src dest r)
move_one true src dest docs docs2 name content s at absent =
    move_document-Stores src dest docs docs2 name content s at absent
move_one false src dest docs docs2 name content s at absent =
    ((src, dest), refl, (s, Kept-refl src dest))

move_nodes_step :
    (moves : Text → Bool) (e : Text × Text) (nodes : List (Text × Text)) (src dest : Memory)
    (r rest : Memory × Memory)
    → (if moves e.0 then move_document src dest e.0 e.1 else ok (src, dest)) ≡ ok r
    → move_nodes moves nodes r.0 r.1 ≡ ok rest
    → move_nodes moves (e ∷ nodes) src dest ≡ ok rest
unfolding move_nodes
move_nodes_step moves e nodes src dest r rest run run2 = rw (run, run2) refl

pub move_nodes-Stores :
    {total : ℕ} (moves : Text → Bool) (nodes : List (Text × Text)) (src dest : Memory)
    (docs docs2 : Documents)
    → Stores total src docs dest docs2
    → Distinct nodes
    → AllDocuments docs docs2 nodes
    → Returns (move_nodes moves nodes src dest) (λ r.
      Stores total r.0 (kept moves nodes docs) r.1 (gained moves nodes docs2) × Kept src dest r)
unfolding move_nodes
move_nodes-Stores moves [] src dest docs docs2 s distinct all =
    ((src, dest), refl, (s, Kept-refl src dest))
move_nodes-Stores moves (e ∷ nodes) src dest docs docs2 s distinct all =
    let (r, run, (s1, kept1)) = move_one (moves e.0) src dest docs docs2 e.0 e.1 s all.0 all.1 in
    let (rest, run2, (s2, kept2)) =
      move_nodes-Stores moves nodes r.0 r.1 (dropped (moves e.0) e.0 docs)
        (put (moves e.0) e.0 e.1 docs2) s1 distinct.1
        (behind-AllDocuments (moves e.0) e.0 e.1 nodes docs docs2 distinct.0 all.2) in
    (
      rest,
      move_nodes_step moves e nodes src dest r rest run run2,
      (s2, Kept-trans src dest r rest kept1 kept2),
    )

-- What becomes of the content `d` of a document that the nodes give the content `o`.
abbrev pub kept_at : Bool → Option Text → Option Text → Option Text
kept_at m none d = d
kept_at m (some w) d = if m then none else d

abbrev pub gained_at : Bool → Option Text → Option Text → Option Text
gained_at m none d = d
gained_at m (some w) d = if m then some w else d

found_nowhere : (q : Text) → find {V = Text} q [] ≡ none
unfolding find
found_nowhere q = refl

pub found_first :
    (q : Text) (e : Text × Text) (nodes : List (Text × Text))
    → (e.0 ≈ q) ≡ true
    → find q (e ∷ nodes) ≡ some e.1
unfolding find
found_first q e nodes here = rw here refl

pub found_behind :
    (q : Text) (e : Text × Text) (nodes : List (Text × Text))
    → (e.0 ≈ q) ≡ false
    → find q (e ∷ nodes) ≡ find q nodes
unfolding find
found_behind q e nodes there = rw there refl

dropped_itself :
    (m : Bool) (name : Text) (docs : Documents)
    → dropped m name docs name ≡ (if m then none else docs name)
dropped_itself true name docs = rw (≈-refl name) refl
dropped_itself false name docs = refl

put_itself :
    (m : Bool) (name content : Text) (docs : Documents)
    → put m name content docs name ≡ (if m then some content else docs name)
put_itself true name content docs = rw (≈-refl name) refl
put_itself false name content docs = refl

pub kept_lem :
    (moves : Text → Bool) (nodes : List (Text × Text)) (docs : Documents) (q : Text)
    → Distinct nodes
    → kept moves nodes docs q ≡ kept_at (moves q) (find q nodes) (docs q)
kept_lem moves [] docs q distinct = ap (λ o. kept_at (moves q) o (docs q)) (sym (found_nowhere q))
kept_lem moves (e ∷ nodes) docs q distinct =
    let docs' : Documents = dropped (moves e.0) e.0 docs in
    elim (Bool-cases (e.0 ≈ q)) [
      | inl here ↦
          subst (λ k. kept moves nodes docs' k ≡ kept_at (moves k) (some e.1) (docs k))
            ((string_key.compare_iff e.0 q).0 here)
            (kept_lem moves nodes docs' e.0 distinct.1
              ∙ ap (λ o. kept_at (moves e.0) o (docs' e.0)) distinct.0
              ∙ dropped_itself (moves e.0) e.0 docs)
          ∙ ap (λ o. kept_at (moves q) o (docs q)) (sym (found_first q e nodes here))
      | inr there ↦
          kept_lem moves nodes docs' q distinct.1
          ∙ ap (kept_at (moves q) (find q nodes)) (dropped_other (moves e.0) e.0 q docs there)
          ∙ ap (λ o. kept_at (moves q) o (docs q)) (sym (found_behind q e nodes there))
    ]

pub gained_lem :
    (moves : Text → Bool) (nodes : List (Text × Text)) (docs : Documents) (q : Text)
    → Distinct nodes
    → gained moves nodes docs q ≡ gained_at (moves q) (find q nodes) (docs q)
gained_lem moves [] docs q distinct =
    ap (λ o. gained_at (moves q) o (docs q)) (sym (found_nowhere q))
gained_lem moves (e ∷ nodes) docs q distinct =
    let docs' : Documents = put (moves e.0) e.0 e.1 docs in
    elim (Bool-cases (e.0 ≈ q)) [
      | inl here ↦
          subst (λ k. gained moves nodes docs' k ≡ gained_at (moves k) (some e.1) (docs k))
            ((string_key.compare_iff e.0 q).0 here)
            (gained_lem moves nodes docs' e.0 distinct.1
              ∙ ap (λ o. gained_at (moves e.0) o (docs' e.0)) distinct.0
              ∙ put_itself (moves e.0) e.0 e.1 docs)
          ∙ ap (λ o. gained_at (moves q) o (docs q)) (sym (found_first q e nodes here))
      | inr there ↦
          gained_lem moves nodes docs' q distinct.1
          ∙ ap (gained_at (moves q) (find q nodes)) (put_other (moves e.0) e.0 e.1 q docs there)
          ∙ ap (λ o. gained_at (moves q) o (docs q)) (sym (found_behind q e nodes there))
    ]
