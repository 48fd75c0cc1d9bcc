-- ===== src/Transfer/Homes.antt =====
-- What one bucket gives to the loop of `transfer_files` of skel/server.c, document by document.
use hashring_load_balancer.Base.{
  ℕ, ◌+◌, ◌%◌, ◌<◌, ◌≡◌, ◌≢◌, refl, sym, ap, ◌∙◌, Bool, true, false, ◌&&◌, ◌||◌, ◌==◌, leb,
  if◌then◌else◌, Bool-cases, inl, inr, Option, none, some, List, [], ◌∷◌, get_elem?, arith,
}
use hashring_load_balancer.HashMap.KeyFunctions.{◌≈◌}
use hashring_load_balancer.HashMap.Bucket.{find, Distinct, AllKeys}
use hashring_load_balancer.HashMap.Holds.{view, find_in}
use hashring_load_balancer.Hash.{hash_string}
use hashring_load_balancer.LinkedList.{LinkedList}
use hashring_load_balancer.LruCache.Recency.{Entries}
use hashring_load_balancer.LruCache.Holds.{≈-refl}
use hashring_load_balancer.Strings.{string_key}
use hashring_load_balancer.Server.{Text, Memory}
use hashring_load_balancer.Server.Holds.{Documents, IsStore}
use hashring_load_balancer.Transfer.Step.{some-absurd}
use hashring_load_balancer.Transfer.Walk.{
  AllDocuments, kept, gained, kept_at, gained_at, kept_lem, gained_lem, found_first, found_behind,
}

-- No document is on both servers.
abbrev pub Apart : Documents → Documents → Type 0
Apart docs docs2 = (q w : Text) → docs q ≡ some w → docs2 q ≡ none

-- What has become of a document: `m` tells whether it moves.
abbrev pub left_behind : Bool → Option Text → Option Text
left_behind m d = if m then none else d

abbrev pub arrived : Bool → Option Text → Option Text → Option Text
arrived m d d2 = gained_at m d d2

-- whether the home bucket is still to come, and the document moves
abbrev pub coming : ℕ → ℕ → (Text → Bool) → Text → Bool
coming i hmax moves q = leb i (hash_string q % hmax) && moves q

equal_lem : (a b : ℕ) → (a == b) ≡ true → a ≡ b
equal_lem a b e = ground arith

unequal_lem : (a b : ℕ) → (a == b) ≡ false → a ≢ b
unequal_lem a b e same = ground arith

-- The nodes of a bucket are documents of the source.
pub nodes-AllDocuments :
    (nodes : List (Text × Text)) (docs docs2 : Documents)
    → ((q w : Text) → find q nodes ≡ some w → docs q ≡ some w)
    → Distinct nodes
    → Apart docs docs2
    → AllDocuments docs docs2 nodes
nodes-AllDocuments [] docs docs2 reads distinct apart = tt
nodes-AllDocuments (e ∷ nodes) docs docs2 reads distinct apart =
    let at : docs e.0 ≡ some e.1 = reads e.0 e.1 (found_first e.0 e nodes (≈-refl e.0)) in
    (
      at,
      apart e.0 e.1 at,
      nodes-AllDocuments nodes docs docs2
          (λ q w h. reads q w (found_behind q e nodes (elsewhere q w h) ∙ h)) distinct.1 apart,
    )
  where
    elsewhere : (q w : Text) → find q nodes ≡ some w → (e.0 ≈ q) ≡ false
    elsewhere q w h = elim (Bool-cases (e.0 ≈ q)) [
      | inl here ↦
          let same : e.0 ≡ q = (string_key.compare_iff e.0 q).0 here in
          absurd (some-absurd w (sym h ∙ ap (λ k. find k nodes) (sym same) ∙ distinct.0))
      | inr there ↦ there
    ]

placed_elsewhere :
    (hmax i : ℕ) (q : Text) (nodes : List (Text × Text))
    → AllKeys (λ k. hash_string k % hmax ≡ i) nodes
    → hash_string q % hmax ≢ i
    → find q nodes ≡ none
unfolding find
placed_elsewhere hmax i q [] placed other = refl
placed_elsewhere hmax i q (e ∷ nodes) placed other = elim (Bool-cases (e.0 ≈ q)) [
  | inl here ↦
      let same : e.0 ≡ q = (string_key.compare_iff e.0 q).0 here in
      absurd (other (ap (λ k. hash_string k % hmax) (sym same) ∙ placed.0))
  | inr there ↦ rw there (placed_elsewhere hmax i q nodes placed.1 other)
]

view_at :
    (m : Memory) (list : LinkedList (Text × Text)) (q : Text)
    → get_elem? m.local_db.buckets (hash_string q % m.local_db.hmax) ≡ some list
    → view m.local_db q ≡ find q list.nodes
unfolding view find_in
view_at m list q e = rw e refl

-- What a bucket gives a document: its content, if the bucket is its home.
pub bucket_find :
    {n : ℕ} (m : Memory) (docs : Documents) (es : Entries Text Text) (i : ℕ)
    (list : LinkedList (Text × Text)) (q : Text)
    → IsStore n m docs es
    → get_elem? m.local_db.buckets i ≡ some list
    → find q list.nodes ≡ (if hash_string q % m.local_db.hmax == i then docs q else none)
bucket_find m docs es i list q s at = elim (Bool-cases (hash_string q % m.local_db.hmax == i)) [
  | inl here ↦
      let home_is : hash_string q % m.local_db.hmax ≡ i = equal_lem _ i here in
      rw here (sym (view_at m list q (ap (get_elem? m.local_db.buckets) home_is ∙ at)) ∙ s.reads q)
  | inr there ↦ rw there (
      placed_elsewhere m.local_db.hmax i q list.nodes (s.is_map.each i list at).placed
        (unequal_lem _ i there))
]

kept_here :
    (m b : Bool) (d : Option Text) → kept_at m (if b then d else none) d ≡ left_behind (b && m) d
kept_here m false d = refl
kept_here true true none = refl
kept_here false true none = refl
kept_here true true (some v) = refl
kept_here false true (some v) = refl

pub gained_none : (d d2 : Option Text) → gained_at false d d2 ≡ d2
gained_none none d2 = refl
gained_none (some v) d2 = refl

gained_here :
    (m b : Bool) (d d2 : Option Text)
    → gained_at m (if b then d else none) d2 ≡ gained_at (b && m) d d2
gained_here m true d d2 = refl
gained_here m false d d2 = sym (gained_none d d2)

pub left_twice :
    (c b : Bool) (d : Option Text) → left_behind c (left_behind b d) ≡ left_behind (c || b) d
left_twice true b d = refl
left_twice false b d = refl

pub arrived_twice :
    (c b : Bool) (d d2 : Option Text)
    → gained_at c (left_behind b d) (gained_at b d d2) ≡ gained_at (c || b) d d2
arrived_twice true true d d2 = refl
arrived_twice false true d d2 = refl
arrived_twice true false d d2 = ap (gained_at true d) (gained_none d d2)
arrived_twice false false d d2 = ap (gained_at false d) (gained_none d d2)

pub apart_after :
    (b : Bool) (d d2 : Option Text)
    → ((w : Text) → d ≡ some w → d2 ≡ none)
    → (w : Text) → left_behind b d ≡ some w
    → gained_at b d d2 ≡ none
apart_after true d d2 apart w e = absurd (some-absurd w (sym e))
apart_after false d d2 apart w e = gained_none d d2 ∙ apart w e

next_coming :
    (i home : ℕ) (m : Bool) → (leb (i + 1) home && m || (home == i) && m) ≡ (leb i home && m)
next_coming i home true = ground arith
next_coming i home false = ground arith

pub step_coming :
    (i h s hmax : ℕ) (m : Bool)
    → s ≡ hmax
    → (leb (i + 1) (h % hmax) && m || (h % s == i) && m) ≡ (leb i (h % hmax) && m)
step_coming i h s hmax m e = rw e (next_coming i (h % hmax) m)

pub end_coming :
    (i h hmax : ℕ) (m : Bool) → 0 + i ≡ hmax → 0 < hmax → (leb i (h % hmax) && m) ≡ false
end_coming i h hmax m end positive =
    let less : h % hmax < hmax = omega arith in
    let past : leb i (h % hmax) ≡ false = ground arith in rw past refl

pub pos_of : {a b : ℕ} → a ≡ b → 0 < a → 0 < b
pos_of e p = omega arith

-- what one bucket leaves, document by document
pub one_kept :
    {n : ℕ} (moves : Text → Bool) (i : ℕ) (m : Memory) (docs : Documents) (es : Entries Text Text)
    (list : LinkedList (Text × Text))
    → IsStore n m docs es
    → get_elem? m.local_db.buckets i ≡ some list
    → Distinct list.nodes
    → (q : Text)
    → kept moves list.nodes docs q
      ≡ left_behind (hash_string q % m.local_db.hmax == i && moves q) (docs q)
one_kept moves i m docs es list s at distinct q =
    kept_lem moves list.nodes docs q distinct
    ∙ ap (λ o. kept_at (moves q) o (docs q)) (bucket_find m docs es i list q s at)
    ∙ kept_here (moves q) (hash_string q % m.local_db.hmax == i) (docs q)

pub one_gained :
    {n : ℕ} (moves : Text → Bool) (i : ℕ) (m : Memory) (docs docs2 : Documents)
    (es : Entries Text Text) (list : LinkedList (Text × Text))
    → IsStore n m docs es
    → get_elem? m.local_db.buckets i ≡ some list
    → Distinct list.nodes
    → (q : Text)
    → gained moves list.nodes docs2 q
      ≡ arrived (hash_string q % m.local_db.hmax == i && moves q) (docs q) (docs2 q)
one_gained moves i m docs docs2 es list s at distinct q =
    gained_lem moves list.nodes docs2 q distinct
    ∙ ap (λ o. gained_at (moves q) o (docs2 q)) (bucket_find m docs es i list q s at)
    ∙ gained_here (moves q) (hash_string q % m.local_db.hmax == i) (docs q) (docs2 q)
