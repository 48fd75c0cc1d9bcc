-- ===== src/Transfer/Owners.antt =====
-- The replicas that `pick_src` of skel/server.c picks own the documents, and what
-- `transfer_files_multiple_srcs` moves to a replica that joins the ring is what it then owns.
use mathlib.Core.Path.{subst}
use mathlib.Core.Option.{some-injective}
use native.Mathlib.Decide.{dec_lt}
use hashring_load_balancer.Base.{
  ℕ, ◌+◌, ◌-◌, ◌%◌, ◌^◌, ◌≤◌, ◌<◌, ◌≡◌, ◌≢◌, refl, sym, ap, ◌∙◌, true, false, ◌&&◌, ◌==◌, ltb,
  if◌then◌else◌, inl, inr, ◌⊎◌, none, some, List, [], ◌∷◌, length, get_elem?, insert_at,
  get_elem?_bound, arith,
}
use hashring_load_balancer.ArrayList.Search.{Splits}
use hashring_load_balancer.Hash.{hash_uint, hash_string, word}
use hashring_load_balancer.Hash.Injective.{hash_uint_injective, hash_uint-lt, hash_string-lt}
use hashring_load_balancer.Ring
use hashring_load_balancer.Ring.{should_move}
use hashring_load_balancer.Ring.Owner.{
  place, IsRing, reaches, owner, rank, rank-Splits, owner-Splits,
}
use hashring_load_balancer.Ring.Joining.{Joins, owner_joined}
use hashring_load_balancer.Ring.Leaving.{owner-member}
use hashring_load_balancer.Server.{Text}
use hashring_load_balancer.Transfer.Pick.{Replica, pick_src}
use hashring_load_balancer.Transfer.Nearest.{ahead, AllPlaced, AllBehind, OneOf, pick_src-nearest}
use hashring_load_balancer.Transfer.Replicas.{hashed, moved_from_replica}

-- The servers of a list are on the ring.
abbrev pub AllOn : List Ring.Server → List Ring.Server → Type 0
AllOn ring [] = Unit
AllOn ring (r ∷ replicas) = ((i : ℕ) × (get_elem? ring i ≡ some r)) × AllOn ring replicas

abbrev pub Among : Ring.Server → List Ring.Server → Type 0
Among o [] = false ≡ true
Among o (r ∷ replicas) = (o ≡ r) ⊎ Among o replicas

-- No replica stands at the hash.
abbrev pub NoneAt : ℕ → List Ring.Server → Type 0
NoneAt h [] = Unit
NoneAt h (r ∷ replicas) = (place r ≢ h) × NoneAt h replicas

ahead_after : (h p : ℕ) → h ≤ p → p < 2 ^ 32 → ahead h p ≡ p - h
ahead_after h p less p32 = omega arith

ahead_before : (h p : ℕ) → p < h → h < 2 ^ 32 → ahead h p ≡ p + 2 ^ 32 - h
ahead_before h p less h32 = omega arith

nearer :
    (h p q : ℕ)
    → h < 2 ^ 32
    → p < 2 ^ 32
    → q < 2 ^ 32
    → (h ≤ p) × ((q < h) ⊎ (p ≤ q)) ⊎ (q < h) × (p ≤ q)
    → ahead h p ≤ ahead h q
nearer h p q h32 p32 q32 (inl (hp, inl qh)) =
    rw (ahead_after h p hp p32, ahead_before h q qh h32) (omega arith)
nearer h p q h32 p32 q32 (inl (hp, inr pq)) =
    rw (ahead_after h p hp p32, ahead_after h q (omega arith) q32) (omega arith)
nearer h p q h32 p32 q32 (inr (qh, pq)) =
    rw (ahead_before h p (omega arith) h32, ahead_before h q qh h32) (omega arith)

ahead_injective : (h p q : ℕ) → h < 2 ^ 32 → p < 2 ^ 32 → q < 2 ^ 32 → ahead h p ≡ ahead h q → p ≡ q
ahead_injective h p q h32 p32 q32 e = omega arith

module _ {xs : List Ring.Server} (ring : IsRing xs)
    (small : (i : ℕ) (s : Ring.Server) → get_elem? xs i ≡ some s → s.id < word) (h : ℕ)
    (h32 : h < 2 ^ 32) where
  place_small : (i : ℕ) (s : Ring.Server) → get_elem? xs i ≡ some s → place s < 2 ^ 32
  place_small i s e = hash_uint-lt s.id (small i s e)

  -- where the owner stands against every other server
  owner_first :
      (r i : ℕ) (o t : Ring.Server)
      → Splits (reaches h) xs r
      → get_elem? xs (if ltb r (length xs) then r else 0) ≡ some o
      → get_elem? xs i ≡ some t
      → (h ≤ place o) × ((place t < h) ⊎ (place o ≤ place t)) ⊎ (place t < h) × (place o ≤ place t)
  unfolding reaches
  owner_first r i o t split e f = elim (dec_lt r (length xs)) [
    | yes inner ↦
        let at : get_elem? xs r ≡ some o = ground (arith, inner, e) in
        inl (
          ground (arith, split.above r o (omega arith) at),
          (elim (dec_lt i r) [
            | yes before ↦ inl (ground (arith, split.below i t before f))
            | no behind ↦ inr (weakly r i o t (omega arith) at f)
          ]),
        )
    | no outer ↦
        let at : get_elem? xs 0 ≡ some o = ground (arith, outer, e) in
        let before : i < r = omega (arith, get_elem?_bound xs i f, split.inside) in
        inr (ground (arith, split.below i t before f), weakly 0 i o t (omega arith) at f)
  ]
    where
      weakly :
          (j k : ℕ) (u v : Ring.Server)
          → j ≤ k
          → get_elem? xs j ≡ some u
          → get_elem? xs k ≡ some v
          → place u ≤ place v
      weakly j k u v le at at' = ground (arith, ring.ordered j k u v)

  -- The owner of a hash is the nearest server, going round the ring.
  pub owner-nearest :
      (o t : Ring.Server) (i : ℕ)
      → owner h xs ≡ some o
      → get_elem? xs i ≡ some t
      → ahead h (place o) ≤ ahead h (place t)
  owner-nearest o t i own f =
      let r = rank h xs in
      let split = rank-Splits h xs ring in
      let at = sym (owner-Splits h xs r split) ∙ own in
      let (l, o_at) = owner-member h ring own in
      nearer h (place o) (place t) h32 (place_small l o o_at) (place_small i t f)
        (owner_first r i o t split at f)

  placed-hashed :
      (replicas : List Ring.Server)
      → AllOn xs replicas
      → NoneAt h replicas
      → AllPlaced h (hashed replicas)
  unfolding hashed
  placed-hashed [] on away = tt
  placed-hashed (r ∷ replicas) (at, on) (other, away) =
      (place_small at.0 r at.1, other, placed-hashed replicas on away)

  -- A picked replica is on the ring, with its place,
  picked_on :
      (replicas : List Ring.Server) (r : Replica)
      → AllOn xs replicas
      → OneOf r (hashed replicas)
      → (i : ℕ) × (get_elem? xs i ≡ some r.0) × (r ≡ (r.0, place r.0))
  unfolding hashed
  picked_on (x ∷ replicas) r (at, on) (inl same) = (
    at.0,
    at.1 ∙ ap (λ (y : Replica). some y.0) (sym same),
    same ∙ ap (λ (y : Replica). (y.0, place y.0)) (sym same),
  )
  picked_on (x ∷ replicas) r (at, on) (inr one) = picked_on replicas r on one
  picked_on [] r on one = cc

  -- and no replica is nearer.
  not_nearer :
      (replicas : List Ring.Server) (r : Replica) (o : Ring.Server)
      → AllBehind h r (hashed replicas)
      → Among o replicas
      → ahead h r.1 ≤ ahead h (place o)
  unfolding hashed
  not_nearer (x ∷ replicas) r o (near, behind) (inl same) = rw same near
  not_nearer (x ∷ replicas) r o (near, behind) (inr one) = not_nearer replicas r o behind one
  not_nearer [] r o behind one = cc

  same_server :
      (i j : ℕ) (s t : Ring.Server)
      → get_elem? xs i ≡ some s
      → get_elem? xs j ≡ some t
      → place s ≡ place t
      → s ≡ t
  same_server i j s t e f same =
      let index : i ≡ j = ground (arith, ring.ordered i j s t, ring.ordered j i t s) in
      some-injective s t (sym e ∙ ap (get_elem? xs) index ∙ f)

  -- If the owner of a hash is one of some replicas on the ring, pick_src picks it.
  pub pick_src-owner :
      (x : Ring.Server) (replicas : List Ring.Server) (o : Ring.Server)
      → AllOn xs (x ∷ replicas)
      → NoneAt h (x ∷ replicas)
      → Among o (x ∷ replicas)
      → owner h xs ≡ some o
      → pick_src h (hashed (x ∷ replicas)) none ≡ some (o, place o)
  unfolding hashed
  pick_src-owner x replicas o on away one own =
      let (r, run, among, behind) =
        pick_src-nearest h (x, place x) (hashed replicas) h32
          (placed-hashed (x ∷ replicas) on away) in
      let (i, at, pair) = picked_on (x ∷ replicas) r on among in
      let (l, o_at) = owner-member h ring own in
      let near : ahead h r.1 ≤ ahead h (place o) = not_nearer (x ∷ replicas) r o behind one in
      let near' : ahead h (place r.0) ≤ ahead h (place o) =
        subst (λ (y : Replica). ahead h y.1 ≤ ahead h (place o)) pair near in
      let places =
        ahead_injective h (place r.0) (place o) h32 (place_small i r.0 at) (place_small l o o_at)
          (omega (arith, near', owner-nearest o r.0 i own at)) in
      let same : r.0 ≡ o = same_server i l r.0 o at o_at places in
      run ∙ ap some (pair ∙ ap (λ (s : Ring.Server). (s, place s)) same)

moved_step :
    (x : Ring.Server) (replicas : List Ring.Server) (src dest o : Ring.Server) (q : Text)
    → pick_src (hash_string q) (hashed (x ∷ replicas)) none ≡ some (o, place o)
    → moved_from_replica (x ∷ replicas) src dest q
      ≡ (o.id == src.id && should_move (place src) (hash_string q) (place dest))
unfolding moved_from_replica
moved_step x replicas src dest o q e = rw (moved_from_replica, e) refl

id_place : (a b : Ring.Server) → a.id < word → b.id < word → (a.id == b.id) ≡ (place a == place b)
id_place a b p q =
    let injective = hash_uint_injective a.id b.id p q in
    let same : a.id ≡ b.id → place a ≡ place b = λ e. ap hash_uint e in
    decide a.id b.id (place a) (place b) injective same
  where
    decide : (i j m n : ℕ) → (m ≡ n → i ≡ j) → (i ≡ j → m ≡ n) → (i == j) ≡ (m == n)
    decide i j m n f g = ground (arith, f, g)

-- When a replica joins a ring of servers with 32-bit ids, a document that belongs to one of some
-- replicas on the ring then belongs to the new replica if transfer_files_multiple_srcs, from the
-- next server on the ring and with these replicas, moves it there, and otherwise to the same
-- server as before. The conditions are that the document's hash is neither the new replica's own
-- nor that of one of the others, and that the next server was on the ring.
pub moved_from_replica-owner :
    {ring : List Ring.Server} {d : Ring.Server} {k : ℕ} (i : ℕ) (x : Ring.Server)
    (replicas : List Ring.Server) (src o : Ring.Server) (q : Text)
    → IsRing ring
    → ((j : ℕ) (s : Ring.Server) → get_elem? ring j ≡ some s → s.id < word)
    → Joins ring d k
    → get_elem? ring i ≡ some src
    → get_elem? (insert_at ring k d) ((k + 1) % length (insert_at ring k d)) ≡ some src
    → AllOn ring (x ∷ replicas)
    → NoneAt (hash_string q) (x ∷ replicas)
    → Among o (x ∷ replicas)
    → owner (hash_string q) ring ≡ some o
    → hash_string q ≢ place d
    → owner (hash_string q) (insert_at ring k d)
      ≡ some (if moved_from_replica (x ∷ replicas) src d q then d else o)
moved_from_replica-owner {ring} {d} i x replicas src o q is_ring small j src_at next on free one own
      away =
    let (l, o_at) = owner-member (hash_string q) is_ring own in
    let picked =
      pick_src-owner is_ring small (hash_string q) (hash_string-lt q) x replicas o on free one
        own in
    owner_joined is_ring j (hash_string q) src o away own next
    ∙ ap (λ p. some (if p && should_move (place src) (hash_string q) (place d) then d else o))
        (sym (id_place o src (small l o o_at) (small i src src_at)))
    ∙ ap (λ m. some (if m then d else o)) (sym (moved_step x replicas src d o q picked))
