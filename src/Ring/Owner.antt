-- ===== src/Ring/Owner.antt =====
-- Which server of the ring a document belongs to: what `loader_forward_request` of
-- skel/load_balancer.c looks up.
use mathlib.Core.Path.{fun_ext, subst}
use hashring_load_balancer.Base.{
  Option, none, sym, ap, Bool-cases, ltb→lt, inl, inr, ℕ, zero, suc, ◌≤◌, ◌<◌, ◌≡◌, refl, ◌∙◌, Bool,
  true, false, ltb, leb, if◌then◌else◌, some, List, [], ◌∷◌, length, get_elem?, ok, arith,
}
use hashring_load_balancer.Base.Int.{is_nonneg}
use hashring_load_balancer.Hash.{hash_uint}
use hashring_load_balancer.ArrayList.{ArrayList, al_get_ordered}
use hashring_load_balancer.ArrayList.Holds.{Holds}
use hashring_load_balancer.ArrayList.Search.{
  Monotone, Splits, first_or, first_or-Splits, al_get_ordered-first,
}
use hashring_load_balancer.Ring.{Server, compare_uints, cmp_server_to_hash}

abbrev pub place : Server → ℕ
place s = hash_uint s.id

-- Servers in the order of their hashes, no two at the same place.
pub record IsRing (xs : List Server) : Type 0 where
  pub ordered :
      (i j : ℕ) (s t : Server)
      → i < j
      → get_elem? xs i ≡ some s
      → get_elem? xs j ≡ some t
      → place s < place t

-- the server is at or behind the hash
unfoldable pub reaches : ℕ → Server → Bool
reaches h s = leb h (place s)

reaches_lem : (h : ℕ) (s : Server) → is_nonneg (cmp_server_to_hash s h) ≡ reaches h s
unfolding cmp_server_to_hash compare_uints reaches
reaches_lem h s = ground arith

-- The first server at or behind the hash, and behind the last server the first of all.
unfoldable pub owner : ℕ → List Server → Option Server
owner h [] = none
owner h (first ∷ rest) = some (first_or (reaches h) first (first ∷ rest))

pub reaches-Monotone : {xs : List Server} (h : ℕ) → IsRing xs → Monotone (reaches h) xs
unfolding reaches
reaches-Monotone h r i j v w p e f t = ground (arith, r.ordered i j v w)

-- On a ring with servers, at most 2 ^ 30, the search of loader_forward_request ends without a
-- fault in the owner of the hash: the first server at or behind it, or the first of all.
pub al_get_ordered-owner :
    {list : ArrayList Server} {xs : List Server} {s : Server} (h : ℕ)
    → Holds list xs
    → IsRing xs
    → owner h xs ≡ some s
    → al_get_ordered list h cmp_server_to_hash ≡ ok s
unfolding owner
al_get_ordered-owner {xs = []} h held ring e = cc
al_get_ordered-owner {xs = first ∷ rest} h held ring e =
    let same : (λ (s : Server). is_nonneg (cmp_server_to_hash s h)) ≡ reaches h =
      fun_ext (reaches_lem h) in
    al_get_ordered-first h cmp_server_to_hash held (
      subst (λ (t : Server → Bool). Monotone t (first ∷ rest)) (sym same) (reaches-Monotone h ring))
    ∙ rw same (cc)

-- how many servers are before the hash
pub rank : ℕ → List Server → ℕ
rank h [] = 0
rank h (s ∷ xs) = if reaches h s then 0 else suc (rank h xs)

IsRing-tail : {s : Server} {xs : List Server} → IsRing (s ∷ xs) → IsRing xs
IsRing-tail r = record {
  ordered = λ i j s t p e f. r.ordered (suc i) (suc j) s t (omega arith) e f;
}

pub rank-Splits : (h : ℕ) (xs : List Server) → IsRing xs → Splits (reaches h) xs (rank h xs)
unfolding rank
rank-Splits h [] r = record { inside = omega arith; below = λ i v p e. cc; above = λ i v p e. cc }
rank-Splits h (s ∷ xs) r = elim (Bool-cases (reaches h s)) [
  | inl here ↦ rw here (record {
    inside = omega arith;
    below = λ i v p. absurd (omega arith);
    above = λ i v p e. reaches-Monotone h r 0 i s v (omega arith) refl e here;
  })
  | inr ahead ↦
      let rest = rank-Splits h xs (IsRing-tail r) in
      rw ahead (record {
        inside = omega (arith, rest.inside);
        below = below_suc ahead rest;
        above = above_suc rest;
      })
]
  where
    below_suc :
        {n : ℕ}
        → reaches h s ≡ false
        → Splits (reaches h) xs n
        → (i : ℕ) (v : Server) → i < suc n
        → get_elem? (s ∷ xs) i ≡ some v
        → reaches h v ≡ false
    below_suc ahead rest zero v p e = ground arith
    below_suc ahead rest (suc i) v p e = rest.below i v (omega arith) e

    above_suc :
        {n : ℕ}
        → Splits (reaches h) xs n
        → (i : ℕ) (v : Server) → suc n ≤ i
        → get_elem? (s ∷ xs) i ≡ some v
        → reaches h v ≡ true
    above_suc rest zero v p e = absurd (omega arith)
    above_suc rest (suc i) v p e = rest.above i v (omega arith) e

-- The owner stands at the split, or at 0 if the split is at the end.
pub owner-Splits :
    (h : ℕ) (xs : List Server) (r : ℕ)
    → Splits (reaches h) xs r
    → owner h xs ≡ get_elem? xs (if ltb r (length xs) then r else 0)
unfolding owner
owner-Splits h [] r s = refl
owner-Splits h (first ∷ rest) r s =
    let found = first_or-Splits (reaches h) first (first ∷ rest) r s in
    elim (Bool-cases (ltb r (length (first ∷ rest)))) [
      | inl inside ↦ rw inside (sym (found.0 (ltb→lt _ _ inside)))
      | inr behind ↦ rw behind (ap some (found.1 (ground (arith, s.inside))))
    ]

pub owner-filled : (h : ℕ) (xs : List Server) {o : Server} → owner h xs ≡ some o → 0 < length xs
unfolding owner
owner-filled h [] e = cc
owner-filled h (first ∷ rest) e = omega arith
