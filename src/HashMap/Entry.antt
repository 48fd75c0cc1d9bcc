-- ===== src/HashMap/Entry.antt =====
-- What `hm_get` of skel/hashmap.c finds, told by the nodes in the buckets, wherever they are.
use mathlib.Core.Path.{subst}
use hashring_load_balancer.Base.{
  ℕ, zero, suc, ◌%◌, ◌≡◌, refl, sym, ap, ◌∙◌, true, Bool-cases, inl, inr, Option, Option-cases,
  none, some, List, [], ◌∷◌, get_elem?, Returns,
}
use hashring_load_balancer.LinkedList.{LinkedList}
use hashring_load_balancer.HashMap.KeyFunctions.{Key, ◌≈◌}
use hashring_load_balancer.HashMap.Bucket.{find, Distinct, AllKeys}
use hashring_load_balancer.HashMap.{HashMap, hm_get}
use hashring_load_balancer.HashMap.Holds.{IsMap, view, find_in, hm_get-view}

some_inj : {A : Type 0} {a b : A} → some a ≡ some b → a ≡ b
some_inj {A} {a} {b} e = ap (value a) e
  where
    value : A → Option A → A
    value d none = d
    value d (some x) = x

some-distinct : {A : Type 0} (a : A) → some a ≡ none → ⊥
some-distinct a e = cc

module _ {K V : Type 0} ⦃key : Key K⦄ where
  -- A node of some bucket has the key and the value.
  abbrev pub Entry : HashMap K V → K → V → Type 0
  Entry map k v =
      (i : ℕ) × (j : ℕ) × (list : LinkedList (K × V)) × (get_elem? map.buckets i ≡ some list)
      × (get_elem? list.nodes j ≡ some (k, v))

  found-member :
      (k : K) (v : V) (nodes : List (K × V))
      → find k nodes ≡ some v
      → (j : ℕ) × (get_elem? nodes j ≡ some (k, v))
  unfolding find
  found-member k v [] e = absurd (some-distinct v (sym e))
  found-member k v (x ∷ nodes) e = elim (Bool-cases (x.0 ≈ k)) [
    | inl here ↦
        let same : x.0 ≡ k = (key.compare_iff x.0 k).0 here in
        let value : x.1 ≡ v = some_inj (rw here at e) in
        (0, ap (λ a. some (a, x.1)) same ∙ ap (λ b. some (k, b)) value)
    | inr there ↦ let (j, at) = found-member k v nodes (rw there at e) in (suc j, at)
  ]

  member-found :
      (k : K) (v : V) (nodes : List (K × V)) (j : ℕ)
      → Distinct nodes
      → get_elem? nodes j ≡ some (k, v)
      → find k nodes ≡ some v
  unfolding find
  member-found k v [] j distinct e = absurd (some-distinct (k, v) (sym e))
  member-found k v (x ∷ nodes) zero distinct e =
      let same : x ≡ (k, v) = some_inj e in
      let here : (x.0 ≈ k) ≡ true = (key.compare_iff x.0 k).1 (ap (λ p. p.0) same) in
      rw here (ap (λ p. some p.1) same)
  member-found k v (x ∷ nodes) (suc j) distinct e =
      let behind = member-found k v nodes j distinct.1 e in
      elim (Bool-cases (x.0 ≈ k)) [
        | inl here ↦
            let same : x.0 ≡ k = (key.compare_iff x.0 k).0 here in
            absurd (some-distinct v (sym behind ∙ ap (λ q. find q nodes) (sym same) ∙ distinct.0))
        | inr there ↦ rw there behind
      ]

  member-placed :
      (P : K → Type 0) (nodes : List (K × V)) (j : ℕ) (e : K × V)
      → AllKeys P nodes
      → get_elem? nodes j ≡ some e
      → P e.0
  member-placed P [] j e all at = absurd (some-distinct e (sym at))
  member-placed P (x ∷ nodes) zero e all at = subst (λ p. P p.0) (some_inj at) all.0
  member-placed P (x ∷ nodes) (suc j) e all at = member-placed P nodes j e all.1 at

  view_at :
      (map : HashMap K V) (k : K) (list : LinkedList (K × V))
      → get_elem? map.buckets (key.hash k % map.hmax) ≡ some list
      → view map k ≡ find k list.nodes
  unfolding view find_in
  view_at map k list e = rw e refl

  view-Entry :
      {n : ℕ} (map : HashMap K V) (k : K) (v : V)
      → IsMap n map
      → view map k ≡ some v
      → Entry map k v
  unfolding view find_in
  view-Entry map k v m e = elim (Option-cases (get_elem? map.buckets (key.hash k % map.hmax))) [
    | inl absent ↦ absurd (some-distinct v (sym e ∙ ap (find_in k) absent))
    | inr (list, at) ↦
        let (j, node) = found-member k v list.nodes (sym (view_at map k list at) ∙ e) in
        (key.hash k % map.hmax, j, list, at, node)
  ]

  Entry-view :
      {n : ℕ} (map : HashMap K V) (k : K) (v : V)
      → IsMap n map
      → Entry map k v
      → view map k ≡ some v
  Entry-view map k v m (i, j, list, at, node) =
      let b = m.each i list at in
      let home : key.hash k % map.hmax ≡ i =
        member-placed (λ q. key.hash q % map.hmax ≡ i) list.nodes j (k, v) b.placed node in
      view_at map k list (ap (get_elem? map.buckets) home ∙ at)
      ∙ member-found k v list.nodes j b.distinct node

  -- On a map where each bucket has only keys that belong there, none of them twice, hm_get does
  -- not fault; it returns a value exactly if a node of some bucket has the key and that value.
  pub hm_get-Entry :
      {n : ℕ} (map : HashMap K V) (k : K)
      → IsMap n map
      → Returns
          (hm_get map k)
          (λ o. (v : V) → ((o ≡ some v) → Entry map k v) × (Entry map k v → (o ≡ some v)))
  hm_get-Entry map k m =
      (view map k, hm_get-view map k m, λ v. (view-Entry map k v m, Entry-view map k v m))
