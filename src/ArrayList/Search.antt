-- ===== src/ArrayList/Search.antt =====
-- The binary searches of skel/arraylist.c on a list that is sorted for the comparator.
use hashring_load_balancer.Base.{
  ℕ, zero, suc, ◌+◌, ◌-◌, ◌/◌, ◌^◌, ◌≤◌, ◌<◌, ◌≡◌, refl, Bool, true, false, ltb, ◌==◌,
  if◌then◌else◌, Bool-cases, ltb→lt, lt→ltb, inl, inr, some, List, [], ◌∷◌, length, get_elem?,
  insert_at, get_elem?_total, get_elem?_bound, ok, Returns, arith,
}
use hashring_load_balancer.Base.Int.{ℤ, is_nonneg, is_positive}
use hashring_load_balancer.ArrayList.{ArrayList, al_get, bisect, al_get_ordered, al_insert_ordered}
use hashring_load_balancer.ArrayList.Holds.{Holds, middle-ok, al_get-ok}
use hashring_load_balancer.ArrayList.Insert.{al_insert-Holds}

module _ {A : Type 0} where
  -- Once `test` holds it holds for all later elements.
  abbrev pub Monotone : (A → Bool) → List A → Type 0
  Monotone test xs =
      (i j : ℕ) (v w : A)
      → i ≤ j
      → get_elem? xs i ≡ some v
      → get_elem? xs j ≡ some w
      → test v ≡ true
      → test w ≡ true

  -- `r` is the number of elements at the front that fail `test`, and all others pass it.
  pub record Splits (test : A → Bool) (xs : List A) (r : ℕ) : Type 0 where
    pub inside : r ≤ length xs
    pub below : (i : ℕ) (v : A) → i < r → get_elem? xs i ≡ some v → test v ≡ false
    pub above : (i : ℕ) (v : A) → r ≤ i → get_elem? xs i ≡ some v → test v ≡ true

  abbrev Answers : (A → Bool) → List A → ℕ → ℕ → Type 0
  Answers test xs default ans =
      (r : ℕ) × Splits test xs r × (ans ≡ (if ltb r (length xs) then r else default))

  module _ {list : ArrayList A} {xs : List A} (h : Holds list xs) (test : A → Bool)
      (mono : Monotone test xs) (default : ℕ) where
    bisect-done :
        (fuel left hi ans : ℕ)
        → ltb left hi ≡ false
        → bisect list test (suc fuel) left hi ans ≡ ok ans
    unfolding bisect
    bisect-done fuel left hi ans done = rw (done, bisect)

    bisect_step :
        (fuel left hi ans : ℕ) (v : A)
        → ltb left hi ≡ true
        → hi ≤ length xs
        → get_elem? xs ((left + hi - 1) / 2) ≡ some v
        → bisect list test (suc fuel) left hi ans ≡ (
            if test v
            then bisect list test fuel left ((left + hi - 1) / 2) ((left + hi - 1) / 2)
            else bisect list test fuel ((left + hi - 1) / 2 + 1) hi ans)
    unfolding bisect
    bisect_step fuel left hi ans v more inside e =
        let mid = (left + hi - 1) / 2 in
        let halved = middle-ok left hi h more inside in
        let got : al_get list mid ≡ ok v = al_get-ok mid h (get_elem?_bound xs mid e) e in
        ground arith

    bisect-Answers :
        (fuel left hi ans : ℕ)
        → hi < fuel + left
        → left ≤ hi
        → hi ≤ length xs
        → ((i : ℕ) (v : A) → i < left → get_elem? xs i ≡ some v → test v ≡ false)
        → ((i : ℕ) (v : A) → hi ≤ i → get_elem? xs i ≡ some v → test v ≡ true)
        → ans ≡ (if ltb hi (length xs) then hi else default)
        → Returns (bisect list test fuel left hi ans) (Answers test xs default)
    unfolding bisect
    bisect-Answers zero left hi ans fuel order inside below above so_far = absurd (omega arith)
    bisect-Answers (suc fuel) left hi ans enough order inside below above so_far =
        elim (Bool-cases (ltb left hi)) [
          | inr done ↦
              let same : left ≡ hi = ground arith in
              (
                ans,
                bisect-done fuel left hi ans done,
                (
                  hi,
                  record {
                    inside = inside;
                    below = λ i v p. below i v (omega arith);
                    above = above;
                  },
                  so_far,
                ),
              )
          | inl more ↦
              let mid = (left + hi - 1) / 2 in
              let lt = ltb→lt left hi more in
              let (v, e) = get_elem?_total xs mid (omega arith) in
              rw (bisect_step fuel left hi ans v more inside e) (elim (Bool-cases (test v)) [
                | inl yes' ↦ rw yes' (
                    bisect-Answers fuel left mid mid (omega arith) (omega arith) (omega arith) below
                      (λ i w p q. mono mid i v w p e q yes')
                      (ground (arith, lt→ltb mid (length xs))))
                | inr no' ↦ rw no' (
                    bisect-Answers fuel (mid + 1) hi ans (omega arith) (omega arith) inside
                      (λ i w p q. before mid v i w p q e no') above so_far)
              ])
        ]
      where
        before :
            (m : ℕ) (u : A) (i : ℕ) (w : A)
            → i < m + 1
            → get_elem? xs i ≡ some w
            → get_elem? xs m ≡ some u
            → test u ≡ false
            → test w ≡ false
        before m u i w p q e no' = ground (arith, mono i m w u)

    search :
        Returns (bisect list test (list.size + 1) 0 list.size default) (Answers test xs default)
    search =
        bisect-Answers (list.size + 1) 0 list.size default (omega arith) (omega arith)
          (omega (arith, h.size)) (λ i v p. absurd (omega arith))
          (λ i v p q. absurd (omega (arith, get_elem?_bound xs i q, h.size)))
          (ground (arith, h.size))

  -- the first element that passes `test`, or `default`
  unfoldable pub first_or : (A → Bool) → A → List A → A
  first_or test default [] = default
  first_or test default (x ∷ xs) = if test x then x else first_or test default xs

  Splits-tail :
      {test : A → Bool} {x : A} {xs : List A} {r : ℕ}
      → Splits test (x ∷ xs) (suc r)
      → Splits test xs r
  Splits-tail s = record {
    inside = omega (arith, s.inside);
    below = λ i v p e. s.below (suc i) v (omega arith) e;
    above = λ i v p e. s.above (suc i) v (omega arith) e;
  }

  pub first_or-Splits :
      (test : A → Bool) (d : A) (xs : List A) (r : ℕ)
      → Splits test xs r
      → (r < length xs → get_elem? xs r ≡ some (first_or test d xs))
        × (r ≡ length xs → first_or test d xs ≡ d)
  unfolding first_or
  first_or-Splits test d [] r s = (λ p. absurd (omega arith), λ e. refl)
  first_or-Splits test d (x ∷ xs) zero s =
      (λ p. ground (arith, s.above 0 x), λ e. absurd (omega arith))
  first_or-Splits test d (x ∷ xs) (suc r) s =
      let rest = first_or-Splits test d xs r (Splits-tail s) in
      let fails = s.below 0 x (omega arith) refl in
      (λ p. rw fails (rest.0 (omega arith)), λ e. rw fails (rest.1 (omega arith)))

  -- On a non-empty list of at most 2 ^ 30 elements that is sorted for the comparator,
  -- al_get_ordered ends without a fault in the first element that is not below the target, or in
  -- the first element if there is none.
  pub al_get_ordered-first :
      {T : Type 0} {list : ArrayList A} {x : A} {xs : List A} (target : T) (compare : A → T → ℤ)
      → Holds list (x ∷ xs)
      → Monotone (λ v. is_nonneg (compare v target)) (x ∷ xs)
      → al_get_ordered list target compare
        ≡ ok (first_or (λ v. is_nonneg (compare v target)) x (x ∷ xs))
  unfolding al_get_ordered
  al_get_ordered-first {list} {x} {xs} target compare h mono =
      let test : A → Bool = λ v. is_nonneg (compare v target) in
      let (ans, run, (r, s, e)) = search h test mono 0 in
      let found = first_or-Splits test x (x ∷ xs) r s in
      rw run (elim (Bool-cases (ltb r (length (x ∷ xs)))) [
        | inl some' ↦
            let ans' : ans ≡ r = ground arith in
            rw ans' (al_get-ok r h (ltb→lt _ _ some') (found.0 (ltb→lt _ _ some')))
        | inr none' ↦
            let ans' : ans ≡ 0 = ground arith in
            rw ans' (rw (found.1 (ground (arith, s.inside))) (al_get-ok 0 h (omega arith) refl))
      ])

  -- On a list of fewer than 2 ^ 30 elements that is sorted for the comparator, al_insert_ordered
  -- ends without a fault, and has put the element behind all that are not above it and before all
  -- that are; it returns the index.
  pub al_insert_ordered-Holds :
      {list : ArrayList A} {xs : List A} (v : A) (compare : A → A → ℤ)
      → Holds list xs
      → Monotone (λ m. is_positive (compare m v)) xs
      → length xs < 2 ^ 30
      → Returns
          (al_insert_ordered list v compare)
          (λ r. Holds r.0 (insert_at xs r.1 v) × Splits (λ m. is_positive (compare m v)) xs r.1)
  unfolding al_insert_ordered
  al_insert_ordered-Holds {list} {xs} v compare h mono small = elim (Bool-cases (list.size == 0)) [
    | inl empty ↦
        let none' : 0 ≡ length xs = ground (arith, h.size) in
        let (list', run, h') = al_insert-Holds 0 v h (omega arith) small in
        (
          (list', 0),
          rw (empty, run),
          (
            h',
            record {
              inside = omega arith;
              below = λ i w p. absurd (omega arith);
              above = λ i w p e. absurd (omega (arith, get_elem?_bound xs i e));
            },
          ),
        )
    | inr filled ↦
        let (ans, found, (r, s, e)) = search h (λ m. is_positive (compare m v)) mono list.size in
        let same : ans ≡ r = ground (arith, h.size, s.inside) in
        let (list', run, h') = al_insert-Holds r v h s.inside small in
        ((list', r), rw (filled, found, same, run), (h', s))
  ]
