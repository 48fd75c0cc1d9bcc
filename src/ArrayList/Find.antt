-- ===== src/ArrayList/Find.antt =====
-- `al_find_by` of skel/arraylist.c. Its first loop compares the wrong way round, so it may end
-- anywhere that the keys agree, or at 0; the scan behind it still finds an element that is the
-- only one with its key.
use hashring_load_balancer.Base.{
  ℕ, zero, suc, ◌+◌, ◌-◌, ◌/◌, ◌≤◌, ◌<◌, ◌≡◌, refl, ◌==◌, true, false, ltb, if◌then◌else◌,
  Bool-cases, ltb→lt, inl, inr, ◌⊎◌, some, List, length, get_elem?, get_elem?_total,
  get_elem?_bound, ok, Returns, arith,
}
use hashring_load_balancer.Base.Int.{ℤ, pos, negsuc, is_neg, is_zero, is_positive}
use hashring_load_balancer.ArrayList.{ArrayList, al_get, find_key, scan, al_find_by}
use hashring_load_balancer.ArrayList.Holds.{Holds, middle-ok, al_get-ok}

is_zero_of_neither : (c : ℤ) → is_neg c ≡ false → is_positive c ≡ false → is_zero c ≡ true
is_zero_of_neither (pos zero) p q = refl
is_zero_of_neither (pos (suc n)) p q = cc
is_zero_of_neither (negsuc n) p q = cc

module _ {A : Type 0} {list : ArrayList A} {xs : List A} (h : Holds list xs) where
  module _ (key : A → ℤ) where
    -- Where the first loop can end: at 0, or at an element whose key agrees.
    abbrev Agrees : ℕ → Type 0
    Agrees ans = (ans ≡ 0) ⊎ ((v : A) × (get_elem? xs ans ≡ some v) × (is_zero (key v) ≡ true))

    find_key_step :
        (fuel left hi ans : ℕ) (v : A)
        → ltb left hi ≡ true
        → hi ≤ length xs
        → get_elem? xs ((left + hi - 1) / 2) ≡ some v
        → find_key list key (suc fuel) left hi ans ≡ (
            if is_neg (key v)
            then find_key list key fuel left ((left + hi - 1) / 2) ans
            else if is_positive (key v)
            then find_key list key fuel ((left + hi - 1) / 2 + 1) hi ans
            else find_key list key fuel ((left + hi - 1) / 2 + 1) hi ((left + hi - 1) / 2))
    unfolding find_key
    find_key_step fuel left hi ans v more inside e =
        let mid = (left + hi - 1) / 2 in
        let halved = middle-ok left hi h more inside in
        let got : al_get list mid ≡ ok v = al_get-ok mid h (get_elem?_bound xs mid e) e in
        rw (more, find_key, halved, got) (ground arith)

    find_key-Agrees :
        (fuel left hi ans : ℕ)
        → hi < fuel + left
        → left ≤ hi
        → hi ≤ length xs
        → Agrees ans
        → Returns (find_key list key fuel left hi ans) Agrees
    unfolding find_key
    find_key-Agrees zero left hi ans enough order inside so_far = absurd (omega arith)
    find_key-Agrees (suc fuel) left hi ans enough order inside so_far =
        elim (Bool-cases (ltb left hi)) [
          | inr done ↦ (ans, rw (done, find_key), so_far)
          | inl more ↦
              let mid = (left + hi - 1) / 2 in
              let lt = ltb→lt left hi more in
              let (v, e) = get_elem?_total xs mid (omega arith) in
              rw (find_key_step fuel left hi ans v more inside e)
                (elim (Bool-cases (is_neg (key v))) [
                  | inl neg ↦ rw neg (
                      find_key-Agrees fuel left mid ans (omega arith) (omega arith) (omega arith)
                        so_far)
                  | inr nonneg ↦ rw nonneg (elim (Bool-cases (is_positive (key v))) [
                    | inl pos' ↦ rw pos' (
                        find_key-Agrees fuel (mid + 1) hi ans (omega arith) (omega arith) inside
                          so_far)
                    | inr zero' ↦ rw zero' (
                        find_key-Agrees fuel (mid + 1) hi mid (omega arith) (omega arith) inside
                          (inr (v, e, is_zero_of_neither _ nonneg zero')))
                  ])
                ])
        ]

  module _ (compare : A → ℤ) where
    scan_step :
        (n i : ℕ) (w : A)
        → get_elem? xs i ≡ some w
        → scan list compare i (suc n)
          ≡ (if is_zero (compare w) then ok (pos i) else scan list compare (i + 1) n)
    unfolding scan
    scan_step n i w e =
        let got : al_get list i ≡ ok w = al_get-ok i h (get_elem?_bound xs i e) e in
        rw (got, scan) (ground arith)

    scan-found :
        (n i t : ℕ) (v : A)
        → i + n ≡ length xs
        → i ≤ t
        → get_elem? xs t ≡ some v
        → is_zero (compare v) ≡ true
        → ((j : ℕ) (w : A) → j < t → get_elem? xs j ≡ some w → is_zero (compare w) ≡ false)
        → scan list compare i n ≡ ok (pos t)
    unfolding scan
    scan-found zero i t v sum order e hit first = absurd (omega (arith, get_elem?_bound xs t e))
    scan-found (suc n) i t v sum order e hit first =
        let (w, e') = get_elem?_total xs i (omega arith) in
        elim (Bool-cases (i == t)) [
          | inl here ↦
              let at : i ≡ t = ground arith in
              let there : get_elem? xs i ≡ some v = rw at e in rw (scan_step n i v there, hit, at)
          | inr ahead ↦
              let miss = first i w (ground arith) e' in
              rw (scan_step n i w e', miss)
                (scan-found n (i + 1) t v (omega arith) (ground arith) e hit first)
        ]

    scan-absent :
        (n i : ℕ)
        → i + n ≡ length xs
        → ((j : ℕ) (w : A) → get_elem? xs j ≡ some w → is_zero (compare w) ≡ false)
        → scan list compare i n ≡ ok (negsuc 0)
    unfolding scan
    scan-absent zero i sum none' = refl
    scan-absent (suc n) i sum none' =
        let (w, e) = get_elem?_total xs i (omega arith) in
        let got : al_get list i ≡ ok w = al_get-ok i h (omega arith) e in
        let miss = none' i w e in
        let rest = scan-absent n (i + 1) (omega arith) none' in ground arith

  module _ {K T : Type 0} (bs_key : K) (target : T) (bs_compare : A → K → ℤ)
      (compare : A → T → ℤ) where
    -- If the target is at an index, no element before it fits and no element behind it has its
    -- key, al_find_by returns that index, on a list of at most 2 ^ 30 elements in any order.
    pub al_find_by-found :
        (t : ℕ) (v : A)
        → get_elem? xs t ≡ some v
        → is_zero (compare v target) ≡ true
        → ((j : ℕ) (w : A) → j < t → get_elem? xs j ≡ some w → is_zero (compare w target) ≡ false)
        → ((j : ℕ) (w : A)
            → t < j
            → get_elem? xs j ≡ some w
            → is_zero (bs_compare w bs_key) ≡ false)
        → al_find_by list bs_key target bs_compare compare ≡ ok (pos t)
    unfolding al_find_by
    al_find_by-found t v e hit first last =
        let (ans, run, at) =
          find_key-Agrees (λ v. bs_compare v bs_key) (list.size + 1) 0 list.size 0 (omega arith)
            (omega arith) (omega (arith, h.size)) (inl refl) in
        let before : ans ≤ t = elim at [
          | inl zero' ↦ omega arith
          | inr (w, e', same) ↦ not_behind ans w e' same
        ] in
        rw run (
          scan-found (λ v. compare v target) (list.size - ans) ans t v
            (omega (arith, h.size, get_elem?_bound xs t e)) before e hit first)
      where
        not_behind :
            (i : ℕ) (w : A) → get_elem? xs i ≡ some w → is_zero (bs_compare w bs_key) ≡ true → i ≤ t
        not_behind i w e' same = ground (arith, last i w)

    -- If no element of a list of at most 2 ^ 30 elements fits, al_find_by returns -1.
    pub al_find_by-absent :
        ((j : ℕ) (w : A) → get_elem? xs j ≡ some w → is_zero (compare w target) ≡ false)
        → al_find_by list bs_key target bs_compare compare ≡ ok (negsuc 0)
    unfolding al_find_by
    al_find_by-absent none' =
        let (ans, run, at) =
          find_key-Agrees (λ v. bs_compare v bs_key) (list.size + 1) 0 list.size 0 (omega arith)
            (omega arith) (omega (arith, h.size)) (inl refl) in
        let inside : ans ≤ length xs = elim at [
          | inl zero' ↦ omega arith
          | inr (w, e, same) ↦ omega (arith, get_elem?_bound xs ans e)
        ] in
        rw run
          (scan-absent (λ v. compare v target) (list.size - ans) ans (omega (arith, h.size)) none')
