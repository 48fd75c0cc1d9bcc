-- ===== src/ArrayList/Tests.antt =====
-- A list of three numbers through the operations of skel/arraylist.c, and the theorems there.
use hashring_load_balancer.Base.{
  ℕ, zero, suc, ◌<◌, ◌≡◌, refl, false, ltb, if◌then◌else◌, none, some, [], ◌∷◌, get_elem?,
  insert_at, erase_at, ok, Returns, arith,
}
use hashring_load_balancer.Base.Int.{ℤ, pos, negsuc, is_zero, is_nonneg, is_positive}
use hashring_load_balancer.ArrayList.{
  ArrayList, al_init, al_insert, al_erase, al_get_ordered, al_insert_ordered, al_find_by,
  initialised, read, write, realloc, al_resize, clamp, al_get, shift_up, grow, insert_grown,
  shift_down, middle, bisect, find_key, scan,
}
use hashring_load_balancer.ArrayList.Holds.{Holds}
use hashring_load_balancer.ArrayList.Insert.{al_insert-Holds}
use hashring_load_balancer.ArrayList.Erase.{al_erase-Holds}
use hashring_load_balancer.ArrayList.Search.{
  Monotone, Splits, first_or, al_get_ordered-first, al_insert_ordered-Holds,
}
use hashring_load_balancer.ArrayList.Find.{al_find_by-found, al_find_by-absent}

program : Unit {0}
unfolding middle initialised read write realloc al_resize clamp al_get shift_up grow insert_grown
    al_insert shift_down al_erase bisect al_get_ordered al_insert_ordered find_key scan al_find_by
    al_init
program = tt

-- 20 and 40 in a buffer of two, then 30
abbrev two : ArrayList ℕ
two = record { size = 2; capacity = 2; slots = some 20 ∷ some 40 ∷ [] }

abbrev three : ArrayList ℕ
three = record { size = 3; capacity = 4; slots = some 20 ∷ some 30 ∷ some 40 ∷ none ∷ [] }

abbrev compare : ℕ → ℕ → ℤ
compare a b = if ltb b a then pos 1 else if ltb a b then negsuc 0 else pos 0

inserted : al_insert_ordered two 30 compare ≡ ok (three, 1)
unfolding program
inserted = refl

erased :
    al_erase three 0
    ≡ ok (record { size = 2; capacity = 4; slots = some 30 ∷ some 40 ∷ some 40 ∷ none ∷ [] })
unfolding program
erased = refl

looked_up : al_get_ordered three 31 compare ≡ ok 40
unfolding program
looked_up = refl

wrapped_round : al_get_ordered three 50 compare ≡ ok 20
unfolding program
wrapped_round = refl

found : al_find_by three 40 40 compare compare ≡ ok (pos 2)
unfolding program
found = refl

two-Holds : Holds two (20 ∷ 40 ∷ [])
two-Holds = record {
  size = refl;
  room = omega arith;
  buffer = refl;
  positive = omega arith;
  small = omega arith;
  few = omega arith;
  elements = two_elements;
}
  where
    two_elements : (i : ℕ) → i < 2 → get_elem? two.slots i ≡ some (get_elem? (20 ∷ 40 ∷ []) i)
    two_elements zero h = refl
    two_elements (suc zero) h = refl
    two_elements (suc (suc i)) h = absurd (omega arith)

al_insert-Holds_example :
    Returns (al_insert two 1 30) (λ list. Holds list (insert_at (20 ∷ 40 ∷ []) 1 30))
al_insert-Holds_example = al_insert-Holds 1 30 two-Holds (omega arith) (omega arith)

al_erase-Holds_example : Returns (al_erase two 0) (λ list. Holds list (erase_at (20 ∷ 40 ∷ []) 0))
al_erase-Holds_example = al_erase-Holds 0 two-Holds (omega arith)

two-Monotone : (t : ℕ) → Monotone (λ v. is_nonneg (compare v t)) (20 ∷ 40 ∷ [])
two-Monotone t zero zero v w p e f h = ground arith
two-Monotone t zero (suc zero) v w p e f h = ground arith
two-Monotone t (suc zero) zero v w p e f h = absurd (omega arith)
two-Monotone t (suc zero) (suc zero) v w p e f h = ground arith
two-Monotone t (suc (suc i)) j v w p e f h = cc
two-Monotone t i (suc (suc j)) v w p e f h = cc

two-Monotone_above : (t : ℕ) → Monotone (λ v. is_positive (compare v t)) (20 ∷ 40 ∷ [])
two-Monotone_above t zero zero v w p e f h = ground arith
two-Monotone_above t zero (suc zero) v w p e f h = ground arith
two-Monotone_above t (suc zero) zero v w p e f h = absurd (omega arith)
two-Monotone_above t (suc zero) (suc zero) v w p e f h = ground arith
two-Monotone_above t (suc (suc i)) j v w p e f h = cc
two-Monotone_above t i (suc (suc j)) v w p e f h = cc

al_get_ordered-first_example :
    al_get_ordered two 31 compare ≡ ok (first_or (λ v. is_nonneg (compare v 31)) 20 (20 ∷ 40 ∷ []))
al_get_ordered-first_example = al_get_ordered-first 31 compare two-Holds (two-Monotone 31)

al_insert_ordered-Holds_example : Returns (al_insert_ordered two 30 compare) (λ r.
    Holds r.0 (insert_at (20 ∷ 40 ∷ []) r.1 30)
    × Splits (λ m. is_positive (compare m 30)) (20 ∷ 40 ∷ []) r.1)
al_insert_ordered-Holds_example =
    al_insert_ordered-Holds 30 compare two-Holds (two-Monotone_above 30) (omega arith)

two_unique :
    (j : ℕ) (w : ℕ) → j < 1 → get_elem? (20 ∷ 40 ∷ []) j ≡ some w → is_zero (compare w 40) ≡ false
two_unique zero w p e = ground arith
two_unique (suc j) w p e = absurd (omega arith)

two_last :
    (j : ℕ) (w : ℕ) → 1 < j → get_elem? (20 ∷ 40 ∷ []) j ≡ some w → is_zero (compare w 40) ≡ false
two_last zero w p e = absurd (omega arith)
two_last (suc zero) w p e = absurd (omega arith)
two_last (suc (suc j)) w p e = cc

al_find_by-found_example : al_find_by two 40 40 compare compare ≡ ok (pos 1)
al_find_by-found_example =
    al_find_by-found two-Holds 40 40 compare compare 1 40 refl refl two_unique two_last

two_absent : (j : ℕ) (w : ℕ) → get_elem? (20 ∷ 40 ∷ []) j ≡ some w → is_zero (compare w 25) ≡ false
two_absent zero w e = ground arith
two_absent (suc zero) w e = ground arith
two_absent (suc (suc j)) w e = cc

al_find_by-absent_example : al_find_by two 25 25 compare compare ≡ ok (negsuc 0)
al_find_by-absent_example = al_find_by-absent two-Holds 25 25 compare compare two_absent
