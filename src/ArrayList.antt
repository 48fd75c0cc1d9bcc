-- ===== src/ArrayList.antt =====
-- The array list of skel/arraylist.c. Elements are kept by value; a slot of the buffer that was
-- allocated and not yet written is `none`. The loop variables `left` and `right` are `left` and
-- `hi`, which is `right + 1`, since `right` may be -1.
pub mod Holds
pub mod Insert
pub mod Erase
pub mod Search
pub mod Find
mod Tests
use hashring_load_balancer.Base.{
  ℕ, zero, suc, ◌+◌, ◌-◌, ◌*◌, ◌/◌, ◌%◌, ◌^◌, Bool, true, false, ltb, leb, ◌==◌, if◌then◌else◌,
  Option, none, some, List, [], ◌∷◌, length, get_elem?, set, replicate, Run, ok, fault,
  out_of_bounds, int_overflow, uninitialised, out_of_fuel, ◌>>=◌,
}
use hashring_load_balancer.Base.Int.{ℤ, pos, negsuc, is_neg, is_zero, is_nonneg, is_positive}

pub record ArrayList {ℓ} (A : Type ℓ) : Type ℓ where
  pub size : ℕ
  pub capacity : ℕ
  pub slots : List (Option A)

-- `i` before `--i` at an unsigned zero wraps.
abbrev pub decrement : ℕ → ℕ
decrement n = (n + 2 ^ 32 - 1) % 2 ^ 32

-- `(left + right) / 2`, where the sum is an `int`
unfoldable pub middle : ℕ → ℕ → Run ℕ
middle left hi =
    if ltb (left + hi - 1) (2 ^ 31) then ok ((left + hi - 1) / 2) else fault int_overflow

module _ {ℓ} {A : Type ℓ} where
  unfoldable pub initialised : Option A → Run A
  initialised none = fault uninitialised
  initialised (some a) = ok a

  -- `list->data[i]`
  unfoldable pub read : List (Option A) → ℕ → Run A
  read slots i = elim (get_elem? slots i) [ none ↦ fault out_of_bounds | some v ↦ initialised v ]

  -- `list->data[i] = v`
  unfoldable pub write : List (Option A) → ℕ → A → Run (List (Option A))
  write slots i v = if ltb i (length slots) then ok (set slots i (some v)) else fault out_of_bounds

  unfoldable pub al_init : ArrayList A
  al_init = record { size = 0; capacity = 1; slots = replicate 1 none }

  -- `realloc` keeps the slots that fit.
  unfoldable pub realloc : List (Option A) → ℕ → List (Option A)
  realloc slots zero = []
  realloc [] (suc n) = none ∷ realloc [] n
  realloc (v ∷ slots) (suc n) = v ∷ realloc slots n

  unfoldable pub al_resize : ArrayList A → ℕ → ArrayList A
  al_resize list new_cap = record list { capacity = new_cap; slots = realloc list.slots new_cap }

  -- `if (index >= list->size) index = list->size - 1;`
  unfoldable pub clamp : ArrayList A → ℕ → ℕ
  clamp list index = if leb list.size index then decrement list.size else index

  unfoldable pub al_get : ArrayList A → ℕ → Run A
  al_get list index = read list.slots (clamp list index)

  -- `for (i = index + n; i > index; --i) data[i] = data[i - 1];`
  unfoldable pub shift_up : List (Option A) → ℕ → ℕ → Run (List (Option A))
  shift_up slots index zero = ok slots
  shift_up slots index (suc n) = do
    v ← read slots (index + n)
    moved ← write slots (index + n + 1) v
    shift_up moved index n

  -- the test on a full buffer in `al_insert`
  unfoldable pub grow : ArrayList A → ArrayList A
  grow list =
      if list.size == list.capacity then al_resize list (2 * list.capacity % 2 ^ 32) else list

  -- the rest of `al_insert`
  unfoldable pub insert_grown : ArrayList A → ℕ → A → Run (ArrayList A)
  insert_grown list index v = do
    moved ← shift_up list.slots index (list.size - index)
    written ← write moved index v
    ok (record list { slots = written; size = (list.size + 1) % 2 ^ 32 })

  unfoldable pub al_insert : ArrayList A → ℕ → A → Run (ArrayList A)
  al_insert list index v = insert_grown (grow list) index v

  -- `for (i = index; i < index + n; ++i) data[i] = data[i + 1];`
  unfoldable pub shift_down : List (Option A) → ℕ → ℕ → Run (List (Option A))
  shift_down slots index zero = ok slots
  shift_down slots index (suc n) = do
    v ← read slots (index + 1)
    moved ← write slots index v
    shift_down moved (index + 1) n

  unfoldable pub al_erase : ArrayList A → ℕ → Run (ArrayList A)
  al_erase list index = do
    moved ← shift_down list.slots (clamp list index) (list.size - 1 - clamp list index)
    let shorter : ArrayList A = record list { slots = moved; size = decrement list.size }
    ok (
        if ltb shorter.size (list.capacity / 2)
        then al_resize shorter (list.capacity / 2)
        else shorter)

  -- The `while` of `al_get_ordered` and `al_insert_ordered`: where `test` holds, `mid` is the
  -- answer so far and the search goes left.
  unfoldable pub bisect : ArrayList A → (A → Bool) → ℕ → ℕ → ℕ → ℕ → Run ℕ
  bisect list test zero left hi ans = fault out_of_fuel
  bisect list test (suc fuel) left hi ans = elim (ltb left hi) [
    | false ↦ ok ans
    | true ↦ middle left hi >>= λ mid. al_get list mid >>= λ v. elim (test v) [
      | true ↦ bisect list test fuel left mid mid
      | false ↦ bisect list test fuel (mid + 1) hi ans
    ]
  ]

  unfoldable pub al_get_ordered {κ} : {T : Type κ} → ArrayList A → T → (A → T → ℤ) → Run A
  al_get_ordered list target compare = do
    ans ← bisect list (λ v. is_nonneg (compare v target)) (list.size + 1) 0 list.size 0
    al_get list ans

  unfoldable pub al_insert_ordered : ArrayList A → A → (A → A → ℤ) → Run (ArrayList A × ℕ)
  al_insert_ordered list v compare =
      if list.size == 0 then (do list' ← al_insert list 0 v; ok (list', 0)) else (do
        ans ← bisect list (λ mid. is_positive (compare mid v)) (list.size + 1) 0 list.size list.size
        list' ← al_insert list ans v
        ok (list', ans))

  -- the `while` of `al_find_by`
  unfoldable pub find_key : ArrayList A → (A → ℤ) → ℕ → ℕ → ℕ → ℕ → Run ℕ
  find_key list bs_compare zero left hi ans = fault out_of_fuel
  find_key list bs_compare (suc fuel) left hi ans = elim (ltb left hi) [
    | false ↦ ok ans
    | true ↦ middle left hi >>= λ mid. al_get list mid >>= λ v. elim (is_neg (bs_compare v)) [
      | true ↦ find_key list bs_compare fuel left mid ans
      | false ↦ elim (is_positive (bs_compare v)) [
        | true ↦ find_key list bs_compare fuel (mid + 1) hi ans
        | false ↦ find_key list bs_compare fuel (mid + 1) hi mid
      ]
    ]
  ]

  -- the `for` of `al_find_by`, with `n` elements left; -1 if none fits
  unfoldable pub scan : ArrayList A → (A → ℤ) → ℕ → ℕ → Run ℤ
  scan list compare i zero = ok (negsuc 0)
  scan list compare i (suc n) = al_get list i >>= λ v. elim (is_zero (compare v)) [
    | true ↦ ok (pos i)
    | false ↦ scan list compare (i + 1) n
  ]

  unfoldable pub al_find_by {κ μ} :
      {K : Type κ} {T : Type μ} → ArrayList A → K → T → (A → K → ℤ) → (A → T → ℤ) → Run ℤ
  al_find_by list bs_key target bs_compare compare = do
    ans ← find_key list (λ v. bs_compare v bs_key) (list.size + 1) 0 list.size 0
    scan list (λ v. compare v target) ans (list.size - ans)
