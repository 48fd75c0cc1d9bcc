-- ===== src/ArrayList/Holds.antt =====
-- What an array list of skel/arraylist.c stands for, and reads of its slots.
use hashring_load_balancer.Base.{
  ℕ, zero, suc, ◌+◌, ◌-◌, ◌/◌, ◌^◌, true, ltb, ◌≤◌, ◌<◌, ◌≡◌, refl, ap, ◌∙◌, Option, some, List, [],
  ◌∷◌, length, get_elem?, set, ok, arith,
}
use hashring_load_balancer.ArrayList.{
  ArrayList, initialised, read, write, al_init, realloc, al_resize, clamp, al_get, middle,
}

-- `list` holds the elements `xs`, in order, at the front of a buffer of `capacity` slots. They are few
-- enough for the sum of two indices to be an `int`.
pub record Holds {A : Type 0} (list : ArrayList A) (xs : List A) : Type 0 where
  pub size : list.size ≡ length xs
  pub room : length xs ≤ list.capacity
  pub buffer : length list.slots ≡ list.capacity
  pub positive : 0 < list.capacity
  pub small : list.capacity < 2 ^ 31
  pub few : length xs ≤ 2 ^ 30
  pub elements : (i : ℕ) → i < length xs → get_elem? list.slots i ≡ some (get_elem? xs i)

module _ {A : Type 0} where
  pub al_init-Holds : Holds {A = A} al_init []
  unfolding al_init
  al_init-Holds = record {
    size = refl;
    room = omega arith;
    buffer = refl;
    positive = omega arith;
    small = omega arith;
    few = omega arith;
    elements = λ i h. absurd (omega arith);
  }

  pub read-ok :
      (slots : List (Option A)) (i : ℕ) {v : A}
      → get_elem? slots i ≡ some (some v)
      → read slots i ≡ ok v
  unfolding read initialised
  read-ok slots i e = rw (e, read)

  pub write-ok :
      (slots : List (Option A)) (i : ℕ) (v : A)
      → i < length slots
      → write slots i v ≡ ok (set slots i (some v))
  unfolding write
  write-ok slots i v h = ground arith

  -- Between indices in range the sum in `middle` does not overflow.
  pub middle-ok :
      {list : ArrayList A} {xs : List A} (left hi : ℕ)
      → Holds list xs
      → ltb left hi ≡ true
      → hi ≤ length xs
      → middle left hi ≡ ok ((left + hi - 1) / 2)
  unfolding middle
  middle-ok left hi h more inside = ground (arith, h.few)

  -- `al_get` at an index in range.
  pub al_get-ok :
      {list : ArrayList A} {xs : List A} (i : ℕ) {v : A}
      → Holds list xs
      → i < length xs
      → get_elem? xs i ≡ some v
      → al_get list i ≡ ok v
  unfolding al_get clamp
  al_get-ok {list} {xs} i h b e =
      let in_range : clamp list i ≡ i = ground arith in
      rw in_range (read-ok list.slots i (h.elements i b ∙ ap some e))

  pub length-realloc : (slots : List (Option A)) (n : ℕ) → length (realloc slots n) ≡ n
  unfolding realloc
  length-realloc slots zero = refl
  length-realloc [] (suc n) = ap suc (length-realloc [] n)
  length-realloc (v ∷ slots) (suc n) = ap suc (length-realloc slots n)

  pub get_elem?-realloc :
      (slots : List (Option A)) (n i : ℕ)
      → i < n
      → i < length slots
      → get_elem? (realloc slots n) i ≡ get_elem? slots i
  unfolding realloc
  get_elem?-realloc slots zero i p q = absurd (omega arith)
  get_elem?-realloc [] (suc n) i p q = absurd (omega arith)
  get_elem?-realloc (v ∷ slots) (suc n) zero p q = refl
  get_elem?-realloc (v ∷ slots) (suc n) (suc i) p q =
      get_elem?-realloc slots n i (omega arith) (omega arith)

  -- A resize to a capacity that fits keeps the elements.
  pub al_resize-Holds :
      {list : ArrayList A} {xs : List A} (n : ℕ)
      → Holds list xs
      → length xs ≤ n
      → 0 < n
      → n < 2 ^ 31
      → Holds (al_resize list n) xs
  unfolding al_resize
  al_resize-Holds {list} {xs} n h fits pos small = record {
    size = h.size;
    room = fits;
    buffer = length-realloc list.slots n;
    positive = pos;
    small = small;
    few = h.few;
    elements = λ i b.
        get_elem?-realloc list.slots n i (omega arith) (omega (arith, h.room, h.buffer))
        ∙ h.elements i b;
  }
