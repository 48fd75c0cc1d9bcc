-- ===== src/ArrayList/Insert.antt =====
-- `al_insert` of skel/arraylist.c is insertion into the list of elements.
use hashring_load_balancer.Base.{
  ℕ, zero, suc, ◌+◌, ◌-◌, ◌%◌, ◌^◌, ◌≤◌, ◌<◌, ◌≡◌, refl, ap, ◌∙◌, ltb, leb, ◌==◌, if◌then◌else◌,
  Option, some, List, length, get_elem?, set, insert_at, length-set, length-insert_at,
  get_elem?-set, get_elem?-insert_at, ◌&&◌, get_elem?-set_ne, get_elem?_total, Returns, arith,
  Bool-cases, inl, inr,
}
use hashring_load_balancer.ArrayList.{ArrayList, shift_up, al_resize, grow, insert_grown, al_insert}
use hashring_load_balancer.ArrayList.Holds.{Holds, read-ok, write-ok, al_resize-Holds}

module _ {A : Type 0} where
  -- `xs` at the front of `slots`.
  abbrev Front : List (Option A) → List A → Type 0
  Front slots xs = (i : ℕ) → i < length xs → get_elem? slots i ≡ some (get_elem? xs i)

  -- what the loop leaves: the elements from `k` on, one place up
  abbrev Shifted : ℕ → ℕ → List (Option A) → List (Option A) → Type 0
  Shifted k n old new =
      (length new ≡ length old)
      × ((i : ℕ)
          → get_elem? new i
            ≡ (if ltb k i && leb i (k + n) then get_elem? old (i - 1) else get_elem? old i))

  shift_up-Shifted :
      (slots : List (Option A)) (k n : ℕ)
      → k + n < length slots
      → ((i : ℕ) → k ≤ i → i < k + n → (v : A) × (get_elem? slots i ≡ some (some v)))
      → Returns (shift_up slots k n) (Shifted k n slots)
  unfolding shift_up
  shift_up-Shifted slots k zero room full = (slots, refl, (refl, λ i. ground arith))
  shift_up-Shifted slots k (suc n) room full =
      let (v, e) = full (k + n) (omega arith) (omega arith) in
      let next = set slots (k + n + 1) (some v) in
      let (new, run, (len, at)) = shift_up-Shifted next k n (rw length-set (omega arith)) (λ i p q.
        let (w, e') = full i p (omega arith) in
        (w, get_elem?-set_ne slots (some v) (omega arith) ∙ e')) in
      (
        new,
        rw (read-ok slots (k + n) e, write-ok slots (k + n + 1) v (omega arith)) run,
        (
          len ∙ length-set slots _ _,
          λ i.
              at i
              ∙ ground (
                arith,
                get_elem?-set slots (k + n + 1) i (some v),
                get_elem?-set slots (k + n + 1) (i - 1) (some v),
              ),
        ),
      )

  grow-Holds :
      {list : ArrayList A} {xs : List A}
      → Holds list xs
      → length xs < 2 ^ 30
      → Holds (grow list) xs × (length xs < (grow list).capacity)
  unfolding grow al_resize
  grow-Holds {list} {xs} h small = elim (Bool-cases (list.size == list.capacity)) [
    | inr not_full ↦ rw not_full (h, ground arith)
    | inl full ↦
        let same : list.size ≡ list.capacity = ground arith in
        rw full (al_resize-Holds _ h (omega arith) (omega arith) (omega arith), omega arith)
  ]

  insert_grown-Holds :
      {list : ArrayList A} {xs : List A} (k : ℕ) (v : A)
      → Holds list xs
      → length xs < list.capacity
      → length xs < 2 ^ 30
      → k ≤ length xs
      → Returns (insert_grown list k v) (λ list'. Holds list' (insert_at xs k v))
  unfolding insert_grown
  insert_grown-Holds {list} {xs} k v h space few bound =
      let n = list.size - k in
      let (moved, run, (len, at)) =
        shift_up-Shifted list.slots k n (omega (arith, h.size, h.buffer)) (λ i p q.
          let (w, e) = get_elem?_total xs i (omega (arith, h.size)) in
          (w, h.elements i (omega (arith, h.size)) ∙ ap some e)) in
      let inside : k < length moved = omega (arith, h.buffer) in
      (
        record list { slots = set moved k (some v); size = (list.size + 1) % 2 ^ 32 },
        rw (run, write-ok moved k v inside),
        record {
          size = omega (arith, length-insert_at xs k v, h.size, h.small);
          room = omega (arith, length-insert_at xs k v);
          buffer = length-set moved k (some v) ∙ len ∙ h.buffer;
          positive = h.positive;
          small = h.small;
          few = omega (arith, length-insert_at xs k v, few);
          elements = λ i b.
              let b' : i < suc (length xs) = omega (arith, length-insert_at xs k v) in
              get_elem?-set moved k i (some v) inside
              ∙ ground
                  (arith, at i, h.elements i, h.elements (i - 1), get_elem?-insert_at xs k i v);
        },
      )

  -- Inserting at an index up to the size into a list of fewer than 2 ^ 30 elements never goes out
  -- of bounds, whether or not the buffer has to grow, and gives the list with the element
  -- inserted there.
  pub al_insert-Holds :
      {list : ArrayList A} {xs : List A} (k : ℕ) (v : A)
      → Holds list xs
      → k ≤ length xs
      → length xs < 2 ^ 30
      → Returns (al_insert list k v) (λ list'. Holds list' (insert_at xs k v))
  unfolding al_insert
  al_insert-Holds k v h bound small =
      let (g, space) = grow-Holds h small in insert_grown-Holds k v g space small bound
