-- ===== src/ArrayList/Erase.antt =====
-- `al_erase` of skel/arraylist.c is removal from the list of elements.
use hashring_load_balancer.Base.{
  ℕ, zero, suc, ◌+◌, ◌-◌, ◌/◌, ◌≤◌, ◌<◌, ◌≡◌, refl, ap, ◌∙◌, ◌&&◌, ltb, leb, if◌then◌else◌,
  Bool-cases, ltb→lt, inl, inr, Option, some, List, length, get_elem?, set, erase_at, length-set,
  length-erase_at, get_elem?-set, get_elem?-set_ne, get_elem?-erase_at, get_elem?_total, Returns,
  arith,
}
use hashring_load_balancer.ArrayList.{ArrayList, decrement, clamp, shift_down, al_resize, al_erase}
use hashring_load_balancer.ArrayList.Holds.{Holds, read-ok, write-ok, al_resize-Holds}

module _ {A : Type 0} where
  -- what the loop leaves: `n` elements behind `k` one place down
  abbrev Shifted : ℕ → ℕ → List (Option A) → List (Option A) → Type 0
  Shifted k n old new =
      (length new ≡ length old)
      × ((i : ℕ)
          → get_elem? new i
            ≡ (if leb k i && ltb i (k + n) then get_elem? old (i + 1) else get_elem? old i))

  shift_down-Shifted :
      (slots : List (Option A)) (k n : ℕ)
      → k + n < length slots
      → ((i : ℕ) → k < i → i ≤ k + n → (v : A) × (get_elem? slots i ≡ some (some v)))
      → Returns (shift_down slots k n) (Shifted k n slots)
  unfolding shift_down
  shift_down-Shifted slots k zero room full = (slots, refl, (refl, λ i. ground arith))
  shift_down-Shifted slots k (suc n) room full =
      let (v, e) = full (k + 1) (omega arith) (omega arith) in
      let next = set slots k (some v) in
      let (new, run, (len, at)) =
        shift_down-Shifted next (k + 1) n (rw length-set (omega arith)) (λ i p q.
          let (w, e') = full i (omega arith) (omega arith) in
          (w, get_elem?-set_ne slots (some v) (omega arith) ∙ e')) in
      (
        new,
        rw (read-ok slots (k + 1) e, write-ok slots k v (omega arith)) run,
        (
          len ∙ length-set slots _ _,
          λ i.
              at i
              ∙ ground
                  (arith, get_elem?-set slots k i (some v), get_elem?-set slots k (i + 1) (some v)),
        ),
      )

  -- Erasing at an index in range from a list of at most 2 ^ 30 elements never goes out of bounds,
  -- removes that element and keeps the others in order; the buffer that it may shrink still holds
  -- them, and is never empty.
  pub al_erase-Holds :
      {list : ArrayList A} {xs : List A} (k : ℕ)
      → Holds list xs
      → k < length xs
      → Returns (al_erase list k) (λ list'. Holds list' (erase_at xs k))
  unfolding al_erase clamp
  al_erase-Holds {list} {xs} k h bound =
      let in_range : clamp list k ≡ k = ground arith in
      let n = list.size - 1 - k in
      let (moved, run, (len, at)) =
        shift_down-Shifted list.slots k n (omega (arith, h.size, h.buffer)) (λ i p q.
          let (w, e) = get_elem?_total xs i (omega (arith, h.size)) in
          (w, h.elements i (omega (arith, h.size)) ∙ ap some e)) in
      let shorter : ArrayList A = record list { slots = moved; size = decrement list.size } in
      let held : Holds shorter (erase_at xs k) = record {
        size = omega (arith, length-erase_at xs k bound, h.size, h.small, h.room);
        room = omega (arith, length-erase_at xs k bound, h.room);
        buffer = len ∙ h.buffer;
        positive = h.positive;
        small = h.small;
        few = omega (arith, length-erase_at xs k bound, h.few);
        elements = λ i b.
            let b' : suc i < length xs = omega (arith, length-erase_at xs k bound) in
            at i
            ∙ ground (arith, h.size, h.elements i, h.elements (i + 1), get_elem?-erase_at xs k i);
      } in
      rw in_range (
        rw run (elim (Bool-cases (ltb shorter.size (list.capacity / 2))) [
          | inr roomy ↦ (shorter, rw roomy, held)
          | inl half ↦ (
            al_resize shorter (list.capacity / 2),
            rw half,
            al_resize-Holds _ held (omega (arith, ltb→lt _ _ half, held.size))
                (omega (arith, ltb→lt _ _ half)) (omega (arith, h.small)),
          )
        ]))
