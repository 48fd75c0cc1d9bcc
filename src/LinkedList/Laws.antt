-- ===== src/LinkedList/Laws.antt =====
-- The list of skel/linked_list.c against insertion into and removal from a sequence.
use hashring_load_balancer.Base.{
  ℕ, zero, suc, ◌+◌, ◌-◌, ◌%◌, ◌^◌, ◌≤◌, ◌<◌, ◌≡◌, refl, ap, ◌∙◌, ltb, leb, ◌==◌, if◌then◌else◌,
  some, List, [], ◌∷◌, ◌++◌, length, get_elem?, insert_at, erase_at, get_elem?_bound, ok, arith,
  Bool-cases, inl, inr,
}
use hashring_load_balancer.LinkedList.{
  LinkedList, link_behind, insert_within, ll_insert_nth, unlink, ll_remove_nth_node,
}

-- The field `size` counts the nodes, and has not wrapped.
pub record IsList {A : Type 0} (list : LinkedList A) : Type 0 where
  pub counted : list.size ≡ length list.nodes
  pub small : length list.nodes < 2 ^ 32 - 1

module _ {A : Type 0} where
  insert_at-length : (xs : List A) (v : A) → insert_at xs (length xs) v ≡ xs ++ v ∷ []
  insert_at-length [] v = refl
  insert_at-length (x ∷ xs) v = ap (◌∷◌ x) (insert_at-length xs v)

  zero-insert_at : (xs : List A) (v : A) → insert_at xs 0 v ≡ v ∷ xs
  zero-insert_at [] v = refl
  zero-insert_at (x ∷ xs) v = refl

  link_behind-insert_at :
      (n : ℕ) (xs : List A) (v : A)
      → n < length xs
      → link_behind n xs v ≡ ok (insert_at xs (suc n) v)
  unfolding link_behind
  link_behind-insert_at n [] v h = absurd (omega arith)
  link_behind-insert_at zero (x ∷ []) v h = refl
  link_behind-insert_at zero (x ∷ y ∷ xs) v h = refl
  link_behind-insert_at (suc n) (x ∷ xs) v h = rw (link_behind-insert_at n xs v (omega arith))

  insert_within-insert_at :
      (list : LinkedList A) (n : ℕ) (v : A)
      → IsList list
      → n ≤ list.size
      → insert_within list n v
        ≡ ok (record { nodes = insert_at list.nodes n v; size = list.size + 1 })
  unfolding insert_within
  insert_within-insert_at list zero v h bound = ground (arith, zero-insert_at list.nodes v)
  insert_within-insert_at list (suc n) v h bound =
      let sized : (list.size + 1) % 2 ^ 32 ≡ list.size + 1 = omega arith in
      elim (Bool-cases (suc n == list.size)) [
        | inl last ↦
            let at : suc n ≡ length list.nodes = ground arith in
            rw (last, sized, at, insert_at-length)
        | inr between ↦ rw (between, link_behind-insert_at n list.nodes v (ground arith), sized)
      ]

  pub ll_insert_nth-insert_at :
      (list : LinkedList A) (n : ℕ) (v : A)
      → IsList list
      → ll_insert_nth list n v
        ≡ ok (record {
          nodes = insert_at list.nodes (if ltb list.size n then list.size else n) v;
          size = list.size + 1;
        })
  unfolding ll_insert_nth
  ll_insert_nth-insert_at list n v h =
      insert_within-insert_at list (if ltb list.size n then list.size else n) v h (ground arith)

  -- At the index `size` it appends.
  pub ll_insert_nth-size :
      (list : LinkedList A) (v : A)
      → IsList list
      → ll_insert_nth list list.size v
        ≡ ok (record { nodes = list.nodes ++ v ∷ []; size = list.size + 1 })
  ll_insert_nth-size list v h =
      let same : (if ltb list.size list.size then list.size else list.size) ≡ length list.nodes =
        ground arith in
      ll_insert_nth-insert_at list list.size v h ∙ rw (same, insert_at-length)

  unlink-erase_at :
      (n : ℕ) (xs : List A) (v : A) → get_elem? xs n ≡ some v → unlink n xs ≡ ok (v, erase_at xs n)
  unfolding unlink
  unlink-erase_at n [] v e = cc
  unlink-erase_at zero (x ∷ xs) v e = ground arith
  unlink-erase_at (suc n) (x ∷ xs) v e = rw (unlink-erase_at n xs v e)

  -- `ll_remove_nth_node` at an index in range returns that node and leaves the others in order.
  pub ll_remove_nth_node-erase_at :
      (list : LinkedList A) (n : ℕ) (v : A)
      → IsList list
      → get_elem? list.nodes n ≡ some v
      → ll_remove_nth_node list n
        ≡ ok (v, record { nodes = erase_at list.nodes n; size = list.size - 1 })
  unfolding ll_remove_nth_node
  ll_remove_nth_node-erase_at list n v h e =
      let inside = get_elem?_bound list.nodes n e in
      let here : (if leb list.size n then (list.size + 2 ^ 32 - 1) % 2 ^ 32 else n) ≡ n =
        ground arith in
      let sized : (list.size + 2 ^ 32 - 1) % 2 ^ 32 ≡ list.size - 1 = omega arith in
      rw (here, unlink-erase_at n list.nodes v e, sized)
