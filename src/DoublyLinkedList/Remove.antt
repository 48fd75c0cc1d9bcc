-- ===== src/DoublyLinkedList/Remove.antt =====
-- `dll_remove_node` of skel/doubly_linked_list.c takes exactly its node out of the list.
use mathlib.Core.Path.{subst}
use hashring_load_balancer.Base.{
  ℕ, ◌+◌, ◌-◌, ◌%◌, ◌<◌, ◌^◌, ◌≡◌, refl, ◌∙◌, false, none, some, [], ◌∷◌, ◌++◌, length,
  length-append, arith, Returns, ok,
}
use hashring_load_balancer.DoublyLinkedList.{
  Node, DoublyLinkedList, update, load, store, set_next, set_prev, unlink_prev, unlink_next,
  dll_remove_node, free_node,
}
use hashring_load_balancer.DoublyLinkedList.Chain.{
  Nodes, first, last, has, Chain, has_before, has-append, first-append, last-append, frame-update,
  split, join, relink_last, relink_first, Parted, part, last-some, update_elsewhere, Apart-append,
}
use hashring_load_balancer.DoublyLinkedList.Holds.{IsDll, load-some, set_next-store, set_prev-store}

module _ {A : Type 0} where
  unlink_prev-store :
      (list : DoublyLinkedList A) (n : Node A) (q : ℕ) (node : Node A)
      → n.prev ≡ some q
      → list.cells q ≡ some node
      → unlink_prev list n ≡ ok (store list q (record node { next = n.next }))
  unfolding unlink_prev
  unlink_prev-store list n q node is at = rw is (set_next-store list q n.next node at)

  unlink_next-store :
      (list : DoublyLinkedList A) (n : Node A) (q : ℕ) (node : Node A)
      → n.next ≡ some q
      → list.cells q ≡ some node
      → unlink_next list n ≡ ok (store list q (record node { prev = n.prev }))
  unfolding unlink_next
  unlink_next-store list n q node is at = rw is (set_prev-store list q n.prev node at)

  -- the nodes in front of the removed one are linked to what is behind it
  record PrevUnlinked (list : DoublyLinkedList A) (ys : Nodes A) (p : ℕ) (zs : Nodes A) (n : Node A)
      (l : DoublyLinkedList A) : Type 0 where
    front : Chain l.cells none ys n.next
    back : Chain l.cells (some p) zs none
    head_is : l.head ≡ first ys n.next
    tail_is : l.tail ≡ list.tail
    fresh_is : l.fresh ≡ list.fresh
    kept : (a : ℕ) → has a ys ≡ false → l.cells a ≡ list.cells a

  unlink_prev-Unlinked :
      (list : DoublyLinkedList A) (ys : Nodes A) (p : ℕ) (zs : Nodes A) (n : Node A)
      → Parted ys p zs
      → Chain list.cells none ys (some p)
      → Chain list.cells (some p) zs none
      → n.prev ≡ last none ys
      → list.head ≡ first ys (some p)
      → Returns (unlink_prev list n) (PrevUnlinked list ys p zs n)
  unfolding unlink_prev set_next load store
  unlink_prev-Unlinked list [] p zs n parted c d prev_is head_is = (
    record list { head = n.next },
    rw prev_is refl,
    record {
      front = tt;
      back = d;
      head_is = refl;
      tail_is = refl;
      fresh_is = refl;
      kept = λ a h. refl;
    },
  )
  unlink_prev-Unlinked list (e ∷ ys) p zs n parted c d prev_is head_is =
      let (q, is_last, inside) = last-some e.0 ys in
      let (node, at, relinked) =
        relink_last list.cells none e ys (some p) q c parted.left is_last in
      (
        store list q (record node { next = n.next }),
        unlink_prev-store list n q node (prev_is ∙ is_last) at,
        record {
          front = relinked n.next;
          back =
              frame-update list.cells (some p) zs none q (some (record node { next = n.next })) d
                (parted.across q inside);
          head_is = head_is;
          tail_is = refl;
          fresh_is = refl;
          kept = λ a h.
              update_elsewhere list.cells q (some (record node { next = n.next })) a (e ∷ ys) inside
                h;
        },
      )

  -- and the nodes behind it to what is in front of it
  record NextUnlinked (list : DoublyLinkedList A) (ys zs : Nodes A) (n : Node A)
      (l : DoublyLinkedList A) : Type 0 where
    front : Chain l.cells none ys n.next
    back : Chain l.cells n.prev zs none
    head_is : l.head ≡ list.head
    tail_is : l.tail ≡ last n.prev zs
    fresh_is : l.fresh ≡ list.fresh
    kept : (a : ℕ) → has a zs ≡ false → l.cells a ≡ list.cells a

  first_out :
      (ys : Nodes A) (p : ℕ) (e : ℕ × A) (zs : Nodes A) → Parted ys p (e ∷ zs) → has e.0 ys ≡ false
  first_out ys p e zs parted = ground (arith, parted.across e.0)

  unlink_next-Unlinked :
      (list : DoublyLinkedList A) (ys : Nodes A) (p : ℕ) (zs : Nodes A) (n : Node A)
      → Parted ys p zs
      → Chain list.cells none ys n.next
      → Chain list.cells (some p) zs none
      → n.next ≡ first zs none
      → list.tail ≡ last (some p) zs
      → Returns (unlink_next list n) (NextUnlinked list ys zs n)
  unfolding unlink_next set_prev load store
  unlink_next-Unlinked list ys p [] n parted c d next_is tail_is = (
    record list { tail = n.prev },
    rw next_is refl,
    record {
      front = c;
      back = tt;
      head_is = refl;
      tail_is = refl;
      fresh_is = refl;
      kept = λ a h. refl;
    },
  )
  unlink_next-Unlinked list ys p (e ∷ zs) n parted c d next_is tail_is =
      let node : Node A = record { next = first zs none; prev = n.prev; entry = e.1 } in
      (
        store list e.0 node,
        unlink_next-store list n e.0 _ next_is d.0,
        record {
          front =
              frame-update list.cells none ys n.next e.0 (some node) c (first_out ys p e zs parted);
          back = relink_first list.cells (some p) e zs none n.prev d parted.right;
          head_is = refl;
          tail_is = tail_is;
          fresh_is = refl;
          kept = λ a h. ground arith;
        },
      )

  length_shrinks :
      (ys : Nodes A) (e : ℕ × A) (zs : Nodes A) (s : ℕ)
      → s ≡ length (ys ++ e ∷ zs)
      → length (ys ++ e ∷ zs) < 2 ^ 32
      → ((s + 2 ^ 32 - 1) % 2 ^ 32 ≡ length (ys ++ zs)) × (length (ys ++ zs) < 2 ^ 32)
  length_shrinks ys e zs s is small =
      let long = length-append ys (e ∷ zs) in
      let short = length-append ys zs in (omega arith, omega arith)

  unlinked-IsDll :
      (list : DoublyLinkedList A) (ys : Nodes A) (p : ℕ) (v : A) (zs : Nodes A) (n : Node A)
      (l m : DoublyLinkedList A)
      → IsDll list (ys ++ (p, v) ∷ zs)
      → Parted ys p zs
      → n.next ≡ first zs none
      → n.prev ≡ last none ys
      → PrevUnlinked list ys p zs n l
      → NextUnlinked l ys zs n m
      → IsDll (record m { size = (list.size + 2 ^ 32 - 1) % 2 ^ 32 }) (ys ++ zs)
  unlinked-IsDll list ys p v zs n l m holds parted next_is prev_is before after =
      let (count, small) = length_shrinks ys (p, v) zs list.size holds.size_is holds.small in
      record {
        head_is = rw (after.head_is, before.head_is, next_is, first-append ys zs none) refl;
        tail_is = rw (after.tail_is, prev_is, last-append none ys zs) refl;
        size_is = count;
        small = small;
        chain =
            join m.cells none ys zs none (subst (Chain m.cells none ys) next_is after.front)
              (subst (λ start. Chain m.cells start zs none) prev_is after.back);
        apart = Apart-append ys zs parted.left parted.right parted.across;
        old =
            λ a h. rw (after.fresh_is, before.fresh_is) (holds.old a (has_before a ys (p, v) zs h));
      }

  pub entry_at :
      (list : DoublyLinkedList A) (ys : Nodes A) (p : ℕ) (v : A) (zs : Nodes A)
      → IsDll list (ys ++ (p, v) ∷ zs)
      → list.cells p ≡ some (record { next = first zs none; prev = last none ys; entry = v })
  entry_at list ys p v zs holds = (split list.cells none ys ((p, v) ∷ zs) none holds.chain).1.0

  dll_remove_node_step :
      (list : DoublyLinkedList A) (p : ℕ) (n : Node A) (l m : DoublyLinkedList A)
      → list.cells p ≡ some n
      → unlink_prev list n ≡ ok l
      → unlink_next l n ≡ ok m
      → dll_remove_node list p ≡ ok (record m { size = (list.size + 2 ^ 32 - 1) % 2 ^ 32 })
  unfolding dll_remove_node
  dll_remove_node_step list p n l m at is_l is_m = rw (load-some list p n at, is_l, is_m) refl

  out_of_both :
      (p : ℕ) (ys zs : Nodes A) → has p ys ≡ false → has p zs ≡ false → has p (ys ++ zs) ≡ false
  out_of_both p ys zs l r = ground (arith, has-append p ys zs)

  -- dll_remove_node on a node of the list does not fault; the node is out of the list, the others
  -- keep their order, and the node keeps its data.
  pub dll_remove_node-IsDll :
      (list : DoublyLinkedList A) (ys : Nodes A) (p : ℕ) (v : A) (zs : Nodes A)
      → IsDll list (ys ++ (p, v) ∷ zs)
      → Returns (dll_remove_node list p) (λ l.
        IsDll l (ys ++ zs)
        × (has p (ys ++ zs) ≡ false)
        × (l.fresh ≡ list.fresh)
        × (l.cells p ≡ some (record { next = first zs none; prev = last none ys; entry = v })))
  dll_remove_node-IsDll list ys p v zs holds =
      let (c, d) = split list.cells none ys ((p, v) ∷ zs) none holds.chain in
      let parted = part ys p v zs holds.apart in
      let n : Node A = record { next = first zs none; prev = last none ys; entry = v } in
      let (l, is_l, before) =
        unlink_prev-Unlinked list ys p zs n parted c d.1 refl
          (holds.head_is ∙ first-append ys ((p, v) ∷ zs) none) in
      let (m, is_m, after) =
        unlink_next-Unlinked l ys p zs n parted before.front before.back refl
          (before.tail_is ∙ holds.tail_is ∙ last-append none ys ((p, v) ∷ zs)) in
      (
        record m { size = (list.size + 2 ^ 32 - 1) % 2 ^ 32 },
        dll_remove_node_step list p n l m d.0 is_l is_m,
        (
          unlinked-IsDll list ys p v zs n l m holds parted refl refl before after,
          out_of_both p ys zs parted.left_out parted.right_out,
          after.fresh_is ∙ before.fresh_is,
          after.kept p parted.right_out ∙ before.kept p parted.left_out ∙ d.0,
        ),
      )

  -- A node that is not in the list is released.
  pub free_node-IsDll :
      (list : DoublyLinkedList A) (xs : Nodes A) (p : ℕ) (n : Node A)
      → IsDll list xs
      → list.cells p ≡ some n
      → has p xs ≡ false
      → Returns (free_node list p) (λ l. IsDll l xs)
  unfolding free_node
  free_node-IsDll list xs p n holds at out = (
    record list { cells = update list.cells p none },
    rw (load-some list p n at) refl,
    record {
      head_is = holds.head_is;
      tail_is = holds.tail_is;
      size_is = holds.size_is;
      small = holds.small;
      chain = frame-update list.cells none xs none p none holds.chain out;
      apart = holds.apart;
      old = holds.old;
    },
  )
