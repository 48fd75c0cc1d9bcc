-- ===== src/DoublyLinkedList/Insert.antt =====
-- Insertions of skel/doubly_linked_list.c at the front, which is where the cache inserts.
use hashring_load_balancer.Base.{
  ℕ, suc, ◌+◌, ◌%◌, ◌<◌, ◌^◌, ◌≡◌, refl, ◌∙◌, false, ◌==◌, if◌then◌else◌, Bool-cases, inl, inr,
  none, some, [], ◌∷◌, length, arith, Returns, ok,
}
use hashring_load_balancer.DoublyLinkedList.{
  Ptr, Node, DoublyLinkedList, store, point_back, insert_front, dll_insert_within, dll_insert_nth,
  dll_insert_nth_node,
}
use hashring_load_balancer.DoublyLinkedList.Chain.{Nodes, has, frame-update, relink_first}
use hashring_load_balancer.DoublyLinkedList.Holds.{IsDll, load-some, set_prev-store}

tail_stays : (s n : ℕ) (a b : Ptr) → s ≡ suc n → (if s == 0 then a else b) ≡ b
tail_stays s n a b is = ground arith

module _ {A : Type 0} where
  abbrev in_front : DoublyLinkedList A → ℕ → Node A → DoublyLinkedList A
  unfolding store
  in_front list p n = store list p (record n { next = list.head; prev = none })

  point_back-some :
      (list : DoublyLinkedList A) (head : Ptr) (p h : ℕ) (node : Node A)
      → head ≡ some h
      → list.cells h ≡ some node
      → point_back list head p ≡ ok (store list h (record node { prev = some p }))
  unfolding point_back
  point_back-some list head p h node is at = rw is (set_prev-store list h (some p) node at)

  insert_front_step :
      (list : DoublyLinkedList A) (p : ℕ) (n : Node A) (list2 : DoublyLinkedList A)
      → list.cells p ≡ some n
      → point_back (in_front list p n) list.head p ≡ ok list2
      → insert_front list p
        ≡ ok (record list2 {
          head = some p;
          tail = if list.size == 0 then some p else list.tail;
          size = (list.size + 1) % 2 ^ 32;
        })
  unfolding insert_front store
  insert_front_step list p n list2 at is = rw (load-some list p n at, is) refl

  -- A node that is not in the list is then its first one, with its data.
  pub insert_front-IsDll :
      (list : DoublyLinkedList A) (xs : Nodes A) (p : ℕ) (n : Node A)
      → IsDll list xs
      → list.cells p ≡ some n
      → has p xs ≡ false
      → p < list.fresh
      → length xs + 1 < 2 ^ 32
      → Returns (insert_front list p) (λ l. IsDll l ((p, n.entry) ∷ xs) × (l.fresh ≡ list.fresh))
  unfolding store point_back
  insert_front-IsDll list [] p n holds at out old room = (
    _,
    insert_front_step list p n (in_front list p n) at (rw holds.head_is refl),
    (
      record {
        head_is = refl;
        tail_is = rw holds.size_is refl;
        size_is = rw holds.size_is refl;
        small = room;
        chain = (ground (arith, holds.head_is), tt);
        apart = (refl, tt);
        old = λ a h. ground arith;
      },
      refl,
    ),
  )
  insert_front-IsDll list (e ∷ xs) p n holds at out old room =
      let list1 : DoublyLinkedList A = in_front list p n in
      let chain =
        frame-update list.cells none (e ∷ xs) none p
          (some (record n { next = list.head; prev = none })) holds.chain out in
      (
        _,
        insert_front_step list p n _ at
            (point_back-some list1 list.head p e.0 _ holds.head_is chain.0),
        (
          record {
            head_is = refl;
            tail_is =
                tail_stays list.size (length xs) (some p) list.tail holds.size_is ∙ holds.tail_is;
            size_is = omega (arith, holds.size_is);
            small = omega (arith, room);
            chain = (
              ground (arith, holds.head_is),
              relink_first list1.cells none e xs none (some p) chain holds.apart,
            );
            apart = (out, holds.apart);
            old = λ a h. ground (arith, holds.old a);
          },
          refl,
        ),
      )

  pub dll_insert_nth-front :
      (list : DoublyLinkedList A) (p : ℕ) → dll_insert_nth list 0 p ≡ insert_front list p
  unfolding dll_insert_nth dll_insert_within
  dll_insert_nth-front list p = ground arith

  fresh-out : (list : DoublyLinkedList A) (xs : Nodes A) → IsDll list xs → has list.fresh xs ≡ false
  fresh-out list xs holds = elim (Bool-cases (has list.fresh xs)) [
    | inl inside ↦ absurd (omega (arith, holds.old list.fresh inside))
    | inr out ↦ out
  ]

  dll_insert_nth_node_step :
      (list : DoublyLinkedList A) (v : A) (list2 : DoublyLinkedList A)
      → insert_front
          (record (store list list.fresh (record { next = none; prev = none; entry = v })) {
            fresh = list.fresh + 1;
          })
          list.fresh
        ≡ ok list2
      → dll_insert_nth_node list 0 v ≡ ok (list2, list.fresh)
  unfolding dll_insert_nth_node
  dll_insert_nth_node_step list v list2 is = rw (dll_insert_nth-front _ list.fresh, is) refl

  -- On a list with fewer than 2 ^ 32 - 1 nodes dll_insert_nth_node at index 0 does not fault, and
  -- puts a node that was not there, with the data, in front of the others.
  pub dll_insert_nth_node-IsDll :
      (list : DoublyLinkedList A) (xs : Nodes A) (v : A)
      → IsDll list xs
      → length xs + 1 < 2 ^ 32
      → Returns (dll_insert_nth_node list 0 v) (λ r.
        (r.1 ≡ list.fresh)
        × IsDll r.0 ((list.fresh, v) ∷ xs)
        × (r.0.fresh ≡ list.fresh + 1)
        × (has list.fresh xs ≡ false))
  unfolding store
  dll_insert_nth_node-IsDll list xs v holds room =
      let node : Node A = record { next = none; prev = none; entry = v } in
      let list1 : DoublyLinkedList A = record (store list list.fresh node) {
        fresh = list.fresh + 1;
      } in
      let new : has list.fresh xs ≡ false = fresh-out list xs holds in
      let holds1 : IsDll list1 xs = record {
        head_is = holds.head_is;
        tail_is = holds.tail_is;
        size_is = holds.size_is;
        small = holds.small;
        chain = frame-update list.cells none xs none list.fresh (some node) holds.chain new;
        apart = holds.apart;
        old = λ a h. omega (arith, holds.old a h);
      } in
      let (list2, is, (holds2, fresh_is)) =
        insert_front-IsDll list1 xs list.fresh node holds1 (ground arith) new (omega arith) room in
      ((list2, list.fresh), dll_insert_nth_node_step list v list2 is, (refl, holds2, fresh_is, new))
