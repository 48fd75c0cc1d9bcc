-- ===== src/DoublyLinkedList/Holds.antt =====
-- When the list of skel/doubly_linked_list.c represents a sequence of nodes.
use hashring_load_balancer.Base.{ℕ, ◌<◌, ◌^◌, ◌≡◌, refl, true, none, some, ok, [], length, arith}
use hashring_load_balancer.DoublyLinkedList.{
  Ptr, Node, DoublyLinkedList, dll_init, load, store, set_next, set_prev,
}
use hashring_load_balancer.DoublyLinkedList.Chain.{Nodes, first, last, has, Chain, Apart}

module _ {A : Type 0} where
  -- The nodes from the head to the tail are `xs`, linked both ways and distinct; the counter has
  -- no wrap-around, and the addresses have been returned by `malloc`.
  pub record IsDll (list : DoublyLinkedList A) (xs : Nodes A) : Type 0 where
    pub head_is : list.head ≡ first xs none
    pub tail_is : list.tail ≡ last none xs
    pub size_is : list.size ≡ length xs
    pub small : length xs < 2 ^ 32
    pub chain : Chain list.cells none xs none
    pub apart : Apart xs
    pub old : (a : ℕ) → has a xs ≡ true → a < list.fresh

  pub dll_init-IsDll : IsDll dll_init []
  unfolding dll_init
  dll_init-IsDll = record {
    head_is = refl;
    tail_is = refl;
    size_is = refl;
    small = omega arith;
    chain = tt;
    apart = tt;
    old = λ a h. ground arith;
  }

  pub load-some :
      (list : DoublyLinkedList A) (q : ℕ) (n : Node A) → list.cells q ≡ some n → load list q ≡ ok n
  unfolding load
  load-some list q n at = rw (load, at) refl

  pub set_next-store :
      (list : DoublyLinkedList A) (q : ℕ) (v : Ptr) (n : Node A)
      → list.cells q ≡ some n
      → set_next list q v ≡ ok (store list q (record n { next = v }))
  unfolding set_next
  set_next-store list q v n at = rw (load-some list q n at) refl

  pub set_prev-store :
      (list : DoublyLinkedList A) (q : ℕ) (v : Ptr) (n : Node A)
      → list.cells q ≡ some n
      → set_prev list q v ≡ ok (store list q (record n { prev = v }))
  unfolding set_prev
  set_prev-store list q v n at = rw (load-some list q n at) refl
