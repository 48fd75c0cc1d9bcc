-- ===== src/DoublyLinkedList.antt =====
-- The doubly linked list of skel/doubly_linked_list.c, over explicit nodes: pointers are addresses
-- or null, and the memory of the nodes is part of the state. No caller passes a null list.
pub mod Chain
pub mod Holds
pub mod Remove
pub mod Insert
pub mod Entry
mod Tests
use hashring_load_balancer.Base.{
  ℕ, zero, suc, ◌+◌, ◌-◌, ◌%◌, ◌^◌, ltb, ◌==◌, if◌then◌else◌, Option, none, some, Run, ok, fault,
  null_pointer, ◌>>=◌,
}

-- A pointer to a node; `none` is NULL.
abbrev pub Ptr : Type 0
Ptr = Option ℕ

-- `entry` is what the field `data` points to.
pub record Node (A : Type 0) : Type 0 where
  pub next : Ptr
  pub prev : Ptr
  pub entry : A

-- `cells` is the memory of the nodes, and `fresh` the address that `malloc` returns next.
pub record DoublyLinkedList (A : Type 0) : Type 0 where
  pub cells : ℕ → Option (Node A)
  pub fresh : ℕ
  pub head : Ptr
  pub tail : Ptr
  pub size : ℕ

abbrev pub update : {A : Type 0} → (ℕ → Option A) → ℕ → Option A → ℕ → Option A
update cells p v a = if a == p then v else cells a

module _ {A : Type 0} where
  unfoldable pub dll_init : DoublyLinkedList A
  dll_init = record { cells = λ a. none; fresh = 0; head = none; tail = none; size = 0 }

  -- a read through a pointer to a node that is not allocated is a fault
  unfoldable pub load : DoublyLinkedList A → ℕ → Run (Node A)
  load list p = elim (list.cells p) [ none ↦ fault null_pointer | some n ↦ ok n ]

  unfoldable pub store : DoublyLinkedList A → ℕ → Node A → DoublyLinkedList A
  store list p n = record list { cells = update list.cells p (some n) }

  -- `p->next = q` and `p->prev = q`
  unfoldable pub set_next : DoublyLinkedList A → ℕ → Ptr → Run (DoublyLinkedList A)
  unfolding load store
  set_next list p q = load list p >>= λ n. ok (store list p (record n { next = q }))

  unfoldable pub set_prev : DoublyLinkedList A → ℕ → Ptr → Run (DoublyLinkedList A)
  unfolding load store
  set_prev list p q = load list p >>= λ n. ok (store list p (record n { prev = q }))

  -- `k` steps along `next`, up to NULL
  unfoldable pub steps : DoublyLinkedList A → ℕ → Ptr → Run Ptr
  steps list k none = ok none
  steps list zero (some p) = ok (some p)
  steps list (suc k) (some p) = load list p >>= λ n. steps list k n.next

  unfoldable pub dll_get_nth_node : DoublyLinkedList A → ℕ → Run Ptr
  dll_get_nth_node list n = if list.size == 0 then ok none else steps list n list.head

  -- `if (list->head) list->head->prev = new_node`
  unfoldable pub point_back : DoublyLinkedList A → Ptr → ℕ → Run (DoublyLinkedList A)
  point_back list none p = ok list
  point_back list (some h) p = set_prev list h (some p)

  -- the branch of `dll_insert_nth` for the first place
  unfoldable pub insert_front : DoublyLinkedList A → ℕ → Run (DoublyLinkedList A)
  unfolding load store point_back
  insert_front list p = load list p >>= λ n.
      let list1 = store list p (record n { next = list.head; prev = none }) in
      point_back list1 list.head p >>= λ list2. ok (record list2 {
        head = some p;
        tail = if list.size == 0 then some p else list.tail;
        size = (list.size + 1) % 2 ^ 32;
      })

  -- the other branch, behind the node `q`
  unfoldable pub insert_behind : DoublyLinkedList A → ℕ → ℕ → Run (DoublyLinkedList A)
  unfolding load store set_prev set_next
  insert_behind list q p = load list q >>= λ node. load list p >>= λ n.
      let list1 = store list p (record n { next = node.next; prev = some q }) in
      (elim node.next [
        | none ↦ ok (record list1 { tail = some p })
        | some r ↦ set_prev list1 r (some p)
      ])
      >>= λ list2. set_next list2 q (some p) >>= λ list3.
          ok (record list3 { size = (list.size + 1) % 2 ^ 32 })

  -- `n` is not above the size; a walk past the end would dereference NULL
  unfoldable pub dll_insert_within : DoublyLinkedList A → ℕ → ℕ → Run (DoublyLinkedList A)
  dll_insert_within list zero p = insert_front list p
  dll_insert_within list (suc n) p = steps list n list.head >>= λ q. elim q [
    | none ↦ fault null_pointer
    | some q ↦ insert_behind list q p
  ]

  unfoldable pub dll_insert_nth : DoublyLinkedList A → ℕ → ℕ → Run (DoublyLinkedList A)
  dll_insert_nth list n p = dll_insert_within list (if ltb list.size n then list.size else n) p

  -- The new node's pointers are set by `dll_insert_nth`.
  unfoldable pub dll_insert_nth_node : DoublyLinkedList A → ℕ → A → Run (DoublyLinkedList A × ℕ)
  unfolding store
  dll_insert_nth_node list n v = do
    let node : Node A = record { next = none; prev = none; entry = v }
    let list1 : DoublyLinkedList A = record (store list list.fresh node) { fresh = list.fresh + 1 }
    list2 ← dll_insert_nth list1 n list.fresh
    ok (list2, list.fresh)

  -- the first `if` of `dll_remove_node`
  unfoldable pub unlink_prev : DoublyLinkedList A → Node A → Run (DoublyLinkedList A)
  unfolding set_next
  unlink_prev list n = elim n.prev [
    | some q ↦ set_next list q n.next
    | none ↦ ok (record list { head = n.next })
  ]

  -- the second one
  unfoldable pub unlink_next : DoublyLinkedList A → Node A → Run (DoublyLinkedList A)
  unfolding set_prev
  unlink_next list n = elim n.next [
    | some q ↦ set_prev list q n.prev
    | none ↦ ok (record list { tail = n.prev })
  ]

  unfoldable pub dll_remove_node : DoublyLinkedList A → ℕ → Run (DoublyLinkedList A)
  unfolding load
  dll_remove_node list p = do
    n ← load list p
    list1 ← unlink_prev list n
    list2 ← unlink_next list1 n
    ok (record list2 { size = (list.size + 2 ^ 32 - 1) % 2 ^ 32 })

  -- `free(node)`
  unfoldable pub free_node : DoublyLinkedList A → ℕ → Run (DoublyLinkedList A)
  unfolding load
  free_node list p = load list p >>= λ n. ok (record list { cells = update list.cells p none })
