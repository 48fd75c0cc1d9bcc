-- ===== src/DoublyLinkedList/Tests.antt =====
-- A list of two nodes, and the theorems on the list there.
use hashring_load_balancer.Base.{ℕ, ◌≡◌, ◌+◌, none, some, [], ◌∷◌, ◌++◌, Returns, arith, false}
use hashring_load_balancer.DoublyLinkedList.{
  DoublyLinkedList, dll_init, dll_insert_nth_node, dll_remove_node,
}
use hashring_load_balancer.DoublyLinkedList.Chain.{first, last, has}
use hashring_load_balancer.DoublyLinkedList.Holds.{IsDll, dll_init-IsDll}
use hashring_load_balancer.DoublyLinkedList.Insert.{dll_insert_nth_node-IsDll}
use hashring_load_balancer.DoublyLinkedList.Remove.{dll_remove_node-IsDll}

abbrev empty : DoublyLinkedList ℕ
empty = dll_init

dll_insert_nth_node-IsDll_example : Returns (dll_insert_nth_node empty 0 7) (λ r.
    (r.1 ≡ empty.fresh)
    × IsDll r.0 ((empty.fresh, 7) ∷ [])
    × (r.0.fresh ≡ empty.fresh + 1)
    × (has {A = ℕ} empty.fresh [] ≡ false))
dll_insert_nth_node-IsDll_example =
    dll_insert_nth_node-IsDll empty [] 7 dll_init-IsDll (omega arith)

abbrev one : DoublyLinkedList ℕ
one = dll_insert_nth_node-IsDll_example.0.0

one-IsDll : IsDll one ([] ++ (empty.fresh, 7) ∷ [])
one-IsDll = dll_insert_nth_node-IsDll_example.2.1

dll_remove_node-IsDll_example : Returns (dll_remove_node one empty.fresh) (λ l.
    IsDll l ([] ++ [])
    × (has {A = ℕ} empty.fresh ([] ++ []) ≡ false)
    × (l.fresh ≡ one.fresh)
    × (l.cells empty.fresh
        ≡ some (record { next = first {A = ℕ} [] none; prev = last {A = ℕ} none []; entry = 7 })))
dll_remove_node-IsDll_example = dll_remove_node-IsDll one [] empty.fresh 7 [] one-IsDll
