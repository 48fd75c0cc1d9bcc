-- ===== src/LinkedList.antt =====
-- The singly linked list of skel/linked_list.c by value: the data of its nodes from `head` to
-- `tail`, and the field `size`. Nodes are not shared between lists, and no caller passes a null
-- list. A node is not told apart from its data.
pub mod Laws
use hashring_load_balancer.Base.{
  ℕ, zero, suc, ◌+◌, ◌-◌, ◌%◌, ◌^◌, true, false, ltb, leb, ◌==◌, if◌then◌else◌, Option, none, some,
  List, [], ◌∷◌, ◌++◌, get_elem?, Run, ok, fault, null_pointer, ◌>>=◌,
}

pub record LinkedList {ℓ} (A : Type ℓ) : Type ℓ where
  pub nodes : List A
  pub size : ℕ

module _ {ℓ} {A : Type ℓ} where
  unfoldable pub ll_init : LinkedList A
  ll_init = record { nodes = []; size = 0 }

  unfoldable pub ll_get_nth_node : LinkedList A → ℕ → Option A
  ll_get_nth_node list n = if list.size == 0 then none else get_elem? list.nodes n

  -- `n` steps from the head to a node, and a new node linked behind it
  unfoldable pub link_behind : ℕ → List A → A → Run (List A)
  link_behind n [] v = fault null_pointer
  link_behind zero (x ∷ nodes) v = ok (x ∷ v ∷ nodes)
  link_behind (suc n) (x ∷ nodes) v = do rest ← link_behind n nodes v; ok (x ∷ rest)

  -- in front, behind `tail`, or in between, for an `n` that is not above the size
  unfoldable pub insert_within : LinkedList A → ℕ → A → Run (LinkedList A)
  insert_within list zero v =
      ok (record { nodes = v ∷ list.nodes; size = (list.size + 1) % 2 ^ 32 })
  insert_within list (suc n) v =
      if suc n == list.size
      then ok (record { nodes = list.nodes ++ v ∷ []; size = (list.size + 1) % 2 ^ 32 })
      else (do
        nodes ← link_behind n list.nodes v
        ok (record { nodes = nodes; size = (list.size + 1) % 2 ^ 32 }))

  unfoldable pub ll_insert_nth : LinkedList A → ℕ → A → Run (LinkedList A)
  ll_insert_nth list n v = insert_within list (if ltb list.size n then list.size else n) v

  -- the node `n` steps from the head is taken out; an empty list has no `head->next`
  unfoldable pub unlink : ℕ → List A → Run (A × List A)
  unlink n [] = fault null_pointer
  unlink zero (x ∷ nodes) = ok (x, nodes)
  unlink (suc n) (x ∷ nodes) = do (v, rest) ← unlink n nodes; ok (v, x ∷ rest)

  unfoldable pub ll_remove_nth_node : LinkedList A → ℕ → Run (A × LinkedList A)
  ll_remove_nth_node list n = do
    (v, nodes) ←
        unlink (if leb list.size n then (list.size + 2 ^ 32 - 1) % 2 ^ 32 else n) list.nodes
    ok (v, record { nodes = nodes; size = (list.size + 2 ^ 32 - 1) % 2 ^ 32 })
