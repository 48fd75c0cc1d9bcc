-- ===== src/DoublyLinkedList/Entry.antt =====
-- A write of the data of a node, as `lru_cache_put` of skel/lru_cache.c makes it, keeps the list.
use hashring_load_balancer.Base.{
  ℕ, ◌≡◌, refl, sym, ◌∙◌, none, some, [], ◌∷◌, ◌++◌, length-append, arith,
}
use hashring_load_balancer.DoublyLinkedList.{Node, DoublyLinkedList, update, store}
use hashring_load_balancer.DoublyLinkedList.Chain.{
  Nodes, first, last, has, Apart, first-append, last-append, frame-update, split, join, part,
}
use hashring_load_balancer.DoublyLinkedList.Holds.{IsDll}

module _ {A : Type 0} where
  has_same :
      (a : ℕ) (ys : Nodes A) (p : ℕ) (v w : A) (zs : Nodes A)
      → has a (ys ++ (p, v) ∷ zs) ≡ has a (ys ++ (p, w) ∷ zs)
  has_same a [] p v w zs = refl
  has_same a (e ∷ ys) p v w zs = ground (arith, has_same a ys p v w zs)

  same-Apart :
      (ys : Nodes A) (p : ℕ) (v w : A) (zs : Nodes A)
      → Apart (ys ++ (p, v) ∷ zs)
      → Apart (ys ++ (p, w) ∷ zs)
  same-Apart [] p v w zs apart = apart
  same-Apart (e ∷ ys) p v w zs apart =
      (sym (has_same e.0 ys p v w zs) ∙ apart.0, same-Apart ys p v w zs apart.1)

  pub store-IsDll :
      (list : DoublyLinkedList A) (ys : Nodes A) (p : ℕ) (v w : A) (zs : Nodes A)
      → IsDll list (ys ++ (p, v) ∷ zs)
      → IsDll
          (store list p (record { next = first zs none; prev = last none ys; entry = w }))
          (ys ++ (p, w) ∷ zs)
  unfolding store
  store-IsDll list ys p v w zs holds =
      let node : Node A = record { next = first zs none; prev = last none ys; entry = w } in
      let parted = part ys p v zs holds.apart in
      let (c, d) = split list.cells none ys ((p, v) ∷ zs) none holds.chain in
      let long = length-append ys ((p, v) ∷ zs) in
      let long2 = length-append ys ((p, w) ∷ zs) in
      record {
        head_is =
            holds.head_is
            ∙ first-append ys ((p, v) ∷ zs) none
            ∙ sym (first-append ys ((p, w) ∷ zs) none);
        tail_is =
            holds.tail_is
            ∙ last-append none ys ((p, v) ∷ zs)
            ∙ sym (last-append none ys ((p, w) ∷ zs));
        size_is = omega (arith, holds.size_is);
        small = omega (arith, holds.small);
        chain =
            join (update list.cells p (some node)) none ys ((p, w) ∷ zs) none
              (frame-update list.cells none ys (some p) p (some node) c parted.left_out)
              (
                ground arith,
                frame-update list.cells (some p) zs none p (some node) d.1 parted.right_out,
              );
        apart = same-Apart ys p v w zs holds.apart;
        old = λ a h. holds.old a (has_same a ys p v w zs ∙ h);
      }
