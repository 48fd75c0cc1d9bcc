-- ===== src/DoublyLinkedList/Chain.antt =====
-- Chains of nodes, as the pointers of skel/doubly_linked_list.c link them.
use hashring_load_balancer.Base.{
  ℕ, ◌≡◌, refl, Bool, true, false, ◌||◌, ◌==◌, Option, some, List, [], ◌∷◌, ◌++◌, arith,
}
use mathlib.Core.Path.{subst}
use hashring_load_balancer.DoublyLinkedList.{Ptr, Node, update}

-- address and data of each node, in order
abbrev pub Nodes : Type 0 → Type 0
Nodes A = List (ℕ × A)

module _ {A : Type 0} where
  -- the address of the first node, or `end` if there is none
  abbrev pub first : Nodes A → Ptr → Ptr
  first [] end = end
  first (e ∷ xs) end = some e.0

  -- the address of the last node, or `start`
  abbrev pub last : Ptr → Nodes A → Ptr
  last start [] = start
  last start (e ∷ xs) = last (some e.0) xs

  abbrev pub has : ℕ → Nodes A → Bool
  has a [] = false
  has a (e ∷ xs) = (a == e.0) || has a xs

  abbrev pub Apart : Nodes A → Type 0
  Apart [] = Unit
  Apart (e ∷ xs) = (has e.0 xs ≡ false) × Apart xs

  -- `xs` is linked both ways; before it stands `start`, and behind it `end`
  abbrev pub Chain : (ℕ → Option (Node A)) → Ptr → Nodes A → Ptr → Type 0
  Chain cells start [] end = Unit
  Chain cells start (e ∷ xs) end =
      (cells e.0 ≡ some (record { next = first xs end; prev = start; entry = e.1 }))
      × Chain cells (some e.0) xs end

  pub has-append : (a : ℕ) (ys zs : Nodes A) → has a (ys ++ zs) ≡ (has a ys || has a zs)
  has-append a [] zs = refl
  has-append a (e ∷ ys) zs = ground (arith, has-append a ys zs)

  pub has_before :
      (a : ℕ) (ys : Nodes A) (e : ℕ × A) (zs : Nodes A)
      → has a (ys ++ zs) ≡ true
      → has a (ys ++ e ∷ zs) ≡ true
  has_before a [] e zs h = ground arith
  has_before a (f ∷ ys) e zs h = ground (arith, has_before a ys e zs)

  pub has_self : (p : ℕ) (ys : Nodes A) (v : A) (zs : Nodes A) → has p (ys ++ (p, v) ∷ zs) ≡ true
  has_self p [] v zs = ground arith
  has_self p (f ∷ ys) v zs = ground (arith, has_self p ys v zs)

  pub first-append : (ys zs : Nodes A) (end : Ptr) → first (ys ++ zs) end ≡ first ys (first zs end)
  first-append [] zs end = refl
  first-append (e ∷ ys) zs end = refl

  pub last-append :
      (start : Ptr) (ys zs : Nodes A) → last start (ys ++ zs) ≡ last (last start ys) zs
  last-append start [] zs = refl
  last-append start (e ∷ ys) zs = last-append (some e.0) ys zs

  -- A chain survives a change elsewhere.
  pub frame :
      (cells cells' : ℕ → Option (Node A)) (start : Ptr) (xs : Nodes A) (end : Ptr)
      → Chain cells start xs end
      → ((a : ℕ) → has a xs ≡ true → cells' a ≡ cells a)
      → Chain cells' start xs end
  frame cells cells' start [] end c same = tt
  frame cells cells' start (e ∷ xs) end c same = (
    ground (arith, same e.0),
    frame cells cells' (some e.0) xs end c.1 (λ a h. ground (arith, same a)),
  )

  pub has-distinct :
      (a p : ℕ) (xs : Nodes A) → has a xs ≡ true → has p xs ≡ false → (a == p) ≡ false
  has-distinct a p [] h out = ground arith
  has-distinct a p (e ∷ xs) h out = ground (arith, has-distinct a p xs)

  pub update_elsewhere :
      (cells : ℕ → Option (Node A)) (q : ℕ) (v : Option (Node A)) (a : ℕ) (xs : Nodes A)
      → has q xs ≡ true
      → has a xs ≡ false
      → update cells q v a ≡ cells a
  update_elsewhere cells q v a xs inside out =
      let other = has-distinct q a xs inside out in ground arith

  pub frame-update :
      (cells : ℕ → Option (Node A)) (start : Ptr) (xs : Nodes A) (end : Ptr) (p : ℕ)
      (v : Option (Node A))
      → Chain cells start xs end
      → has p xs ≡ false
      → Chain (update cells p v) start xs end
  frame-update cells start xs end p v c out =
      frame cells (update cells p v) start xs end c (λ a h. rw (has-distinct a p xs h out))

  pub split :
      (cells : ℕ → Option (Node A)) (start : Ptr) (ys zs : Nodes A) (end : Ptr)
      → Chain cells start (ys ++ zs) end
      → Chain cells start ys (first zs end) × Chain cells (last start ys) zs end
  split cells start [] zs end c = (tt, c)
  split cells start (e ∷ ys) zs end c =
      let rest = split cells (some e.0) ys zs end c.1 in ((rw first-append at c.0, rest.0), rest.1)

  pub join :
      (cells : ℕ → Option (Node A)) (start : Ptr) (ys zs : Nodes A) (end : Ptr)
      → Chain cells start ys (first zs end)
      → Chain cells (last start ys) zs end
      → Chain cells start (ys ++ zs) end
  join cells start [] zs end c d = d
  join cells start (e ∷ ys) zs end c d =
      (rw first-append c.0, join cells (some e.0) ys zs end c.1 d)

  pub last-some :
      (p : ℕ) (xs : Nodes A) → (q : ℕ) × (last (some p) xs ≡ some q) × ((q == p || has q xs) ≡ true)
  last-some p [] = (p, refl, ground arith)
  last-some p (e ∷ xs) = let (q, is, inside) = last-some e.0 xs in (q, is, ground arith)

  last-distinct :
      (a : ℕ) (f : ℕ × A) (xs : Nodes A) (q : ℕ)
      → has a (f ∷ xs) ≡ false
      → last (some f.0) xs ≡ some q
      → (a == q) ≡ false
  last-distinct a f [] q out l = ground arith
  last-distinct a f (g ∷ xs) q out l = last-distinct a g xs q (ground arith) l

  -- A write of `next` at the last node of a chain.
  pub relink_last :
      (cells : ℕ → Option (Node A)) (start : Ptr) (e : ℕ × A) (xs : Nodes A) (end : Ptr) (q : ℕ)
      → Chain cells start (e ∷ xs) end
      → Apart (e ∷ xs)
      → last (some e.0) xs ≡ some q
      → (n : Node A) × (cells q ≡ some n)
        × ((v : Ptr) → Chain (update cells q (some (record n { next = v }))) start (e ∷ xs) v)
  relink_last cells start e [] end q c apart is_last =
      let same : e.0 ≡ q = ground arith in
      (
        record { next = end; prev = start; entry = e.1 },
        subst (λ a. cells a ≡ some (record { next = end; prev = start; entry = e.1 })) same c.0,
        λ v. (ground arith, tt),
      )
  relink_last cells start e (f ∷ xs) end q c apart is_last =
      let (n, at, new) = relink_last cells (some e.0) f xs end q c.1 apart.1 is_last in
      let other : (e.0 == q) ≡ false = last-distinct e.0 f xs q apart.0 is_last in
      (n, at, λ v. (rw other c.0, new v))

  -- A write of `prev` at the first node.
  pub relink_first :
      (cells : ℕ → Option (Node A)) (start : Ptr) (e : ℕ × A) (xs : Nodes A) (end v : Ptr)
      → Chain cells start (e ∷ xs) end
      → Apart (e ∷ xs)
      → Chain
          (update cells e.0 (some (record { next = first xs end; prev = v; entry = e.1 })))
          v
          (e ∷ xs)
          end
  relink_first cells start e xs end v c apart =
      (ground arith, frame-update cells (some e.0) xs end e.0 _ c.1 apart.0)

  -- No address is in both parts, and none is `p`.
  pub record Parted (ys : Nodes A) (p : ℕ) (zs : Nodes A) : Type 0 where
    pub left : Apart ys
    pub right : Apart zs
    pub left_out : has p ys ≡ false
    pub right_out : has p zs ≡ false
    pub across : (a : ℕ) → has a ys ≡ true → has a zs ≡ false

  pub part :
      (ys : Nodes A) (p : ℕ) (v : A) (zs : Nodes A) → Apart (ys ++ (p, v) ∷ zs) → Parted ys p zs
  part [] p v zs apart = record {
    left = tt;
    right = apart.1;
    left_out = refl;
    right_out = apart.0;
    across = λ a h. cc;
  }
  part (e ∷ ys) p v zs apart =
      let rest = part ys p v zs apart.1 in
      let away = has-append e.0 ys ((p, v) ∷ zs) in
      record {
        left = (ground arith, rest.left);
        right = rest.right;
        left_out = ground (arith, rest.left_out);
        right_out = rest.right_out;
        across = λ a h. ground (arith, rest.across a);
      }

  pub Apart-append :
      (ys zs : Nodes A)
      → Apart ys
      → Apart zs
      → ((a : ℕ) → has a ys ≡ true → has a zs ≡ false)
      → Apart (ys ++ zs)
  Apart-append [] zs l r across = r
  Apart-append (e ∷ ys) zs l r across = (
    ground (arith, has-append e.0 ys zs, across e.0),
    Apart-append ys zs l.1 r (λ a h. ground (arith, across a)),
  )
