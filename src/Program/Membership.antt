-- ===== src/Program/Membership.antt =====
-- `apply_requests` of skel/main.c for the requests that add and remove a server.
use mathlib.Core.Option.{some-injective}
use hashring_load_balancer.Base.{
  ◌⊎◌, ℕ, suc, ◌+◌, ◌-◌, ◌%◌, ◌^◌, ◌<◌, ◌≡◌, ◌≢◌, refl, sym, ap, ◌∙◌, Bool, true, false, ◌||◌, ◌==◌,
  if◌then◌else◌, ltb, ==_iff, Bool-cases, inl, inr, some, List, get_elem?, insert_at, erase_at,
  length-insert_at, length-erase_at, get_elem?-insert_at, get_elem?-erase_at, get_elem?_bound,
  Returns, arith,
}
use hashring_load_balancer.Base.Int.{pos}
use hashring_load_balancer.Hash.{hash_string, hash_uint}
use hashring_load_balancer.Ring
use hashring_load_balancer.Server.{Text}
use hashring_load_balancer.LoadBalancer.{LoadBalancer, loader_add_server, loader_remove_server}
use hashring_load_balancer.LoadBalancer.Adding.{loader_add_server-IsBalancer}
use hashring_load_balancer.LoadBalancer.Removing.{loader_remove_server-IsBalancer}
use hashring_load_balancer.LoadBalancer.Joined.{inserted_cases, joined_member}
use hashring_load_balancer.LoadBalancer.Left.{erased_at}
use hashring_load_balancer.Reader.{add, remove}
use hashring_load_balancer.Program.{apply_request}
use hashring_load_balancer.Program.Cluster.{Cluster, Implements}

add_lem :
    (lb : LoadBalancer) (id size : ℕ)
    → id < 100000
    → size < 2 ^ 31
    → apply_request lb (add (pos id) (pos size)) ≡ loader_add_server lb id size
unfolding apply_request
add_lem lb id size p q =
    let id' : id % 2 ^ 32 ≡ id = omega arith in
    let size' : size % 2 ^ 32 ≡ size = omega arith in rw (id', size') refl

remove_lem :
    (lb : LoadBalancer) (id : ℕ)
    → id < 100000
    → apply_request lb (remove (pos id)) ≡ loader_remove_server lb id
unfolding apply_request
remove_lem lb id p = let id' : id % 2 ^ 32 ≡ id = omega arith in rw id' refl

left_member :
    {A : Type 0} (xs : List A) (k i : ℕ) (s : A)
    → i ≢ k
    → get_elem? xs i ≡ some s
    → get_elem? (erase_at xs k) (if ltb i k then i else i - 1) ≡ some s
left_member xs k i s other e =
    ground (arith, get_elem?-erase_at xs k i, get_elem?-erase_at xs k (i - 1), sub_add i)
  where
    sub_add : (j : ℕ) → 0 < j → j - 1 + 1 ≡ j
    sub_add j p = omega arith

new_or_old : (a b : ℕ) (m : Bool) → (a == b || m) ≡ true → (a ≡ b) ⊎ (m ≡ true)
new_or_old a b m e = ground arith

not_removed : (a b : ℕ) (m : Bool) → (if a == b then false else m) ≡ true → (a ≢ b) × (m ≡ true)
not_removed a b m e = ground arith

module _ {c : Cluster} {lb : LoadBalancer} (im : Implements c lb) where
  pub add_step :
      (id size : ℕ)
      → c.members id ≡ false
      → id < 100000
      → ((q w : Text) → c.documents q ≡ some w → hash_string q ≢ hash_uint id)
      → c.count < 2 ^ 30
      → 0 < size
      → size < 2 ^ 31
      → Returns (apply_request lb (add (pos id) (pos size))) (λ r.
        Implements (record c { count = suc c.count; members = λ x. x == id || c.members x }) r.1)
  add_step id size new small away short positive small_size =
      let (r, run, (k, inside, b)) =
        loader_add_server-IsBalancer im.ring lb c.documents id size im.is_balancer small
          (λ i s e same. ground (arith, new, im.listed i s e)) away (omega (arith, im.counted))
          positive (omega arith) in
      (
        r,
        add_lem lb id size small small_size ∙ run,
        record {
          ring = insert_at im.ring k (record { id = id; memory = lb.fresh });
          is_balancer = b;
          counted = length-insert_at im.ring k _ ∙ ap suc im.counted;
          listed = λ i s e. ground (
            arith,
            inserted_cases im.ring k i (record { id = id; memory = lb.fresh }) s inside e,
            im.listed (if ltb i k then i else i - 1) s,
          );
          found = λ x e. elim (new_or_old x id (c.members x) e) [
            | inl here ↦ (
              k,
              record { id = id; memory = lb.fresh },
              ground (
                arith,
                get_elem?-insert_at im.ring k k (record { id = id; memory = lb.fresh }) inside,
              ),
              sym here,
            )
            | inr there ↦
                let (i, s, at, same) = im.found x there in
                (
                  _,
                  s,
                  joined_member im.ring k i (record { id = id; memory = lb.fresh }) s inside at,
                  same,
                )
          ];
        },
      )

  pub remove_step :
      (id : ℕ)
      → c.members id ≡ true
      → 1 < c.count
      → c.bound + c.bound < 2 ^ 32 - 1
      → Returns (apply_request lb (remove (pos id))) (λ r.
        Implements
          (record c {
            bound = c.bound + c.bound;
            count = c.count - 1;
            members = λ x. if x == id then false else c.members x;
          })
          r.1)
  remove_step id there two small =
      let (k, s, at, same) = im.found id there in
      let (r, run, b) =
        loader_remove_server-IsBalancer im.ring lb c.documents k s im.is_balancer at
          (omega (arith, im.counted)) small in
      let small_id : id < 100000 = omega (arith, same, im.is_balancer.ids k s at) in
      (
        r,
        remove_lem lb id small_id ∙ ap (loader_remove_server lb) (sym same) ∙ run,
        record {
          ring = erase_at im.ring k;
          is_balancer = b;
          counted =
              omega (arith, length-erase_at im.ring k (get_elem?_bound im.ring k at), im.counted);
          listed = λ i t e.
              let (other, t_at) = erased_at im.ring k i t e in
              let apart : (t.id == id) ≡ false = one_id _ k t s id other t_at at same in
              rw apart (im.listed _ t t_at);
          found = λ x e.
              let (other, here) = not_removed x id (c.members x) e in
              let (i, t, t_at, t_same) = im.found x here in
              (
                _,
                t,
                left_member im.ring k i t
                    (λ index. other (same_id i k x t s t_at at t_same same index)) t_at,
                t_same,
              );
        },
      )
    where
      same_id :
          (i k x : ℕ) (t s : Ring.Server)
          → get_elem? im.ring i ≡ some t
          → get_elem? im.ring k ≡ some s
          → t.id ≡ x
          → s.id ≡ id
          → i ≡ k
          → x ≡ id
      same_id i k x t s t_at at t_same same index =
          let one : t ≡ s = some-injective t s (sym t_at ∙ ap (get_elem? im.ring) index ∙ at) in
          sym t_same ∙ ap (λ (u : Ring.Server). u.id) one ∙ same

      one_id :
          (i k : ℕ) (t s : Ring.Server) (id : ℕ)
          → i ≢ k
          → get_elem? im.ring i ≡ some t
          → get_elem? im.ring k ≡ some s
          → s.id ≡ id
          → (t.id == id) ≡ false
      one_id i k t s id other t_at at same = elim (Bool-cases (t.id == id)) [
        | inl here ↦
            let places : hash_uint t.id ≡ hash_uint s.id =
              ap hash_uint ((==_iff t.id id).0 here ∙ sym same) in
            absurd (
              ground (
                arith,
                im.is_balancer.is_ring.ordered i k t s,
                im.is_balancer.is_ring.ordered k i s t,
              ))
        | inr there ↦ there
      ]
