-- ===== src/LoadBalancer/Steps.antt =====
-- Equations of the runs of skel/load_balancer.c that add a server, and reads of the memories that
-- they write.
use mathlib.Core.Path.{subst}
use native.Mathlib.Decide.{dec_lt}
use hashring_load_balancer.Base.{
  ℕ, suc, ◌+◌, ◌%◌, ◌^◌, ◌≤◌, ◌<◌, length, length-insert_at, get_elem?, insert_at, inl, inr, List,
  some, ◌≡◌, ◌≢◌, refl, sym, ap, true, false, ◌==◌, none, [], ok, Run, ◌>>=◌, arith,
}
use hashring_load_balancer.ArrayList.{ArrayList, al_get, al_insert_ordered}
use hashring_load_balancer.Ring
use hashring_load_balancer.Ring.{compare_uints, cmp_servers}
use hashring_load_balancer.Server.{Memory, Line, init_server, write_memory}
use hashring_load_balancer.Server.Holds.{Documents}
use hashring_load_balancer.Server.Handling.{IsServer}
use hashring_load_balancer.Transfer.{transfer_files}
use hashring_load_balancer.LoadBalancer.Joined.{inserted_cases}
use hashring_load_balancer.LoadBalancer.{
  LoadBalancer, make_server, next_index, internal_loader_add_server, loader_add_server,
  add_server_for,
}

abbrev pub joining_server : LoadBalancer → ℕ → Ring.Server
joining_server lb server_id = record { id = server_id; memory = lb.fresh }

-- the memories with that of the new server
abbrev pub enlarged : LoadBalancer → ℕ → ℕ → Memory
enlarged lb cache_size = write_memory lb.memories lb.fresh (init_server cache_size)

pub plain_lem :
    (lb : LoadBalancer) (server_id cache_size : ℕ)
    → lb.has_vnodes ≡ false
    → loader_add_server lb server_id cache_size
      ≡ (internal_loader_add_server lb server_id cache_size none >>= λ r. ok r.1)
unfolding loader_add_server add_server_for
plain_lem lb server_id cache_size e = ap (λ v. add_server_for v lb server_id cache_size) e

pub internal_step :
    (lb : LoadBalancer) (server_id cache_size : ℕ) (r : ArrayList Ring.Server × ℕ) (x : ℕ)
    (src dest : Ring.Server) (t : List Line × (Memory × Memory))
    → al_insert_ordered lb.servers (joining_server lb server_id) cmp_servers ≡ ok r
    → next_index r.0.size r.1 ≡ ok x
    → al_get r.0 x ≡ ok src
    → al_get r.0 r.1 ≡ ok dest
    → transfer_files src.id dest.id
        (enlarged lb cache_size src.memory)
        (enlarged lb cache_size dest.memory)
        false
      ≡ ok t
    → internal_loader_add_server lb server_id cache_size none
      ≡ ok (
        dest,
        (
          t.0,
          record lb {
            servers = r.0;
            memories =
                write_memory
                  (write_memory (enlarged lb cache_size) src.memory t.1.0)
                  dest.memory
                  t.1.1;
            fresh = suc lb.fresh;
          },
        ),
      )
unfolding internal_loader_add_server make_server
internal_step lb server_id cache_size r x src dest t e2 e3 e4 e5 e6 = rw (e2, e3, e4, e5, e6) refl

pub then_ok :
    {A B : Type 0} (run : Run (A × B)) (a : A) (b : B)
    → run ≡ ok (a, b)
    → (run >>= λ r. ok r.1) ≡ ok b
then_ok run a b e = rw e refl

pub next_index-ok :
    (size index : ℕ)
    → index < size
    → size < 2 ^ 31
    → next_index size index ≡ ok ((index + 1) % size)
unfolding next_index
next_index-ok size index less small =
    let some_servers : (size == 0) ≡ false = ground arith in
    let no_wrap : (index + 1) % 2 ^ 32 ≡ index + 1 = omega arith in rw (some_servers, no_wrap) refl

pub written_itself : (memories : ℕ → Memory) (a : ℕ) (m : Memory) → write_memory memories a m a ≡ m
written_itself memories a m = let itself : (a == a) ≡ true = ground arith in rw itself refl

pub written_other :
    (memories : ℕ → Memory) (a b : ℕ) (m : Memory)
    → (b == a) ≡ false
    → write_memory memories a m b ≡ memories b
written_other memories a b m other = rw other refl

pub at_memory :
    {n : ℕ} {m m' : Memory} {docs : Documents} → m ≡ m' → IsServer n m' docs → IsServer n m docs
at_memory {n} {docs} e s = subst (λ m. IsServer n m docs) (sym e) s

pub ==-flip : (a b : ℕ) → (a == b) ≡ false → (b == a) ≡ false
==-flip a b e = ground arith

-- A transfer from a server to itself does nothing.
pub transfer_files-itself :
    (id : ℕ) (src dest : Memory) → transfer_files id id src dest false ≡ ok ([], (src, dest))
unfolding transfer_files
transfer_files-itself id src dest =
    let same : (id % 100000 == id % 100000) ≡ true = ground arith in rw same refl

pub other_index : (k n : ℕ) → k < n → 1 < n → (k + 1) % n ≢ k
other_index k n inside two same = elim (dec_lt (k + 1) n) [
  | yes inner ↦ let small : (k + 1) % n ≡ k + 1 = grind (arith, inner) in omega arith
  | no outer ↦
      let last : k + 1 ≡ n = omega arith in
      let round : (k + 1) % n ≡ 0 = grind (arith, last) in omega arith
]

pub distinct_ids : (a b : ℕ) → a < 100000 → b < 100000 → a ≢ b → (a % 100000 == b % 100000) ≡ false
distinct_ids a b p q other =
    let a' : a % 100000 ≡ a = omega arith in
    let b' : b % 100000 ≡ b = omega arith in rw (a', b') (ground (arith, other))

-- The next server on the ring with a new one was there before.
pub old_source :
    (ring : List Ring.Server) (k : ℕ) (d src : Ring.Server)
    → 0 < length ring
    → k ≤ length ring
    → get_elem? (insert_at ring k d) ((k + 1) % length (insert_at ring k d)) ≡ some src
    → (l : ℕ) × (get_elem? ring l ≡ some src)
old_source ring k d src filled inside next =
    let x = (k + 1) % length (insert_at ring k d) in
    elim (inserted_cases ring k x d src inside next) [
      | inl (same, new) ↦ absurd (
          other_index k (length (insert_at ring k d))
            (omega (arith, length-insert_at ring k d, inside))
            (omega (arith, length-insert_at ring k d, filled)) same)
      | inr (other, at) ↦ (_, at)
    ]
