-- ===== src/LoadBalancer/Moving.antt =====
-- The memories that `internal_loader_add_server_with_vnodes` of skel/load_balancer.c leaves hold the
-- shares of the ring with the new place.
use mathlib.Core.Option.{some-injective}
use mathlib.Core.Path.{subst}
use native.Mathlib.Decide.{dec_lt}
use hashring_load_balancer.Base.{
  ℕ, ◌+◌, ◌-◌, ◌*◌, ◌%◌, ◌^◌, ◌<◌, ◌≡◌, ◌≢◌, refl, sym, ap, ◌∙◌, Bool, true, false, ◌==◌, ==_iff,
  ltb, if◌then◌else◌, Bool-cases, inl, inr, ◌⊎◌, some, List, [], ◌∷◌, get_elem?, insert_at, arith,
}
use hashring_load_balancer.ArrayList.{ArrayList}
use hashring_load_balancer.Hash.{hash_uint}
use hashring_load_balancer.Ring
use hashring_load_balancer.Ring.{cmp_servers}
use hashring_load_balancer.Ring.Owner.{place}
use hashring_load_balancer.Ring.Joining.{Joins}
use hashring_load_balancer.Server.{Text, Memory, write_memory}
use hashring_load_balancer.Server.Holds.{Documents}
use hashring_load_balancer.Server.Handling.{IsServer}
use hashring_load_balancer.Transfer.Homes.{left_behind, arrived}
use hashring_load_balancer.Transfer.Owners.{Among}
use hashring_load_balancer.LoadBalancer.Balanced.{share, more-IsServer, same-IsServer}
use hashring_load_balancer.LoadBalancer.Steps.{at_memory, ==-flip}
use hashring_load_balancer.LoadBalancer.Joined.{inserted_cases}
use hashring_load_balancer.LoadBalancer.Replicated.{group, Spread}

third : (x g : ℕ) → x < 300000 → x % 100000 ≡ g → (x ≡ g) ⊎ ((x ≡ g + 100000) ⊎ (x ≡ g + 200000))
third x g small e = elim (dec_lt x 100000) [
  | yes first ↦ inl (omega arith)
  | no later ↦ elim (dec_lt x 200000) [
    | yes second ↦ inr (inl (omega arith))
    | no last ↦ inr (inr (omega arith))
  ]
]

unchanged_memory :
    (memories : ℕ → Memory) (a b c : ℕ)
    → write_memory (write_memory memories a (memories a)) b (memories b) c ≡ memories c
unchanged_memory memories a b c = elim (Bool-cases (c == b)) [
  | inl here ↦ rw here (ap memories (sym ((==_iff c b).0 here)))
  | inr there ↦ elim (Bool-cases (c == a)) [
    | inl here ↦ rw (there, here) (ap memories (sym ((==_iff c a).0 here)))
    | inr other ↦ rw (there, other) refl
  ]
]

module _ {n : ℕ} {ring : List Ring.Server} {servers : ArrayList Ring.Server} {memories : ℕ → Memory}
    {docs : Documents} {d : Ring.Server} {k : ℕ} (s : Spread n ring servers memories docs)
    (j : Joins ring d k) (own : IsServer n (memories d.memory) (share ring docs d.memory)) where
  -- Nothing moves between two places of one server.
  pub each_unchanged :
      (a : ℕ)
      → ((b : ℕ) (q : Text) → share ring docs b q ≡ share (insert_at ring k d) docs b q)
      → n + n < 2 ^ 32 - 1
      → (i : ℕ) (t : Ring.Server) → get_elem? (insert_at ring k d) i ≡ some t
      → IsServer
          (n + n)
          (write_memory
            (write_memory memories a (memories a))
            d.memory
            (memories d.memory)
            t.memory)
          (share (insert_at ring k d) docs t.memory)
  each_unchanged a same small i t e = at_memory (unchanged_memory memories a d.memory t.memory) (
      more-IsServer (n + n)
        (same-IsServer _ (old (inserted_cases ring k i d t j.inside e)) (same t.memory))
        (omega arith) small)
    where
      old :
          ((i ≡ k) × (t ≡ d)) ⊎ ((i ≢ k) × (get_elem? ring (if ltb i k then i else i - 1) ≡ some t))
          → IsServer n (memories t.memory) (share ring docs t.memory)
      old (inl (here, t_is)) =
          subst (λ (u : Ring.Server). IsServer n (memories u.memory) (share ring docs u.memory))
            (sym t_is) own
      old (inr (other, at)) = s.each _ t at

  -- A transfer from another server.
  pub each_moved :
      (src : Ring.Server) (moves : Text → Bool) (m : Memory × Memory)
      → (d.memory == src.memory) ≡ false
      → IsServer (n + n) m.0 (λ q. left_behind (moves q) (share ring docs src.memory q))
      → IsServer
          (n + n)
          m.1
          (λ q. arrived (moves q) (share ring docs src.memory q) (share ring docs d.memory q))
      → ((q : Text)
          → arrived (moves q) (share ring docs src.memory q) (share ring docs d.memory q)
            ≡ share (insert_at ring k d) docs d.memory q)
      → ((q : Text)
          → left_behind (moves q) (share ring docs src.memory q)
            ≡ share (insert_at ring k d) docs src.memory q)
      → ((a : ℕ)
          → (d.memory == a) ≡ false
          → (src.memory == a) ≡ false
          → (q : Text) → share ring docs a q ≡ share (insert_at ring k d) docs a q)
      → n + n < 2 ^ 32 - 1
      → (i : ℕ) (t : Ring.Server) → get_elem? (insert_at ring k d) i ≡ some t
      → IsServer
          (n + n)
          (write_memory (write_memory memories src.memory m.0) d.memory m.1 t.memory)
          (share (insert_at ring k d) docs t.memory)
  each_moved src moves m other s0 s1 at_dest at_src elsewhere small i t e =
      let written = write_memory memories src.memory m.0 in
      elim (Bool-cases (t.memory == d.memory)) [
        | inl here ↦ at_memory (rw here refl) (
            subst (λ a. IsServer (n + n) m.1 (share (insert_at ring k d) docs a))
              (sym ((==_iff t.memory d.memory).0 here)) (same-IsServer _ s1 at_dest))
        | inr there ↦ elim (Bool-cases (t.memory == src.memory)) [
          | inl here ↦ at_memory (rw (there, here) refl) (
              subst (λ a. IsServer (n + n) m.0 (share (insert_at ring k d) docs a))
                (sym ((==_iff t.memory src.memory).0 here)) (same-IsServer _ s0 at_src))
          | inr away ↦ at_memory (rw (there, away) refl) (
              more-IsServer (n + n)
                (same-IsServer _ (old there (inserted_cases ring k i d t j.inside e)) (
                  elsewhere t.memory (==-flip t.memory d.memory there)
                    (==-flip t.memory src.memory away)))
                (omega arith) small)
        ]
      ]
    where
      old :
          (t.memory == d.memory) ≡ false
          → ((i ≡ k) × (t ≡ d))
            ⊎ ((i ≢ k) × (get_elem? ring (if ltb i k then i else i - 1) ≡ some t))
          → IsServer n (memories t.memory) (share ring docs t.memory)
      old there (inl (here, t_is)) =
          let same = ap (λ (u : Ring.Server). u.memory) t_is in absurd (ground (arith, there, same))
      old there (inr (before, at)) = s.each _ t at

  -- All the places of the next server are among its replicas.
  pub every_place :
      (src o t0 t1 t2 : Ring.Server) (l l' j0 j1 j2 : ℕ)
      → get_elem? ring l ≡ some src
      → get_elem? ring l' ≡ some o
      → (o.memory == src.memory) ≡ true
      → (get_elem? ring j0 ≡ some t0) × (t0.id ≡ group src + 0 * 100000)
      → (get_elem? ring j1 ≡ some t1) × (t1.id ≡ group src + 1 * 100000)
      → (get_elem? ring j2 ≡ some t2) × (t2.id ≡ group src + 2 * 100000)
      → Among o (t0 ∷ t1 ∷ t2 ∷ [])
  every_place src o t0 t1 t2 l l' j0 j1 j2 src_at o_at mine (a0, e0) (a1, e1) (a2, e2) =
      let groups : group o ≡ group src =
        s.apart l' l o src o_at src_at ((==_iff o.memory src.memory).0 mine) in
      elim (third o.id (group src) (s.ids l' o o_at) groups) [
        | inl first ↦ inl (one j0 t0 a0 (omega (arith, e0)))
        | inr (inl second) ↦ inr (inl (one j1 t1 a1 (omega (arith, e1))))
        | inr (inr last) ↦ inr (inr (inl (one j2 t2 a2 (omega (arith, e2)))))
      ]
    where
      one : (i : ℕ) (t : Ring.Server) → get_elem? ring i ≡ some t → o.id ≡ t.id → o ≡ t
      one i t at same =
          let places : place o ≡ place t = ap hash_uint same in
          let index : l' ≡ i =
            ground (arith, s.is_ring.ordered l' i o t, s.is_ring.ordered i l' t o) in
          some-injective o t (sym o_at ∙ ap (get_elem? ring) index ∙ at)
