-- ===== src/LoadBalancer/Growing.antt =====
-- The places of one server join the ring of skel/load_balancer.c one after another.
use hashring_load_balancer.Base.{
  ℕ, ◌+◌, ◌-◌, ◌%◌, ◌^◌, ◌≤◌, ◌<◌, ◌≡◌, ◌≢◌, sym, ap, ◌∙◌, ◌==◌, ==_iff, Bool-cases, inl, inr, some,
  List, length, get_elem?, insert_at, length-insert_at, get_elem?_total, get_elem?_bound, arith,
}
use native.Mathlib.Decide.{dec_lt}
use hashring_load_balancer.ArrayList.{ArrayList}
use hashring_load_balancer.ArrayList.Search.{al_insert_ordered-Holds}
use hashring_load_balancer.Hash.{hash_string, hash_uint}
use hashring_load_balancer.Hash.Injective.{hash_uint_injective}
use hashring_load_balancer.Ring
use hashring_load_balancer.Ring.{cmp_servers}
use hashring_load_balancer.Ring.Owner.{place}
use hashring_load_balancer.Ring.Joining.{Joins, Splits-Joins}
use hashring_load_balancer.Server.{Text, Memory, write_memory}
use hashring_load_balancer.Server.Holds.{Documents}
use hashring_load_balancer.Server.Handling.{IsServer}
use hashring_load_balancer.LoadBalancer.Balanced.{share, share-absent}
use hashring_load_balancer.LoadBalancer.Steps.{old_source}
use hashring_load_balancer.LoadBalancer.Joined.{inserted_cases, joined_member, new_at}
use hashring_load_balancer.LoadBalancer.Adding.{place-Monotone}
use hashring_load_balancer.LoadBalancer.Replicated.{group, Spread, Complete, shared_itself}
use hashring_load_balancer.LoadBalancer.Replica.{Inserted, insert_before_own, insert_before_other}

-- A server with the group `g` and its memory at `a` is on the ring with those of its places that have
-- ids below `b`.
pub record Growing (g a b n : ℕ) (ring : List Ring.Server) (servers : ArrayList Ring.Server)
    (memories : ℕ → Memory) (docs : Documents) : Type 0 where
  pub spread : Spread n ring servers memories docs
  pub complete : Complete ring (λ h. h == g)
  pub joins : (i : ℕ) (t : Ring.Server) → get_elem? ring i ≡ some t → group t ≡ g → t.memory ≡ a
  pub parts : (i : ℕ) (t : Ring.Server) → get_elem? ring i ≡ some t → t.memory ≡ a → group t ≡ g
  pub low : (i : ℕ) (t : Ring.Server) → get_elem? ring i ≡ some t → group t ≡ g → t.id < b
  pub used : (i : ℕ) (t : Ring.Server) → get_elem? ring i ≡ some t → t.memory ≤ a
  pub own : IsServer n (memories a) (share ring docs a)

module _ {b n : ℕ} {ring : List Ring.Server} {servers : ArrayList Ring.Server}
    {memories : ℕ → Memory} {docs : Documents} (d : Ring.Server)
    (w : Growing (group d) d.memory b n ring servers memories docs) (id_is : d.id ≡ b)
    (small_id : d.id < 300000)
    (away : (q c : Text) → docs q ≡ some c → hash_string q ≢ hash_uint d.id)
    (short : length ring < 2 ^ 30) (small : n + n < 2 ^ 32 - 1) where
  new_id : (i : ℕ) (t : Ring.Server) → get_elem? ring i ≡ some t → place t ≢ place d
  new_id i t e same =
      let ids : t.id ≡ d.id =
        hash_uint_injective t.id d.id (omega (arith, w.spread.ids i t e)) (omega (arith, small_id))
          same in
      let below = w.low i t e (ap (λ x. x % 100000) ids) in omega (arith, ids, id_is, below)

  pub place-Inserted : Inserted n ring d servers memories docs
  place-Inserted =
      let s = w.spread in
      let (r, run, (held, split)) =
        al_insert_ordered-Holds d cmp_servers s.held (place-Monotone ring d s.is_ring) short in
      let j = Splits-Joins split new_id in
      let ring' = insert_at ring r.1 d in
      let (src, next) =
        get_elem?_total ring' ((r.1 + 1) % length ring')
          (omega (arith, length-insert_at ring r.1 d)) in
      elim (dec_lt 0 (length ring)) [
        | yes filled ↦
            let (l, src_at) = old_source ring r.1 d src filled j.inside next in
            elim (Bool-cases (group src == group d)) [
              | inl mine ↦
                  let same = (==_iff (group src) (group d)).0 mine in
                  insert_before_own s j away small_id w.joins w.parts w.own short small r.0 run held
                    src next same
                    (shared_itself s j away src l src_at next (w.joins l src src_at same))
              | inr other ↦
                  insert_before_other s j away small_id w.joins w.parts w.own short small r.0 run
                    held src l next src_at other w.complete
            ]
        | no none' ↦
            insert_before_own s j away small_id w.joins w.parts w.own short small r.0 run held src
              next (first r.1 src j none' next)
              (λ a q.
                let absent = s.unplaced (omega arith) q in
                share-absent ring docs a q absent
                ∙ sym (share-absent (insert_at ring r.1 d) docs a q absent))
      ]
    where
      first :
          (k : ℕ) (src : Ring.Server)
          → Joins ring d k
          → ¬ (0 < length ring)
          → get_elem? (insert_at ring k d) ((k + 1) % length (insert_at ring k d)) ≡ some src
          → group src ≡ group d
      first k src j empty next =
          elim (inserted_cases ring k ((k + 1) % length (insert_at ring k d)) d src j.inside next) [
            | inl (same, new) ↦ ap group new
            | inr (other, at) ↦ absurd (empty (omega (arith, get_elem?_bound ring _ at)))
          ]

  -- The ring with the place.
  pub place-Growing :
      (x : Inserted n ring d servers memories docs)
      → Growing
          (group d)
          d.memory
          (b + 100000)
          (n + n)
          (insert_at ring x.k d)
          x.list
          (write_memory (write_memory memories x.src.memory x.moved.1.0) d.memory x.moved.1.1)
          docs
  place-Growing x = record {
    spread = x.spread;
    complete = λ i t c e other less. elim (inserted_cases ring x.k i d t x.inside e) [
      | inl (here, t_is) ↦ let same = ap group t_is in absurd (ground (arith, other, same))
      | inr (before, at) ↦
          let (l, u, u_at, id) = w.complete _ t c at other less in
          (_, u, joined_member ring x.k l d u x.inside u_at, id)
    ];
    joins = λ i t e same. elim (inserted_cases ring x.k i d t x.inside e) [
      | inl (here, t_is) ↦ ap (λ (u : Ring.Server). u.memory) t_is
      | inr (before, at) ↦ w.joins _ t at same
    ];
    parts = λ i t e same. elim (inserted_cases ring x.k i d t x.inside e) [
      | inl (here, t_is) ↦ ap group t_is
      | inr (before, at) ↦ w.parts _ t at same
    ];
    low = λ i t e same. elim (inserted_cases ring x.k i d t x.inside e) [
      | inl (here, t_is) ↦ let id = ap (λ (u : Ring.Server). u.id) t_is in omega (arith, id, id_is)
      | inr (before, at) ↦ omega (arith, w.low _ t at same)
    ];
    used = λ i t e. elim (inserted_cases ring x.k i d t x.inside e) [
      | inl (here, t_is) ↦ let same = ap (λ (u : Ring.Server). u.memory) t_is in omega (arith, same)
      | inr (before, at) ↦ w.used _ t at
    ];
    own = x.spread.each x.k d (new_at ring x.k d x.inside);
  }
