-- ===== src/LoadBalancer/Balanced.antt =====
-- What the load balancer of skel/load_balancer.c keeps: each document is on the server that owns its
-- name, and nowhere else.
use hashring_load_balancer.Base.{
  ℕ, ◌-◌, ◌^◌, ◌≤◌, ◌<◌, ◌≡◌, ◌≢◌, refl, sym, ap, ◌∙◌, true, false, ◌==◌, if◌then◌else◌, Bool-cases,
  inl, inr, Option, none, some, List, [], length, get_elem?, arith,
}
use hashring_load_balancer.ArrayList.Holds.{Holds, al_init-Holds}
use hashring_load_balancer.HashMap.KeyFunctions.{◌≈◌}
use hashring_load_balancer.Hash.{hash_string}
use hashring_load_balancer.Strings.{string_key}
use hashring_load_balancer.Ring
use hashring_load_balancer.Ring.Owner.{IsRing, owner}
use hashring_load_balancer.Server.{Text, Memory}
use hashring_load_balancer.Server.Holds.{Documents, edited}
use hashring_load_balancer.Server.Handling.{IsServer}
use hashring_load_balancer.LoadBalancer.{LoadBalancer, init_load_balancer}
use hashring_load_balancer.Transfer.Step.{some-absurd}

abbrev pub held_by : ℕ → Option Ring.Server → Option Text → Option Text
held_by a none d = none
held_by a (some o) d = if o.memory == a then d else none

-- the documents whose owner has its memory at `a`
abbrev pub share : List Ring.Server → Documents → ℕ → Documents
share ring docs a q = held_by a (owner (hash_string q) ring) (docs q)

-- The balancer has no replicas, and its servers are those of `ring`, each with its own memory, which
-- holds exactly the documents that the server owns, at most `n` with its waiting edits.
pub record IsBalancer (n : ℕ) (ring : List Ring.Server) (lb : LoadBalancer) (docs : Documents)
    : Type 0 where
  pub plain : lb.has_vnodes ≡ false
  pub held : Holds lb.servers ring
  pub is_ring : IsRing ring
  pub apart :
      (i j : ℕ) (s t : Ring.Server)
      → get_elem? ring i ≡ some s
      → get_elem? ring j ≡ some t
      → s.memory ≡ t.memory
      → i ≡ j
  pub used : (i : ℕ) (s : Ring.Server) → get_elem? ring i ≡ some s → s.memory < lb.fresh
  pub ids : (i : ℕ) (s : Ring.Server) → get_elem? ring i ≡ some s → s.id < 100000
  pub each :
      (i : ℕ) (s : Ring.Server)
      → get_elem? ring i ≡ some s
      → IsServer n (lb.memories s.memory) (share ring docs s.memory)
  pub unplaced : length ring ≡ 0 → (q : Text) → docs q ≡ none
  pub small : n < 2 ^ 32 - 1

pub more-IsServer :
    {n : ℕ} (n' : ℕ) {m : Memory} {docs : Documents}
    → IsServer n m docs
    → n ≤ n'
    → n' < 2 ^ 32 - 1
    → IsServer n' m docs
more-IsServer n' s more small = record {
  stored = s.stored;
  tasks = s.tasks;
  entries = s.entries;
  count = s.count;
  is_store = s.is_store;
  waiting = s.waiting;
  bounded = omega (arith, s.bounded);
  small = small;
  current = s.current;
}

pub same-IsServer :
    {n : ℕ} {m : Memory} {docs : Documents} (docs' : Documents)
    → IsServer n m docs
    → ((q : Text) → docs q ≡ docs' q)
    → IsServer n m docs'
same-IsServer docs' s same = record {
  stored = s.stored;
  tasks = s.tasks;
  entries = s.entries;
  count = s.count;
  is_store = s.is_store;
  waiting = s.waiting;
  bounded = s.bounded;
  small = s.small;
  current = λ q. s.current q ∙ same q;
}

pub share-owner :
    (ring : List Ring.Server) (docs : Documents) (a : ℕ) (q : Text) {o : Ring.Server}
    → owner (hash_string q) ring ≡ some o
    → share ring docs a q ≡ (if o.memory == a then docs q else none)
share-owner ring docs a q own = ap (λ x. held_by a x (docs q)) own

held_by-absent : (a : ℕ) (o : Option Ring.Server) → held_by a o none ≡ none
held_by-absent a none = refl
held_by-absent a (some o) = elim (Bool-cases (o.memory == a)) [
  | inl here ↦ rw here refl
  | inr there ↦ rw there refl
]

pub share-absent :
    (ring : List Ring.Server) (docs : Documents) (a : ℕ) (q : Text)
    → docs q ≡ none
    → share ring docs a q ≡ none
share-absent ring docs a q absent =
    ap (held_by a (owner (hash_string q) ring)) absent
    ∙ held_by-absent a (owner (hash_string q) ring)

module _ (ring : List Ring.Server) (docs : Documents) (name content : Text) {s : Ring.Server}
    (own : owner (hash_string name) ring ≡ some s) where
  -- An edit changes the share of the name's owner,
  pub share-edited :
      (q : Text)
      → edited (share ring docs s.memory) name content q
        ≡ share ring (edited docs name content) s.memory q
  share-edited q = elim (Bool-cases (name ≈ q)) [
    | inl here ↦
        let same : name ≡ q = (string_key.compare_iff name q).0 here in
        let own_q : owner (hash_string q) ring ≡ some s =
          ap (λ k. owner (hash_string k) ring) (sym same) ∙ own in
        let itself : (s.memory == s.memory) ≡ true = ground arith in
        rw here (rw (own_q, itself) refl)
    | inr there ↦ rw there refl
  ]

  -- and no other one.
  pub share-elsewhere :
      (a : ℕ)
      → a ≢ s.memory
      → (q : Text) → share ring docs a q ≡ share ring (edited docs name content) a q
  share-elsewhere a other q = elim (Bool-cases (name ≈ q)) [
    | inl here ↦
        let same : name ≡ q = (string_key.compare_iff name q).0 here in
        let own_q : owner (hash_string q) ring ≡ some s =
          ap (λ k. owner (hash_string k) ring) (sym same) ∙ own in
        let away : (s.memory == a) ≡ false = ground (arith, other) in
        rw here (rw (own_q, away) refl)
    | inr there ↦ rw there refl
  ]

-- The balancer that `init_load_balancer` makes has no servers and no documents.
pub init_load_balancer-IsBalancer : IsBalancer 0 [] (init_load_balancer false) (λ q. none)
unfolding init_load_balancer
init_load_balancer-IsBalancer = record {
  plain = refl;
  held = al_init-Holds;
  is_ring = record { ordered = λ i j s t less e f. absurd (some-absurd s (sym e)) };
  apart = λ i j s t e f same. absurd (some-absurd s (sym e));
  used = λ i s e. absurd (some-absurd s (sym e));
  ids = λ i s e. absurd (some-absurd s (sym e));
  each = λ i s e. absurd (some-absurd s (sym e));
  unplaced = λ e q. refl;
  small = omega arith;
}
