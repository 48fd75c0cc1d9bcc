-- ===== src/Transfer/Buckets.antt =====
-- The loop of `transfer_files` of skel/server.c over the buckets, and the whole.
use hashring_load_balancer.Base.{
  ℕ, zero, suc, ◌+◌, ◌%◌, ◌≡◌, refl, sym, ap, ◌∙◌, Bool, true, false, ◌&&◌, ◌==◌, if◌then◌else◌,
  Option, none, some, get_elem?, get_elem?_total, ok, Returns, arith,
}
use hashring_load_balancer.HashMap.{bucket_at}
use hashring_load_balancer.Hash.{hash_string}
use hashring_load_balancer.LinkedList.{LinkedList}
use hashring_load_balancer.Strings.{string_key}
use hashring_load_balancer.Server.{Text, Memory}
use hashring_load_balancer.Server.Holds.{Documents}
use hashring_load_balancer.Transfer.{move_nodes, move_buckets}
use hashring_load_balancer.Transfer.Step.{Stores, Kept, Kept-refl, Kept-trans, some-absurd}
use hashring_load_balancer.Transfer.Walk.{move_nodes-Stores, with_both}
use hashring_load_balancer.Transfer.Homes.{
  Apart, left_behind, arrived, coming, nodes-AllDocuments, step_coming, end_coming, pos_of,
  one_kept, one_gained, bucket_find, left_twice, arrived_twice, apart_after, gained_none,
}

move_buckets_step :
    (moves : Text → Bool) (left i : ℕ) (src dest : Memory) (list : LinkedList (Text × Text))
    (r rest : Memory × Memory)
    → get_elem? src.local_db.buckets i ≡ some list
    → move_nodes moves list.nodes src dest ≡ ok r
    → move_buckets moves left (i + 1) r.0 r.1 ≡ ok rest
    → move_buckets moves (suc left) i src dest ≡ ok rest
unfolding move_buckets bucket_at
move_buckets_step moves left i src dest list r rest at run run2 = rw (bucket_at, at, run, run2) refl

found_reads :
    (b : Bool) (d : Option Text) (w : Text) → (if b then d else none) ≡ some w → d ≡ some w
found_reads true d w e = e
found_reads false d w e = absurd (some-absurd w (sym e))

-- one round of the loop over the buckets
move_bucket :
    {total : ℕ} (moves : Text → Bool) (i : ℕ) (src dest : Memory) (docs docs2 : Documents)
    (list : LinkedList (Text × Text))
    → Stores total src docs dest docs2
    → Apart docs docs2
    → get_elem? src.local_db.buckets i ≡ some list
    → Returns (move_nodes moves list.nodes src dest) (λ r.
      Stores total r.0
        (λ q. left_behind (hash_string q % src.local_db.hmax == i && moves q) (docs q))
        r.1
        (λ q. arrived (hash_string q % src.local_db.hmax == i && moves q) (docs q) (docs2 q))
      × Kept src dest r)
move_bucket moves i src dest docs docs2 list s apart at =
    let a = s.src_store in
    let b = a.is_map.each i list at in
    let (r, run, (s1, moved_on)) =
      move_nodes-Stores moves list.nodes src dest docs docs2 s b.distinct (
        nodes-AllDocuments list.nodes docs docs2
          (λ q w h. found_reads _ (docs q) w (sym (bucket_find src docs s.es i list q a at) ∙ h))
          b.distinct apart) in
    (
      r,
      run,
      (
        with_both _ _ s1 (one_kept moves i src docs s.es list a at b.distinct)
            (one_gained moves i src docs docs2 s.es list a at b.distinct),
        moved_on,
      ),
    )

-- The rest of the loop over the buckets.
pub move_buckets-Stores :
    {total : ℕ} (moves : Text → Bool) (left i hmax : ℕ) (src dest : Memory) (docs docs2 : Documents)
    → Stores total src docs dest docs2
    → Apart docs docs2
    → left + i ≡ hmax
    → src.local_db.hmax ≡ hmax
    → Returns (move_buckets moves left i src dest) (λ r.
      Stores total r.0
        (λ q. left_behind (coming i hmax moves q) (docs q))
        r.1
        (λ q. arrived (coming i hmax moves q) (docs q) (docs2 q))
      × Kept src dest r)
unfolding move_buckets
move_buckets-Stores moves zero i hmax src dest docs docs2 s apart end hmax_is = (
  (src, dest),
  refl,
  (
    with_both _ _ s
        (λ q.
          ap (λ c. left_behind c (docs q))
            (sym (
              end_coming i (hash_string q) hmax (moves q) end
                (pos_of hmax_is s.src_store.is_map.positive))))
        (λ q.
          sym (gained_none (docs q) (docs2 q))
          ∙ ap (λ c. arrived c (docs q) (docs2 q))
              (sym (
                end_coming i (hash_string q) hmax (moves q) end
                  (pos_of hmax_is s.src_store.is_map.positive)))),
    Kept-refl src dest,
  ),
)
move_buckets-Stores moves (suc left) i hmax src dest docs docs2 s apart end hmax_is =
    let a = s.src_store.is_map in
    let (list, at) = get_elem?_total src.local_db.buckets i (omega (arith, a.width)) in
    let (r, run, (s1, kept1)) = move_bucket moves i src dest docs docs2 list s apart at in
    let (rest, run2, (s2, kept2)) =
      move_buckets-Stores moves left (i + 1) hmax r.0 r.1 _ _ s1
        (λ q.
          apart_after (hash_string q % src.local_db.hmax == i && moves q) (docs q) (docs2 q)
            (apart q))
        (omega arith) (kept1.hmax ∙ hmax_is) in
    (
      rest,
      move_buckets_step moves left i src dest list r rest at run run2,
      (
        with_both _ _ s2
            (λ q.
              left_twice (coming (i + 1) hmax moves q)
                (hash_string q % src.local_db.hmax == i && moves q) (docs q)
              ∙ ap (λ c. left_behind c (docs q))
                  (step_coming i (hash_string q) src.local_db.hmax hmax (moves q) hmax_is))
            (λ q.
              arrived_twice (coming (i + 1) hmax moves q)
                (hash_string q % src.local_db.hmax == i && moves q) (docs q) (docs2 q)
              ∙ ap (λ c. arrived c (docs q) (docs2 q))
                  (step_coming i (hash_string q) src.local_db.hmax hmax (moves q) hmax_is)),
        Kept-trans src dest r rest kept1 kept2,
      ),
    )
