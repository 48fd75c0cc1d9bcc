-- ===== src/Ring.antt =====
-- The hash ring of skel/load_balancer.c: its comparators, and the test of skel/server.c by which a
-- document moves to a server that joins.
pub mod Owner
pub mod Joining
pub mod Leaving
pub mod Tests
use hashring_load_balancer.Base.{
  ℕ, ◌+◌, ◌-◌, ◌%◌, ◌^◌, Bool, true, false, ◌&&◌, ◌||◌, ltb, leb, if◌then◌else◌,
}
use hashring_load_balancer.Base.Int.{ℤ, pos, negsuc, to_signed}
use hashring_load_balancer.Hash.{hash_uint}

-- `struct server`: the map, the cache and the queue are reached through pointers, which the
-- replicas of a server have in common; `memory` names what they point to.
pub record Server : Type 0 where
  pub id : ℕ
  pub memory : ℕ

unfoldable pub compare_uints : ℕ → ℕ → ℤ
compare_uints a b = if ltb b a then pos 1 else if ltb a b then negsuc 0 else pos 0

unfoldable pub cmp_servers : Server → Server → ℤ
cmp_servers first second = compare_uints (hash_uint first.id) (hash_uint second.id)

unfoldable pub cmp_server_to_hash : Server → ℕ → ℤ
cmp_server_to_hash srv hash = compare_uints (hash_uint srv.id) hash

-- `srv->id - id` is an unsigned difference, returned as an `int`.
unfoldable pub cmp_server_to_id : Server → ℕ → ℤ
cmp_server_to_id srv id = to_signed ((srv.id + 2 ^ 32 - id % 2 ^ 32) % 2 ^ 32)

-- the three tests of `transfer_files`, which `transfer_files_multiple_srcs` repeats
unfoldable pub should_move : ℕ → ℕ → ℕ → Bool
should_move src_hash name_hash dest_hash =
    (ltb src_hash name_hash && ltb name_hash dest_hash)
    || (ltb src_hash name_hash && ltb dest_hash src_hash)
    || (ltb name_hash dest_hash && leb dest_hash src_hash)
