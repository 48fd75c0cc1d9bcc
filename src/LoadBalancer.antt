-- ===== src/LoadBalancer.antt =====
-- The load balancer of skel/load_balancer.c: the ring of servers, the memory that their pointers
-- lead to, servers that join and leave, and the forwarding of requests.

pub mod Balanced
pub mod Joined
pub mod Steps
pub mod Shares
pub mod Adding
pub mod Left
pub mod Search
pub mod Removing
pub mod Replicated
pub mod Moving
pub mod Replica
pub mod Growing
pub mod AddingReplicas
pub mod ForwardingReplicas
pub mod Forwarding
mod Tests
mod ReplicaTests
use hashring_load_balancer.Base.{
  ℕ, suc, ◌+◌, ◌-◌, ◌%◌, ◌^◌, ◌==◌, ltb, if◌then◌else◌, Bool, false, true, Option, none, some, List,
  [], ◌∷◌, ◌++◌, Run, ok, fault, division_by_zero, ◌>>=◌,
}
use hashring_load_balancer.Base.Int.{to_unsigned}
use hashring_load_balancer.ArrayList.{
  ArrayList, al_init, al_get, al_get_ordered, al_insert_ordered, al_find_by, al_erase,
}
use hashring_load_balancer.Hash.{hash_string, hash_uint}
use hashring_load_balancer.Ring
use hashring_load_balancer.Ring.{cmp_servers, cmp_server_to_hash, cmp_server_to_id}
use hashring_load_balancer.Server.{
  Memory, Request, Line, init_server, free_server, server_handle_request, write_memory,
}
use hashring_load_balancer.Transfer.{transfer_files}
use hashring_load_balancer.Transfer.Replicas.{
  transfer_files_multiple_srcs, transfer_files_multiple_dests,
}

-- The two hash functions are always hash_string and hash_uint. The addresses below `fresh` are in
-- use or were.
pub record LoadBalancer : Type 0 where
  pub servers : ArrayList Ring.Server
  pub memories : ℕ → Memory
  pub fresh : ℕ
  pub has_vnodes : Bool

-- The memories are not read before a server is there.
unfoldable pub init_load_balancer : Bool → LoadBalancer
init_load_balancer enable_vnodes = record {
  servers = al_init;
  memories = λ a. init_server 0;
  fresh = 0;
  has_vnodes = enable_vnodes;
}

-- A new server has memory of its own, and a replica that of the server it stands for.
unfoldable pub make_server : LoadBalancer → ℕ → ℕ → Option Ring.Server → Ring.Server × LoadBalancer
make_server lb server_id cache_size none = (
  record { id = server_id; memory = lb.fresh },
  record lb {
    memories = write_memory lb.memories lb.fresh (init_server cache_size);
    fresh = suc lb.fresh;
  },
)
make_server lb server_id cache_size (some vnode_ref) =
    (record { id = server_id; memory = vnode_ref.memory }, lb)

-- `(index + 1) % size`
unfoldable pub next_index : ℕ → ℕ → Run ℕ
next_index size index =
    if size == 0 then fault division_by_zero else ok ((index + 1) % 2 ^ 32 % size)

-- the two memories that a transfer changed
abbrev pub write_both : LoadBalancer → Ring.Server → Ring.Server → Memory × Memory → LoadBalancer
write_both lb src dest m = record lb {
  memories = write_memory (write_memory lb.memories src.memory m.0) dest.memory m.1;
}

-- With the responses to the edits that waited at the source.
unfoldable pub internal_loader_add_server :
    LoadBalancer → ℕ → ℕ → Option Ring.Server → Run (Ring.Server × (List Line × LoadBalancer))
internal_loader_add_server lb server_id cache_size vnode_ref =
    let made = make_server lb server_id cache_size vnode_ref in
    al_insert_ordered lb.servers made.0 cmp_servers >>= λ r.
    next_index r.0.size r.1 >>= λ src_index. al_get r.0 src_index >>= λ src.
    al_get r.0 r.1 >>= λ dest.
    transfer_files src.id dest.id (made.1.memories src.memory) (made.1.memories dest.memory) false
    >>= λ t. ok (dest, (t.0, write_both (record made.1 { servers = r.0 }) src dest t.1))

-- `al_find_by` for an id; -1 becomes the largest index.
unfoldable pub find_server : ArrayList Ring.Server → ℕ → Run ℕ
find_server servers id =
    al_find_by servers (hash_uint id) id cmp_server_to_hash cmp_server_to_id >>= λ index.
    ok (to_unsigned index)

abbrev pub replica_ids : ℕ → List ℕ
replica_ids id = id ∷ (id + 100000) % 2 ^ 32 ∷ (id + 200000) % 2 ^ 32 ∷ []

-- `server_id %= 100000` for the `int` with the bits `id`: a remainder has the sign of the id.
abbrev pub signed_remainder : ℕ → ℕ
signed_remainder id =
    if ltb id (2 ^ 31) then id % 100000 else (2 ^ 32 - (2 ^ 32 - id) % 100000) % 2 ^ 32

-- the servers with given ids
unfoldable pub find_replicas : ArrayList Ring.Server → List ℕ → Run (List Ring.Server)
find_replicas servers [] = ok []
find_replicas servers (id ∷ ids) = find_server servers id >>= λ index.
    al_get servers index >>= λ replica. find_replicas servers ids >>= λ rest. ok (replica ∷ rest)

unfoldable pub internal_loader_add_server_with_vnodes :
    LoadBalancer → ℕ → ℕ → Option Ring.Server → Run (Ring.Server × (List Line × LoadBalancer))
internal_loader_add_server_with_vnodes lb server_id cache_size vnode_ref =
    let made = make_server lb server_id cache_size vnode_ref in
    al_insert_ordered lb.servers made.0 cmp_servers >>= λ r. al_get r.0 r.1 >>= λ dest.
    next_index r.0.size r.1 >>= λ src_index. al_get r.0 src_index >>= λ src.
    find_replicas r.0 (replica_ids (src.id % 100000)) >>= λ src_replicas.
    transfer_files_multiple_srcs src_replicas src dest (made.1.memories src.memory)
      (made.1.memories dest.memory)
    >>= λ t. ok (dest, (t.0, write_both (record made.1 { servers = r.0 }) src dest t.1))

-- the two branches of `loader_add_server`, for `has_vnodes`
unfoldable pub add_server_for : Bool → LoadBalancer → ℕ → ℕ → Run (List Line × LoadBalancer)
add_server_for true lb server_id cache_size =
    internal_loader_add_server_with_vnodes lb server_id cache_size none >>= λ r1.
    internal_loader_add_server_with_vnodes r1.1.1 ((server_id + 100000) % 2 ^ 32) cache_size
      (some r1.0)
    >>= λ r2.
        internal_loader_add_server_with_vnodes r2.1.1 ((server_id + 200000) % 2 ^ 32) cache_size
          (some r1.0)
        >>= λ r3. ok (r1.1.0 ++ r2.1.0 ++ r3.1.0, r3.1.1)
add_server_for false lb server_id cache_size =
    internal_loader_add_server lb server_id cache_size none >>= λ r. ok r.1

unfoldable pub loader_add_server : LoadBalancer → ℕ → ℕ → Run (List Line × LoadBalancer)
loader_add_server lb server_id cache_size = add_server_for lb.has_vnodes lb server_id cache_size

unfoldable pub internal_loader_remove_server : LoadBalancer → ℕ → Run (List Line × LoadBalancer)
internal_loader_remove_server main server_id = find_server main.servers server_id >>= λ index.
    next_index main.servers.size index >>= λ next. al_get main.servers index >>= λ src.
    al_get main.servers next >>= λ dest.
    transfer_files src.id dest.id (main.memories src.memory) (main.memories dest.memory) true
    >>= λ t. al_erase main.servers index >>= λ servers. free_server src.id t.1.0 >>= λ freed.
        ok (t.0, write_both (record main { servers = servers }) src dest (freed, t.1.1))

-- the servers behind those with given ids
unfoldable pub find_dests : ArrayList Ring.Server → List ℕ → Run (List Ring.Server)
find_dests servers [] = ok []
find_dests servers (id ∷ ids) = find_server servers id >>= λ index.
    next_index servers.size index >>= λ next.
    al_get servers next >>= λ dest. find_dests servers ids >>= λ rest. ok (dest ∷ rest)

-- The loop that frees the replicas; at the first one it frees the memory too.
unfoldable pub erase_replicas :
    Bool
    → ArrayList Ring.Server
    → List ℕ
    → (ℕ → Memory)
    → Run (ArrayList Ring.Server × (ℕ → Memory))
erase_replicas first servers [] memories = ok (servers, memories)
erase_replicas first servers (id ∷ ids) memories = find_server servers id >>= λ index.
    al_get servers index >>= λ replica. al_erase servers index >>= λ shorter.
    (if first
      then free_server replica.id (memories replica.memory)
      else ok (memories replica.memory))
    >>= λ freed. erase_replicas false shorter ids (write_memory memories replica.memory freed)

unfoldable pub internal_loader_remove_server_with_vnodes :
    LoadBalancer → ℕ → Run (List Line × LoadBalancer)
internal_loader_remove_server_with_vnodes main server_id =
    find_server main.servers server_id >>= λ index. al_get main.servers index >>= λ src.
    let ids = replica_ids (signed_remainder server_id) in
    find_dests main.servers ids >>= λ dests.
    transfer_files_multiple_dests src dests main.memories >>= λ t.
    erase_replicas true main.servers ids t.1 >>= λ r.
    ok (t.0, record main { servers = r.0; memories = r.1 })

-- and those of `loader_remove_server`
unfoldable pub remove_server_for : Bool → LoadBalancer → ℕ → Run (List Line × LoadBalancer)
remove_server_for true main server_id = internal_loader_remove_server_with_vnodes main server_id
remove_server_for false main server_id = internal_loader_remove_server main server_id

unfoldable pub loader_remove_server : LoadBalancer → ℕ → Run (List Line × LoadBalancer)
loader_remove_server main server_id = remove_server_for main.has_vnodes main server_id

-- With the responses that the server prints; none if there are no servers.
unfoldable pub loader_forward_request : LoadBalancer → Request → Run (List Line × LoadBalancer)
loader_forward_request lb req =
    if lb.servers.size == 0
    then ok ([], lb)
    else al_get_ordered lb.servers (hash_string req.doc_name) cmp_server_to_hash >>= λ srv.
        server_handle_request srv.id (lb.memories srv.memory) req >>= λ r.
        ok (r.0, record lb { memories = write_memory lb.memories srv.memory r.1 })
