-- ===== src/Program.antt =====
-- The program of skel/main.c: the requests of a file, applied one after another to a load balancer.
-- The result is what the servers print.
pub mod Cluster
pub mod Membership
pub mod Refines
pub mod Runs
mod Tests
use hashring_load_balancer.Base.{
  ℕ, zero, suc, Bool, ◌||◌, if◌then◌else◌, none, some, List, [], ◌∷◌, ◌++◌, Run, ok, fault, aborted,
  ◌>>=◌,
}
use hashring_load_balancer.Base.Int.{ℤ, pos, negsuc, is_neg, to_unsigned}
use hashring_load_balancer.Request.{edit_document, get_document, codes, starts_with}
use hashring_load_balancer.Server.{Text, Line}
use hashring_load_balancer.LoadBalancer.{
  LoadBalancer, init_load_balancer, loader_add_server, loader_remove_server, loader_forward_request,
}
use hashring_load_balancer.Reader.{
  Arguments, add, remove, get, edit, fgets, request_length, atoi, read_request_arguments,
}

-- One request. The content of a lookup is not read.
unfoldable pub apply_request : LoadBalancer → Arguments → Run (List Line × LoadBalancer)
apply_request main (add server_id cache_size) =
    if is_neg cache_size
    then fault aborted
    else loader_add_server main (to_unsigned server_id) (to_unsigned cache_size)
apply_request main (remove server_id) = loader_remove_server main (to_unsigned server_id)
apply_request main (get doc_name) =
    loader_forward_request main
      (record { type = get_document; doc_name = doc_name; doc_content = [] })
apply_request main (edit doc_name doc_content) =
    loader_forward_request main
      (record { type = edit_document; doc_name = doc_name; doc_content = doc_content })

-- the loop of `apply_requests`, with `requests_num` requests left
unfoldable pub apply_loop : ℕ → Text → LoadBalancer → Run (List Line × LoadBalancer)
apply_loop zero input main = ok ([], main)
apply_loop (suc requests_num) input main = read_request_arguments input >>= λ req.
    apply_request main req.0 >>= λ r.
    apply_loop requests_num req.1 r.1 >>= λ rest. ok (r.0 ++ rest.0, rest.1)

unfoldable pub apply_requests : Text → ℕ → Bool → Run (List Line)
apply_requests input requests_num enable_vnodes =
    apply_loop requests_num input (init_load_balancer enable_vnodes) >>= λ r. ok r.0

-- `strstr`, as a test
unfoldable pub occurs : Text → Text → Bool
occurs word [] = starts_with word []
occurs word (c ∷ s) = starts_with word (c ∷ s) || occurs word s

abbrev pub count : ℤ → ℕ
count (pos n) = n
count (negsuc n) = 0

-- `main` on a file that it could open
unfoldable pub main : Text → Run (List Line)
main input = elim (fgets request_length input) [
  | none ↦ fault aborted
  | some line ↦ apply_requests line.1 (count (atoi line.0)) (occurs (codes "ENABLE_VNODES") line.0)
]
