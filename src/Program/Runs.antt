-- ===== src/Program/Runs.antt =====
-- `apply_requests` of skel/main.c on a whole file of requests.
use hashring_load_balancer.Base.{
  ℕ, suc, ◌≡◌, refl, sym, false, Option, List, [], ◌∷◌, ◌++◌, length, ok, Returns,
}
use hashring_load_balancer.Server.{Text, Line, ServerResponse}
use hashring_load_balancer.LoadBalancer.{LoadBalancer, init_load_balancer}
use hashring_load_balancer.LoadBalancer.Balanced.{init_load_balancer-IsBalancer}
use hashring_load_balancer.Reader.{Arguments, read_request_arguments}
use hashring_load_balancer.Transfer.Step.{some-absurd}
use hashring_load_balancer.Program.{apply_request, apply_loop, apply_requests}
use hashring_load_balancer.Program.Cluster.{Cluster, no_servers, Step, Answered, Implements}
use hashring_load_balancer.Program.Refines.{apply_request-Implements}

-- The requests that a file begins with.
pub data Reads : Text → List Arguments → Type 0 where
  nothing : {input : Text} → Reads input []
  reading :
      {input rest : Text} {req : Arguments} {reqs : List Arguments}
      → read_request_arguments input ≡ ok (req, rest)
      → Reads rest reqs
      → Reads input (req ∷ reqs)

-- The steps of a cluster for them, with the answers.
pub data Steps : Cluster → List Arguments → List (Option ServerResponse) → Cluster → Type 0 where
  done : {c : Cluster} → Steps c [] [] c
  step :
      {c c' c'' : Cluster} {req : Arguments} {reqs : List Arguments}
      {answer : Option ServerResponse} {answers : List (Option ServerResponse)}
      → Step c req answer c'
      → Steps c' reqs answers c''
      → Steps c (req ∷ reqs) (answer ∷ answers) c''

-- Responses in which the answers are, in their order.
pub data Prints : List (Option ServerResponse) → List Line → Type 0 where
  silent : Prints [] []
  answered :
      {answer : Option ServerResponse} {answers : List (Option ServerResponse)}
      (printed rest : List Line)
      → Answered printed answer
      → Prints answers rest
      → Prints (answer ∷ answers) (printed ++ rest)

loop_step :
    (n : ℕ) (input : Text) (main : LoadBalancer) (req : Arguments × Text)
    (r rest : List Line × LoadBalancer)
    → read_request_arguments input ≡ ok req
    → apply_request main req.0 ≡ ok r
    → apply_loop n req.1 r.1 ≡ ok rest
    → apply_loop (suc n) input main ≡ ok (r.0 ++ rest.0, rest.1)
unfolding apply_loop
loop_step n input main req r rest e1 e2 e3 = rw (e1, e2, e3) refl

loop_end : (input : Text) (main : LoadBalancer) → apply_loop 0 input main ≡ ok ([], main)
unfolding apply_loop
loop_end input main = refl

apply_loop-Prints :
    {c c' : Cluster} {reqs : List Arguments} {answers : List (Option ServerResponse)} (input : Text)
    (main : LoadBalancer)
    → Implements c main
    → Reads input reqs
    → Steps c reqs answers c'
    → Returns (apply_loop (length reqs) input main) (λ r. Implements c' r.1 × Prints answers r.0)
apply_loop-Prints input main im nothing done = (([], main), loop_end input main, (im, silent))
apply_loop-Prints input main im (reading {rest} {req} {reqs} read more) (step taken steps) =
    let (r, run, (im', last)) = apply_request-Implements main im taken in
    let (after, run2, (im'', prints)) = apply_loop-Prints rest r.1 im' more steps in
    (
      (r.0 ++ after.0, after.1),
      loop_step (length reqs) input main (req, rest) r after read run run2,
      (im'', answered r.0 after.0 last prints),
    )

pub init-Implements : Implements no_servers (init_load_balancer false)
init-Implements = record {
  ring = [];
  is_balancer = init_load_balancer-IsBalancer;
  counted = refl;
  listed = λ i s e. absurd (some-absurd s (sym e));
  found = λ id e. cc;
}

requests_step :
    (input : Text) (n : ℕ) (r : List Line × LoadBalancer)
    → apply_loop n input (init_load_balancer false) ≡ ok r
    → apply_requests input n false ≡ ok r.0
unfolding apply_requests
requests_step input n r run = rw run refl

-- On a file that begins with requests for which a cluster without servers has steps, one after
-- another, apply_requests without replicas does not fault, and prints, for each request in turn,
-- responses that end with the answer that the steps promise. A lookup of a content of 1000 bytes
-- or more has no step.
pub apply_requests-Prints :
    {c' : Cluster} {reqs : List Arguments} {answers : List (Option ServerResponse)} (input : Text)
    → Reads input reqs
    → Steps no_servers reqs answers c'
    → Returns (apply_requests input (length reqs) false) (λ printed. Prints answers printed)
apply_requests-Prints {reqs = reqs} input reads steps =
    let (r, run, (im, prints)) =
      apply_loop-Prints input (init_load_balancer false) init-Implements reads steps in
    (r.0, requests_step input (length reqs) r run, prints)
