-- ===== src/Program/Tests.antt =====
-- A file with three requests, and the theorems on it.
use hashring_load_balancer.Base.{
  Option, ◌==◌, ◌||◌, ◌+◌, ◌≡◌, refl, sym, false, none, some, List, [], ◌∷◌, ok, Returns, arith,
}
use hashring_load_balancer.Base.Int.{pos}
use hashring_load_balancer.Request.{codes, get_request_type, starts_with}
use hashring_load_balancer.Server.{Text, ServerResponse, msg_a, document}
use hashring_load_balancer.Transfer.Step.{some-absurd}
use hashring_load_balancer.Reader.{
  Arguments, add, get, edit, fgets, take_line, read_request_arguments, read_arguments,
  read_document, named_document, after_name, quoted_content, read_content, read_quoted_string,
  quotes_from, between, copied, string_at, find_space, atoi,
}
use hashring_load_balancer.Strings.{compare_string, string_key}
use hashring_load_balancer.Server.Holds.{edited}
use hashring_load_balancer.Server.Documents.{get_answer, edited-Printable}
use hashring_load_balancer.LoadBalancer.{init_load_balancer}
use hashring_load_balancer.Program.Refines.{apply_request-Implements}
use hashring_load_balancer.Program.{apply_requests, apply_request}
use hashring_load_balancer.Program.Cluster.{
  Cluster, no_servers, added, written, looked_up, Answered, Implements,
}
use hashring_load_balancer.Program.Runs.{
  Reads, nothing, reading, Steps, done, step, Prints, init-Implements, apply_requests-Prints,
}

abbrev name : Text
name = codes "a"

abbrev content : Text
content = codes "b"

abbrev lookup : Text
lookup = codes "GET \"a\"\n"

abbrev writing : Text
writing = codes "EDIT \"a\" \"b\"\nGET \"a\"\n"

abbrev file : Text
file = codes "ADD_SERVER 1 5\nEDIT \"a\" \"b\"\nGET \"a\"\n"

first_read : read_request_arguments file ≡ ok (add (pos 1) (pos 5), writing)
unfolding read_request_arguments fgets take_line get_request_type starts_with read_arguments
    string_at find_space atoi
first_read = refl

second_read : read_request_arguments writing ≡ ok (edit name content, lookup)
unfolding read_request_arguments fgets take_line get_request_type starts_with read_arguments
    read_document named_document after_name read_content quoted_content read_quoted_string
    quotes_from between copied string_at
second_read = refl

third_read : read_request_arguments lookup ≡ ok (get name, [])
unfolding read_request_arguments fgets take_line get_request_type starts_with read_arguments
    read_document named_document after_name read_quoted_string quotes_from between copied string_at
third_read = refl

abbrev requests : List Arguments
requests = add (pos 1) (pos 5) ∷ edit name content ∷ get name ∷ []

file-Reads : Reads file requests
file-Reads = reading first_read (reading second_read (reading third_read nothing))

abbrev one_server : Cluster
one_server = record no_servers { count = 1; members = λ x. x == 1 || false }

abbrev one_document : Cluster
one_document = record one_server {
  bound = 0 + 1;
  documents = edited no_servers.documents name content;
}

abbrev answers : List (Option ServerResponse)
answers =
    none
    ∷ some (msg_a name)
    ∷ some (get_answer (edited no_servers.documents name content name))
    ∷ []

file-Steps : Steps no_servers requests answers one_document
file-Steps =
    step
      (added refl (omega arith) (λ q w e same. some-absurd w (sym e)) (omega arith) (omega arith)
        (omega arith))
      (step (written (omega arith) (omega arith)) (
        step
          (looked_up (omega arith)
            (edited-Printable no_servers.documents name content (omega arith)))
          done))

-- The lookup finds what the edit wrote.
found_content : get_answer (edited no_servers.documents name content name) ≡ document content
unfolding compare_string
found_content = refl

apply_requests-Prints_example :
    Returns (apply_requests file 3 false) (λ printed. Prints answers printed)
apply_requests-Prints_example = apply_requests-Prints file file-Reads file-Steps

apply_request-Implements_example :
    Returns
      (apply_request (init_load_balancer false) (add (pos 1) (pos 5)))
      (λ r. Implements one_server r.1 × Answered r.0 none)
apply_request-Implements_example =
    apply_request-Implements (init_load_balancer false) init-Implements (
      added refl (omega arith) (λ q w e same. some-absurd w (sym e)) (omega arith) (omega arith)
        (omega arith))
