-- ===== src/Request/Tests.antt =====
-- The theorems on request types at concrete lines.
use hashring_load_balancer.Base.{ℕ, ◌≡◌, refl, List, ◌++◌, ok, fault, aborted}
use hashring_load_balancer.Request.{
  edit_document, add_server, codes, starts_with, get_request_type_str, get_request_type,
}
use hashring_load_balancer.Request.RoundTrip.{get_request_type-str, get_request_type_sound}

abbrev line : List ℕ
line = codes "EDIT \"a\""

line_read : get_request_type line ≡ ok edit_document
unfolding get_request_type starts_with
line_read = refl

unknown : get_request_type (codes "PUT") ≡ fault aborted
unfolding get_request_type starts_with
unknown = refl

get_request_type-str_example :
    get_request_type (get_request_type_str add_server ++ codes " 3 10") ≡ ok add_server
get_request_type-str_example = get_request_type-str add_server (codes " 3 10")

get_request_type_sound_example :
    (rest : List ℕ) × (line ≡ get_request_type_str edit_document ++ rest)
get_request_type_sound_example = get_request_type_sound edit_document line line_read
