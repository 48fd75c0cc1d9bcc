-- ===== src/Request/RoundTrip.antt =====
-- `get_request_type` against `get_request_type_str` (skel/utils.c).
use hashring_load_balancer.Base.{ℕ, ◌≡◌, refl, true, List, [], ◌∷◌, ◌++◌, ok, arith}
use hashring_load_balancer.Request.{
  RequestType, edit_document, get_document, add_server, remove_server, codes, starts_with,
  get_request_type_str, get_request_type,
}

-- A line that begins with a request's keyword is read as that request, whatever follows.
pub get_request_type-str :
    (t : RequestType) (rest : List ℕ) → get_request_type (get_request_type_str t ++ rest) ≡ ok t
unfolding get_request_type get_request_type_str starts_with
get_request_type-str edit_document rest = refl
get_request_type-str get_document rest = refl
get_request_type-str add_server rest = refl
get_request_type-str remove_server rest = refl

starts_with-split : (p s : List ℕ) → starts_with p s ≡ true → (rest : List ℕ) × (s ≡ p ++ rest)
unfolding starts_with
starts_with-split [] s h = (s, refl)
starts_with-split (c ∷ p) [] h = cc
starts_with-split (c ∷ p) (d ∷ s) h =
    let (rest, e) = starts_with-split p s (ground arith) in (rest, ground arith)

-- A line that is read as a request begins with that request's keyword.
pub get_request_type_sound :
    (t : RequestType) (s : List ℕ)
    → get_request_type s ≡ ok t
    → (rest : List ℕ) × (s ≡ get_request_type_str t ++ rest)
unfolding get_request_type get_request_type_str
get_request_type_sound edit_document s h = starts_with-split (codes "EDIT") s (ground arith)
get_request_type_sound get_document s h = starts_with-split (codes "GET") s (ground arith)
get_request_type_sound add_server s h = starts_with-split (codes "ADD_SERVER") s (ground arith)
get_request_type_sound remove_server s h =
    starts_with-split (codes "REMOVE_SERVER") s (ground arith)
