-- ===== src/Request.antt =====
-- The request types of skel/constants.h and their keywords, as skel/utils.c reads and prints them.
pub mod RoundTrip
mod Tests
use Prim.Native.String.{String}
use Prim.Native.Char.{code}
use hashring_load_balancer.Base.{
  ℕ, Bool, true, false, ◌&&◌, ◌==◌, if◌then◌else◌, List, [], ◌∷◌, Run, ok, fault, aborted,
}

pub data RequestType : Type 0 where
  edit_document get_document add_server remove_server : RequestType

-- The bytes of an ASCII literal.
abbrev pub codes : String → List ℕ
codes String.[] = []
codes (String.◌∷◌ c s) = code c ∷ codes s

-- `!strncmp(s, prefix, strlen(prefix))`: both strings end with a zero byte, which no `c` equals.
unfoldable pub starts_with : List ℕ → List ℕ → Bool
starts_with [] s = true
starts_with (c ∷ prefix) [] = false
starts_with (c ∷ prefix) (d ∷ s) = d == c && starts_with prefix s

unfoldable pub get_request_type_str : RequestType → List ℕ
get_request_type_str add_server = codes "ADD_SERVER"
get_request_type_str remove_server = codes "REMOVE_SERVER"
get_request_type_str edit_document = codes "EDIT"
get_request_type_str get_document = codes "GET"

-- The last branch is `DIE`, which ends the program.
unfoldable pub get_request_type : List ℕ → Run RequestType
get_request_type s =
    if starts_with (codes "ADD_SERVER") s
    then ok add_server
    else if starts_with (codes "REMOVE_SERVER") s
    then ok remove_server
    else if starts_with (codes "EDIT") s
    then ok edit_document
    else if starts_with (codes "GET") s
    then ok get_document
    else fault aborted
