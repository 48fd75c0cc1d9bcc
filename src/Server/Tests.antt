-- ===== src/Server/Tests.antt =====
-- The theorems on a server at an edit and a lookup of a document.
use hashring_load_balancer.Base.{
  ℕ, ◌+◌, ◌≡◌, refl, none, some, [], ◌∷◌, replicate, length-replicate, fault, out_of_bounds,
  Returns, arith,
}
use hashring_load_balancer.Strings.{string_key}
use hashring_load_balancer.LruCache.Holds.{≈-refl}
use hashring_load_balancer.Request.{edit_document, get_document}
use hashring_load_balancer.Server.{
  Text, Request, Memory, msg_a, is_edit, init_server, server_edit_document, server_get_document,
  server_handle_request,
}
use hashring_load_balancer.LinkedList.{ll_init}
use hashring_load_balancer.Queue.{q_init}
use hashring_load_balancer.Server.Holds.{Documents, edited, IsStore, init_server-IsStore}
use hashring_load_balancer.Server.Documents.{
  rewritten, edit_answer, server_edit_document-IsStore, Answers, edited-Printable,
  server_get_document-Answers, server_get_document-overflows,
}
use hashring_load_balancer.Server.Requests.{responses}
use hashring_load_balancer.Server.Handling.{
  IsServer, Handled, init_server-IsServer, server_handle_request-edit,
  server_handle_request-Handled,
}

abbrev name : Text
name = 97 ∷ []

abbrev content : Text
content = 120 ∷ 121 ∷ []

abbrev no_documents : Documents
no_documents q = none

abbrev fresh : Memory
fresh = init_server 2

fresh-IsStore : IsStore 0 fresh no_documents []
fresh-IsStore = init_server-IsStore 2 (omega arith) (omega arith)

server_edit_document-IsStore_example : Returns (server_edit_document fresh name content) (λ r.
    IsStore
      (0 + 1)
      r.1
      (edited no_documents name content)
      (rewritten fresh.cache.cap name content [])
    × (r.0.server_response ≡ edit_answer name (no_documents name))
    × (r.1.task_queue ≡ fresh.task_queue))
server_edit_document-IsStore_example =
    server_edit_document-IsStore fresh no_documents [] name content fresh-IsStore (omega arith)

abbrev stored : Memory
stored = server_edit_document-IsStore_example.0.1

server_get_document-Answers_example :
    Returns
      (server_get_document 4 stored name)
      (Answers (0 + 1) stored (edited no_documents name content) name)
server_get_document-Answers_example =
    server_get_document-Answers 4 stored (edited no_documents name content)
      (rewritten fresh.cache.cap name content []) name server_edit_document-IsStore_example.2.0
      (edited-Printable no_documents name content (omega arith))

-- a content that fills the buffer of a response
abbrev long_content : Text
long_content = replicate 1000 120

long_stored : Returns (server_edit_document fresh name long_content) (λ r.
    IsStore
      (0 + 1)
      r.1
      (edited no_documents name long_content)
      (rewritten fresh.cache.cap name long_content [])
    × (r.0.server_response ≡ edit_answer name (no_documents name))
    × (r.1.task_queue ≡ fresh.task_queue))
long_stored =
    server_edit_document-IsStore fresh no_documents [] name long_content fresh-IsStore (omega arith)

named : edited no_documents name long_content name ≡ some long_content
named = rw (≈-refl name) refl

server_get_document-overflows_example :
    server_get_document 4 long_stored.0.1 name ≡ fault out_of_bounds
server_get_document-overflows_example =
    server_get_document-overflows 4 long_stored.0.1 (edited no_documents name long_content)
      (rewritten fresh.cache.cap name long_content []) name long_content long_stored.2.0 named
      (omega (arith, length-replicate {A = ℕ} 1000 120))

abbrev edit : Request
edit = record { type = edit_document; doc_name = name; doc_content = content }

abbrev get : Request
get = record { type = get_document; doc_name = name; doc_content = [] }

init_server-IsServer_example : IsServer 0 fresh no_documents
init_server-IsServer_example = init_server-IsServer 2 (omega arith) (omega arith)

server_handle_request-edit_example : Returns (server_handle_request 4 fresh edit) (λ r.
    IsServer (0 + 1) r.1 (edited no_documents name content) × (responses r.0 ≡ msg_a name ∷ []))
unfolding is_edit init_server q_init ll_init
server_handle_request-edit_example =
    server_handle_request-edit 4 fresh no_documents edit init_server-IsServer_example refl
      (omega arith) (omega arith)

abbrev waiting : Memory
waiting = server_handle_request-edit_example.0.1

server_handle_request-Handled_example :
    Returns
      (server_handle_request 4 waiting get)
      (Handled 4 (0 + 1) (edited no_documents name content) name)
unfolding is_edit
server_handle_request-Handled_example =
    server_handle_request-Handled 4 waiting (edited no_documents name content) get
      server_handle_request-edit_example.2.0 refl
      (edited-Printable no_documents name content (omega arith))
