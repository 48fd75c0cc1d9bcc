-- ===== src/Reader/Tests.antt =====
-- A request with a content of two lines, and the theorem on it.
use hashring_load_balancer.Base.{◌≡◌, refl, false, [], ok, arith}
use hashring_load_balancer.Request.{codes}
use hashring_load_balancer.Server.{Text}
use hashring_load_balancer.Reader.{get, edit, read_request_arguments}
use hashring_load_balancer.Reader.Fuel.{exhausted, read_request_arguments-ends}
use hashring_load_balancer.Reader.Requests.{
  edit_request, get_request, read_request_arguments-written,
}

abbrev name : Text
name = codes "a.txt"

abbrev content : Text
content = codes "one\ntwo"

read_request_arguments-written_example :
    (read_request_arguments (edit_request name content []) ≡ ok (edit name content, []))
    × (read_request_arguments (get_request name []) ≡ ok (get name, []))
read_request_arguments-written_example =
    read_request_arguments-written name content [] (refl, (refl, (refl, (refl, (refl, tt)))))
      (refl, (refl, (refl, (refl, (refl, tt))))) (omega arith)
      (refl, (refl, (refl, (refl, (refl, (refl, (refl, tt))))))) (omega arith)

read_request_arguments-ends_example :
    exhausted (read_request_arguments (edit_request name content [])) ≡ false
read_request_arguments-ends_example = read_request_arguments-ends (edit_request name content [])
