-- ===== src/Api/Tests.antt =====
-- A request of the client as the server reads it.
use sshnack.Base.{◌≡◌, some, [], ◌∷◌, arith, take, List}
use sshnack.Base.Text.{Text, codes}
use sshnack.Auth.{auth_parse}
use sshnack.Api.{parse_method, parse_request}
use sshnack.Api.Laws.{request_text, last_bearer, parse_request_lem}

abbrev lines : List Text
lines = codes "Host: server:8080" ∷ codes "authorization: bearer 7" ∷ []

parse_request_lem_example :
    parse_request (codes "secret") (
      request_text
        (codes "POST")
        (codes "/orders")
        (codes "HTTP/1.1")
        lines
        (codes "{\"slot_id\":11}"))
    ≡ record {
      method = parse_method (codes "POST");
      path = codes "/orders";
      body = take 511 (codes "{\"slot_id\":11}");
      auth = auth_parse (some (last_bearer [] lines)) (codes "secret");
    }
parse_request_lem_example =
    parse_request_lem (codes "secret") (codes "POST") (codes "/orders") (codes "HTTP/1.1") lines
      (codes "{\"slot_id\":11}") (grind arith) (grind arith) (grind arith) (grind arith)
