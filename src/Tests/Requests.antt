-- ===== src/Tests/Requests.antt =====
-- A request with the header `Aa: 1`; the keys `aA` and `Aa` are the same but for their case.
use uiconnect.Base.{ℕ, true, List, [], ◌∷◌}
use uiconnect.Http.Request.{HttpRequest}

abbrev upper : List ℕ
upper = 65 ∷ 97 ∷ []

abbrev lower : List ℕ
lower = 97 ∷ 65 ∷ []

abbrev one : List ℕ
one = 49 ∷ []

abbrev request : HttpRequest
request = record {
  method = 1;
  version = 17;
  close = true;
  websocket = true;
  path = 47 ∷ [];
  query = [];
  fragment = [];
  body = [];
  headers = (upper, one) ∷ [];
  params = [];
  cookies = [];
  size = 0;
}
