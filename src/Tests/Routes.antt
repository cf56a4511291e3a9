-- ===== src/Tests/Routes.antt =====
-- Two paths: `/a` with processor 1, to which `/b` is added.
use uiconnect.Base.{ℕ, Bool, true, false, List, [], ◌∷◌}
use uiconnect.Http.Response.{HttpResponse}
use uiconnect.Http.Dispatcher.{HttpDispatcher}

abbrev path_a : List ℕ
path_a = 47 ∷ 97 ∷ []

abbrev path_b : List ℕ
path_b = 47 ∷ 98 ∷ []

abbrev routes : HttpDispatcher
routes = record { processors = (path_a, 1) ∷ []; fuzzy_processors = [] }

abbrev response : HttpResponse
response = record {
  status = 200;
  version = 17;
  close = true;
  websocket = false;
  body = [];
  reason = [];
  headers = [];
}

-- a match of every path
abbrev match_all : List ℕ → List ℕ → Bool
match_all pattern path = true
