-- ===== src/Tests/Sessions.antt =====
-- A session that got two messages, and an HTTP session that gets a request for a registered path.
use uiconnect.Base.{ℕ, ◌≡◌, Bool, true, false, List, [], ◌∷◌}
use uiconnect.Base.Text.{codes}
use uiconnect.Base.Outcome.{ok, ◌>>=◌}
use uiconnect.Http.Request.{HttpRequest}
use uiconnect.Http.Request
use uiconnect.Http.Response.{HttpResponse, create}
use uiconnect.Http.Dispatcher.{HttpDispatcher, regist}
use uiconnect.Http.Connection.{send}
use uiconnect.Server.Sessions.{Control, Limits, HttpSession, handle_request}
use uiconnect.Server.Sessions.Requests.{answered, handle_request-regist}
use uiconnect.Tests.HttpConnections.{buffer, works, connection, none_taken}

abbrev limits : Limits
limits = record { timeout = 30000; handle_size = 3000; incomplete = 20 }

abbrev quiet : Control
quiet = record { active_time = 1000000; processed = 0 }

abbrev messages : List (ℕ × ℕ)
messages = (2000000, 2000) ∷ (3000000, 1500) ∷ []

abbrev no_match : List ℕ → List ℕ → Bool
no_match r q = false

abbrev says_name : ℕ → HttpRequest → HttpResponse → HttpResponse
says_name hp req res = record res { body = codes "name" }

abbrev no_paths : HttpDispatcher
no_paths = record { processors = []; fuzzy_processors = [] }

abbrev session : HttpSession
session = record { control = quiet; connection = connection (buffer []) }

handle_request-regist_example :
    handle_request no_match says_name
      (regist no_paths (codes "/") 3 false)
      works
      none_taken
      2000000
      (Request.create 0x11 false)
      session
    ≡ (send works none_taken session.connection
          (says_name 3 (Request.create 0x11 false) (create 0x11 true))
        >>= λ c. ok (answered 2000000 (Request.create 0x11 false) session c))
unfolding Request.create
handle_request-regist_example =
    handle_request-regist no_match says_name no_paths works none_taken 2000000 3 false
      (Request.create 0x11 false) session
