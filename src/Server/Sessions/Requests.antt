-- ===== src/Server/Sessions/Requests.antt =====
-- What an HTTP session answers to a request.
use uiconnect.Base.{ℕ, ◌≡◌, refl, ap, ◌∙◌, Bool, true, List, [], if◌then◌else◌}
use uiconnect.Base.Text.{codes}
use uiconnect.Base.Outcome.{ok, ◌>>=◌}
use uiconnect.ByteArray.Iov.{IoVec}
use uiconnect.Net.Channel.{Env}
use uiconnect.Net.Socket.{Sent}
use uiconnect.Http.Request.{HttpRequest, get_header}
use uiconnect.Http.Response.{HttpResponse, create}
use uiconnect.Http.Dispatcher.{HttpDispatcher, regist, dispatch}
use uiconnect.Http.Routes.{dispatch-regist}
use uiconnect.Http.Connection.{HttpConnection, send}
use uiconnect.Server.Sessions.{
  to64, count_message, HttpSession, is_empty, set_write_callback, respond, answer, handle_request,
}

-- the session over the connection that sending left
abbrev pub answered : ℕ → HttpRequest → HttpSession → HttpConnection → HttpSession
unfolding count_message get_header set_write_callback
answered now req s c = record {
  control = count_message now (to64 req.size) s.control;
  connection =
      if is_empty (get_header req (codes "Connection") []) then set_write_callback c else c;
}

module _ (regex_match : List ℕ → List ℕ → Bool)
    (process : ℕ → HttpRequest → HttpResponse → HttpResponse) where
  answer-regist :
      (d : HttpDispatcher) (str : List ℕ) (hp : ℕ) (fuzzy : Bool) (req : HttpRequest)
      → req.path ≡ str
      → answer regex_match process (regist d str hp fuzzy) req ≡ process hp req (create 0x11 true)
  unfolding answer respond
  answer-regist d str hp fuzzy req e =
      let to =
        dispatch regex_match (codes "Server") (codes "Luansi/UIConnect") (codes "resouce not found")
          (regist d str hp fuzzy) in
      ap (λ p. respond regex_match process req (create 0x11 true) (to p (create 0x11 true))) e
      ∙ ap (respond regex_match process req (create 0x11 true))
          (dispatch-regist regex_match (codes "Server") (codes "Luansi/UIConnect")
            (codes "resouce not found") d str [] hp hp fuzzy (create 0x11 true)).0

  -- A request for a path that is registered is answered with what the processor registered last
  -- makes of a fresh response: that is sent, the request is counted, and where it has no header
  -- Connection, or an empty one, the write callback is set behind the sending. Where the sending
  -- fails the request does.
  pub handle_request-regist :
      (d : HttpDispatcher) (env : Env) (kernel : List IoVec → Sent) (now hp : ℕ) (fuzzy : Bool)
      (req : HttpRequest) (s : HttpSession)
      → handle_request regex_match process (regist d req.path hp fuzzy) env kernel now req s ≡ (
          send env kernel s.connection (process hp req (create 0x11 true)) >>= λ c.
          ok (answered now req s c))
  unfolding handle_request
  handle_request-regist d env kernel now hp fuzzy req s =
      ap (λ r. send env kernel s.connection r >>= λ c. ok (answered now req s c))
        (answer-regist d req.path hp fuzzy req refl)
