-- ===== src/Server/Sessions.antt =====
-- server/library/network/TcpSession.cpp and protocol/http/HttpSession.cpp: what a session does with
-- messages, requests and its timer. Times are in nanoseconds. The methods run in the thread of the
-- session's loop, which is alive; the processors of the program are parameters, and of them the
-- model has what they make of a response. m_closeCallback has no setter and is never set.
pub mod Rate
pub mod Requests
pub mod Messages
use uiconnect.Base.{
  ℕ, ◌+◌, ◌-◌, ◌/◌, ◌%◌, ◌^◌, Bool, true, false, not, ◌&&◌, ◌||◌, Option, none, some, List, [], ◌∷◌,
  ◌++◌, leb, ltb, if◌then◌else◌,
}
use uiconnect.Base.Text.{codes}
use uiconnect.Base.Outcome.{Outcome, ok, fault, ◌>>=◌}
use uiconnect.ByteArray.Iov.{IoVec}
use uiconnect.Net.Channel.{Env}
use uiconnect.Net.Socket.{Sent}
use uiconnect.Net.Connection.{Connection, ConnState, disconnected, on_close}
use uiconnect.Http.Request.{HttpRequest, get_header}
use uiconnect.Http.Response.{HttpResponse}
use uiconnect.Http.Response
use uiconnect.Http.Dispatcher.{HttpDispatcher, Dispatched, handled, not_found, dispatch}
use uiconnect.Http.Connection.{HttpConnection, send}
use uiconnect.Http.Connection

-- a < b of ints, by their bit patterns
abbrev pub less32 : ℕ → ℕ → Bool
less32 a b = ltb ((a + 2 ^ 31) % 2 ^ 32) ((b + 2 ^ 31) % 2 ^ 32)

-- an int as an unsigned long long
abbrev pub to64 : ℕ → ℕ
to64 n = if ltb n (2 ^ 31) then n else n + (2 ^ 64 - 2 ^ 32)

-- m_activeTime and m_processedMsgSize
pub record Control : Type 0 where
  pub active_time : ℕ
  pub processed : ℕ

-- tcp.session.timeout, tcp.session.msg.handle_size and http.session.msg.incomplete_cnt
pub record Limits : Type 0 where
  pub timeout : ℕ
  pub handle_size : ℕ
  pub incomplete : ℕ

-- What a check does to its loop: removeSession of the session, or addTimer for the next check.
pub data Effect : Type 0 where
  removes_session : Effect
  adds_timer : ℕ → Effect

-- the milliseconds from `active` to `now`, cut to an int
abbrev pub elapsed : ℕ → ℕ → ℕ
elapsed active now =
    if leb active now
    then (now - active) / 1000000 % 2 ^ 32
    else (2 ^ 32 - (active - now) / 1000000 % 2 ^ 32) % 2 ^ 32

-- duration > timeout || m_processedMsgSize > handleMsgSize
unfoldable pub is_over : Limits → ℕ → Control → Bool
is_over l now c =
    less32 l.timeout (elapsed c.active_time now) || ltb (to64 l.handle_size) c.processed

-- the count of a message, as handleMessage and handleRequest begin
unfoldable pub count_message : ℕ → ℕ → Control → Control
count_message now size c = record { active_time = now; processed = (c.processed + size) % 2 ^ 64 }

-- TcpSession::checkValid. It goes on after removeSession, which destroys the session where no one
-- else keeps it.
unfoldable pub check_valid : Bool → Limits → ℕ → Control → Outcome (Control × List Effect)
unfolding is_over
check_valid kept l now c =
    let fresh : Control = record { active_time = now; processed = 0 } in
    if is_over l now c
    then if kept then ok (fresh, removes_session ∷ adds_timer (to64 l.timeout) ∷ []) else fault
    else ok (fresh, adds_timer (to64 l.timeout) ∷ [])

-- HttpSession::checkValid, with getIncompReqCnt() of the connection
unfoldable pub http_check_valid : Limits → ℕ → ℕ → Control → Control × List Effect
unfolding is_over
http_check_valid l now incomplete c =
    if less32 l.incomplete incomplete
    then (c, removes_session ∷ [])
    else if is_over l now c
    then (c, removes_session ∷ [])
    else (record { active_time = now; processed = 0 }, adds_timer (to64 l.timeout) ∷ [])

-- TcpSession::removeConnection, where m_connection may have been reset
unfoldable pub remove_connection : Env → Option Connection → Outcome (Bool × Option Connection)
unfolding on_close
remove_connection env none = fault
remove_connection env (some c) =
    let closed = on_close env c in
    elim closed.state [ disconnected ↦ ok (true, none) | _ ↦ ok (false, some closed) ]

-- HttpSession::init: m_connection is reset where its init fails.
unfoldable pub http_init : Env → HttpConnection → Bool × Option HttpConnection
unfolding uiconnect.Http.Connection.init
http_init env c =
    let (done, c') = uiconnect.Http.Connection.init env c in
    if done
    then (true, some (record c' { reads = true; tcp = record c'.tcp { closes = true } }))
    else (false, none)

pub record HttpSession : Type 0 where
  pub control : Control
  pub connection : HttpConnection

abbrev pub is_empty : List ℕ → Bool
is_empty [] = true
is_empty (c ∷ cs) = false

-- setWriteCallback of the connection
unfoldable pub set_write_callback : HttpConnection → HttpConnection
set_write_callback c = record c { tcp = record c.tcp { writes = true } }

module _ (regex_match : List ℕ → List ℕ → Bool)
    (process : ℕ → HttpRequest → HttpResponse → HttpResponse) where
  -- what becomes of the response `res`
  unfoldable pub respond : HttpRequest → HttpResponse → Dispatched → HttpResponse
  respond req res (handled hp) = process hp req res
  respond req res (not_found filled) = filled

  -- the response after dispatch
  unfoldable pub answer : HttpDispatcher → HttpRequest → HttpResponse
  unfolding dispatch Response.create respond
  answer d req =
      let res = Response.create 0x11 true in
      respond req res (
        dispatch regex_match (codes "Server") (codes "Luansi/UIConnect") (codes "resouce not found")
          d req.path res)

  -- HttpSession::handleRequest
  unfoldable pub handle_request :
      HttpDispatcher
      → Env
      → (List IoVec → Sent)
      → ℕ
      → HttpRequest
      → HttpSession
      → Outcome HttpSession
  unfolding answer send count_message get_header set_write_callback
  handle_request d env kernel now req s = send env kernel s.connection (answer d req) >>= λ c.
      ok (record {
        control = count_message now (to64 req.size) s.control;
        connection =
            if is_empty (get_header req (codes "Connection") []) then set_write_callback c else c;
      })
