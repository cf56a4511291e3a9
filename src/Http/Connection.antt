-- ===== src/Http/Connection.antt =====
-- server/library/protocol/http/HttpConnection.h and HttpConnection.cpp over a connection. The HTTP
-- parsers, `atoi` and the kernel's answers are parameters. Of the tasks for onClose that another
-- thread's call leaves in the loop the model has their number.
pub mod Rounds
pub mod Ends
pub mod Ahead
pub mod Pipeline
use uiconnect.Base.{
  ℕ, zero, suc, ◌+◌, ◌%◌, ◌^◌, Bool, true, false, not, ◌||◌, Option, none, some, List, [], ◌∷◌,
  ◌++◌, length, drop, ◌-◌, ◌==◌, if◌then◌else◌,
}
use uiconnect.Base.Text.{codes}
use uiconnect.Base.Outcome.{Outcome, ok, fault, ◌>>=◌}
use uiconnect.ByteArray.{ByteArray, get_unread_size}
use uiconnect.ByteArray.Iov.{IoVec}
use uiconnect.ByteArray.Read.{to_string}
use uiconnect.ByteArray.Moves.{has_read}
use uiconnect.Buffer.{set_msg, find, find_from}
use uiconnect.Net.Channel.{Env, Channel, read_event, add_target_event}
use uiconnect.Net.Socket.{Size, minus_one, bytes, Sent, Received, recv}
use uiconnect.Net.Connection.{Connection, connected, on_close, on_error, on_write, is_open}
use uiconnect.Net.Connection
use uiconnect.Http.Names.{to_method, invalid_method}
use uiconnect.Http.Request.{HttpRequest}
use uiconnect.Http.Response.{HttpResponse, set_header}
use uiconnect.Http.Response
use uiconnect.Http.Dump.{dump_response}
use uiconnect.Http.Parser.{
  HttpRequestParser, new_request_parser, on_requests, RequestRun, has_request_error,
  new_response_parser, on_responses, ResponseRun, has_response_error,
}

-- `tcp` is the base, `reads` whether m_readCallback is set and `requests` what it was called with.
pub record HttpConnection : Type 0 where
  pub tcp : Connection
  pub reads : Bool
  pub incomplete : ℕ
  pub requests : List HttpRequest
  pub close_tasks : ℕ

-- HttpConnection::resetIncompReqCnt
unfoldable pub reset_incomp_req_cnt : HttpConnection → HttpConnection
reset_incomp_req_cnt c = record c { incomplete = 0 }

-- HttpConnection::init, behind the setting of the channel's callbacks
unfoldable pub init : Env → HttpConnection → Bool × HttpConnection
unfolding Connection.init
init env c = let r = Connection.init env c.tcp in (r.0, record c { tcp = r.1 })

-- m_loop.lock()->addTask([&]() { onClose(); }): the loop's own thread runs it at once.
unfoldable pub add_close : Env → HttpConnection → Outcome HttpConnection
unfolding on_close
add_close env c =
    if env.loop_alive
    then if env.in_thread
      then ok (record c { tcp = on_close env c.tcp })
      else ok (record c { close_tasks = suc c.close_tasks })
    else fault

-- HttpConnection::send
unfoldable pub send :
    Env → (List IoVec → Sent) → HttpConnection → HttpResponse → Outcome HttpConnection
unfolding dump_response set_msg on_write
send env kernel c res = set_msg c.tcp.write_buffer (dump_response res) >>= λ buffer.
    on_write env kernel (record c.tcp { write_buffer = buffer }) >>= λ tcp.
    ok (record c { tcp = tcp })

-- the response of onParseRequestError
unfoldable pub bad_request : List ℕ → HttpResponse
unfolding set_header Response.create
bad_request msg =
    let res = set_header (Response.create 0x11 true) (codes "Server") (codes "Luansi/UIConnect") in
    record res { status = 400; close = false; body = codes "bad request: " ++ 13 ∷ 10 ∷ msg }

-- HttpConnection::onParseRequestError
unfoldable pub on_parse_request_error :
    Env → (List IoVec → Sent) → HttpConnection → List ℕ → Outcome HttpConnection
unfolding send bad_request add_close
on_parse_request_error env kernel c msg =
    send env kernel c (bad_request msg) >>= λ c'. add_close env c'

-- HttpConnection::onParseResponseError
unfoldable pub on_parse_response_error : Env → HttpConnection → Outcome HttpConnection
unfolding add_close
on_parse_response_error env c = add_close env c

-- What HttpRequestParser::execute leaves of its data: its memmove puts what is behind the parsed
-- bytes, of which http_parser has no more than there are, to the front.
unfoldable pub moved : ℕ → List ℕ → List ℕ
moved offset msg = drop offset msg ++ drop (length msg - offset) msg

-- How a round of onRead's loop ends: `continue`, or `break`.
pub data Round : Type 0 where
  again : HttpConnection → Round
  stop : HttpConnection → Round

-- m_readBuffer->hasRead(parsedSize), with the count of incomplete requests reset
unfoldable pub consume : HttpConnection → ℕ → Outcome HttpConnection
unfolding has_read
consume c size = has_read c.tcp.read_buffer size >>= λ buffer.
    ok (record c { tcp = record c.tcp { read_buffer = buffer }; incomplete = 0 })

-- if(m_readCallback) m_readCallback(request)
unfoldable pub deliver : HttpRequest → HttpConnection → HttpConnection
deliver r c = if c.reads then record c { requests = c.requests ++ r ∷ [] } else c

abbrev pub contains : List ℕ → List ℕ → Bool
unfolding find_from
contains str text = elim (find_from 0 str text) [ none ↦ false | some pos ↦ true ]

-- methodOrRes.find("HTTP/1.1") or methodOrRes.find("HTTP/1.0")
unfoldable pub is_response : List ℕ → Bool
unfolding contains
is_response word = contains (codes "HTTP/1.1") word || contains (codes "HTTP/1.0") word

module _ (parse_request : List ℕ → RequestRun) (parse_response : List ℕ → ResponseRun)
    (atoi : List ℕ → ℕ) (env : Env) (kernel : List IoVec → Sent) where
  -- the branch for a request
  unfoldable pub round_request : HttpConnection → Outcome Round
  unfolding to_string on_requests new_request_parser has_request_error consume deliver
      on_parse_request_error moved
  round_request c = to_string c.tcp.read_buffer >>= λ msg.
      let run = parse_request msg in
      let p = on_requests run.events new_request_parser in
      if run.finished
      then (consume c run.offset >>= λ c'.
          ok (again (deliver (record p.data_of { size = run.offset }) c')))
      else if has_request_error run p
      then (on_parse_request_error env kernel c (moved run.offset msg) >>= λ c'. ok (stop c'))
      else ok (stop c)

  -- the branch for a response
  unfoldable pub round_response : HttpConnection → Outcome Round
  unfolding to_string on_responses new_response_parser has_response_error consume
      on_parse_response_error
  round_response c = to_string c.tcp.read_buffer >>= λ msg.
      let run = parse_response msg in
      let p = on_responses atoi run.events new_response_parser in
      if run.finished
      then (consume c run.offset >>= λ c'. ok (again c'))
      else if has_response_error run p
      then (on_parse_response_error env c >>= λ c'. ok (stop c'))
      else ok (stop c)

  -- a round for the first word
  unfoldable pub round_word : HttpConnection → List ℕ → Outcome Round
  unfolding to_method is_response round_request round_response add_close
  round_word c word =
      if not (to_method word == invalid_method)
      then round_request c
      else if is_response word
      then round_response c
      else (add_close env c >>= λ c'. ok (again c'))

  abbrev pub round_found : HttpConnection → Option ℕ × List ℕ → Outcome Round
  unfolding round_word
  round_found c (none, word) = ok (stop c)
  round_found c (some pos, word) = round_word c word

  -- a round of the loop
  unfoldable pub round : HttpConnection → Outcome Round
  unfolding find round_found
  round c =
      if get_unread_size c.tcp.read_buffer == 0
      then ok (stop c)
      else find c.tcp.read_buffer (codes " ") [] 20 >>= λ found. round_found c found

  -- The loop, or `none` where the rounds do not end it.
  unfoldable pub read_loop : ℕ → HttpConnection → Outcome (Option HttpConnection)
  unfolding round
  read_loop zero c = ok none
  read_loop (suc fuel) c =
      round c >>= λ r. elim r [ again c' ↦ read_loop fuel c' | stop c' ↦ ok (some c') ]

  -- onRead behind recv
  unfoldable pub handle_received :
      ℕ → HttpConnection → Bool → Size → Outcome (Option HttpConnection)
  unfolding on_close on_error read_loop
  handle_received fuel c false (bytes zero) = ok (some (record c { tcp = on_close env c.tcp }))
  handle_received fuel c false minus_one = ok (some (record c { tcp = on_error env c.tcp }))
  handle_received fuel c done size =
      read_loop fuel (record c { incomplete = (c.incomplete + 1) % 2 ^ 32 })

  -- HttpConnection::onRead, or `none` while recv waits or the loop does not end
  unfoldable pub on_read : List Received → HttpConnection → Outcome (Option HttpConnection)
  unfolding recv handle_received
  on_read answers c = elim c.tcp.state [
    | connected ↦
        recv (is_open c.tcp.fd) c.tcp.nonblock c.tcp.read_buffer (bytes 0) answers >>= λ r. elim r [
          | none ↦ ok none
          | some (done, size, buffer) ↦
              handle_received (suc (get_unread_size buffer))
                (record c { tcp = record c.tcp { read_buffer = buffer } }) done size
        ]
    | _ ↦ ok (some c)
  ]
