-- ===== src/Http/Parser.antt =====
-- server/library/protocol/http/HttpRequestParser.cpp and HttpResponseParser.cpp: the callbacks. The
-- parsers themselves, of the Mongrel2 project, are parameters: what a run over a text calls, how
-- far it gets, whether it is finished, and whether it fails. `atoi` is a parameter too.
pub mod Events
use uiconnect.Base.{
  ℕ, zero, suc, ◌-◌, ◌^◌, Bool, true, false, not, ◌||◌, List, [], ◌∷◌, length, ◌==◌, if◌then◌else◌,
}
use uiconnect.Base.Text.{codes}
use uiconnect.Http.Names.{to_method, invalid_method}
use uiconnect.Http.Request.{HttpRequest}
use uiconnect.Http.Response.{HttpResponse}
use uiconnect.Http.Request
use uiconnect.Http.Response

-- strncmp(at, str, n) == 0, for the text from `at` to its NUL and a literal
unfoldable pub same_start : ℕ → List ℕ → List ℕ → Bool
same_start zero at str = true
same_start (suc n) [] [] = true
same_start (suc n) [] (y ∷ ys) = false
same_start (suc n) (x ∷ xs) [] = x == 0
same_start (suc n) (x ∷ xs) (y ∷ ys) =
    let rest = same_start n xs ys in if x == y then rest else false

-- A call of a callback: with the text from `at` on and `length`, or with the text of that length.
pub data RequestEvent : Type 0 where
  request_method : List ℕ → ℕ → RequestEvent
  request_uri : List ℕ → RequestEvent
  fragment : List ℕ → RequestEvent
  request_path : List ℕ → RequestEvent
  query_string : List ℕ → RequestEvent
  http_version : List ℕ → ℕ → RequestEvent
  header_done : RequestEvent
  http_field : List ℕ → List ℕ → RequestEvent

-- m_error is the bit pattern of an int.
pub record HttpRequestParser : Type 0 where
  pub error : ℕ
  pub data_of : HttpRequest

-- HttpRequestParser::HttpRequestParser
unfoldable pub new_request_parser : HttpRequestParser
unfolding Request.create
new_request_parser = record { error = 0; data_of = Request.create 0x11 true }

unfoldable pub set_error : ℕ → HttpRequestParser → HttpRequestParser
set_error v p = record p { error = v }

unfoldable pub set_data : HttpRequest → HttpRequestParser → HttpRequestParser
set_data r p = record p { data_of = r }

-- on_request_method
unfoldable pub on_request_method : List ℕ → HttpRequestParser → HttpRequestParser
unfolding to_method set_error set_data
on_request_method at p =
    let m = to_method at in
    if m == invalid_method then set_error 1000 p else set_data (record p.data_of { method = m }) p

-- -1001
abbrev pub minus_1001 : ℕ
minus_1001 = 4294966295

-- on_request_version
unfoldable pub on_request_version : List ℕ → ℕ → HttpRequestParser → HttpRequestParser
unfolding same_start set_error set_data
on_request_version at len p =
    if same_start len at (codes "HTTP/1.1")
    then set_data (record p.data_of { version = 0x11 }) p
    else if same_start len at (codes "HTTP/1.0")
    then set_data (record p.data_of { version = 0x10 }) p
    else set_error minus_1001 p

-- on_request_http_field
unfoldable pub on_request_http_field : List ℕ → List ℕ → HttpRequestParser → HttpRequestParser
unfolding set_error set_data Request.set_header
on_request_http_field field value p =
    if length field == 0
    then set_error 1002 p
    else set_data (Request.set_header p.data_of field value) p

-- the callbacks, as the constructor sets them
unfoldable pub on_request : RequestEvent → HttpRequestParser → HttpRequestParser
unfolding on_request_method on_request_version on_request_http_field set_data
on_request (request_method at len) p = on_request_method at p
on_request (request_uri text) p = p
on_request (fragment text) p = set_data (record p.data_of { fragment = text }) p
on_request (request_path text) p = set_data (record p.data_of { path = text }) p
on_request (query_string text) p = set_data (record p.data_of { query = text }) p
on_request (http_version at len) p = on_request_version at len p
on_request header_done p = p
on_request (http_field field value) p = on_request_http_field field value p

unfoldable pub on_requests : List RequestEvent → HttpRequestParser → HttpRequestParser
unfolding on_request
on_requests [] p = p
on_requests (e ∷ rest) p = on_requests rest (on_request e p)

-- a run of http_parser_execute, with what http_parser_finish and http_parser_has_error say then
pub record RequestRun : Type 0 where
  pub events : List RequestEvent
  pub offset : ℕ
  pub finished : Bool
  pub failed : Bool

-- HttpRequestParser::hasError
unfoldable pub has_request_error : RequestRun → HttpRequestParser → Bool
has_request_error run p = not (p.error == 0) || run.failed

pub data ResponseEvent : Type 0 where
  reason_phrase : List ℕ → ResponseEvent
  status_code : List ℕ → ResponseEvent
  chunk_size : ResponseEvent
  response_version : List ℕ → ℕ → ResponseEvent
  response_header_done : ResponseEvent
  last_chunk : ResponseEvent
  response_field : List ℕ → List ℕ → ResponseEvent

pub record HttpResponseParser : Type 0 where
  pub error : ℕ
  pub data_of : HttpResponse

-- HttpResponseParser::HttpResponseParser
unfoldable pub new_response_parser : HttpResponseParser
unfolding Response.create
new_response_parser = record { error = 0; data_of = Response.create 0x11 true }

-- `v` of on_response_version
abbrev pub version_of : List ℕ → ℕ → ℕ
unfolding same_start
version_of at len =
    let v = if same_start len at (codes "HTTP/1.1") then 0x11 else 0 in
    if same_start len at (codes "HTTP/1.0") then 0x10 else v

module _ (atoi : List ℕ → ℕ) where
  -- the callbacks, as the constructor sets them
  unfoldable pub on_response : ResponseEvent → HttpResponseParser → HttpResponseParser
  unfolding version_of Response.set_header
  on_response (reason_phrase text) p = record p { data_of = record p.data_of { reason = text } }
  on_response (status_code at) p = record p { data_of = record p.data_of { status = atoi at } }
  on_response chunk_size p = p
  on_response (response_version at len) p =
      let v = version_of at len in
      if v == 0
      then record p { error = minus_1001 }
      else record p { data_of = record p.data_of { version = v } }
  on_response response_header_done p = p
  on_response last_chunk p = p
  on_response (response_field field value) p =
      if length field == 0
      then record p { error = 1002 }
      else record p { data_of = Response.set_header p.data_of field value }

  unfoldable pub on_responses : List ResponseEvent → HttpResponseParser → HttpResponseParser
  unfolding on_response
  on_responses [] p = p
  on_responses (e ∷ rest) p = on_responses rest (on_response e p)

pub record ResponseRun : Type 0 where
  pub events : List ResponseEvent
  pub offset : ℕ
  pub finished : Bool
  pub failed : Bool

-- HttpResponseParser::hasError
unfoldable pub has_response_error : ResponseRun → HttpResponseParser → Bool
has_response_error run p = not (p.error == 0) || run.failed
