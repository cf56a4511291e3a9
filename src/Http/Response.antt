-- ===== src/Http/Response.antt =====
-- server/library/protocol/http/HttpResponse.h and HttpResponse.cpp, without dump.
use uiconnect.Base.{ℕ, Bool, false, List, []}
use uiconnect.Http.{MapType, assign, erase, find_or}

pub record HttpResponse : Type 0 where
  pub status : ℕ
  pub version : ℕ
  pub close : Bool
  pub websocket : Bool
  pub body : List ℕ
  pub reason : List ℕ
  pub headers : MapType

-- HttpResponse::HttpResponse; HttpStatus::OK is 200.
unfoldable pub create : ℕ → Bool → HttpResponse
create version close = record {
  status = 200;
  version = version;
  close = close;
  websocket = false;
  body = [];
  reason = [];
  headers = [];
}

unfoldable pub get_header : HttpResponse → List ℕ → List ℕ → List ℕ
unfolding find_or
get_header r key default_val = find_or key default_val r.headers

unfoldable pub set_header : HttpResponse → List ℕ → List ℕ → HttpResponse
unfolding assign
set_header r key val = record r { headers = assign key val r.headers }

unfoldable pub del_header : HttpResponse → List ℕ → HttpResponse
unfolding erase
del_header r key = record r { headers = erase key r.headers }
