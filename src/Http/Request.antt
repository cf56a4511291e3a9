-- ===== src/Http/Request.antt =====
-- server/library/protocol/http/HttpRequest.h and HttpRequest.cpp, without dump.
use uiconnect.Base.{ℕ, Bool, false, Option, List, [], ◌∷◌}
use uiconnect.Http.{MapType, find, assign, erase, find_or, get_as}

pub record HttpRequest : Type 0 where
  pub method : ℕ
  pub version : ℕ
  pub close : Bool
  pub websocket : Bool
  pub path : List ℕ
  pub query : List ℕ
  pub fragment : List ℕ
  pub body : List ℕ
  pub headers : MapType
  pub params : MapType
  pub cookies : MapType
  pub size : ℕ

-- HttpRequest::HttpRequest; GET is 1 in HTTP_METHOD_MAP, and the path is "/". m_status is not set.
unfoldable pub create : ℕ → Bool → HttpRequest
create version close = record {
  method = 1;
  version = version;
  close = close;
  websocket = false;
  path = 47 ∷ [];
  query = [];
  fragment = [];
  body = [];
  headers = [];
  params = [];
  cookies = [];
  size = 0;
}

unfoldable pub get_header : HttpRequest → List ℕ → List ℕ → List ℕ
unfolding find_or
get_header r key default_val = find_or key default_val r.headers

unfoldable pub get_param : HttpRequest → List ℕ → List ℕ → List ℕ
unfolding find_or
get_param r key default_val = find_or key default_val r.params

unfoldable pub get_cookie : HttpRequest → List ℕ → List ℕ → List ℕ
unfolding find_or
get_cookie r key default_val = find_or key default_val r.cookies

unfoldable pub set_header : HttpRequest → List ℕ → List ℕ → HttpRequest
unfolding assign
set_header r key val = record r { headers = assign key val r.headers }

unfoldable pub set_param : HttpRequest → List ℕ → List ℕ → HttpRequest
unfolding assign
set_param r key val = record r { params = assign key val r.params }

unfoldable pub set_cookie : HttpRequest → List ℕ → List ℕ → HttpRequest
unfolding assign
set_cookie r key val = record r { cookies = assign key val r.cookies }

unfoldable pub del_header : HttpRequest → List ℕ → HttpRequest
unfolding erase
del_header r key = record r { headers = erase key r.headers }

unfoldable pub del_param : HttpRequest → List ℕ → HttpRequest
unfolding erase
del_param r key = record r { params = erase key r.params }

unfoldable pub del_cookie : HttpRequest → List ℕ → HttpRequest
unfolding erase
del_cookie r key = record r { cookies = erase key r.cookies }

-- hasHeader and its siblings: `some` is true, with what goes to `*val`.
unfoldable pub has_header : HttpRequest → List ℕ → Option (List ℕ)
unfolding find
has_header r key = find key r.headers

unfoldable pub has_param : HttpRequest → List ℕ → Option (List ℕ)
unfolding find
has_param r key = find key r.params

unfoldable pub has_cookie : HttpRequest → List ℕ → Option (List ℕ)
unfolding find
has_cookie r key = find key r.cookies

-- The templates look into m_headers, those for parameters and cookies too.
module _ {T : Type 0} (lexical_cast : List ℕ → Option T) where
  unfoldable pub get_header_as : HttpRequest → List ℕ → T → T
  unfolding get_as
  get_header_as r key default_val = get_as lexical_cast r.headers key default_val

  unfoldable pub get_param_as : HttpRequest → List ℕ → T → T
  unfolding get_as
  get_param_as r key default_val = get_as lexical_cast r.headers key default_val

  unfoldable pub get_cookie_as : HttpRequest → List ℕ → T → T
  unfolding get_as
  get_cookie_as r key default_val = get_as lexical_cast r.headers key default_val
