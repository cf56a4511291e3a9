-- ===== src/Http/Parser/Events.antt =====
-- The errors of a request's parser.
use uiconnect.Base.{
  ◌≡◌, refl, ap, ◌∙◌, Bool, true, false, not, ◌&&◌, ◌||◌, List, [], ◌∷◌, length, ◌==◌, Bool-cases,
  inl, inr,
}
use uiconnect.Base.Text.{codes}
use uiconnect.Http.Names.{to_method, invalid_method}
use uiconnect.Http.Parser.{
  same_start, RequestEvent, request_method, request_uri, fragment, request_path, query_string,
  http_version, header_done, http_field, HttpRequestParser, set_error, set_data, on_request_method,
  on_request_version, on_request_http_field, on_request, on_requests,
}

-- A method that has no name in the map, a version that is neither, and a field with no name.
abbrev pub is_bad : RequestEvent → Bool
is_bad (request_method at len) = to_method at == invalid_method
is_bad (request_uri text) = false
is_bad (fragment text) = false
is_bad (request_path text) = false
is_bad (query_string text) = false
is_bad (http_version at len) =
    not (same_start len at (codes "HTTP/1.1") || same_start len at (codes "HTTP/1.0"))
is_bad header_done = false
is_bad (http_field field value) = length field == 0

abbrev pub any_bad : List RequestEvent → Bool
any_bad [] = false
any_bad (e ∷ rest) = is_bad e || any_bad rest

-- the error that a callback leaves
abbrev Leaves : HttpRequestParser → Bool → HttpRequestParser → Type 0
Leaves p bad q = (q.error == 0) ≡ (p.error == 0) && not bad

kept : (b : Bool) → b ≡ b && true
kept true = refl
kept false = refl

lost : (b : Bool) → false ≡ b && false
lost true = refl
lost false = refl

on_request-Leaves :
    (e : RequestEvent) (p : HttpRequestParser) → Leaves p (is_bad e) (on_request e p)
unfolding on_request on_request_method on_request_version on_request_http_field set_error set_data
on_request-Leaves (request_method at len) p = (elim (Bool-cases (to_method at == invalid_method)) [
  | inl h ↦ rw h (lost (p.error == 0))
  | inr h ↦ rw h (kept (p.error == 0))
])
on_request-Leaves (request_uri text) p = kept (p.error == 0)
on_request-Leaves (fragment text) p = kept (p.error == 0)
on_request-Leaves (request_path text) p = kept (p.error == 0)
on_request-Leaves (query_string text) p = kept (p.error == 0)
on_request-Leaves (http_version at len) p =
    (elim (Bool-cases (same_start len at (codes "HTTP/1.1"))) [
      | inl h ↦ rw h (kept (p.error == 0))
      | inr h ↦ rw h (elim (Bool-cases (same_start len at (codes "HTTP/1.0"))) [
        | inl h' ↦ rw h' (kept (p.error == 0))
        | inr h' ↦ rw h' (lost (p.error == 0))
      ])
    ])
on_request-Leaves header_done p = kept (p.error == 0)
on_request-Leaves (http_field field value) p = (elim (Bool-cases (length field == 0)) [
  | inl h ↦ rw h (lost (p.error == 0))
  | inr h ↦ rw h (kept (p.error == 0))
])

and_both : (a b c : Bool) → (a && not b) && not c ≡ a && not (b || c)
and_both true true c = refl
and_both true false c = refl
and_both false b c = refl

-- A request is parsed without an error just if there was none before and no callback finds one: a
-- method without a name, a version that is neither 1.1 nor 1.0, or a field without a name.
pub error-on_requests :
    (events : List RequestEvent) (p : HttpRequestParser)
    → ((on_requests events p).error == 0) ≡ (p.error == 0) && not (any_bad events)
unfolding on_requests
error-on_requests [] p = kept (p.error == 0)
error-on_requests (e ∷ rest) p =
    error-on_requests rest (on_request e p)
    ∙ ap (λ b. b && not (any_bad rest)) (on_request-Leaves e p)
    ∙ and_both (p.error == 0) (is_bad e) (any_bad rest)
