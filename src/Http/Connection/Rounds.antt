-- ===== src/Http/Connection/Rounds.antt =====
-- What a round of the loop of HttpConnection::onRead takes from the buffer.
use uiconnect.Base.{
  ℕ, suc, ◌+◌, ◌≤◌, ◌<◌, ◌≡◌, refl, sym, ap, Bool, true, false, ◌||◌, List, leb, ltb, if-elim,
  arith,
}
use mathlib.Core.Path.{subst}
use uiconnect.Base.Outcome.{Outcome, ok, ◌>>=◌, bind_ok, throw_if, ok-injective}
use uiconnect.ByteArray.{ByteArray, get_unread_size}
use uiconnect.ByteArray.Iov.{IoVec}
use uiconnect.ByteArray.Read.{to_string}
use uiconnect.ByteArray.Moves.{has_read, advance}
use uiconnect.Net.Channel.{Env}
use uiconnect.Net.Socket.{Sent}
use uiconnect.Http.Request.{HttpRequest}
use uiconnect.Http.Parser.{
  RequestRun, ResponseRun, on_requests, on_responses, new_request_parser, new_response_parser,
  has_request_error, has_response_error,
}
use uiconnect.Http.Connection.{
  HttpConnection, Round, again, stop, consume, deliver, moved, round_request, round_response,
  on_parse_request_error, on_parse_response_error,
}

abbrev pub unread : HttpConnection → ℕ
unread c = get_unread_size c.tcp.read_buffer

passed : (bad : Bool) {u : Unit {0}} → throw_if bad ≡ ok u → bad ≡ false
passed true e = cc
passed false e = refl

inside : (size n : ℕ) → (leb size 0 || ltb n size) ≡ false → (0 < size) × (size ≤ n)
inside size n h = (ground arith, ground arith)

has_read_less :
    (a b : ByteArray) (size : ℕ) → has_read a size ≡ ok b → get_unread_size b < get_unread_size a
unfolding has_read
has_read_less a b size e =
    let bad = leb size 0 || ltb (get_unread_size a) size in
    let target = a.read_pos + size in
    let (_, p, e1) = bind_ok (throw_if bad) _ e in
    let (_, moved, e2) =
      bind_ok (advance (suc size) a.base_size a.chain a.read_pos target a.read_block) _ e1 in
    let fits = inside size (get_unread_size a) (passed bad p) in
    let r : target ≡ b.read_pos = ap (λ (x : ByteArray). x.read_pos) (ok-injective e2) in
    let w : a.write_pos ≡ b.write_pos = ap (λ (x : ByteArray). x.write_pos) (ok-injective e2) in
    omega (arith, fits.0, fits.1)

-- The round goes on with less to read.
abbrev pub GoesOn : ℕ → Round → Type 0
GoesOn n (again c) = unread c < n
GoesOn n (stop c) = Unit {0}

consume_less : (c c' : HttpConnection) (size : ℕ) → consume c size ≡ ok c' → unread c' < unread c
unfolding consume
consume_less c c' size e =
    let (b, p, q) = bind_ok (has_read c.tcp.read_buffer size) _ e in
    subst (λ (x : HttpConnection). unread x < unread c) (ok-injective q)
      (has_read_less c.tcp.read_buffer b size p)

unread-deliver : (r : HttpRequest) (c : HttpConnection) → unread (deliver r c) ≡ unread c
unfolding deliver
unread-deliver r c =
    if-elim (λ (x : HttpConnection). unread x ≡ unread c) c.reads (λ e. refl) (λ e. refl)

-- of an outcome that is a round
abbrev pub Results : (Round → Type 0) → Outcome Round → Type 0
Results P m = (r : Round) → m ≡ ok r → P r

stops : (n : ℕ) (m : Outcome HttpConnection) → Results (GoesOn n) (m >>= λ c. ok (stop c))
stops n m r e = let (c, p, q) = bind_ok m _ e in subst (GoesOn n) (ok-injective q) tt

consumes :
    (c : HttpConnection) (size : ℕ) (f : HttpConnection → HttpConnection)
    → ((k : HttpConnection) → unread (f k) ≡ unread k)
    → Results (GoesOn (unread c)) (consume c size >>= λ c'. ok (again (f c')))
consumes c size f keeps r e =
    let (c', p, q) = bind_ok (consume c size) _ e in
    let less = consume_less c c' size p in
    subst (GoesOn (unread c)) (ok-injective q) (subst (λ n. n < unread c) (sym (keeps c')) less)

pub stopped : (n : ℕ) (c : HttpConnection) → Results (GoesOn n) (ok (stop c))
stopped n c r e = subst (GoesOn n) (ok-injective e) tt

module _ (parse_request : List ℕ → RequestRun) (parse_response : List ℕ → ResponseRun)
    (atoi : List ℕ → ℕ) (env : Env) (kernel : List IoVec → Sent) where
  pub request_goes_on :
      (c : HttpConnection)
      → Results (GoesOn (unread c)) (round_request parse_request parse_response atoi env kernel c)
  unfolding round_request
  request_goes_on c r e =
      let (msg, p, q) = bind_ok (to_string c.tcp.read_buffer) _ e in
      let run = parse_request msg in
      let parser = on_requests run.events new_request_parser in
      if-elim (Results (GoesOn (unread c))) run.finished
        (λ d.
          consumes c run.offset (deliver (record parser.data_of { size = run.offset }))
            (unread-deliver _))
        (λ d.
          if-elim (Results (GoesOn (unread c))) (has_request_error run parser)
            (λ d'. stops (unread c) (on_parse_request_error env kernel c (moved run.offset msg)))
            (λ d'. stopped (unread c) c))
        r q

  pub response_goes_on :
      (c : HttpConnection)
      → Results (GoesOn (unread c)) (round_response parse_request parse_response atoi env kernel c)
  unfolding round_response
  response_goes_on c r e =
      let (msg, p, q) = bind_ok (to_string c.tcp.read_buffer) _ e in
      let run = parse_response msg in
      let parser = on_responses atoi run.events new_response_parser in
      if-elim (Results (GoesOn (unread c))) run.finished
        (λ d. consumes c run.offset (λ k. k) (λ k. refl))
        (λ d.
          if-elim (Results (GoesOn (unread c))) (has_response_error run parser)
            (λ d'. stops (unread c) (on_parse_response_error env c)) (λ d'. stopped (unread c) c))
        r q
