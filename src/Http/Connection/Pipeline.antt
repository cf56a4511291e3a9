-- ===== src/Http/Connection/Pipeline.antt =====
-- Requests that stand behind one another in the read buffer.
use uiconnect.Base.{
  ℕ, zero, suc, ◌≤◌, ◌<◌, ◌≡◌, refl, sym, ap, ◌∙◌, ◌⊎◌, inl, inr, true, false, not, none, some,
  List, [], ◌∷◌, ◌++◌, drop, length, ◌==◌, ne-==, length-drop, append_assoc, append-nil, arith,
}
use mathlib.Core.Path.{subst}
use uiconnect.Base.Outcome.{ok}
use uiconnect.ByteArray.{ByteArray, get_unread_size}
use uiconnect.ByteArray.Iov.{IoVec}
use uiconnect.ByteArray.Read.{to_string}
use uiconnect.ByteArray.Sound.Read.{pending, to_string-pending, length-pending}
use uiconnect.Net.Channel.{Env}
use uiconnect.Net.Socket.{Sent}
use uiconnect.Http.Names.{to_method, invalid_method}
use uiconnect.Http.Request.{HttpRequest}
use uiconnect.Http.Parser.{
  HttpRequestParser, RequestRun, ResponseRun, on_requests, new_request_parser, has_request_error,
}
use uiconnect.Http.Connection.{
  HttpConnection, again, stop, consume, deliver, round_request, round_word, round_found, round,
  read_loop,
}
use native.Mathlib.Decide.{dec_lt}
use uiconnect.Http.Connection.Ahead.{IsAhead, IsAhead-has_read, first_word, find-IsAhead}

module _ (parse_request : List ℕ → RequestRun) (parse_response : List ℕ → ResponseRun)
    (atoi : List ℕ → ℕ) where
  -- what the parser's callbacks make of a text
  abbrev pub parser_of : List ℕ → HttpRequestParser
  parser_of text = on_requests (parse_request text).events new_request_parser

  -- the request at the beginning of a text, with its size
  abbrev pub request_of : List ℕ → HttpRequest
  request_of text = record (parser_of text).data_of { size = (parse_request text).offset }

  -- A text begins with the name of a method.
  abbrev pub IsRequest : List ℕ → Type 0
  IsRequest text =
      (pos : ℕ) × (word : List ℕ) × (first_word text ≡ (some pos, word))
      × (not (to_method word == invalid_method) ≡ true)

  -- It is empty, has no first word, or begins with a request that neither is whole nor has an error.
  abbrev pub IsIncomplete : List ℕ → Type 0
  IsIncomplete text =
      (length text ≡ 0)
      ⊎ ((first_word text ≡ (none, []))
          ⊎ (IsRequest text
              × ((parse_request text).finished ≡ false)
              × (has_request_error (parse_request text) (parser_of text) ≡ false)))

  -- Whole requests behind one another, and what is left.
  pub data Pipeline : List ℕ → List HttpRequest → List ℕ → Type 0 where
    ends : (text : List ℕ) → IsIncomplete text → Pipeline text [] text
    next :
        (text left : List ℕ) (requests : List HttpRequest)
        → IsRequest text
        → (parse_request text).finished ≡ true
        → 0 < (parse_request text).offset
        → (parse_request text).offset ≤ length text
        → Pipeline (drop (parse_request text).offset text) requests left
        → Pipeline text (request_of text ∷ requests) left

  module _ (env : Env) (kernel : List IoVec → Sent) where
    round_whole :
        (c : HttpConnection)
        → (let text = pending c.tcp.read_buffer in
            IsAhead c.tcp.read_buffer
            → IsRequest text
            → (parse_request text).finished ≡ true
            → 0 < (parse_request text).offset
            → (parse_request text).offset ≤ length text
            → c.reads ≡ true
            → (b : ByteArray) × IsAhead b
              × (pending b ≡ drop (parse_request text).offset text)
              × (round parse_request parse_response atoi env kernel c
                  ≡ ok (
                      again (record c {
                        tcp = record c.tcp { read_buffer = b };
                        incomplete = 0;
                        requests = c.requests ++ request_of text ∷ [];
                      }))))
    unfolding round round_word round_request consume deliver
    round_whole c ahead (pos, word, found, method) whole h fits reads =
        let a = c.tcp.read_buffer in
        let e : length (pending a) ≡ get_unread_size a = length-pending a ahead.0 in
        let (b, got, ahead', rest) =
          IsAhead-has_read a (parse_request (pending a)).offset ahead h (omega arith) in
        let text : to_string a ≡ ok (pending a) =
          to_string-pending a ahead.0 ahead.1 (inr (omega (arith, ahead.2))) in
        (
          b,
          ahead',
          rest,
          rw (ne-== (get_unread_size a) (omega arith)) (
              rw (find-IsAhead a ahead (omega arith))
                (rw found (rw method (rw text (rw whole (rw got (rw reads refl))))))),
        )

    round_incomplete :
        (c : HttpConnection)
        → IsAhead c.tcp.read_buffer
        → IsIncomplete (pending c.tcp.read_buffer)
        → round parse_request parse_response atoi env kernel c ≡ ok (stop c)
    unfolding round round_found round_word round_request
    round_incomplete c ahead stops =
        let a = c.tcp.read_buffer in
        let e : length (pending a) ≡ get_unread_size a = length-pending a ahead.0 in
        (elim (dec_lt 0 (get_unread_size a)) [
          | no empty ↦ let z : get_unread_size a ≡ 0 = omega arith in rw z refl
          | yes some_left ↦ rw (ne-== (get_unread_size a) some_left) (
              rw (find-IsAhead a ahead some_left) (elim stops [
                | inl empty ↦ absurd (omega arith)
                | inr (inl wordless) ↦ rw wordless refl
                | inr (inr ((pos, word, found, method), partial, fine)) ↦
                    let text : to_string a ≡ ok (pending a) =
                      to_string-pending a ahead.0 ahead.1 (inr (omega (arith, ahead.2))) in
                    rw found (rw method (rw text (rw partial (rw fine refl))))
              ]))
        ])

    -- a connection behind the loop
    abbrev pub Delivered : HttpConnection → HttpConnection → List HttpRequest → List ℕ → Type 0
    Delivered c out requests left =
        (out.requests ≡ c.requests ++ requests)
        × (pending out.tcp.read_buffer ≡ left)
        × IsAhead out.tcp.read_buffer

    deliver_all :
        (text left : List ℕ) (requests : List HttpRequest) (n : ℕ) (c : HttpConnection)
        → Pipeline text requests left
        → pending c.tcp.read_buffer ≡ text
        → IsAhead c.tcp.read_buffer
        → c.reads ≡ true
        → length requests < n
        → (out : HttpConnection) × (read_loop parse_request parse_response atoi env kernel n c
            ≡ ok (some out))
          × Delivered c out requests left
    unfolding read_loop
    deliver_all text left requests zero c p e ahead reads lt = absurd (omega arith)
    deliver_all text left requests (suc n) c (ends t stops) e ahead reads lt =
        let stopped = round_incomplete c ahead (subst IsIncomplete (sym e) stops) in
        (c, rw stopped refl, (sym (append-nil c.requests), e, ahead))
    deliver_all text left requests (suc n) c (next t l rs is whole h fits rest) e ahead reads lt =
        let text' = pending c.tcp.read_buffer in
        let P : List ℕ → Type 0 = λ x.
          IsRequest x
          × ((parse_request x).finished ≡ true)
          × (0 < (parse_request x).offset)
          × ((parse_request x).offset ≤ length x)
          × Pipeline (drop (parse_request x).offset x) rs l in
        let (is', whole', h', fits', rest') = subst P (sym e) (is, whole, h, fits, rest) in
        let (b, ahead', left_over, goes_on) = round_whole c ahead is' whole' h' fits' reads in
        let c' = record c {
          tcp = record c.tcp { read_buffer = b };
          incomplete = 0;
          requests = c.requests ++ request_of text' ∷ [];
        } in
        let (out, read, (all, last, good)) =
          deliver_all (drop (parse_request text').offset text') l rs n c' rest' left_over ahead'
            reads (omega arith) in
        (
          out,
          rw goes_on read,
          (
            all
                ∙ append_assoc c.requests (request_of text' ∷ []) rs
                ∙ ap (λ x. c.requests ++ request_of x ∷ rs) e,
            last,
            good,
          ),
        )

    -- A request takes at least one character.
    length_Pipeline :
        (text left : List ℕ) (requests : List HttpRequest)
        → Pipeline text requests left
        → length requests ≤ length text
    length_Pipeline text left requests (ends t stops) = omega arith
    length_Pipeline text left requests (next t l rs is whole h fits rest) = omega (
      arith,
      length_Pipeline (drop (parse_request t).offset t) l rs rest,
      length-drop (parse_request t).offset t,
    )

    -- From a sound buffer with an exact pointer whose unread bytes end inside the block where they
    -- begin, with m_readCallback set, where the unread bytes are whole requests behind one another,
    -- each of at least a byte and no more than there are, and behind them is nothing, no first word,
    -- or a request that neither is whole nor has an error, the loop hands out those requests, in their
    -- order and each with its size, and leaves what is behind them; the rounds that onRead's loop is
    -- given are enough.
    pub read_loop-Pipeline :
        (c : HttpConnection) (requests : List HttpRequest) (left : List ℕ)
        → IsAhead c.tcp.read_buffer
        → c.reads ≡ true
        → Pipeline (pending c.tcp.read_buffer) requests left
        → (out : HttpConnection) × (read_loop parse_request parse_response atoi env kernel
              (suc (get_unread_size c.tcp.read_buffer))
              c
            ≡ ok (some out))
          × Delivered c out requests left
    read_loop-Pipeline c requests left ahead reads whole =
        deliver_all (pending c.tcp.read_buffer) left requests
          (suc (get_unread_size c.tcp.read_buffer)) c whole refl ahead reads
          (omega (
            arith,
            length_Pipeline (pending c.tcp.read_buffer) left requests whole,
            length-pending c.tcp.read_buffer ahead.0,
          ))
