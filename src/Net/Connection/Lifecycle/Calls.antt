-- ===== src/Net/Connection/Lifecycle/Calls.antt =====
-- The calls of a connection's callbacks, and what closing, an error and messages add to them.
use uiconnect.Base.{
  ℕ, zero, suc, ◌≡◌, ◌≢◌, refl, ap, ◌∙◌, ◌⊎◌, inl, inr, Bool, true, false, List, [], ◌∷◌, ◌++◌,
  arith,
}
use uiconnect.Packet.{Packet}
use uiconnect.Net.Channel.{Env}
use uiconnect.Net.Socket.{Size}
use uiconnect.Net.Connection.{
  disconnected, Call, on_message, on_written, on_failed, on_closed, Connection, call, on_close,
  on_error, call_each,
}
use uiconnect.Net.Connection.Closing.{on_close_lem}

-- the close callback was not called
abbrev pub no_close : List Call → Bool
no_close [] = true
no_close (on_closed fd ∷ rest) = false
no_close (on_message p ∷ rest) = no_close rest
no_close (on_written n ∷ rest) = no_close rest
no_close (on_failed fd ∷ rest) = no_close rest

-- only the error callback was called
abbrev pub failures : List Call → Bool
failures [] = true
failures (on_failed fd ∷ rest) = failures rest
failures (on_closed fd ∷ rest) = false
failures (on_message p ∷ rest) = false
failures (on_written n ∷ rest) = false

-- the close callback was called once, with 0, and behind it only the error callback
abbrev pub settled : List Call → Bool
settled [] = false
settled (on_closed zero ∷ rest) = failures rest
settled (on_closed (suc fd) ∷ rest) = false
settled (on_message p ∷ rest) = settled rest
settled (on_written n ∷ rest) = settled rest
settled (on_failed fd ∷ rest) = settled rest

settled-close : (xs : List Call) → no_close xs ≡ true → settled (xs ++ on_closed 0 ∷ []) ≡ true
settled-close [] h = refl
settled-close (on_closed fd ∷ rest) h = cc
settled-close (on_message p ∷ rest) h = settled-close rest h
settled-close (on_written n ∷ rest) h = settled-close rest h
settled-close (on_failed fd ∷ rest) h = settled-close rest h

failures-fail :
    (xs : List Call) (k : ℕ) → failures xs ≡ true → failures (xs ++ on_failed k ∷ []) ≡ true
failures-fail [] k h = refl
failures-fail (on_closed fd ∷ rest) k h = h
failures-fail (on_message p ∷ rest) k h = h
failures-fail (on_written n ∷ rest) k h = h
failures-fail (on_failed fd ∷ rest) k h = failures-fail rest k h

settled-fail :
    (xs : List Call) (k : ℕ) → settled xs ≡ true → settled (xs ++ on_failed k ∷ []) ≡ true
settled-fail [] k h = cc
settled-fail (on_closed zero ∷ rest) k h = failures-fail rest k h
settled-fail (on_closed (suc fd) ∷ rest) k h = h
settled-fail (on_message p ∷ rest) k h = settled-fail rest k h
settled-fail (on_written n ∷ rest) k h = settled-fail rest k h
settled-fail (on_failed fd ∷ rest) k h = settled-fail rest k h

no_close-message :
    (xs : List Call) (p : Packet) → no_close xs ≡ true → no_close (xs ++ on_message p ∷ []) ≡ true
no_close-message [] p h = refl
no_close-message (on_closed fd ∷ rest) p h = h
no_close-message (on_message q ∷ rest) p h = no_close-message rest p h
no_close-message (on_written n ∷ rest) p h = no_close-message rest p h
no_close-message (on_failed fd ∷ rest) p h = no_close-message rest p h

pub no_close-written :
    (xs : List Call) (s : Size) → no_close xs ≡ true → no_close (xs ++ on_written s ∷ []) ≡ true
no_close-written [] s h = refl
no_close-written (on_closed fd ∷ rest) s h = h
no_close-written (on_message q ∷ rest) s h = no_close-written rest s h
no_close-written (on_written n ∷ rest) s h = no_close-written rest s h
no_close-written (on_failed fd ∷ rest) s h = no_close-written rest s h

abbrev pub IsOpen : Connection → Type 0
IsOpen c = (c.closes ≡ true) × (c.state ≢ disconnected) × (no_close c.calls ≡ true)

abbrev pub IsClosed : Connection → Type 0
IsClosed c = (c.closes ≡ true) × (c.state ≡ disconnected) × (c.fd ≡ 0) × (settled c.calls ≡ true)

abbrev pub Inv : Connection → Type 0
Inv c = IsOpen c ⊎ IsClosed c

close-closes : (env : Env) (c : Connection) → (on_close env c).closes ≡ c.closes
unfolding on_close
close-closes env c = ground arith

pub close_open : (env : Env) (c : Connection) → IsOpen c → IsClosed (on_close env c)
close_open env c (closes, live, quiet) =
    let (done, again, same, works) = on_close_lem env env c in
    let (fd, calls) = works live in
    (close-closes env c ∙ closes, done, fd, ap settled (calls closes) ∙ settled-close c.calls quiet)

close_again : (env : Env) (c : Connection) → IsClosed c → IsClosed (on_close env c)
close_again env c (closes, done, fd, calls) =
    let (ends, again, same, works) = on_close_lem env env c in
    rw (same done) (closes, done, fd, calls)

pub close-Closed : (env : Env) (c : Connection) → Inv c → IsClosed (on_close env c)
close-Closed env c (inl live) = close_open env c live
close-Closed env c (inr closed) = close_again env c closed

fail-Closed : (b : Bool) (k : ℕ) (c : Connection) → IsClosed c → IsClosed (call b (on_failed k) c)
fail-Closed true k c (closes, done, fd, calls) = (closes, done, fd, settled-fail c.calls k calls)
fail-Closed false k c closed = closed

pub error-Closed : (env : Env) (c : Connection) → Inv c → IsClosed (on_error env c)
unfolding on_error
error-Closed env c i =
    let closed = on_close env c in fail-Closed closed.errors closed.fd closed (close-Closed env c i)

message-Open :
    (b : Bool) (p : Packet) (c : Connection) → IsOpen c → IsOpen (call b (on_message p) c)
message-Open true p c (closes, live, quiet) = (closes, live, no_close-message c.calls p quiet)
message-Open false p c live = live

pub messages-Open :
    (b : Bool) (ps : List Packet) (c : Connection) → IsOpen c → IsOpen (call_each b ps c)
messages-Open b [] c live = live
messages-Open b (p ∷ ps) c live =
    messages-Open b ps (call b (on_message p) c) (message-Open b p c live)
