-- ===== src/Net/Connection/Lifecycle.antt =====
-- The methods of a connection as steps from one state of it to the next, in any order.
pub mod Calls
use uiconnect.Base.{
  ℕ, zero, suc, ◌≡◌, ◌≢◌, refl, sym, ap, ◌∙◌, ◌⊎◌, inl, inr, Bool, true, false, Option, none, some,
  List, [], ◌∷◌, ◌++◌, ◌==◌, Bool-cases, arith,
}
use mathlib.Core.Path.{subst}
use uiconnect.Base.Outcome.{Outcome, ok, ◌>>=◌, bind_ok, ok-injective}
use uiconnect.ByteArray.{ByteArray, get_unread_size}
use uiconnect.ByteArray.Iov.{IoVec}
use uiconnect.Packet.{Packet, invalid, create_empty}
use uiconnect.Buffer.{get_pack, set_pack}
use uiconnect.Net.Channel.{Env, disable_writing}
use uiconnect.Net.Socket.{Size, minus_one, bytes, Sent, Received}
use uiconnect.Net.Connection.{
  ConnState, disconnected, connecting, connected, disconnecting, Call, on_message, on_written,
  on_failed, on_closed, Connection, call, on_close, on_error, on_read, on_write, send, call_each,
  written_out, handle_sent, handle_received, is_open,
}
use uiconnect.Net.Connection.Closing.{on_close_lem}
use uiconnect.Net.Connection.Lifecycle.Calls.{
  no_close, settled, IsOpen, IsClosed, Inv, close_open, close-Closed, error-Closed, messages-Open,
  no_close-written,
}

-- One call of a method that returns.
pub data Step : Connection → Connection → Type 0 where
  closes_it : {c : Connection} → (env : Env) → Step c (on_close env c)
  fails : {c : Connection} → (env : Env) → Step c (on_error env c)
  reads_from :
      {c c' : Connection}
      → (env : Env) → (answers : List Received) → on_read env answers c ≡ ok (some c')
      → Step c c'
  writes_to :
      {c c' : Connection}
      → (env : Env) → (kernel : List IoVec → Sent) → on_write env kernel c ≡ ok c'
      → Step c c'
  sends :
      {c c' : Connection}
      → (env : Env) → (kernel : List IoVec → Sent) → (pack : Packet)
      → send env kernel c pack ≡ ok (true, c')
      → Step c c'

pub data Steps : Connection → Connection → Type 0 where
  here : {c : Connection} → Steps c c
  next : {a b c : Connection} → Step a b → Steps b c → Steps a c

call-Open :
    (b : Bool) (size : Size) (c : Connection) → IsOpen c → IsOpen (call b (on_written size) c)
call-Open true size c (closes, live, quiet) = (closes, live, no_close-written c.calls size quiet)
call-Open false size c live = live

written-Open :
    (env : Env) (size : Size) (c : Connection) → IsOpen c → IsOpen (written_out env c size)
unfolding written_out
written-Open env size c live = elim (Bool-cases (get_unread_size c.write_buffer == 0)) [
  | inl e ↦
      let out : Connection = record c { channel = (disable_writing env c.channel).1 } in
      rw e (call-Open c.writes size out live)
  | inr e ↦ rw e live
]

sent-Inv :
    (env : Env) (done : Bool) (size : Size) (c : Connection)
    → IsOpen c
    → Inv (handle_sent env c done size)
unfolding handle_sent
sent-Inv env false size c live = inr (close_open env c live)
sent-Inv env true (bytes zero) c live = inr (close_open env c live)
sent-Inv env true (bytes (suc n)) c live = inl (written-Open env (bytes (suc n)) c live)
sent-Inv env true minus_one c live = inl (written-Open env minus_one c live)

loop-Open :
    (m : Outcome (Packet × ByteArray)) (f : Packet × ByteArray → Outcome (List Packet × ByteArray))
    (c c' : Connection)
    → (m >>= λ r. f r >>= λ q. ok (call_each c.reads q.0 (record c { read_buffer = q.1 }))) ≡ ok c'
    → IsOpen c
    → IsOpen c'
loop-Open m f c c' h live =
    let (r, p, after) = bind_ok m _ h in
    let (q, got_all, last) = bind_ok (f r) _ after in
    subst IsOpen (ok-injective last)
      (messages-Open c.reads q.0 (record c { read_buffer = q.1 }) live)

packets-Inv :
    (env : Env) (c : Connection) (done : Bool) (size : Size) (c' : Connection)
    → handle_received env c done size ≡ ok c'
    → IsOpen c
    → Inv c'
unfolding handle_received
packets-Inv env c false (bytes zero) c' h live =
    inr (subst IsClosed (ok-injective h) (close_open env c live))
packets-Inv env c false minus_one c' h live =
    inr (subst IsClosed (ok-injective h) (error-Closed env c (inl live)))
packets-Inv env c false (bytes (suc n)) c' h live =
    inl (loop-Open (get_pack c.read_buffer (create_empty invalid)) _ c c' h live)
packets-Inv env c true size c' h live =
    inl (loop-Open (get_pack c.read_buffer (create_empty invalid)) _ c c' h live)

state_kept : (s : ConnState) → (s ≡ connected) ⊎ (s ≢ connected)
state_kept disconnected = inr (λ e. cc)
state_kept connecting = inr (λ e. cc)
state_kept connected = inl refl
state_kept disconnecting = inr (λ e. cc)

write_idle :
    (env : Env) (kernel : List IoVec → Sent) (c : Connection)
    → c.state ≢ connected
    → on_write env kernel c ≡ ok c
unfolding on_write
write_idle env kernel c h = ground arith

read_idle :
    (env : Env) (answers : List Received) (c : Connection)
    → c.state ≢ connected
    → on_read env answers c ≡ ok (some c)
unfolding on_read
read_idle env answers c h = ground arith

connected-Open : (c : Connection) → c.state ≡ connected → Inv c → IsOpen c
connected-Open c e (inl live) = live
connected-Open c e (inr (closes, done, fd, calls)) = absurd (apart (sym e ∙ done))
  where
    apart : connected ≢ disconnected
    apart k = cc

write_busy :
    (env : Env) (kernel : List IoVec → Sent) (c : Connection)
    → c.state ≡ connected
    → on_write env kernel c ≡ (
        uiconnect.Net.Socket.send (is_open c.fd) kernel c.write_buffer (bytes 0)
        >>= λ (done, size, buffer).
            ok (handle_sent env (record c { write_buffer = buffer }) done size))
unfolding on_write
write_busy env kernel c e = rw e refl

-- onRead behind recv
abbrev after_recv :
    Env → Connection → Option (Bool × Size × ByteArray) → Outcome (Option Connection)
unfolding handle_received
after_recv env c r = elim r [
  | none ↦ ok none
  | some (done, size, buffer) ↦
      handle_received env (record c { read_buffer = buffer }) done size >>= λ c'. ok (some c')
]

none_apart : (c : Connection) → none ≢ some c
none_apart c e = cc

some-injective : {a b : Connection} → some a ≡ some b → a ≡ b
some-injective e = cc

read_busy :
    (env : Env) (answers : List Received) (c : Connection)
    → c.state ≡ connected
    → on_read env answers c ≡ (
        uiconnect.Net.Socket.recv (is_open c.fd) c.nonblock c.read_buffer (bytes 0) answers >>= λ r.
        after_recv env c r)
unfolding on_read
read_busy env answers c e = rw e refl

write-Inv :
    (env : Env) (kernel : List IoVec → Sent) (c c' : Connection)
    → on_write env kernel c ≡ ok c'
    → Inv c
    → Inv c'
write-Inv env kernel c c' h i = elim (state_kept c.state) [
  | inr idle ↦ subst Inv (ok-injective (sym (write_idle env kernel c idle) ∙ h)) i
  | inl e ↦
      let (r, p, after) =
        bind_ok (uiconnect.Net.Socket.send (is_open c.fd) kernel c.write_buffer (bytes 0)) _
          (sym (write_busy env kernel c e) ∙ h) in
      let (done, size, buffer) = r in
      subst Inv (ok-injective after)
        (sent-Inv env done size (record c { write_buffer = buffer }) (connected-Open c e i))
]

recv-Inv :
    (env : Env) (c c' : Connection) (r : Option (Bool × Size × ByteArray))
    → after_recv env c r ≡ ok (some c')
    → IsOpen c
    → Inv c'
unfolding after_recv
recv-Inv env c c' none h live = absurd (none_apart c' (ok-injective h))
recv-Inv env c c' (some (done, size, buffer)) h live =
    let (d, p, last) =
      bind_ok (handle_received env (record c { read_buffer = buffer }) done size) _ h in
    subst Inv (some-injective (ok-injective last))
      (packets-Inv env (record c { read_buffer = buffer }) done size d p live)

read-Inv :
    (env : Env) (answers : List Received) (c c' : Connection)
    → on_read env answers c ≡ ok (some c')
    → Inv c
    → Inv c'
read-Inv env answers c c' h i = elim (state_kept c.state) [
  | inr idle ↦ subst Inv (some-injective (ok-injective (sym (read_idle env answers c idle) ∙ h))) i
  | inl e ↦
      let (r, p, after) =
        bind_ok
          (uiconnect.Net.Socket.recv (is_open c.fd) c.nonblock c.read_buffer (bytes 0) answers) _
          (sym (read_busy env answers c e) ∙ h) in
      recv-Inv env c c' r after (connected-Open c e i)
]

send-Inv :
    (env : Env) (kernel : List IoVec → Sent) (c c' : Connection) (pack : Packet)
    → send env kernel c pack ≡ ok (true, c')
    → Inv c
    → Inv c'
unfolding send
send-Inv env kernel c c' pack h i =
    let (b, p, after) = bind_ok (set_pack c.write_buffer pack) _ h in
    let (d, q, last) = bind_ok (on_write env kernel (record c { write_buffer = b })) _ after in
    subst Inv (ap (λ (x : Bool × Connection). x.1) (ok-injective last))
      (write-Inv env kernel (record c { write_buffer = b }) d q i)

Step-Inv : (c c' : Connection) → Step c c' → Inv c → Inv c'
Step-Inv _ _ (closes_it {c} env) i = inr (close-Closed env c i)
Step-Inv _ _ (fails {c} env) i = inr (error-Closed env c i)
Step-Inv c c' (reads_from env answers h) i = read-Inv env answers c c' h i
Step-Inv c c' (writes_to env kernel h) i = write-Inv env kernel c c' h i
Step-Inv c c' (sends env kernel pack h) i = send-Inv env kernel c c' pack h i

Steps-Inv : (c c' : Connection) → Steps c c' → Inv c → Inv c'
Steps-Inv _ _ here i = i
Steps-Inv a c (next {b = b} s rest) i = Steps-Inv b c rest (Step-Inv a b s i)

-- From an open connection whose close callback is set and was not called, whatever of onClose, onError,
-- onRead, onWrite and send is called, in whatever order, and returns: while the connection is open the close callback was not called;
-- once it is not, its descriptor is 0, and the close callback was called just once, with 0, and nothing
-- but calls of the error callback behind it.
pub steps_lem :
    (c c' : Connection)
    → c.closes ≡ true
    → c.state ≢ disconnected
    → no_close c.calls ≡ true
    → Steps c c'
    → ((c'.state ≢ disconnected → no_close c'.calls ≡ true)
        × (c'.state ≡ disconnected → (c'.fd ≡ 0) × (settled c'.calls ≡ true)))
steps_lem c c' closes live quiet steps = elim (Steps-Inv c c' steps (inl (closes, live, quiet))) [
  | inl (set, live', quiet') ↦ (λ l. quiet', λ d. absurd (live' d))
  | inr (set, done, fd, calls) ↦ (λ l. absurd (l done), λ d. (fd, calls))
]
