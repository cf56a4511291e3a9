-- ===== src/Net/Connection.antt =====
-- server/library/network/TcpConnection.h and TcpConnection.cpp: a connection over a socket, its two
-- buffers and its channel. The callbacks are parameters of the program: what the model keeps is
-- which of them are called, with what and in what order, where each is set. What was called before
-- an exception leaves a method is not kept.
pub mod Closing
pub mod Lifecycle
use uiconnect.Base.{
  ℕ, zero, suc, Bool, true, false, Option, none, some, List, [], ◌∷◌, ◌++◌, ◌==◌, if◌then◌else◌,
}
use uiconnect.Base.Outcome.{Outcome, ok, fault, ◌>>=◌}
use uiconnect.ByteArray.{ByteArray, get_unread_size}
use uiconnect.ByteArray.Iov.{IoVec}
use uiconnect.Packet.{Packet, invalid, create_empty, is_valid, clear}
use uiconnect.Buffer.{set_pack, get_pack}
use uiconnect.Net.Channel.{
  Env, Channel, read_event, add_target_event, disable, disable_writing, enable_writing,
}
use uiconnect.Net.Socket.{Size, minus_one, bytes, Sent, Received}

pub data ConnState : Type 0 where
  disconnected connecting connected disconnecting : ConnState

-- A call of a callback.
pub data Call : Type 0 where
  on_message : Packet → Call
  on_written : Size → Call
  on_failed : ℕ → Call
  on_closed : ℕ → Call

-- `fd` is the descriptor of the socket, 0 (INVALID_SOCKET) once it is closed. `nonblock` is
-- m_isNonBlock, which the constructor from a descriptor does not set. The last fields tell which
-- callbacks are set and what was called.
pub record Connection : Type 0 where
  pub state : ConnState
  pub read_buffer : ByteArray
  pub write_buffer : ByteArray
  pub fd : ℕ
  pub nonblock : Bool
  pub channel : Channel
  pub reads : Bool
  pub writes : Bool
  pub errors : Bool
  pub closes : Bool
  pub calls : List Call

-- if(callback) callback(...);
abbrev pub call : Bool → Call → Connection → Connection
call true what c = record c { calls = c.calls ++ what ∷ [] }
call false what c = c

abbrev pub is_open : ℕ → Bool
is_open zero = false
is_open (suc n) = true

-- TcpConnection::init, behind the setting of the channel's callbacks
unfoldable pub init : Env → Connection → Bool × Connection
unfolding add_target_event
init env c =
    let (done, channel) = add_target_event env c.channel read_event in
    if done
    then (true, record c { channel = channel; state = connected })
    else (false, record c { channel = channel })

-- TcpConnection::onClose; Sock::close sets the descriptor to INVALID_SOCKET.
unfoldable pub on_close : Env → Connection → Connection
unfolding disable
on_close env c = elim c.state [
  | disconnected ↦ c
  | _ ↦
      let channel = (disable env c.channel).1 in
      call c.closes (on_closed 0) (record c { state = disconnected; fd = 0; channel = channel })
]

-- TcpConnection::onError
unfoldable pub on_error : Env → Connection → Connection
unfolding on_close
on_error env c = let closed = on_close env c in call closed.errors (on_failed closed.fd) closed

-- The packets of onRead's loop, from the packet that getPack just filled; `buffer` is the buffer
-- behind it. A packet takes at least one byte, so the unread bytes bound the rounds.
unfoldable pub packets : ℕ → ByteArray → Packet → Outcome (List Packet × ByteArray)
unfolding get_pack is_valid clear
packets zero buffer packet = fault
packets (suc fuel) buffer packet = elim (is_valid packet) [
  | false ↦ ok ([], buffer)
  | true ↦ get_pack buffer (clear packet) >>= λ (packet', buffer').
      packets fuel buffer' packet' >>= λ (more, last). ok (packet ∷ more, last)
]

abbrev pub call_each : Bool → List Packet → Connection → Connection
call_each reads [] c = c
call_each reads (p ∷ ps) c = call_each reads ps (call reads (on_message p) c)

-- onRead behind recv
unfoldable pub handle_received : Env → Connection → Bool → Size → Outcome Connection
unfolding on_close on_error packets get_pack create_empty
handle_received env c false (bytes zero) = ok (on_close env c)
handle_received env c false minus_one = ok (on_error env c)
handle_received env c done size =
    get_pack c.read_buffer (create_empty invalid) >>= λ (packet, buffer).
    packets (suc (get_unread_size c.read_buffer)) buffer packet >>= λ (ps, last).
    ok (call_each c.reads ps (record c { read_buffer = last }))

-- TcpConnection::onRead, or `none` while recv waits
unfoldable pub on_read : Env → List Received → Connection → Outcome (Option Connection)
unfolding uiconnect.Net.Socket.recv handle_received
on_read env answers c = elim c.state [
  | connected ↦
      uiconnect.Net.Socket.recv (is_open c.fd) c.nonblock c.read_buffer (bytes 0) answers >>= λ r.
      elim r [
        | none ↦ ok none
        | some (done, size, buffer) ↦
            handle_received env (record c { read_buffer = buffer }) done size >>= λ c'. ok (some c')
      ]
  | _ ↦ ok (some c)
]

-- The last lines of onWrite.
unfoldable pub written_out : Env → Connection → Size → Connection
unfolding disable_writing enable_writing
written_out env c size =
    if get_unread_size c.write_buffer == 0
    then call c.writes (on_written size) (record c { channel = (disable_writing env c.channel).1 })
    else record c { channel = (enable_writing env c.channel).1 }

-- onWrite behind send; a result of false, or a size of 0, closes.
unfoldable pub handle_sent : Env → Connection → Bool → Size → Connection
unfolding on_close written_out
handle_sent env c false size = on_close env c
handle_sent env c true (bytes zero) = on_close env c
handle_sent env c true size = written_out env c size

-- TcpConnection::onWrite
unfoldable pub on_write : Env → (List IoVec → Sent) → Connection → Outcome Connection
unfolding uiconnect.Net.Socket.send handle_sent
on_write env kernel c = elim c.state [
  | connected ↦
      uiconnect.Net.Socket.send (is_open c.fd) kernel c.write_buffer (bytes 0)
      >>= λ (done, size, buffer).
          ok (handle_sent env (record c { write_buffer = buffer }) done size)
  | _ ↦ ok c
]

-- TcpConnection::send
unfoldable pub send : Env → (List IoVec → Sent) → Connection → Packet → Outcome (Bool × Connection)
unfolding set_pack on_write
send env kernel c pack = set_pack c.write_buffer pack >>= λ buffer.
    on_write env kernel (record c { write_buffer = buffer }) >>= λ c'. ok (true, c')
