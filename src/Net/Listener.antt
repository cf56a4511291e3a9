-- ===== src/Net/Listener.antt =====
-- server/library/network/socket/TcpSocket.cpp and Socket.hpp: bind, listen, accept, connect and close.
-- Of a socket the model has its descriptor, with 0 for INVALID_SOCKET; the answers of the system calls
-- are arguments.
use uiconnect.Base.{ℕ, zero, suc, Bool, true, false, not, ◌||◌, Option, none, some, if◌then◌else◌}

-- TcpSocket::isValid
unfoldable pub is_valid : ℕ → Bool
is_valid zero = false
is_valid (suc n) = true

-- Sock::close, and TcpSocket::close over it
unfoldable pub close : ℕ → ℕ
unfolding is_valid
close fd = if is_valid fd then 0 else fd

-- Sock::Sock, for what socket() gives
unfoldable pub open_socket : Option ℕ → ℕ
open_socket none = 0
open_socket (some fd) = fd

-- TcpSocket::bind, with whether ::bind succeeds: whether it returns 0, and the descriptor
unfoldable pub bind : Bool → ℕ → Bool × ℕ
unfolding is_valid close
bind kernel fd =
    if not (is_valid fd) then (false, fd) else if kernel then (true, fd) else (false, close fd)

-- TcpSocket::listen
unfoldable pub listen : Bool → ℕ → Bool × ℕ
unfolding is_valid close
listen kernel fd =
    if not (is_valid fd) then (false, fd) else if kernel then (true, fd) else (false, close fd)

-- TcpSocket::accept, with the descriptor that accept4 gives, or none for an error
unfoldable pub accept : Option ℕ → ℕ → Option ℕ × ℕ
unfolding is_valid close
accept kernel fd =
    if not (is_valid fd)
    then (none, fd)
    else elim kernel [ some sock ↦ (some sock, fd) | none ↦ (none, close fd) ]

-- ::connect: done, EINPROGRESS, EINTR or EISCONN, or another errno
pub data Connected : Type 0 where
  connected : Connected
  pending : Connected
  refused : Connected

-- TcpSocket::connect, with whether select fails and whether it leaves the descriptor in its set:
-- whether it returns 0
unfoldable pub connect : Connected → Bool → Bool → ℕ → Bool
unfolding is_valid
connect kernel select_fails writable fd = if not (is_valid fd) then false else elim kernel [
  | connected ↦ true
  | pending ↦ true
  | refused ↦ not (select_fails || not writable)
]
