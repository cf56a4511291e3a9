-- ===== src/Server/Startup.antt =====
-- server/library/network/TcpServer.cpp and protocol/http/HttpServer.cpp: how a server starts and ends,
-- over its pool, its listening socket and the channel of that. Waiting for the loops is left out.
pub mod Ends
use uiconnect.Base.{
  ℕ, zero, Bool, true, false, not, Option, none, some, List, [], length, if◌then◌else◌,
}
use uiconnect.Base.Outcome.{Outcome, ok, ◌>>=◌}
use uiconnect.Net.Epoll.{Epoll}
use uiconnect.Net.Channel.{Env, Channel, enable_reading, disable}
use uiconnect.Net.Channel
use uiconnect.Net.Listener.{open_socket, bind, listen, close}
use uiconnect.Net.Loop.{EventLoop}
use uiconnect.Threads.Pool.{ThreadPool, start, quit}
use uiconnect.Threads.Pool
use uiconnect.Server.{TcpServer}

-- The server with its threads, its channel, whether the channel's read callback is set, and whether
-- m_loop was asked to quit.
pub record Host : Type 0 where
  pub tcp : TcpServer
  pub threads : ThreadPool
  pub channel : Channel
  pub reads : Bool
  pub quitting : Bool

-- TcpServer::TcpServer, for what socket() gives, the epoll of m_loop, the loops of the pool, and what
-- stands in m_sessionId, which is not set
unfoldable pub construct : Option ℕ → Epoll → List EventLoop → ℕ → Host
unfolding open_socket Channel.create Pool.construct
construct sock e loops session_id =
    let fd = open_socket sock in
    record {
      tcp = record {
        pool = record { size = length loops; no = 0 };
        fd = fd;
        session_id = session_id;
        sessions = [];
      };
      threads = Pool.construct loops;
      channel = Channel.create (record { id = 0; fd = fd }) e;
      reads = false;
      quitting = false;
    }

-- TcpServer::bind
unfoldable pub bind_server : Bool → Host → Bool × Host
unfolding bind
bind_server kernel h =
    let (done, fd) = bind kernel h.tcp.fd in (done, record h { tcp = record h.tcp { fd = fd } })

-- TcpServer::listen, which does not look at what TcpSocket::listen returns
unfoldable pub listen_server : Env → Bool → Host → Bool × Host
unfolding listen enable_reading
listen_server env kernel h =
    let fd = (listen kernel h.tcp.fd).1 in
    let (done, channel) = enable_reading env h.channel in
    (done, record h { tcp = record h.tcp { fd = fd }; channel = channel })

-- init behind the start of the pool
unfoldable pub bind_and_listen : Env → Bool → Bool → Host → Bool × Host
unfolding bind_server listen_server
bind_and_listen env binds listens h =
    let (bound, h1) = bind_server binds h in
    let (listening, h2) = listen_server env listens h1 in
    if not bound
    then (false, h1)
    else if listening
    then (true, record h2 { reads = true })
    else (false, h2)

-- TcpServer::init and HttpServer::init, with the ids of the threads and the answers of bind and listen
unfoldable pub init : Env → ℕ → (ℕ → ℕ) → Bool → Bool → Host → Outcome (Bool × Host)
unfolding start bind_and_listen
init env caller ids binds listens h = start caller ids h.threads >>= λ threads.
    ok (bind_and_listen env binds listens (record h { threads = threads }))

-- TcpServer::exit
unfoldable pub exit : Env → Host → Host
unfolding disable quit close
exit env h = record h {
  channel = (disable env h.channel).1;
  quitting = true;
  threads = quit h.threads;
  tcp = record h.tcp { fd = close h.tcp.fd };
}
