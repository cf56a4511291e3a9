-- ===== src/Server.antt =====
-- server/library/network/TcpServer.cpp and protocol/http/HttpServer.cpp: what they do with accepted
-- sockets, with EventThreadPool::getNextLoop of network/event/EventThreadPool.cpp. A loop of the pool
-- is its index; what addSession does in it is left to the loop.
pub mod Balance
pub mod Sessions
pub mod Startup
use uiconnect.Base.{
  ℕ, ◌+◌, ◌%◌, ◌^◌, Bool, true, false, not, Option, none, some, List, [], ◌∷◌, ◌++◌, ◌==◌,
  if◌then◌else◌,
}
use uiconnect.Base.Outcome.{Outcome, ok, ◌>>=◌, ◌>>◌, require}
use uiconnect.Net.Listener.{accept}

-- m_size, and the static `no` of getNextLoop
pub record EventThreadPool : Type 0 where
  pub size : ℕ
  pub no : ℕ

-- EventThreadPool::getNextLoop: a pool with no threads is only logged, and the remainder by 0 is
-- undefined.
unfoldable pub get_next_loop : EventThreadPool → Outcome (ℕ × EventThreadPool)
get_next_loop pool =
    require (not (pool.size == 0))
    >> (let no = pool.no % pool.size in ok (no, record pool { no = no + 1 }))

-- a session that is added to a loop, over an accepted socket
pub record Session : Type 0 where
  pub loop : ℕ
  pub id : ℕ
  pub fd : ℕ

-- `fd` is the descriptor of m_sock; m_sessionId is the bit pattern of an int.
pub record TcpServer : Type 0 where
  pub pool : EventThreadPool
  pub fd : ℕ
  pub session_id : ℕ
  pub sessions : List Session

-- addSession of a new session in the next loop
unfoldable pub add_session : ℕ → TcpServer → Outcome TcpServer
unfolding get_next_loop
add_session fd s = get_next_loop s.pool >>= λ next.
    let id = (s.session_id + 1) % 2 ^ 32 in
    ok (record s {
      pool = next.1;
      session_id = id;
      sessions = s.sessions ++ record { loop = next.0; id = id; fd = fd } ∷ [];
    })

-- onConnect behind accept
unfoldable pub after_accept : Option ℕ × ℕ → TcpServer → Outcome TcpServer
unfolding add_session
after_accept (none, fd) s = ok (record s { fd = fd })
after_accept (some new, fd) s = add_session new (record s { fd = fd })

-- TcpServer::onConnect and HttpServer::onConnect, with the answer of accept4
unfoldable pub on_connect : Option ℕ → TcpServer → Outcome TcpServer
unfolding accept after_accept
on_connect answer s = after_accept (accept answer s.fd) s

-- one call of onConnect after another
unfoldable pub on_connects : List (Option ℕ) → TcpServer → Outcome TcpServer
unfolding on_connect
on_connects [] s = ok s
on_connects (answer ∷ rest) s = on_connect answer s >>= λ s'. on_connects rest s'
