-- ===== src/Server/Startup/Ends.antt =====
-- What a server that was started leaves when it ends.
use uiconnect.Base.{
  ℕ, zero, suc, ◌≡◌, refl, sym, ap, ◌∙◌, Bool, true, not, Option, List, map, if-elim, arith,
}
use uiconnect.Base.Outcome.{ok, bind_ok, ok-injective, ok_unique}
use mathlib.Core.Path.{subst}
use uiconnect.Net.Epoll.{Epoll}
use uiconnect.Net.Channel.{Env, Channel, enable_reading, disable}
use uiconnect.Net.Channel
use uiconnect.Net.Channel.Registered.{IsRegistered, enable-Registered}
use uiconnect.Net.Listener.{is_valid, close}
use uiconnect.Net.Loop.{EventLoop}
use uiconnect.Threads.{EventThread}
use uiconnect.Threads.Pool.{ThreadPool, start, quit}
use uiconnect.Threads.Pool.Quitting.{quit-start}
use uiconnect.Server.Startup.{
  Host, construct, bind_server, listen_server, bind_and_listen, init, exit,
}

close_lem : (fd : ℕ) → close fd ≡ 0
unfolding close is_valid
close_lem zero = refl
close_lem (suc fd) = refl

-- A start that succeeds sets the callback, and got true from enableReading; it changes no thread.
abbrev IsUp : Env → Host → Bool × Host → Type 0
IsUp env h r =
    r.0 ≡ true
    → (r.1.reads ≡ true)
      × (r.1.threads ≡ h.threads)
      × ((enable_reading env h.channel).0 ≡ true)
      × (r.1.channel ≡ (enable_reading env h.channel).1)

up :
    (env : Env) (binds listens : Bool) (h : Host) → IsUp env h (bind_and_listen env binds listens h)
unfolding bind_and_listen bind_server listen_server
up env binds listens h =
    let (bound, h1) = bind_server binds h in
    let (listening, h2) = listen_server env listens h1 in
    if-elim (IsUp env h) (not bound) (λ e t. cc)
      (λ e. if-elim (IsUp env h) listening (λ l t. (refl, refl, l, refl)) (λ l t. cc))

-- A server whose init succeeds has its channel registered with epoll, and the callback set. Its exit
-- closes the socket and asks the loop of the server to quit; of the threads in the pool it changes
-- none, and their loops are those that they were made with, none of them asked to quit.
pub exit-init :
    (env env' : Env) (caller : ℕ) (ids : ℕ → ℕ) (binds listens : Bool) (sock : Option ℕ) (e : Epoll)
    (loops : List EventLoop) (session_id : ℕ) (h : Host)
    → init env caller ids binds listens (construct sock e loops session_id) ≡ ok (true, h)
    → IsRegistered h.channel
      × (h.reads ≡ true)
      × ((exit env' h).tcp.fd ≡ 0)
      × ((exit env' h).quitting ≡ true)
      × ((exit env' h).threads.threads ≡ h.threads.threads)
      × (map (λ (t : EventThread). t.loop) (exit env' h).threads.threads ≡ loops)
unfolding init construct exit Channel.create
exit-init env env' caller ids binds listens sock e loops session_id h starts =
    let h0 = construct sock e loops session_id in
    let (p, p_ok, same, kept, quited) = quit-start caller ids loops in
    let (ts, ts_ok, done) = bind_ok (start caller ids h0.threads) _ starts in
    let h1 : Host = record h0 { threads = ts } in
    let result : bind_and_listen env binds listens h1 ≡ (true, h) = ok-injective done in
    let (reads, threads, enabled, channel) =
      subst (IsUp env h1) result (up env binds listens h1) refl in
    let all : h.threads ≡ p = threads ∙ ok_unique _ ts_ok p_ok in
    (
      subst IsRegistered (sym channel)
          ((enable-Registered env h0.channel (λ w. absurd (omega arith))).0 enabled),
      reads,
      close_lem h.tcp.fd,
      refl,
      ap (λ q. (quit q).threads) all ∙ same ∙ sym (ap (λ (q : ThreadPool). q.threads) all),
      ap (λ q. map (λ (t : EventThread). t.loop) (quit q).threads) all ∙ kept,
    )
