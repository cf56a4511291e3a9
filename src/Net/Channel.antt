-- ===== src/Net/Channel.antt =====
-- server/library/network/TcpChannel.h and TcpChannel.cpp over one epoll instance, with
-- EventLoop::updateChannel and checkChannelInLoop. `Env` is what a call depends on outside: whether
-- the owner loop can be locked, is the one called and runs in this thread, and epoll_ctl's answer.
pub mod Registered
use Prim.Native.Nat.{bit_and, bit_or}
use uiconnect.Base.{
  ℕ, ◌+◌, Bool, true, false, not, ◌&&◌, Option, none, some, ltb, ◌==◌, if◌then◌else◌,
}
use uiconnect.Net.Epoll.{Handle, Action, ctl_add, ctl_mod, ctl_del, Epoll, update_channel}

-- <sys/epoll.h>
abbrev pub epollin : ℕ
epollin = 0x001

abbrev pub epollpri : ℕ
epollpri = 0x002

abbrev pub epollout : ℕ
epollout = 0x004

abbrev pub epollerr : ℕ
epollerr = 0x008

abbrev pub epollhup : ℕ
epollhup = 0x010

abbrev pub epollrdhup : ℕ
epollrdhup = 0x2000

abbrev pub none_event : ℕ
none_event = 0

-- EPOLLIN | EPOLLHUP
abbrev pub read_event : ℕ
read_event = 0x011

abbrev pub write_event : ℕ
write_event = 0x004

pub record Env : Type 0 where
  pub loop_alive : Bool
  pub owned : Bool
  pub in_thread : Bool
  pub kernel : Bool

-- A channel beside the epoll instance of its loop.
pub record Channel : Type 0 where
  pub handle : Handle
  pub target_event : ℕ
  pub active_event : ℕ
  pub epoll : Epoll

-- TcpChannel::TcpChannel
unfoldable pub create : Handle → Epoll → Channel
create handle e = record {
  handle = handle;
  target_event = none_event;
  active_event = none_event;
  epoll = e;
}

-- EventLoop::updateChannel, of the loop that m_ownerLoop locks
unfoldable pub loop_update : Env → Channel → Action → Bool × Epoll
unfolding update_channel
loop_update env c action =
    if not (env.owned && env.in_thread)
    then (false, c.epoll)
    else update_channel c.epoll action c.handle.fd c.handle env.kernel

-- TcpChannel::setTargetEvent
unfoldable pub set_target_event : Env → Channel → ℕ → Bool × Channel
unfolding loop_update
set_target_event env c ev =
    if not env.loop_alive
    then (false, c)
    else let (done, e) = loop_update env c ctl_mod in
      if done
      then (true, record c { target_event = ev; epoll = e })
      else (false, record c { epoll = e })

-- TcpChannel::addTargetEvent; a failure puts the old events back.
unfoldable pub add_target_event : Env → Channel → ℕ → Bool × Channel
unfolding loop_update
add_target_event env c ev =
    if not env.loop_alive
    then (false, c)
    else let (done, e) = loop_update env c ctl_add in
      if done
      then (true, record c { target_event = bit_or c.target_event ev; epoll = e })
      else (false, record c { epoll = e })

-- TcpChannel::disable
unfoldable pub disable : Env → Channel → Bool × Channel
unfolding loop_update
disable env c =
    if not env.loop_alive
    then (false, c)
    else let (done, e) = loop_update env c ctl_del in (done, record c { epoll = e })

-- (m_targetEvent & event) > 0
abbrev pub wants : Channel → ℕ → Bool
wants c ev = ltb 0 (bit_and c.target_event ev)

unfoldable pub enable_reading : Env → Channel → Bool × Channel
unfolding set_target_event add_target_event
enable_reading env c =
    if wants c read_event
    then (true, c)
    else if ltb 0 c.target_event
    then set_target_event env c (bit_or c.target_event read_event)
    else add_target_event env c read_event

unfoldable pub enable_writing : Env → Channel → Bool × Channel
unfolding set_target_event add_target_event
enable_writing env c =
    if wants c write_event
    then (true, c)
    else if ltb 0 c.target_event
    then set_target_event env c (bit_or c.target_event write_event)
    else add_target_event env c write_event

unfoldable pub disable_reading : Env → Channel → Bool × Channel
unfolding set_target_event disable
disable_reading env c =
    if not (wants c read_event)
    then (true, c)
    else if not (wants c write_event)
    then disable env c
    else set_target_event env c write_event

unfoldable pub disable_writing : Env → Channel → Bool × Channel
unfolding set_target_event disable
disable_writing env c =
    if not (wants c write_event)
    then (true, c)
    else if not (wants c read_event)
    then disable env c
    else set_target_event env c read_event

-- TcpChannel::isNoneEvent
unfoldable pub is_none_event : Channel → Bool
is_none_event c = ltb 0 (bit_or c.active_event none_event)

-- The four callbacks, on any state; `none` where no callback is set.
pub record Callbacks {ℓ} (S : Type ℓ) : Type ℓ where
  pub on_read : Option (S → S)
  pub on_write : Option (S → S)
  pub on_close : Option (S → S)
  pub on_error : Option (S → S)

-- if(test && callback) callback();
unfoldable pub call_if {ℓ} : {S : Type ℓ} → Bool → Option (S → S) → S → S
call_if true (some f) s = f s
call_if true none s = s
call_if false cb s = s

abbrev pub has : ℕ → ℕ → Bool
has active ev = ltb 0 (bit_and active ev)

-- TcpChannel::handleEvent at m_activeEvent
unfoldable pub handle_event {ℓ} : {S : Type ℓ} → Callbacks S → ℕ → S → S
unfolding call_if
handle_event cbs active s = call_if (has active epollout) cbs.on_write (
    call_if (has active (epollin + epollpri + epollrdhup)) cbs.on_read (
      call_if (has active epollerr) cbs.on_error
        (call_if (has active epollhup && not (has active epollin)) cbs.on_close s)))
