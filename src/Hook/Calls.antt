-- ===== src/Hook/Calls.antt =====
-- server/library/hook/Hook.cpp: the hooked calls as wholes, on the table of descriptors. What the
-- original calls, the kernel and the scheduler of coroutines do during a call is an argument.
pub mod Open
pub mod Kept
pub mod Looping
pub mod Sleeping
pub mod Connecting
use uiconnect.Base.{
  ℕ, zero, suc, ◌+◌, ◌*◌, ◌/◌, ◌%◌, ◌^◌, Bool, true, false, not, ◌&&◌, ◌||◌, Option, none, some,
  List, [], ◌∷◌, set, replicate, ◌==◌, if◌then◌else◌,
}
use uiconnect.Base.Outcome.{Outcome, ok, fault, ◌>>=◌}
use uiconnect.Hook.{
  no_timeout, Stat, FdItem, TimeoutType, so_rcvtimeo, get_timeout, FdManager, get, del, set_flags,
  get_flags, set_fionbio, set_socket_timeout, Io, original, ebadf, waits, do_io,
}

-- <errno.h>
abbrev pub eintr : ℕ
eintr = 4

abbrev pub bad_fd : ℕ
bad_fd = 9

abbrev pub eagain : ℕ
eagain = 11

abbrev pub etimedout : ℕ
etimedout = 110

abbrev pub einprogress : ℕ
einprogress = 115

-- what a call returns: a result that is not negative, or a negative one with an errno
pub data Answer : Type 0 where
  done : ℕ → Answer
  failed : ℕ → Answer

-- What the code below a hooked call does while it runs: what fstat says of a descriptor, what the
-- original function answers when it is called for the first time, the second and so on, whether
-- something resumes the coroutine that is held behind such a call (nothing in Hook.cpp does, in do_io:
-- no event is added there, and the timer's function triggers none), whether the timer's function has
-- run by then, whether addEvent succeeds, and what getsockopt says of SO_ERROR; and how many calls
-- of get inside one another the stack has room for.
pub record Kernel : Type 0 where
  pub stat : ℕ → Stat
  pub answers : ℕ → Answer
  pub resumes : ℕ → Bool
  pub expires : ℕ → Bool
  pub adds_event : Bool
  pub so_error : Answer
  pub depth : ℕ

-- ret >= 0
abbrev pub is_success : Answer → Bool
is_success (done n) = true
is_success (failed e) = false

-- a timer has been added, and its function has run
abbrev pub is_cancelled : Kernel → ℕ → ℕ → Bool
is_cancelled k timeout i = not (timeout == no_timeout) && k.expires i

-- How do_io's loop ends: with a result, or in Yield2Hold, from where nothing resumes the coroutine.
pub data IoEnd : Type 0 where
  returned : Answer → IoEnd
  held : IoEnd

-- The loop of do_io from its test on, with the last result and the number of original calls made:
-- its end and that number then, where the fuel lasts. errno is as the last original call leaves it.
unfoldable pub io_loop : ℕ → ℕ → Kernel → Answer → ℕ → Option (IoEnd × ℕ)
io_loop zero timeout k ret i = none
io_loop (suc fuel) timeout k ret i =
    let rest = io_loop fuel timeout k (k.answers i) (suc i) in
    if not (is_success ret) then some (returned ret, i) else (elim (k.answers i) [
      | done n ↦ some (returned (done n), suc i)
      | failed e ↦
          if e == eintr
          then rest
          else if not (e == eagain)
          then some (returned (failed e), suc i)
          else if not (k.resumes i)
          then some (held, suc i)
          else if is_cancelled k timeout i
          then some (returned (failed etimedout), suc i)
          else rest
    ])

-- two tests of the loop are enough
abbrev io_fuel : ℕ
io_fuel = 2

-- a call that does not return, since its coroutine stays held, is given as a fault
abbrev pub ended : Option (IoEnd × ℕ) → Outcome Answer
ended none = fault
ended (some (returned ret, calls)) = ok ret
ended (some (held, calls)) = fault

-- what do_io returns
unfoldable pub finish_io : Kernel → Io → Outcome Answer
unfolding io_loop
finish_io k original = ok (k.answers 0)
finish_io k ebadf = ok (failed bad_fd)
finish_io k (waits timeout) = ended (io_loop io_fuel timeout k (done 0) 0)

unfoldable pub call_io : Bool → TimeoutType → Kernel → ℕ → FdManager → Outcome (Answer × FdManager)
unfolding do_io finish_io
call_io enabled kind k fd fds =
    do_io k.depth enabled kind (k.stat fd) fd fds >>= λ r. finish_io k r.0 >>= λ ret. ok (ret, r.1)

-- get(fd, true) of a descriptor that the original call returned
unfoldable pub add_item : Kernel → Answer → FdManager → Outcome (Answer × FdManager)
unfolding get
add_item k (done fd) fds = get k.depth (k.stat fd) fd true fds >>= λ r. ok (done fd, r.1)
add_item k (failed e) fds = ok (failed e, fds)

abbrev pub change_slot : (FdItem → FdItem) → ℕ → Option FdItem → FdManager → FdManager
change_slot change fd none fds = fds
change_slot change fd (some item) fds = set fds fd (some (change item))

-- get(fd), and a change of the item where there is one
unfoldable pub change_item :
    (FdItem → FdItem) → Kernel → ℕ → Answer → FdManager → Outcome (Answer × FdManager)
unfolding get
change_item change k fd ret fds =
    get k.depth (k.stat fd) fd false fds >>= λ r. ok (ret, change_slot change fd r.0 r.1)

-- what getsockopt of SO_ERROR makes of a connection
abbrev pub check_error : Answer → Answer
check_error (failed e) = failed e
check_error (done error) = if error == 0 then done 0 else failed error

-- connect_with_timeout behind the original call, where the connection is in progress
abbrev pub await_connect : ℕ → Kernel → Outcome Answer
await_connect timeout k =
    if not k.adds_event
    then ok (check_error k.so_error)
    else if not (k.resumes 0)
    then fault
    else if is_cancelled k timeout 0
    then ok (failed etimedout)
    else ok (check_error k.so_error)

-- and from that call on
abbrev pub after_connect : ℕ → Kernel → Answer → Outcome Answer
after_connect timeout k (done n) = if n == 0 then ok (done n) else await_connect timeout k
after_connect timeout k (failed e) =
    if not (e == einprogress) then ok (failed e) else await_connect timeout k

unfoldable pub connect_on : ℕ → Kernel → Option FdItem → Outcome Answer
connect_on timeout k none = ok (failed bad_fd)
connect_on timeout k (some fdi) =
    if fdi.is_closed
    then ok (failed bad_fd)
    else if not fdi.is_socket
    then ok (k.answers 0)
    else if fdi.user_nonblock
    then ok (k.answers 0)
    else after_connect timeout k (k.answers 0)

unfoldable pub connect_with_timeout :
    Bool → ℕ → Kernel → ℕ → FdManager → Outcome (Answer × FdManager)
unfolding get connect_on
connect_with_timeout enabled timeout k fd fds =
    if enabled
    then (get k.depth (k.stat fd) fd false fds >>= λ r.
        connect_on timeout k r.0 >>= λ ret. ok (ret, r.1))
    else ok (k.answers 0, fds)

-- The calls: transfer is read, readv, recv, recvfrom and recvmsg with SO_RCVTIMEO, and write,
-- writev, send, sendto and sendmsg with SO_SNDTIMEO; connect has s_connect_timeout.
pub data Call : Type 0 where
  socket : Call
  connect : ℕ → ℕ → Call
  accept : ℕ → Call
  transfer : TimeoutType → ℕ → Call
  close : ℕ → Call
  fcntl_setfl : ℕ → ℕ → Call
  fcntl_getfl : ℕ → Call
  ioctl_fionbio : ℕ → ℕ → Call
  setsockopt : TimeoutType → ℕ → ℕ → ℕ → Call

abbrev pub del_slot : ℕ → Option FdItem → FdManager → FdManager
unfolding del
del_slot fd none fds = fds
del_slot fd (some item) fds = del fd fds

-- close, with the hooks enabled
unfoldable pub close_fd : Kernel → ℕ → FdManager → Outcome (Answer × FdManager)
unfolding get del_slot
close_fd k fd fds =
    get k.depth (k.stat fd) fd false fds >>= λ r. ok (k.answers 0, del_slot fd r.0 r.1)

-- F_GETFL; where the original call fails, -1 with a bit set or cleared is still negative
abbrev pub read_flags : Answer → Option FdItem → Answer
unfolding get_flags
read_flags ret none = ret
read_flags (done arg) (some item) = done (get_flags arg item)
read_flags (failed e) (some item) = failed e

unfoldable pub perform : Bool → Kernel → Call → FdManager → Outcome (Answer × FdManager)
unfolding add_item connect_with_timeout call_io close_fd change_item get set_flags set_fionbio
    set_socket_timeout
perform enabled k socket fds =
    if enabled then add_item k (k.answers 0) fds else ok (k.answers 0, fds)
perform enabled k (connect timeout fd) fds = connect_with_timeout enabled timeout k fd fds
perform enabled k (accept s) fds = call_io enabled so_rcvtimeo k s fds >>= λ r. add_item k r.0 r.1
perform enabled k (transfer kind fd) fds = call_io enabled kind k fd fds
perform enabled k (close fd) fds = if enabled then close_fd k fd fds else ok (k.answers 0, fds)
perform enabled k (fcntl_setfl fd arg) fds =
    change_item (λ item. (set_flags arg item).0) k fd (k.answers 0) fds
perform enabled k (fcntl_getfl fd) fds =
    get k.depth (k.stat fd) fd false fds >>= λ r. ok (read_flags (k.answers 0) r.0, r.1)
perform enabled k (ioctl_fionbio fd value) fds =
    change_item (set_fionbio value) k fd (k.answers 0) fds
perform enabled k (setsockopt kind fd sec usec) fds =
    if enabled
    then change_item (set_socket_timeout kind sec usec) k fd (k.answers 0) fds
    else ok (k.answers 0, fds)

-- calls one after another, each with the switch of the thread that makes it
unfoldable pub run : List (Bool × Kernel × Call) → FdManager → Outcome FdManager
unfolding perform
run [] fds = ok fds
run ((enabled, k, call) ∷ calls) fds = perform enabled k call fds >>= λ r. run calls r.1

-- FDManager::FDManager
abbrev pub new_manager : FdManager
new_manager = replicate 64 none

-- the delay of the timer that sleep adds, an unsigned int
unfoldable pub sleep_delay : ℕ → ℕ
sleep_delay seconds = seconds * 1000 % 2 ^ 32
