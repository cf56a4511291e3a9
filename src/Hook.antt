-- ===== src/Hook.antt =====
-- server/library/hook: the table of descriptors of FDManager.cpp with the items of FDItem.cpp, and the
-- hooked calls of Hook.cpp on them. What the kernel says of a descriptor is an argument; the calls
-- that go on to the original function are given by what it is called with.
pub mod Calls
pub mod Flags
pub mod Table
use Prim.Native.Nat.{bit_and, bit_or}
use uiconnect.Base.{
  ℕ, zero, suc, ◌+◌, ◌-◌, ◌*◌, ◌/◌, ◌%◌, ◌^◌, Bool, true, false, not, ◌&&◌, ◌||◌, Option, none,
  some, List, [], ◌∷◌, ◌++◌, length, get_elem?, set, replicate, leb, ltb, ◌==◌, if◌then◌else◌,
}
use uiconnect.Base.Outcome.{Outcome, ok, fault, ◌>>=◌}

-- <fcntl.h>
abbrev pub o_nonblock : ℕ
o_nonblock = 0x800

-- the bit patterns of int
abbrev pub not32 : ℕ → ℕ
not32 n = 2 ^ 32 - 1 - n

-- (uint64_t)-1
abbrev pub no_timeout : ℕ
no_timeout = 2 ^ 64 - 1

-- what fstat says of a descriptor: an error, or whether it is a socket
pub data Stat : Type 0 where
  bad_stat : Stat
  good_stat : Bool → Stat

pub record FdItem : Type 0 where
  pub is_inited : Bool
  pub is_socket : Bool
  pub sys_nonblock : Bool
  pub user_nonblock : Bool
  pub is_closed : Bool
  pub fd : ℕ
  pub recv_timeout : ℕ
  pub send_timeout : ℕ

abbrev pub stat_inited : Stat → Bool
stat_inited bad_stat = false
stat_inited (good_stat s) = true

abbrev pub stat_socket : Stat → Bool
stat_socket bad_stat = false
stat_socket (good_stat s) = s

-- an item as FDItem::FDItem and FDItem::init leave it
unfoldable pub new_item : Stat → ℕ → FdItem
new_item stat fd = record {
  is_inited = stat_inited stat;
  is_socket = stat_socket stat;
  sys_nonblock = stat_socket stat;
  user_nonblock = false;
  is_closed = false;
  fd = fd;
  recv_timeout = no_timeout;
  send_timeout = no_timeout;
}

-- SO_RCVTIMEO or SO_SNDTIMEO
pub data TimeoutType : Type 0 where
  so_rcvtimeo : TimeoutType
  so_sndtimeo : TimeoutType

-- FDItem::setTimeout and getTimeout
unfoldable pub set_timeout : TimeoutType → ℕ → FdItem → FdItem
set_timeout so_rcvtimeo v item = record item { recv_timeout = v }
set_timeout so_sndtimeo v item = record item { send_timeout = v }

unfoldable pub get_timeout : TimeoutType → FdItem → ℕ
get_timeout so_rcvtimeo item = item.recv_timeout
get_timeout so_sndtimeo item = item.send_timeout

-- m_fds
abbrev pub FdManager : Type 0
FdManager = List (Option FdItem)

-- m_fds.resize(n) of fewer than n elements
unfoldable pub resize : ℕ → FdManager → FdManager
resize n fds = fds ++ replicate (n - length fds) none

-- m_fds[fd], which is undefined from size() on
unfoldable pub at_index : ℕ → FdManager → Outcome (Option FdItem)
at_index fd fds = elim (get_elem? fds fd) [ none ↦ fault | some slot ↦ ok slot ]

-- FDItem::FDItem, with FDItem::init. init asks fcntl for the flags of a socket, which is the hooked
-- fcntl of Hook.cpp: `asks` is what that does to the table. Its result does not matter, since
-- !(flag) & O_NONBLOCK is 0.
unfoldable pub create :
    (FdManager → Outcome FdManager) → Stat → ℕ → FdManager → Outcome (FdItem × FdManager)
unfolding new_item
create asks stat fd fds =
    if stat_socket stat
    then (asks fds >>= λ fds'. ok (new_item stat fd, fds'))
    else ok (new_item stat fd, fds)

-- m_fds[fd] = fdi of the new item, behind resize
abbrev pub put_item : ℕ → FdItem → FdManager → Outcome (Option FdItem × FdManager)
unfolding resize
put_item fd fdi fds =
    let grown = if leb (length fds) fd then resize (fd * 3 / 2) fds else fds in
    if ltb fd (length grown) then ok (some fdi, set grown fd (some fdi)) else fault

-- the rest of get, for the slot of the descriptor
unfoldable pub get_slot :
    (FdManager → Outcome FdManager)
    → Stat
    → ℕ
    → FdManager
    → Option FdItem
    → Outcome (Option FdItem × FdManager)
unfolding create put_item
get_slot asks stat fd fds (some item) = ok (some item, fds)
get_slot asks stat fd fds none = create asks stat fd fds >>= λ r. put_item fd r.0 r.1

unfoldable pub get_with :
    (FdManager → Outcome FdManager)
    → Stat
    → ℕ
    → Bool
    → FdManager
    → Outcome (Option FdItem × FdManager)
unfolding at_index get_slot
get_with asks stat fd make fds =
    if leb (length fds) fd && not make
    then ok (none, fds)
    else at_index fd fds >>= λ slot. get_slot asks stat fd fds slot

-- FDManager::get, for a descriptor that is not -1. The hooked fcntl that an item asks for its flags
-- calls get for the same descriptor; `depth` is how many such calls inside one another the stack
-- has room for, and behind that it overflows.
unfoldable pub get : ℕ → Stat → ℕ → Bool → FdManager → Outcome (Option FdItem × FdManager)
unfolding get_with
get zero stat fd make fds = get_with (λ t. fault) stat fd make fds
get (suc depth) stat fd make fds =
    get_with (λ t. get depth stat fd false t >>= λ r. ok r.1) stat fd make fds

-- FDManager::del
unfoldable pub del : ℕ → FdManager → FdManager
del fd fds = if leb (length fds) fd then fds else set fds fd none

-- the descriptor is none of the hook's: no item, or not one of an open socket
abbrev pub is_plain : FdItem → Bool
is_plain item = item.is_closed || not item.is_socket

-- fcntl(fd, F_SETFL, arg) on an item: the item, and the argument of the original call
unfoldable pub set_flags : ℕ → FdItem → FdItem × ℕ
set_flags arg item = if is_plain item then (item, arg) else (
  record item { user_nonblock = not (bit_and arg o_nonblock == 0) },
  if item.sys_nonblock then bit_or arg o_nonblock else bit_and arg (not32 o_nonblock),
)

-- fcntl(fd, F_GETFL) on an item: the result, for the one of the original call
unfoldable pub get_flags : ℕ → FdItem → ℕ
get_flags arg item =
    if is_plain item
    then arg
    else if item.user_nonblock
    then bit_or arg o_nonblock
    else bit_and arg (not32 o_nonblock)

-- ioctl(fd, FIONBIO, &value) on an item, with *arg of the original call
unfoldable pub set_fionbio : ℕ → FdItem → FdItem
set_fionbio value item =
    if is_plain item then item else record item { user_nonblock = not (value == 0) }

-- setsockopt of a timeout: a timeval of seconds and microseconds
unfoldable pub set_socket_timeout : TimeoutType → ℕ → ℕ → FdItem → FdItem
unfolding set_timeout
set_socket_timeout kind sec usec item = set_timeout kind (sec * 1000 + usec / 1000) item

-- What do_io does: it makes the original call and returns what that does, or fails with EBADF, or
-- goes on to wait in a coroutine.
pub data Io : Type 0 where
  original : Io
  ebadf : Io
  waits : ℕ → Io

abbrev pub do_io_on : TimeoutType → Option FdItem → Io
unfolding get_timeout
do_io_on kind none = original
do_io_on kind (some fdi) =
    if fdi.is_closed
    then ebadf
    else if not fdi.is_closed || fdi.user_nonblock
    then original
    else waits (get_timeout kind fdi)

-- do_io, for whether hooks are enabled
unfoldable pub do_io : ℕ → Bool → TimeoutType → Stat → ℕ → FdManager → Outcome (Io × FdManager)
unfolding do_io_on get
do_io depth enabled kind stat fd fds =
    if enabled
    then (get depth stat fd false fds >>= λ r. ok (do_io_on kind r.0, r.1))
    else ok (original, fds)
