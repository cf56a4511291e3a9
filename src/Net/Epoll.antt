-- ===== src/Net/Epoll.antt =====
-- server/library/network/epoll/Epoll.h and Epoll.cpp. A channel is an object: `fd` is its
-- descriptor and `id` its address. The kernel's answers to epoll_create, epoll_ctl and epoll_wait
-- are arguments.
use uiconnect.Base.{
  ℕ, ◌*◌, Bool, true, false, not, ◌&&◌, Option, none, some, List, [], ◌∷◌, length, ◌==◌,
  if◌then◌else◌,
}

pub record Handle : Type 0 where
  pub id : ℕ
  pub fd : ℕ

pub data Action : Type 0 where
  ctl_add ctl_mod ctl_del : Action

-- m_events is its length; m_channels is a list in the order of insertion, a key at most once.
pub record Epoll : Type 0 where
  pub valid : Bool
  pub events : ℕ
  pub channels : List (ℕ × Handle)

unfoldable pub lookup : ℕ → List (ℕ × Handle) → Option Handle
lookup fd [] = none
lookup fd ((k, c) ∷ rest) = if k == fd then some c else lookup fd rest

unfoldable pub put : ℕ → Handle → List (ℕ × Handle) → List (ℕ × Handle)
put fd c [] = (fd, c) ∷ []
put fd c ((k, d) ∷ rest) = if k == fd then (k, c) ∷ rest else (k, d) ∷ put fd c rest

unfoldable pub without : ℕ → List (ℕ × Handle) → List (ℕ × Handle)
without fd [] = []
without fd ((k, d) ∷ rest) = let left = without fd rest in if k == fd then left else (k, d) ∷ left

-- Epoll::Epoll; `add_size` is EPOLL_EVENT_ADD_SIZE.
unfoldable pub create : Bool → ℕ → Epoll
create created add_size = record { valid = created; events = add_size; channels = [] }

-- Epoll::ctrl, by channel: whether it reports success; `kernel` is epoll_ctl's.
unfoldable pub ctrl : Epoll → Bool → Bool
ctrl e kernel = e.valid && kernel

-- Epoll::ctrl, by descriptor
unfoldable pub ctrl_fd : Epoll → ℕ → Bool → Bool
unfolding lookup ctrl
ctrl_fd e fd kernel = elim (lookup fd e.channels) [ none ↦ false | some c ↦ ctrl e kernel ]

-- m_channels.find(fd) == end() || m_channels[fd] != channel
unfoldable pub is_other : Option Handle → Handle → Bool
is_other none c = true
is_other (some d) c = not (d.id == c.id)

unfoldable pub is_some : Option Handle → Bool
is_some none = false
is_some (some d) = true

-- the checks of updateChannel
unfoldable pub rejects : Epoll → Action → ℕ → Handle → Bool
unfolding lookup is_other is_some
rejects e ctl_add fd c = is_some (lookup fd e.channels)
rejects e ctl_mod fd c = is_other (lookup fd e.channels) c
rejects e ctl_del fd c = is_other (lookup fd e.channels) c

unfoldable pub apply : Action → Handle → List (ℕ × Handle) → List (ℕ × Handle)
unfolding put without
apply ctl_add c channels = put c.fd c channels
apply ctl_mod c channels = channels
apply ctl_del c channels = without c.fd channels

-- Epoll::updateChannel
unfoldable pub update_channel : Epoll → Action → ℕ → Handle → Bool → Bool × Epoll
unfolding rejects ctrl apply
update_channel e action fd c kernel =
    if rejects e action fd c
    then (false, e)
    else if ctrl e kernel
    then (true, record e { channels = apply action c e.channels })
    else (false, e)

-- epoll_wait: an error that ends the loop, one that does not (EINTR, EAGAIN), or (fd, events) pairs
pub data Waited : Type 0 where
  failed interrupted : Waited
  ready : List (ℕ × ℕ) → Waited

-- The channels that poll activates, with their events: unknown descriptors are passed over.
unfoldable pub active : List (ℕ × Handle) → List (ℕ × ℕ) → List (Handle × ℕ)
unfolding lookup
active channels [] = []
active channels ((fd, ev) ∷ rest) =
    let more = active channels rest in
    elim (lookup fd channels) [ none ↦ more | some c ↦ (c, ev) ∷ more ]

-- Epoll::poll: its result, the channels behind `activeChannels`, and the new state.
unfoldable pub poll : Epoll → Waited → Bool × List (Handle × ℕ) × Epoll
unfolding active
poll e failed = (false, [], e)
poll e interrupted = (true, [], e)
poll e (ready got) = (
  true,
  active e.channels got,
  record e { events = if length got == e.events then length got * 2 else e.events },
)

-- Epoll::close
unfoldable pub close : Epoll → Epoll
close e = if e.valid then record { valid = false; events = 0; channels = [] } else e
