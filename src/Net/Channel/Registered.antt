-- ===== src/Net/Channel/Registered.antt =====
-- When a channel is registered with its epoll instance.
use Prim.Native.Nat.{bit_and, bit_or, bit_and-bitwise}
use uiconnect.Base.{
  ℕ, zero, suc, ◌<◌, ◌≡◌, refl, sym, ap, ◌∙◌, Bool, true, none, some, List, [], ◌∷◌, ltb, ltb→lt,
  ◌==◌, if◌then◌else◌, if-elim, arith,
}
use uiconnect.Net.Epoll.{Handle, lookup, put, without, update_channel}
use uiconnect.Net.Channel.{
  Env, Channel, wants, read_event, write_event, loop_update, set_target_event, add_target_event,
  disable, enable_reading, enable_writing,
}

pub lookup-put :
    (fd k : ℕ) (c : Handle) (cs : List (ℕ × Handle))
    → lookup k (put fd c cs) ≡ (if fd == k then some c else lookup k cs)
unfolding lookup put
lookup-put fd k c [] = refl
lookup-put fd k c ((j, d) ∷ rest) = ground (arith, lookup-put fd k c rest)

pub lookup-without :
    (fd k : ℕ) (cs : List (ℕ × Handle))
    → lookup k (without fd cs) ≡ (if fd == k then none else lookup k cs)
unfolding lookup without
lookup-without fd k [] = ground arith
lookup-without fd k ((j, d) ∷ rest) = ground (arith, lookup-without fd k rest)

-- m_channels has this channel under its descriptor
abbrev pub IsRegistered : Channel → Type 0
IsRegistered c = lookup c.handle.fd c.epoll.channels ≡ some c.handle

-- A channel that wants any event is registered.
abbrev pub Tracks : Channel → Type 0
Tracks c = 0 < c.target_event → IsRegistered c

no_events : (ev : ℕ) → bit_and zero ev ≡ 0
no_events ev = simp bit_and-bitwise refl

wants-pos : (t ev : ℕ) → ltb 0 (bit_and t ev) ≡ true → 0 < t
wants-pos zero ev h = ltb→lt 0 0 (ap (ltb 0) (sym (no_events ev)) ∙ h)
wants-pos (suc t) ev h = omega arith

set_target_event-Registered :
    (env : Env) (c : Channel) (ev : ℕ) → IsRegistered c → IsRegistered (set_target_event env c ev).1
unfolding set_target_event loop_update update_channel
set_target_event-Registered env c ev r = ground arith

pub add_target_event-Registered :
    (env : Env) (c : Channel) (ev : ℕ)
    → (add_target_event env c ev).0 ≡ true
    → IsRegistered (add_target_event env c ev).1
unfolding add_target_event loop_update update_channel
add_target_event-Registered env c ev h =
    ground (arith, lookup-put c.handle.fd c.handle.fd c.handle c.epoll.channels)

abbrev Result : Bool × Channel → Type 0
Result r = r.0 ≡ true → IsRegistered r.1

-- The two guards of enableReading and enableWriting, then the update.
enabled :
    (env : Env) (c : Channel) (ev : ℕ)
    → Tracks c
    → let r =
        if wants c ev
        then (true, c)
        else if ltb 0 c.target_event
        then set_target_event env c (bit_or c.target_event ev)
        else add_target_event env c ev in
      Result r
enabled env c ev t =
    if-elim Result (wants c ev) (λ w done. t (wants-pos c.target_event ev w))
      (λ w.
        if-elim Result (ltb 0 c.target_event)
          (λ p done.
            set_target_event-Registered env c (bit_or c.target_event ev)
              (t (ltb→lt 0 c.target_event p)))
          (λ p. add_target_event-Registered env c ev))

-- Where a channel that wants any event is registered, enableReading and enableWriting succeed only
-- if the channel is registered then.
pub enable-Registered :
    (env : Env) (c : Channel)
    → Tracks c
    → ((enable_reading env c).0 ≡ true → IsRegistered (enable_reading env c).1)
      × ((enable_writing env c).0 ≡ true → IsRegistered (enable_writing env c).1)
unfolding enable_reading enable_writing
enable-Registered env c t = (enabled env c read_event t, enabled env c write_event t)

disable-out :
    (env : Env) (c : Channel)
    → (disable env c).0 ≡ true
    → (lookup c.handle.fd (disable env c).1.epoll.channels ≡ none)
unfolding disable loop_update update_channel
disable-out env c h = ground (arith, lookup-without c.handle.fd c.handle.fd c.epoll.channels)

disable-target :
    (env : Env) (c : Channel)
    → ((disable env c).1.target_event ≡ c.target_event) × ((disable env c).1.handle ≡ c.handle)
unfolding disable
disable-target env c = (ground arith, ground arith)

-- A successful disable takes the channel out of epoll and leaves its wanted events as they were.
-- So if it wanted to read, enableReading then reports success, whatever the circumstances, and the
-- channel stays out of epoll; likewise for writing.
pub disable-enable :
    (env env' : Env) (c : Channel)
    → (disable env c).0 ≡ true
    → let c' = (disable env c).1 in
      (lookup c.handle.fd c'.epoll.channels ≡ none)
      × (c'.target_event ≡ c.target_event)
      × (wants c read_event ≡ true → enable_reading env' c' ≡ (true, c'))
      × (wants c write_event ≡ true → enable_writing env' c' ≡ (true, c'))
unfolding enable_reading enable_writing
disable-enable env env' c h =
    let (same, handle) = disable-target env c in
    (disable-out env c h, same, λ w. rw (same, w) refl, λ w. rw (same, w) refl)
