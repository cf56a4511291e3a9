-- ===== src/Mutex.antt =====
-- server/library/Mutex.h: the guards ScopedLockImpl, ReadScopedLockImpl and WriteScopedLockImpl, and
-- CASLock. The locks of pthread are an interface: what a thread's calls do to its hold on a lock.
pub mod Guards
pub mod Exclusion
use uiconnect.Base.{ℕ, ◌<◌, ◌≡◌, Bool, true, false, List, [], ◌∷◌, if◌then◌else◌}
use uiconnect.Base.Outcome.{Outcome, ok, ◌>>=◌}
use uiconnect.Base.Family.{update}

-- A lock as one thread has it: `acquire` is lock, rdlock or wrlock, `release` unlock. What a second
-- lock of the same thread does, or an unlock without a lock, is left open.
pub record Lockable (M : Type 0) : Type 0 where
  pub acquire : M → Outcome M
  pub release : M → Outcome M
  pub held : M → Bool
  pub acquire-held : (m : M) → held m ≡ false → (m' : M) × (acquire m ≡ ok m') × (held m' ≡ true)
  pub release-held : (m : M) → held m ≡ true → (m' : M) × (release m ≡ ok m') × (held m' ≡ false)

-- a guard, with the mutex that it refers to
pub record ScopedLock (M : Type 0) : Type 0 where
  pub mutex : M
  pub locked : Bool

-- A call of a guard's method.
pub data GuardCall : Type 0 where
  calls_lock : GuardCall
  calls_unlock : GuardCall

module _ {M : Type 0} (l : Lockable M) where
  -- ScopedLockImpl::ScopedLockImpl
  unfoldable pub construct : M → Outcome (ScopedLock M)
  construct m = l.acquire m >>= λ m'. ok (record { mutex = m'; locked = true })

  -- ScopedLockImpl::lock
  unfoldable pub lock : ScopedLock M → Outcome (ScopedLock M)
  lock g =
      if g.locked
      then ok g
      else (l.acquire g.mutex >>= λ m'. ok (record { mutex = m'; locked = true }))

  -- ScopedLockImpl::unlock
  unfoldable pub unlock : ScopedLock M → Outcome (ScopedLock M)
  unlock g =
      if g.locked
      then (l.release g.mutex >>= λ m'. ok (record { mutex = m'; locked = false }))
      else ok g

  -- ScopedLockImpl::~ScopedLockImpl, and the mutex that is left
  unfoldable pub destruct : ScopedLock M → Outcome M
  unfolding unlock
  destruct g = unlock g >>= λ g'. ok g'.mutex

  unfoldable pub run_call : GuardCall → ScopedLock M → Outcome (ScopedLock M)
  unfolding lock unlock
  run_call calls_lock g = lock g
  run_call calls_unlock g = unlock g

  unfoldable pub run_calls : List GuardCall → ScopedLock M → Outcome (ScopedLock M)
  unfolding run_call
  run_calls [] g = ok g
  run_calls (c ∷ cs) g = run_call c g >>= λ g'. run_calls cs g'

  -- a scope with a guard: its constructor, calls of its methods, its destructor
  unfoldable pub run_scope : List GuardCall → M → Outcome M
  unfolding construct run_calls destruct
  run_scope cs m = construct m >>= λ g. run_calls cs g >>= λ g'. destruct g'

-- Where a thread stands with a CASLock: outside, in the loop of lock, or between lock and unlock.
pub data Place : Type 0 where
  outside : Place
  trying : Place
  inside : Place

-- One step of a thread, with the flag before it and after it. A test-and-set is one step.
pub data Move (flag : Bool) : Place → Bool → Place → Type 0 where
  call_lock : Move flag outside flag trying
  spin : flag ≡ true → Move flag trying true trying
  enter : flag ≡ false → Move flag trying true inside
  call_unlock : Move flag inside false outside

-- the flag, and where each thread stands
pub record CasLock : Type 0 where
  pub flag : Bool
  pub at : ℕ → Place

-- CASLock::CASLock
abbrev pub new : CasLock
new = record { flag = false; at = λ i. outside }

pub data Step (n : ℕ) (s : CasLock) : CasLock → Type 0 where
  pick :
      (i : ℕ) {f : Bool} {p : Place}
      → i < n
      → Move s.flag (s.at i) f p
      → Step n s (record { flag = f; at = update s.at i p })

-- what `n` threads reach
pub data Reach (n : ℕ) : CasLock → Type 0 where
  start : Reach n new
  later : {s t : CasLock} → Reach n s → Step n s t → Reach n t
