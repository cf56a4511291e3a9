-- ===== src/Threads/Waiting.antt =====
-- Thread::quit and Thread::entry of server/library/thread/Thread.cpp in steps: one thread that runs
-- entry, and any number of callers of quit.
pub mod Waited
pub mod Lost
use uiconnect.Base.{ℕ, ◌≡◌, Bool, true, false, Option, none, some}
use uiconnect.Base.Family.{update}

-- Where the thread stands in entry.
pub data Body : Type 0 where
  begun : Body
  working : Body  -- in m_func
  returned : Body  -- before m_isEnd = true
  marked : Body  -- before notify_all
  gone : Body

-- Where a caller stands in quit.
pub data Caller : Type 0 where
  away : Caller
  called : Caller  -- before the test of m_isQuited
  passed : Caller  -- before m_isQuited = true
  locking : Caller  -- before it has m_mutex
  testing : Caller  -- in the predicate of wait, with m_mutex
  blocking : Caller  -- behind a predicate that was false, with m_mutex
  asleep : Caller  -- in m_cv, without m_mutex
  awake : Caller  -- woken, before it has m_mutex again
  skipped : Caller  -- quit returned at once
  waited : Caller  -- wait, and then quit, returned

-- whether m_func is set, m_isQuited, m_isEnd, who has m_mutex, and where everyone stands
pub record System : Type 0 where
  pub is_bound : Bool
  pub is_quited : Bool
  pub is_end : Bool
  pub owner : Option ℕ
  pub body : Body
  pub at : ℕ → Caller

-- notify_all
abbrev pub woken : Caller → Caller
woken asleep = awake
woken away = away
woken called = called
woken passed = passed
woken locking = locking
woken testing = testing
woken blocking = blocking
woken awake = awake
woken skipped = skipped
woken waited = waited

-- One step of the thread, or of the caller `i`.
pub data Step (s : System) : System → Type 0 where
  no_function : s.body ≡ begun → s.is_bound ≡ false → Step s (record s { body = gone })
  calls_function : s.body ≡ begun → s.is_bound ≡ true → Step s (record s { body = working })
  returns : s.body ≡ working → Step s (record s { body = returned })
  marks : s.body ≡ returned → Step s (record s { body = marked; is_end = true })
  notifies : s.body ≡ marked → Step s (record s { body = gone; at = λ i. woken (s.at i) })
  calls : (i : ℕ) → s.at i ≡ away → Step s (record s { at = update s.at i called })
  skips :
      (i : ℕ)
      → s.at i ≡ called
      → s.is_quited ≡ true
      → Step s (record s { at = update s.at i skipped })
  passes :
      (i : ℕ)
      → s.at i ≡ called
      → s.is_quited ≡ false
      → Step s (record s { at = update s.at i passed })
  sets :
      (i : ℕ) → s.at i ≡ passed → Step s (record s { is_quited = true; at = update s.at i locking })
  locks :
      (i : ℕ)
      → s.at i ≡ locking
      → s.owner ≡ none
      → Step s (record s { owner = some i; at = update s.at i testing })
  leaves :
      (i : ℕ)
      → s.at i ≡ testing
      → s.is_end ≡ true
      → Step s (record s { owner = none; at = update s.at i waited })
  refuses :
      (i : ℕ)
      → s.at i ≡ testing
      → s.is_end ≡ false
      → Step s (record s { at = update s.at i blocking })
  sleeps :
      (i : ℕ) → s.at i ≡ blocking → Step s (record s { owner = none; at = update s.at i asleep })
  relocks :
      (i : ℕ)
      → s.at i ≡ awake
      → s.owner ≡ none
      → Step s (record s { owner = some i; at = update s.at i testing })

-- a wake-up that no one asked for, which std::condition_variable allows
pub data Spurious (s : System) : System → Type 0 where
  wakes : (i : ℕ) → s.at i ≡ asleep → Spurious s (record s { at = update s.at i awake })

pub data Steps (s : System) : System → Type 0 where
  here : Steps s s
  next : {t u : System} → Steps s t → Step t u → Steps s u

-- a thread that run has just started, with or without a function
abbrev pub init : Bool → System
init is_bound = record {
  is_bound = is_bound;
  is_quited = false;
  is_end = false;
  owner = none;
  body = begun;
  at = λ i. away;
}

pub data Reach (is_bound : Bool) : System → Type 0 where
  start : Reach is_bound (init is_bound)
  step : {s t : System} → Reach is_bound s → Step s t → Reach is_bound t
  spurious : {s t : System} → Reach is_bound s → Spurious s t → Reach is_bound t
