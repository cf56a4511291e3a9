-- ===== src/Threads/Waiting/Lost.antt =====
-- A notification that nobody hears.
use uiconnect.Base.{ℕ, ◌≡◌}
use uiconnect.Threads.Waiting.{gone, asleep, System}

-- The thread is through, and the caller sleeps.
abbrev IsStuck : ℕ → System → Type 0
IsStuck i s = (s.body ≡ gone) × (s.at i ≡ asleep)
