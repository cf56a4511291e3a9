-- ===== src/Tests/Loops.antt =====
-- A loop in thread 1 that runs a task `code n` by adding n to its sessions.
use uiconnect.Base.{ℕ, ◌≡◌, refl, Bool, true, false, Option, some, List, [], ◌∷◌}
use uiconnect.Base.Outcome.{ok}
use uiconnect.Timer.{Callback, TimerFunc}
use uiconnect.Net.Epoll.{Handle, Waited, failed, interrupted}
use uiconnect.Net.Loop.{code, EventLoop, loop}

abbrev pub no_timer : TimerFunc
no_timer = record { oneshot = true; cycle = 0; next_call_time = 0; cb = Option.none }

abbrev pub idle : EventLoop
idle = record {
  thread_id = 1;
  quitting = false;
  running = true;
  epoll = record { valid = true; events = 20; channels = [] };
  sessions = [];
  tasks = code 5 ∷ [];
  timers = record {
    heap = λ a. no_timer;
    timers = [];
    tickled = false;
    on_front = false;
    front_calls = 0;
  };
}

abbrev keep : ℕ → EventLoop → EventLoop
keep n l = record l { sessions = n ∷ l.sessions }

abbrev accept : ℕ → EventLoop → Bool × EventLoop
accept id l = (true, l)

abbrev ignore : Handle → ℕ → EventLoop → EventLoop
ignore channel events l = l

abbrev skip : Option Callback → EventLoop → EventLoop
skip cb l = l

-- one round, in which the task runs, then a poll that fails
abbrev answers : List (Waited × ℕ)
answers = (interrupted, 10) ∷ (failed, 20) ∷ []

abbrev stopped : EventLoop
stopped = record idle { running = false; tasks = [] }

loop_stops : loop keep accept ignore skip 1 answers idle ≡ ok (some stopped)
unfolding loop
loop_stops = refl
