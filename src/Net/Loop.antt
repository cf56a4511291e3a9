-- ===== src/Net/Loop.antt =====
-- server/library/network/event/EventLoop.h and EventLoop.cpp. What is called through a std::function
-- or a virtual function is code of the program that uses the loop: the section's parameters say
-- what the code of a task, a session's init, an event of a channel and a timer's callback do to
-- the loop. A lock makes what it guards one step; `caller` is the thread that calls.
pub mod Ends
use uiconnect.Base.{
  ℕ, Bool, true, false, not, ◌&&◌, Option, none, some, List, [], ◌∷◌, ◌++◌, ◌==◌, if◌then◌else◌,
}
use uiconnect.Base.Outcome.{Outcome, ok, fault, ◌>>=◌}
use uiconnect.Timer.{Callback, TimerManager, list_expired_cb}
use uiconnect.Net.Epoll.{Handle, Epoll, Waited, poll, close}

-- A queued task: a function, addSession's, or removeSession's, whose reference to its argument
-- outlives that argument.
pub data Task : Type 0 where
  code : ℕ → Task
  emplace_session : ℕ → Task
  erase_dangling : Task

-- m_sessions by id: what it maps to is the session of that id.
pub record EventLoop : Type 0 where
  pub thread_id : ℕ
  pub quitting : Bool
  pub running : Bool
  pub epoll : Epoll
  pub sessions : List ℕ
  pub tasks : List Task
  pub timers : TimerManager

unfoldable pub is_in_loop_thread : ℕ → EventLoop → Bool
is_in_loop_thread caller l = l.thread_id == caller

-- m_sessions.erase(id)
unfoldable pub erase_session : ℕ → List ℕ → List ℕ
erase_session id [] = []
erase_session id (k ∷ rest) = let left = erase_session id rest in if k == id then left else k ∷ left

unfoldable pub has_session : ℕ → List ℕ → Bool
has_session id [] = false
has_session id (k ∷ rest) = let more = has_session id rest in if k == id then true else more

-- EventLoop::quit up to its wait, and from there on, once the loop does not run
unfoldable pub ask_quit : EventLoop → EventLoop
ask_quit l = record l { quitting = true }

unfoldable pub finish_quit : EventLoop → Option EventLoop
unfolding close
finish_quit l = if l.running then none else some (record l { epoll = close l.epoll })

module _ (run_code : ℕ → EventLoop → EventLoop) (init_session : ℕ → EventLoop → Bool × EventLoop)
    (handle : Handle → ℕ → EventLoop → EventLoop)
    (fire : Option Callback → EventLoop → EventLoop) where
  -- A call of a task. emplace keeps a session that is there.
  unfoldable pub run_task : Task → EventLoop → Outcome EventLoop
  unfolding has_session
  run_task (code f) l = ok (run_code f l)
  run_task (emplace_session id) l =
      let (done, l') = init_session id l in
      if done && not (has_session id l'.sessions)
      then ok (record l' { sessions = id ∷ l'.sessions })
      else ok l'
  run_task erase_dangling l = fault

  unfoldable pub run_tasks : List Task → EventLoop → Outcome EventLoop
  unfolding run_task
  run_tasks [] l = ok l
  run_tasks (t ∷ ts) l = run_task t l >>= λ l'. run_tasks ts l'

  -- EventLoop::addTask
  unfoldable pub add_task : ℕ → Task → EventLoop → Outcome EventLoop
  unfolding is_in_loop_thread run_task
  add_task caller t l =
      if is_in_loop_thread caller l
      then run_task t l
      else ok (record l { tasks = l.tasks ++ t ∷ [] })

  -- EventLoop::addSession
  unfoldable pub add_session : ℕ → ℕ → EventLoop → Outcome EventLoop
  unfolding add_task
  add_session caller id l = add_task caller (emplace_session id) l

  -- EventLoop::removeSession: in the loop's thread its argument is still there.
  unfoldable pub remove_session : ℕ → ℕ → EventLoop → Outcome EventLoop
  unfolding is_in_loop_thread erase_session add_task
  remove_session caller id l =
      if is_in_loop_thread caller l
      then ok (record l { sessions = erase_session id l.sessions })
      else add_task caller erase_dangling l

  -- EventLoop::doTasks
  unfoldable pub do_tasks : EventLoop → Outcome EventLoop
  unfolding run_tasks
  do_tasks l = run_tasks l.tasks (record l { tasks = [] })

  unfoldable pub handle_all : List (Handle × ℕ) → EventLoop → EventLoop
  handle_all [] l = l
  handle_all ((channel, events) ∷ rest) l = handle_all rest (handle channel events l)

  unfoldable pub fire_all : List (Option Callback) → EventLoop → EventLoop
  fire_all [] l = l
  fire_all (cb ∷ rest) l = fire_all rest (fire cb l)

  -- The timers that are due at `now`, then their callbacks.
  unfoldable pub do_timers : ℕ → EventLoop → EventLoop
  unfolding list_expired_cb fire_all
  do_timers now l =
      let (cbs, timers) = list_expired_cb l.timers now [] in
      fire_all cbs (record l { timers = timers })

  -- One round of the loop, with epoll_wait's answer: whether it goes on.
  unfoldable pub round : Waited → ℕ → EventLoop → Outcome (Bool × EventLoop)
  unfolding poll handle_all do_tasks do_timers
  round waited now l =
      let (polled, active, e) = poll l.epoll waited in
      let next = do_tasks (handle_all active (record l { epoll = e })) in
      if not polled
      then ok (false, record l { epoll = e })
      else next >>= λ l'. ok (true, do_timers now l')

  -- The rounds for the given answers, `none` where they do not end the loop.
  unfoldable pub rounds : List (Waited × ℕ) → EventLoop → Outcome (Option EventLoop)
  unfolding round
  rounds [] l = if not l.quitting && l.running then ok none else ok (some l)
  rounds ((waited, now) ∷ rest) l = elim (not l.quitting && l.running) [
    | false ↦ ok (some l)
    | true ↦ round waited now l >>= λ (goes_on, l'). elim goes_on [
      | true ↦ rounds rest l'
      | false ↦ ok (some l')
    ]
  ]

  -- EventLoop::loop
  unfoldable pub loop : ℕ → List (Waited × ℕ) → EventLoop → Outcome (Option EventLoop)
  unfolding rounds
  loop caller answers l = rounds answers (record l { thread_id = caller; running = true }) >>= λ r.
      elim r [ none ↦ ok none | some l' ↦ ok (some (record l' { sessions = []; running = false })) ]
