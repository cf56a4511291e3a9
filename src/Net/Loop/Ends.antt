-- ===== src/Net/Loop/Ends.antt =====
-- The order of an event loop's tasks, and how the loop ends.
use uiconnect.Base.{
  ℕ, ◌≡◌, refl, sym, ap, ◌∙◌, Bool, true, false, Option, none, some, List, [], ◌∷◌, ◌++◌, ◌==◌,
  append_assoc, append-nil,
}
use uiconnect.Base.Outcome.{Outcome, ok, thrown, fault, ◌>>=◌, bind_cong, bind_assoc}
use uiconnect.Timer.{Callback}
use uiconnect.Net.Epoll.{Handle, Waited, close}
use uiconnect.Net.Loop.{
  Task, EventLoop, ask_quit, finish_quit, run_task, run_tasks, add_task, do_tasks, rounds, loop,
  is_in_loop_thread,
}

module _ (run_code : ℕ → EventLoop → EventLoop) (init_session : ℕ → EventLoop → Bool × EventLoop)
    (handle : Handle → ℕ → EventLoop → EventLoop)
    (fire : Option Callback → EventLoop → EventLoop) where
  -- Calls of addTask one after another.
  pub add_tasks : ℕ → List Task → EventLoop → Outcome EventLoop
  add_tasks caller [] l = ok l
  add_tasks caller (t ∷ ts) l =
      add_task run_code init_session handle fire caller t l >>= λ l'. add_tasks caller ts l'

  queued :
      (caller : ℕ) (ts : List Task) (l : EventLoop)
      → (l.thread_id == caller) ≡ false
      → add_tasks caller ts l ≡ ok (record l { tasks = l.tasks ++ ts })
  unfolding add_tasks add_task is_in_loop_thread
  queued caller [] l other = ap (λ xs. ok (record l { tasks = xs })) (sym (append-nil l.tasks))
  queued caller (t ∷ ts) l other = rw other (
      queued caller ts (record l { tasks = l.tasks ++ t ∷ [] }) other
      ∙ ap (λ xs. ok (record l { tasks = xs })) (append_assoc l.tasks (t ∷ []) ts))

  run_tasks-append :
      (xs ys : List Task) (l : EventLoop)
      → run_tasks run_code init_session handle fire (xs ++ ys) l ≡ (
          run_tasks run_code init_session handle fire xs l >>= λ l'.
          run_tasks run_code init_session handle fire ys l')
  unfolding run_tasks
  run_tasks-append [] ys l = refl
  run_tasks-append (x ∷ xs) ys l =
      let first = run_task run_code init_session handle fire x l in
      bind_cong first first _ _ refl (run_tasks-append xs ys)
      ∙ sym (
          bind_assoc first (run_tasks run_code init_session handle fire xs)
            (run_tasks run_code init_session handle fire ys))

  -- Tasks that another thread adds wait in their order behind those that are there, and doTasks
  -- runs all of them in that order, from an empty queue.
  pub do_tasks-add_tasks :
      (caller : ℕ) (ts : List Task) (l : EventLoop)
      → (l.thread_id == caller) ≡ false
      → (add_tasks caller ts l >>= λ l'. do_tasks run_code init_session handle fire l') ≡ (
          run_tasks run_code init_session handle fire l.tasks (record l { tasks = [] }) >>= λ l'.
          run_tasks run_code init_session handle fire ts l')
  unfolding do_tasks
  do_tasks-add_tasks caller ts l other =
      rw (queued caller ts l other) (run_tasks-append l.tasks ts (record l { tasks = [] }))

  -- A loop that has ended runs no more and holds no session, and quit then closes its epoll.
  pub loop-ended :
      (caller : ℕ) (answers : List (Waited × ℕ)) (l l' : EventLoop)
      → loop run_code init_session handle fire caller answers l ≡ ok (some l')
      → (l'.running ≡ false)
        × (l'.sessions ≡ [])
        × (finish_quit (ask_quit l') ≡ some (record l' { quitting = true; epoll = close l'.epoll }))
  unfolding loop finish_quit ask_quit
  loop-ended caller answers l l' e =
      ended
        (rounds run_code init_session handle fire answers
          (record l { thread_id = caller; running = true }))
        e
    where
      ended :
          (r : Outcome (Option EventLoop))
          → (r >>= λ o. elim o [
            | none ↦ ok none
            | some m ↦ ok (some (record m { sessions = []; running = false }))
          ])
            ≡ ok (some l')
          → (l'.running ≡ false)
            × (l'.sessions ≡ [])
            × (finish_quit (ask_quit l')
                ≡ some (record l' { quitting = true; epoll = close l'.epoll }))
      ended (ok (some m)) h =
          let p : record m { sessions = []; running = false } ≡ l' = cc in
          rw (← p) (refl, refl, refl)
      ended (ok none) h = cc
      ended thrown h = cc
      ended fault h = cc
