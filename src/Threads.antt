-- ===== src/Threads.antt =====
-- server/library/thread/Thread.h and Thread.cpp, with network/event/EventThread.cpp over them. The ids
-- that the system gives to threads are arguments. std::terminate is an exception that nothing catches.
pub mod Pool
pub mod Waiting
use uiconnect.Base.{ℕ, ◌-◌, ◌^◌, Bool, true, false, not, List, if◌then◌else◌}
use uiconnect.Base.Outcome.{Outcome, ok, thrown, fault, ◌>>=◌}
use uiconnect.Net.Loop.{EventLoop, ask_quit}

-- m_thread: a null pointer, or a std::thread that is joinable or not
pub data Handle : Type 0 where
  no_thread : Handle
  joinable : Handle
  detached : Handle

-- `is_bound` is whether m_func is set. An id of 0 is that of no thread.
pub record Thread : Type 0 where
  pub id : ℕ
  pub pid : ℕ
  pub name : List ℕ
  pub handle : Handle
  pub is_bound : Bool
  pub is_quited : Bool
  pub is_end : Bool

-- Thread::Thread
unfoldable pub create : List ℕ → Thread
create name = record {
  id = 0;
  pid = 2 ^ 32 - 1;
  name = name;
  handle = no_thread;
  is_bound = false;
  is_quited = false;
  is_end = false;
}

-- Thread::bind keeps a function that is there.
unfoldable pub bind : Thread → Thread
bind t = if t.is_bound then t else record t { is_bound = true }

-- Thread::run in the thread `caller`, for the id of the new thread. The std::thread that was there
-- is destroyed.
unfoldable pub run : ℕ → ℕ → Thread → Outcome Thread
run caller id t = elim t.handle [
  | joinable ↦ thrown
  | _ ↦ ok (record t { id = id; pid = caller; handle = joinable })
]

-- Thread::detach
unfoldable pub detach : Thread → Outcome Thread
detach t = elim t.handle [
  | no_thread ↦ fault
  | joinable ↦ ok (record t { handle = detached })
  | detached ↦ ok t
]

-- Thread::join, once the thread has ended
unfoldable pub join : Thread → Outcome Thread
join t = elim t.handle [
  | no_thread ↦ fault
  | joinable ↦ ok (record t { handle = detached })
  | detached ↦ ok t
]

-- Thread::quit, and whether it returns or waits
unfoldable pub quit : Thread → Thread × Bool
quit t = if t.is_quited then (t, true) else (record t { is_quited = true }, t.is_end)

pub record EventThread : Type 0 where
  pub thread : Thread
  pub loop : EventLoop

-- EventThread::EventThread
unfoldable pub create_event : EventLoop → EventThread
unfolding create bind
create_event loop = record { thread = bind (create List.[]); loop = loop }

-- EventThread::run
unfoldable pub run_event : ℕ → ℕ → EventThread → Outcome EventThread
unfolding run detach
run_event caller id t = run caller id t.thread >>= λ started.
    detach started >>= λ loose. ok (record t { thread = loose })

-- EventThread::quit, up to the wait of EventLoop::quit
unfoldable pub quit_event : EventThread → EventThread
unfolding ask_quit quit
quit_event t =
    if not t.thread.is_quited
    then t
    else record t { loop = ask_quit t.loop; thread = (quit t.thread).0 }
