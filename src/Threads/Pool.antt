-- ===== src/Threads/Pool.antt =====
-- server/library/thread/ThreadPool.hpp and network/event/EventThreadPool.h: a pool of event threads. A
-- thread of it is its index.
pub mod Quitting
pub mod Lookup
use uiconnect.Base.{
  ℕ, zero, suc, ◌+◌, Bool, true, false, not, Option, none, some, List, [], ◌∷◌, map, length,
  get_elem?, leb, ◌==◌, if◌then◌else◌,
}
use uiconnect.Base.Outcome.{Outcome, ok, fault, ◌>>=◌, ◌>>◌, require}
use uiconnect.Net.Loop.{EventLoop}
use uiconnect.Threads.{EventThread, create_event, run_event, quit_event}

-- m_isQuited, m_threads and m_idMap
pub record ThreadPool : Type 0 where
  pub is_quited : Bool
  pub threads : List EventThread
  pub id_map : List (ℕ × ℕ)

-- m_idMap[id] = thread
unfoldable pub put_id : ℕ → ℕ → List (ℕ × ℕ) → List (ℕ × ℕ)
put_id id i [] = (id, i) ∷ []
put_id id i ((k, j) ∷ rest) =
    let later = put_id id i rest in if k == id then (k, i) ∷ rest else (k, j) ∷ later

-- the loop of the constructor, from the thread `i` on
unfoldable pub fill_ids : ℕ → List EventThread → List (ℕ × ℕ) → List (ℕ × ℕ)
unfolding put_id
fill_ids i [] ids = ids
fill_ids i (t ∷ ts) ids = fill_ids (suc i) ts (put_id t.thread.id i ids)

-- ThreadPool::ThreadPool, for the loops of its threads
unfoldable pub construct : List EventLoop → ThreadPool
unfolding create_event fill_ids
construct loops =
    let threads = map create_event loops in
    record { is_quited = false; threads = threads; id_map = fill_ids 0 threads [] }

-- the loop of start, for the ids that the threads get
unfoldable pub run_all : ℕ → (ℕ → ℕ) → ℕ → List EventThread → Outcome (List EventThread)
unfolding run_event
run_all caller id i [] = ok []
run_all caller id i (t ∷ ts) =
    run_event caller (id i) t >>= λ t'. run_all caller id (suc i) ts >>= λ ts'. ok (t' ∷ ts')

-- ThreadPool::start
unfoldable pub start : ℕ → (ℕ → ℕ) → ThreadPool → Outcome ThreadPool
unfolding run_all
start caller id p =
    run_all caller id 0 p.threads >>= λ ts. ok (record p { is_quited = false; threads = ts })

-- ThreadPool::quit
unfoldable pub quit : ThreadPool → ThreadPool
unfolding quit_event
quit p = record p { threads = map quit_event p.threads; is_quited = true }

-- ThreadPool::getNextThread with its static `no`: the thread, and `no` after it
unfoldable pub get_next_thread : ℕ → ThreadPool → Outcome (ℕ × ℕ)
get_next_thread last p =
    require (not (length p.threads == 0))
    >> (let next = if leb (length p.threads) (last + 1) then 0 else last + 1 in ok (next, next))

-- ThreadPool::getThread
unfoldable pub get_thread : ℕ → ThreadPool → Outcome EventThread
get_thread i p = elim (get_elem? p.threads i) [ none ↦ fault | some t ↦ ok t ]

unfoldable pub find_id : ℕ → List (ℕ × ℕ) → Option ℕ
find_id id [] = none
find_id id ((k, i) ∷ rest) = let later = find_id id rest in if k == id then some i else later

-- EventThreadPool::getLoop: of an id that is not there the pointer is null.
unfoldable pub get_loop : ℕ → ThreadPool → Outcome EventLoop
unfolding find_id get_thread
get_loop id p = elim (find_id id p.id_map) [
  | none ↦ fault
  | some i ↦ get_thread i p >>= λ t. ok t.loop
]
