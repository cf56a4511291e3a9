-- ===== src/Tests/Threads.antt =====
-- A thread and one caller of quit in two orders, and a pool of two event threads.
use uiconnect.Base.{ℕ, ◌≡◌, ◌⊎◌, refl, true, false, none, some, List, [], ◌∷◌, map, arith}
use uiconnect.Base.Family.{update}
use uiconnect.Base.Outcome.{ok, fault}
use uiconnect.Net.Loop.{EventLoop}
use uiconnect.Net.Channel.Registered.{IsRegistered}
use uiconnect.Threads.{EventThread, detached}
use uiconnect.Threads.Waiting.{
  returned, marked, gone, Caller, away, called, passed, locking, testing, blocking, waited, System,
  calls_function, returns, marks, calls, passes, sets, locks, leaves, Reach, start, step,
}
use uiconnect.Threads.Waiting.Waited.{Reach-waited}
use uiconnect.Threads.Pool.{ThreadPool, construct, quit, get_loop, find_id}
use uiconnect.Threads.Pool
use uiconnect.Threads.Pool.Lookup.{get_loop-start}
use uiconnect.Server.Startup.{Host, exit}
use uiconnect.Server.Startup
use uiconnect.Server.Startup.Ends.{exit-init}
use uiconnect.Tests.Loops.{idle}
use uiconnect.Tests.HttpConnections.{works}

-- the caller has come as far as its test of m_isEnd
abbrev at_test : ℕ → Caller
at_test = update (update (update (update (λ i. away) 0 called) 0 passed) 0 locking) 0 testing

-- the thread ends first
abbrev ended : System
ended = record {
  is_bound = true;
  is_quited = true;
  is_end = true;
  owner = none;
  body = marked;
  at = update at_test 0 waited;
}

ended_reached : Reach true ended
ended_reached =
    let r = step (step (step start (calls_function refl refl)) (returns refl)) (marks refl) in
    let r' =
      step (step (step (step r (calls 0 refl)) (passes 0 refl refl)) (sets 0 refl))
        (locks 0 refl refl) in
    step r' (leaves 0 refl refl)

Reach-waited_example : (true ≡ true) × ((marked ≡ marked) ⊎ (marked ≡ gone))
Reach-waited_example = Reach-waited ended_reached 0 refl

-- the caller tests first
abbrev racing : System
racing = record {
  is_bound = true;
  is_quited = true;
  is_end = false;
  owner = some 0;
  body = returned;
  at = update at_test 0 blocking;
}

abbrev loops : List EventLoop
loops = idle ∷ idle ∷ []

abbrev ids : ℕ → ℕ
ids i = 70

abbrev thread : EventThread
thread = record {
  thread = record {
    id = 70;
    pid = 9;
    name = [];
    handle = detached;
    is_bound = true;
    is_quited = false;
    is_end = false;
  };
  loop = idle;
}

abbrev pool : ThreadPool
pool = record { is_quited = false; threads = thread ∷ thread ∷ []; id_map = (0, 1) ∷ [] }

pool_started : Pool.start 9 ids (construct loops) ≡ ok pool
unfolding Pool.start construct
pool_started = refl

get_loop-start_example : (get_loop 70 pool ≡ fault) × (find_id 0 pool.id_map ≡ some 1)
get_loop-start_example = get_loop-start 9 70 ids loops pool (omega arith) pool_started (omega arith)

abbrev host : Host
host = record {
  tcp = record { pool = record { size = 2; no = 0 }; fd = 4; session_id = 0; sessions = [] };
  threads = pool;
  channel = record {
    handle = record { id = 0; fd = 4 };
    target_event = 17;
    active_event = 0;
    epoll = record { valid = true; events = 20; channels = (4, record { id = 0; fd = 4 }) ∷ [] };
  };
  reads = true;
  quitting = false;
}

host_starts :
    Startup.init works 9 ids true true (Startup.construct (some 4) idle.epoll loops 0)
    ≡ ok (true, host)
unfolding Startup.init Startup.construct
host_starts = refl

exit-init_example :
    IsRegistered host.channel
    × (true ≡ true)
    × ((exit works host).tcp.fd ≡ 0)
    × ((exit works host).quitting ≡ true)
    × ((exit works host).threads.threads ≡ thread ∷ thread ∷ [])
    × (map (λ (t : EventThread). t.loop) (exit works host).threads.threads ≡ loops)
exit-init_example =
    exit-init works works 9 ids true true (some 4) idle.epoll loops 0 host host_starts
