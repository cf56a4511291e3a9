-- ===== src/Threads/Pool/Quitting.antt =====
-- What quitting a pool does to its threads.
use uiconnect.Base.{ℕ, suc, ◌≡◌, refl, ap, ◌∙◌, true, false, List, [], ◌∷◌, map, arith}
use uiconnect.Base.Outcome.{ok}
use uiconnect.Net.Loop.{EventLoop}
use uiconnect.Threads.{
  EventThread, no_thread, detached, create, bind, create_event, run, detach, run_event, quit_event,
}
use uiconnect.Threads.Pool.{ThreadPool, construct, run_all, start, quit}

-- fresh threads, and their loops
abbrev pub IsFresh : List EventThread → List EventLoop → Type 0
IsFresh [] [] = Unit {0}
IsFresh [] (l ∷ ls) = ⊥
IsFresh (t ∷ ts) [] = ⊥
IsFresh (t ∷ ts) (l ∷ ls) =
    (t.thread.handle ≡ no_thread) × (t.thread.is_quited ≡ false) × (t.loop ≡ l) × IsFresh ts ls

-- threads that run, none of them quited, over these loops
abbrev pub IsRunning : List EventThread → List EventLoop → Type 0
IsRunning [] [] = Unit {0}
IsRunning [] (l ∷ ls) = ⊥
IsRunning (t ∷ ts) [] = ⊥
IsRunning (t ∷ ts) (l ∷ ls) = (t.thread.is_quited ≡ false) × (t.loop ≡ l) × IsRunning ts ls

create-IsFresh : (ls : List EventLoop) → IsFresh (map create_event ls) ls
unfolding create_event create bind
create-IsFresh [] = tt
create-IsFresh (l ∷ ls) = (refl, refl, refl, create-IsFresh ls)

run_event_fresh :
    (caller id : ℕ) (t : EventThread)
    → t.thread.handle ≡ no_thread
    → (t' : EventThread) × (run_event caller id t ≡ ok t')
      × (t'.thread.is_quited ≡ t.thread.is_quited)
      × (t'.loop ≡ t.loop)
unfolding run_event run detach
run_event_fresh caller id t e = (
  record t { thread = record t.thread { id = id; pid = caller; handle = detached } },
  rw e refl,
  refl,
  refl,
)

run-IsRunning :
    (caller : ℕ) (id : ℕ → ℕ) (i : ℕ) (ts : List EventThread) (ls : List EventLoop)
    → IsFresh ts ls
    → (ts' : List EventThread) × (run_all caller id i ts ≡ ok ts') × IsRunning ts' ls
unfolding run_all
run-IsRunning caller id i [] [] f = ([], refl, tt)
run-IsRunning caller id i [] (l ∷ ls) f = absurd f
run-IsRunning caller id i (t ∷ ts) [] f = absurd f
run-IsRunning caller id i (t ∷ ts) (l ∷ ls) (h, q, o, f) =
    let (t', one, same_q, same_l) = run_event_fresh caller (id i) t h in
    let (ts', rest, r) = run-IsRunning caller id (suc i) ts ls f in
    (t' ∷ ts', rw one (rw rest refl), (same_q ∙ q, same_l ∙ o, r))

quit_running : (t : EventThread) → t.thread.is_quited ≡ false → quit_event t ≡ t
unfolding quit_event
quit_running t q = ground arith

quit_all_same :
    (ts : List EventThread) (ls : List EventLoop) → IsRunning ts ls → map quit_event ts ≡ ts
quit_all_same [] [] r = refl
quit_all_same [] (l ∷ ls) r = absurd r
quit_all_same (t ∷ ts) [] r = absurd r
quit_all_same (t ∷ ts) (l ∷ ls) (q, o, r) =
    ap (λ first. first ∷ map quit_event ts) (quit_running t q)
    ∙ ap (λ rest. t ∷ rest) (quit_all_same ts ls r)

-- A pool of event threads starts, whatever its loops and the ids of its threads. Quitting it leaves
-- each of its threads and loops as it was, with no loop asked to quit; only m_isQuited is set.
pub quit-start :
    (caller : ℕ) (id : ℕ → ℕ) (loops : List EventLoop)
    → (p : ThreadPool) × (start caller id (construct loops) ≡ ok p)
      × ((quit p).threads ≡ p.threads)
      × (map (λ (t : EventThread). t.loop) (quit p).threads ≡ loops)
      × ((quit p).is_quited ≡ true)
unfolding start construct quit
quit-start caller id loops =
    let (ts, e, r) =
      run-IsRunning caller id 0 (map create_event loops) loops (create-IsFresh loops) in
    let same = quit_all_same ts loops r in
    (
      record { is_quited = false; threads = ts; id_map = (construct loops).id_map },
      rw e refl,
      same,
      ap (map (λ (t : EventThread). t.loop)) same ∙ loops_of ts loops r,
      refl,
    )
  where
    loops_of :
        (ts : List EventThread) (ls : List EventLoop)
        → IsRunning ts ls
        → map (λ (t : EventThread). t.loop) ts ≡ ls
    loops_of [] [] r = refl
    loops_of [] (l ∷ ls) r = absurd r
    loops_of (t ∷ ts) [] r = absurd r
    loops_of (t ∷ ts) (l ∷ ls) (q, o, r) = rw o (ap (λ rest. l ∷ rest) (loops_of ts ls r))
