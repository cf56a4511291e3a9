-- ===== src/Threads/Pool/Lookup.antt =====
-- What a pool finds by the id of a thread.
use uiconnect.Base.{
  ℕ, suc, ◌+◌, ◌-◌, sym, ◌<◌, ◌≡◌, ◌≢◌, refl, ap, ◌∙◌, false, some, List, [], ◌∷◌, map, length,
  ◌==◌, arith,
}
use uiconnect.Base.Outcome.{ok, fault, bind_ok, ok-injective}
use uiconnect.Net.Loop.{EventLoop}
use uiconnect.Threads.{create, bind, create_event}
use uiconnect.Threads.Pool.{
  ThreadPool, construct, put_id, fill_ids, run_all, start, find_id, get_loop,
}

-- From no entry, or one for no thread's id, threads that were not run yet leave one, of the last one.
fill_last :
    (i : ℕ) (l : EventLoop) (ls : List EventLoop) (ids : List (ℕ × ℕ))
    → ((k : ℕ) → put_id 0 k ids ≡ (0, k) ∷ [])
    → fill_ids i (map create_event (l ∷ ls)) ids ≡ (0, i + length ls) ∷ []
unfolding fill_ids create_event create bind
fill_last i l [] ids one = rw (one i) (ap (λ n. (0, n) ∷ []) (omega arith))
fill_last i l (next ∷ ls) ids one =
    ap (fill_ids (suc i) (map create_event (next ∷ ls))) (one i)
    ∙ (fill_last (suc i) next ls ((0, i) ∷ []) (replaced i) ∙ ap (λ n. (0, n) ∷ []) (omega arith))
  where
    replaced : (i k : ℕ) → put_id 0 k ((0, i) ∷ []) ≡ (0, k) ∷ []
    replaced i k = unfold put_id in refl

construct_ids :
    (loops : List EventLoop)
    → 0 < length loops
    → (construct loops).id_map ≡ (0, length loops - 1) ∷ []
unfolding construct put_id
construct_ids [] h = absurd (omega arith)
construct_ids (l ∷ ls) h = fill_last 0 l ls [] (λ k. refl) ∙ ap (λ n. (0, n) ∷ []) (omega arith)

-- After start of a pool with threads getLoop of a thread's id goes through a null pointer, whatever ids
-- the threads got: m_idMap was filled before they had one, and maps the id of no thread to the last.
pub get_loop-start :
    (caller id : ℕ) (ids : ℕ → ℕ) (loops : List EventLoop) (p : ThreadPool)
    → 0 < length loops
    → start caller ids (construct loops) ≡ ok p
    → id ≢ 0
    → (get_loop id p ≡ fault) × (find_id 0 p.id_map ≡ some (length loops - 1))
unfolding start get_loop find_id
get_loop-start caller id ids loops p h e differs =
    let (ts, all, done) = bind_ok (run_all caller ids 0 (construct loops).threads) _ e in
    let kept : p.id_map ≡ (0, length loops - 1) ∷ [] =
      sym (ap (λ (q : ThreadPool). q.id_map) (ok-injective done)) ∙ construct_ids loops h in
    let none_there : (0 == id) ≡ false = ground arith in
    (rw (kept, get_loop) (rw none_there refl), ap (find_id 0) kept)
