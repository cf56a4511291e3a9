-- ===== src/Timer/Calls.antt =====
-- What TimerManager::listExpiredCb hands out is never an empty std::function.
use uiconnect.Base.{ℕ, ◌≡◌, Option, some, List, [], ◌∷◌, ◌++◌, leb, ==_refl, if-elim}
use uiconnect.Timer.{
  Callback, Heap, TimerManager, update, add64, due, not_due, rearm, hand_out, list_expired_cb,
}
use uiconnect.Timer.Cut.{Apart, cut}
use uiconnect.Timer.Expiry.{Apart-rearm, list_expired_cb_lem}
use uiconnect.Timer.Valid.{Armed, IsValid, Armed-insert, Armed-update, Armed-other}

abbrev pub AllCallable : List (Option Callback) → Type 0
AllCallable [] = Unit
AllCallable (c ∷ cs) = ((cb : Callback) × (c ≡ some cb)) × AllCallable cs

AllCallable-append :
    (xs ys : List (Option Callback)) → AllCallable xs → AllCallable ys → AllCallable (xs ++ ys)
AllCallable-append [] ys v w = w
AllCallable-append (x ∷ xs) ys v w = (v.0, AllCallable-append xs ys v.1 w)

Armed-due : (h : Heap) (now : ℕ) (xs : List ℕ) → Armed h xs → Armed h (due h now xs)
unfolding due
Armed-due h now [] v = tt
Armed-due h now (a ∷ rest) v =
    if-elim (Armed h) (leb (h a).next_call_time now) (λ _. (v.0, Armed-due h now rest v.1))
      (λ _. tt)

Armed-not_due : (h : Heap) (now : ℕ) (xs : List ℕ) → Armed h xs → Armed h (not_due h now xs)
unfolding not_due
Armed-not_due h now [] v = tt
Armed-not_due h now (a ∷ rest) v =
    if-elim (Armed h) (leb (h a).next_call_time now) (λ _. Armed-not_due h now rest v.1) (λ _. v)

-- A round of the second loop keeps the callbacks of the set and of the timers still to come.
rearm-Armed :
    (m : TimerManager) (now d : ℕ) (ds : List ℕ)
    → Apart (d ∷ ds) m.timers
    → Armed m.heap (d ∷ ds)
    → Armed m.heap m.timers
    → Armed (rearm m now d).heap ds × Armed (rearm m now d).heap (rearm m now d).timers
unfolding rearm
rearm-Armed m now d ds p v w =
    if-elim (λ (n : TimerManager). Armed n.heap ds × Armed n.heap n.timers) (m.heap d).oneshot
      (λ _. (Armed-other m.heap d _ ds p.1 v.1, Armed-other m.heap d _ m.timers p.2 w))
      (λ _.
        let t = record (m.heap d) { next_call_time = add64 now (m.heap d).cycle } in
        (
          Armed-update m.heap d t ds v.0 v.1,
          Armed-insert (update m.heap d t) d m.timers (rw (==_refl d) v.0)
              (Armed-update m.heap d t m.timers v.0 w),
        ))

hand_out-Armed :
    (m : TimerManager) (now : ℕ) (ds : List ℕ) (cbs : List (Option Callback))
    → Apart ds m.timers
    → Armed m.heap ds
    → Armed m.heap m.timers
    → AllCallable cbs
    → let r = hand_out m now ds cbs in AllCallable r.0 × Armed r.1.heap r.1.timers
unfolding hand_out
hand_out-Armed m now [] cbs p v w c = (c, w)
hand_out-Armed m now (d ∷ ds) cbs p v w c =
    let (left, set) = rearm-Armed m now d ds p v w in
    hand_out-Armed (rearm m now d) now ds (cbs ++ (m.heap d).cb ∷ [])
      (Apart-rearm m now d ds p.1 p.3) left set
      (AllCallable-append cbs ((m.heap d).cb ∷ []) c (v.0, tt))

-- From a valid manager listExpiredCb hands out functions that can be called, none of them empty.
-- It leaves a valid manager.
pub list_expired_cb-IsValid :
    (m : TimerManager) (now : ℕ)
    → IsValid m
    → AllCallable (list_expired_cb m now []).0 × IsValid (list_expired_cb m now []).1
unfolding list_expired_cb
list_expired_cb-IsValid m now v =
    let k = cut m.heap now m.timers v.sorted in
    let (handed, parts, all_due, late, sorted, after) = list_expired_cb_lem m now [] v.sorted in
    let (calls, armed) =
      hand_out-Armed (record m { timers = not_due m.heap now m.timers }) now
        (due m.heap now m.timers) [] k.apart (Armed-due m.heap now m.timers v.armed)
        (Armed-not_due m.heap now m.timers v.armed) tt in
    (calls, record { sorted = sorted; armed = armed })
