-- ===== src/Timer/Expiry.antt =====
-- What TimerManager::listExpiredCb hands out and leaves, and getNextTimer's promise.
use uiconnect.Base.{
  ℕ, ◌+◌, ◌≤◌, ◌<◌, ◌≡◌, refl, sym, ap, ◌∙◌, ◌≢◌, ◌⊎◌, inl, inr, true, false, Option, List, [], ◌∷◌,
  ◌++◌, map, if-elim, append_assoc, append-nil, ==_refl, arith,
}
use mathlib.Core.Bool.{false≢true}
use mathlib.Core.Path.{subst}
use uiconnect.Timer.{
  Heap, TimerFunc, TimerManager, Callback, update, add64, insert, timer_less, due, not_due, rearm,
  hand_out, list_expired_cb, get_next_timer,
}
use uiconnect.Timer.Order.{Sorted, Away, Away-insert, Sorted-update, insert-Sorted}
use uiconnect.Timer.Cut.{AllLate, AllDue, Apart, due-append, AllAfter-late, cut}

-- Each timer is one-shot, or is called again after `now`.
abbrev pub Cyclic : Heap → ℕ → List ℕ → Type 0
Cyclic h now [] = Unit
Cyclic h now (d ∷ ds) = (((h d).oneshot ≡ true) ⊎ (now < add64 now (h d).cycle)) × Cyclic h now ds

-- the heap with the next call of a cyclic timer
abbrev next_round : TimerManager → ℕ → ℕ → TimerFunc
next_round m now a = record (m.heap a) { next_call_time = add64 now (m.heap a).cycle }

abbrev rearmed : TimerManager → ℕ → ℕ → Heap
rearmed m now a = update m.heap a (next_round m now a)

rearm_other : (m : TimerManager) (now a b : ℕ) → a ≢ b → (rearm m now a).heap b ≡ m.heap b
unfolding rearm
rearm_other m now a b ne = ground arith

rearm-Sorted :
    (m : TimerManager) (now a : ℕ)
    → 0 < a
    → Away a m.timers
    → Sorted m.heap m.timers
    → Sorted (rearm m now a).heap (rearm m now a).timers
unfolding rearm
rearm-Sorted m now a pa away s =
    if-elim (λ (n : TimerManager). Sorted n.heap n.timers) (m.heap a).oneshot
      (λ _. Sorted-update m.heap a _ m.timers away s)
      (λ _.
        insert-Sorted (rearmed m now a) a m.timers pa
          (Sorted-update m.heap a (next_round m now a) m.timers away s))

rearm-Away :
    (m : TimerManager) (now a b : ℕ) → b ≢ a → Away b m.timers → Away b (rearm m now a).timers
unfolding rearm
rearm-Away m now a b ne away =
    if-elim (λ (n : TimerManager). Away b n.timers) (m.heap a).oneshot (λ _. away)
      (λ _. Away-insert (rearmed m now a) b a m.timers ne away)

AllLate-update :
    (h : Heap) (now a : ℕ) (t : TimerFunc) (xs : List ℕ)
    → Away a xs
    → AllLate h now xs
    → AllLate (update h a t) now xs
AllLate-update h now a t [] away l = tt
AllLate-update h now a t (b ∷ bs) away l = (ground arith, AllLate-update h now a t bs away.1 l.1)

AllLate-insert :
    (h : Heap) (now a : ℕ) (xs : List ℕ)
    → now < (h a).next_call_time
    → AllLate h now xs
    → AllLate h now (insert h a xs)
unfolding insert
AllLate-insert h now a [] e l = (e, tt)
AllLate-insert h now a (c ∷ cs) e l =
    if-elim (AllLate h now) (timer_less h a c) (λ _. (e, l))
      (λ _. (
        l.0,
        if-elim (AllLate h now) (timer_less h c a) (λ _. AllLate-insert h now a cs e l.1)
            (λ _. l.1),
      ))

next_is_late :
    (m : TimerManager) (now a : ℕ)
    → ((m.heap a).oneshot ≡ true) ⊎ (now < add64 now (m.heap a).cycle)
    → (m.heap a).oneshot ≡ false
    → now < (rearmed m now a a).next_call_time
next_is_late m now a (inl e) c = absurd (false≢true (sym c ∙ e))
next_is_late m now a (inr l) c = rw (==_refl a) l

rearm-AllLate :
    (m : TimerManager) (now a : ℕ)
    → ((m.heap a).oneshot ≡ true) ⊎ (now < add64 now (m.heap a).cycle)
    → Away a m.timers
    → AllLate m.heap now m.timers
    → AllLate (rearm m now a).heap now (rearm m now a).timers
unfolding rearm
rearm-AllLate m now a again away l =
    if-elim (λ (n : TimerManager). AllLate n.heap now n.timers) (m.heap a).oneshot
      (λ _. AllLate-update m.heap now a _ m.timers away l)
      (λ cyclic.
        AllLate-insert (rearmed m now a) now a m.timers (next_is_late m now a again cyclic)
          (AllLate-update m.heap now a (next_round m now a) m.timers away l))

pub Apart-rearm :
    (m : TimerManager) (now a : ℕ) (ds : List ℕ)
    → Away a ds
    → Apart ds m.timers
    → Apart ds (rearm m now a).timers
Apart-rearm m now a [] away p = tt
Apart-rearm m now a (d ∷ ds) away p =
    (p.0, p.1, rearm-Away m now a d (λ e. away.0 (sym e)) p.2, Apart-rearm m now a ds away.1 p.3)

Cyclic-rearm :
    (m : TimerManager) (now a : ℕ) (ds : List ℕ)
    → Away a ds
    → Cyclic m.heap now ds
    → Cyclic (rearm m now a).heap now ds
Cyclic-rearm m now a [] away c = tt
Cyclic-rearm m now a (d ∷ ds) away c =
    (rw (rearm_other m now a d away.0) c.0, Cyclic-rearm m now a ds away.1 c.1)

-- the callbacks of timers
abbrev pub callbacks : Heap → List ℕ → List (Option Callback)
callbacks h ds = map (λ d. (h d).cb) ds

callbacks-rearm :
    (m : TimerManager) (now a : ℕ) (ds : List ℕ)
    → Away a ds
    → callbacks (rearm m now a).heap ds ≡ callbacks m.heap ds
callbacks-rearm m now a [] away = refl
callbacks-rearm m now a (d ∷ ds) away =
    rw (rearm_other m now a d away.0, callbacks-rearm m now a ds away.1)

-- What the second loop leaves: the callbacks behind `cbs`, a sorted set, and nothing due in it if
-- nothing was and no timer comes back due.
record HandedOut (m : TimerManager) (now : ℕ) (ds : List ℕ) (cbs : List (Option Callback))
    (r : List (Option Callback) × TimerManager) : Type 0 where
  pub handed : r.0 ≡ cbs ++ callbacks m.heap ds
  pub sorted : Sorted r.1.heap r.1.timers
  pub late : Cyclic m.heap now ds → AllLate m.heap now m.timers → AllLate r.1.heap now r.1.timers

hand_out_lem :
    (m : TimerManager) (now : ℕ) (ds : List ℕ) (cbs : List (Option Callback))
    → Apart ds m.timers
    → Sorted m.heap m.timers
    → HandedOut m now ds cbs (hand_out m now ds cbs)
unfolding hand_out
hand_out_lem m now [] cbs p s = record {
  handed = sym (append-nil cbs);
  sorted = s;
  late = λ c l. l;
}
hand_out_lem m now (d ∷ ds) cbs p s =
    let ih =
      hand_out_lem (rearm m now d) now ds (cbs ++ (m.heap d).cb ∷ [])
        (Apart-rearm m now d ds p.1 p.3) (rearm-Sorted m now d p.0 p.2 s) in
    record {
      handed =
          ih.handed
          ∙ ap (λ t. (cbs ++ (m.heap d).cb ∷ []) ++ t) (callbacks-rearm m now d ds p.1)
          ∙ append_assoc cbs ((m.heap d).cb ∷ []) (callbacks m.heap ds);
      sorted = ih.sorted;
      late = λ c l. ih.late (Cyclic-rearm m now d ds p.1 c.1) (rearm-AllLate m now d c.0 p.2 l);
    }

-- listExpiredCb on a sorted set hands out, behind `cbs`, the callbacks of the timers at its front
-- that are due, in their order. It cuts the set into those, all due, and the rest, none of them
-- due. The set that it leaves is sorted, and if each due timer is one-shot or next called after
-- `now`, nothing in it is due.
pub list_expired_cb_lem :
    (m : TimerManager) (now : ℕ) (cbs : List (Option Callback))
    → Sorted m.heap m.timers
    → ((list_expired_cb m now cbs).0 ≡ cbs ++ callbacks m.heap (due m.heap now m.timers))
      × (due m.heap now m.timers ++ not_due m.heap now m.timers ≡ m.timers)
      × AllDue m.heap now (due m.heap now m.timers)
      × AllLate m.heap now (not_due m.heap now m.timers)
      × (let left = (list_expired_cb m now cbs).1 in Sorted left.heap left.timers)
      × (Cyclic m.heap now (due m.heap now m.timers)
          → (let left = (list_expired_cb m now cbs).1 in AllLate left.heap now left.timers))
unfolding list_expired_cb
list_expired_cb_lem m now cbs s =
    let k = cut m.heap now m.timers s in
    let out =
      hand_out_lem (record m { timers = not_due m.heap now m.timers }) now (due m.heap now m.timers)
        cbs k.apart k.sorted in
    (
      out.handed,
      due-append m.heap now m.timers,
      k.all_due,
      k.all_late,
      out.sorted,
      λ c. out.late c k.all_late,
    )

-- After getNextTimer's time, which is 0 only if there is no timer or one is due, the first of the
-- timers in a sorted set is due, and before it none is.
pub get_next_timer_lem :
    (m : TimerManager) (now a : ℕ) (rest : List ℕ)
    → Sorted m.heap m.timers
    → m.timers ≡ a ∷ rest
    → ((m.heap a).next_call_time ≤ now + (get_next_timer m now).0)
      × ((later : ℕ) → later < (get_next_timer m now).0 → AllLate m.heap (now + later) m.timers)
unfolding get_next_timer
get_next_timer_lem m now a rest s e =
    let sorted : Sorted m.heap (a ∷ rest) = subst (Sorted m.heap) e s in
    rw (e, get_next_timer) (ground arith, λ later h. first_late (now + later) (ground arith) sorted)
  where
    first_late :
        (t : ℕ)
        → t < (m.heap a).next_call_time
        → Sorted m.heap (a ∷ rest)
        → AllLate m.heap t (a ∷ rest)
    first_late t late sorted = (late, AllAfter-late m.heap t a rest late sorted.1)
