-- ===== src/Timer/Valid.antt =====
-- The invariant of TimerManager: m_timers is sorted, and each timer in it has a callback.
use uiconnect.Base.{
  ℕ, ◌<◌, ◌≡◌, refl, sym, ap, inl, inr, Bool, not, ◌&&◌, none, some, List, [], ◌∷◌, ◌==◌, ==_refl,
  ==_iff, if-elim, Option-cases,
}
use uiconnect.Timer.{
  Heap, TimerFunc, TimerManager, Callback, update, timer_less, insert, erase, contains, queue,
  add_timer, cancel, refresh, reset, add64, create,
}
use uiconnect.Timer.Order.{AllAfter, Sorted, Away, insert-Sorted, Sorted-update, erase_lem}

abbrev pub HasCallback : TimerFunc → Type 0
HasCallback t = (cb : Callback) × (t.cb ≡ some cb)

abbrev pub Armed : Heap → List ℕ → Type 0
Armed h [] = Unit
Armed h (a ∷ rest) = HasCallback (h a) × Armed h rest

pub record IsValid (m : TimerManager) : Type 0 where
  pub sorted : Sorted m.heap m.timers
  pub armed : Armed m.heap m.timers

pub Armed-insert :
    (h : Heap) (a : ℕ) (xs : List ℕ) → HasCallback (h a) → Armed h xs → Armed h (insert h a xs)
unfolding insert
Armed-insert h a [] c v = (c, tt)
Armed-insert h a (b ∷ bs) c v =
    if-elim (Armed h) (timer_less h a b) (λ _. (c, v))
      (λ _. (v.0, if-elim (Armed h) (timer_less h b a) (λ _. Armed-insert h a bs c v.1) (λ _. v.1)))

Armed-erase : (h g : Heap) (a : ℕ) (xs : List ℕ) → Armed h xs → Armed h (erase g a xs)
unfolding erase
Armed-erase h g a [] v = tt
Armed-erase h g a (b ∷ bs) v =
    if-elim (Armed h) (uiconnect.Timer.same_key g a b) (λ _. v.1)
      (λ _. (v.0, Armed-erase h g a bs v.1))

HasCallback-update :
    (h : Heap) (a b : ℕ) (t : TimerFunc)
    → HasCallback t
    → HasCallback (h b)
    → HasCallback (update h a t b)
HasCallback-update h a b t c d = if-elim HasCallback (b == a) (λ _. c) (λ _. d)

pub Armed-update :
    (h : Heap) (a : ℕ) (t : TimerFunc) (xs : List ℕ)
    → HasCallback t
    → Armed h xs
    → Armed (update h a t) xs
Armed-update h a t [] c v = tt
Armed-update h a t (b ∷ bs) c v = (HasCallback-update h a b t c v.0, Armed-update h a t bs c v.1)

-- A timer outside the set may lose its callback.
pub Armed-other :
    (h : Heap) (a : ℕ) (t : TimerFunc) (xs : List ℕ)
    → Away a xs
    → Armed h xs
    → Armed (update h a t) xs
Armed-other h a t [] away v = tt
Armed-other h a t (b ∷ bs) away v = (
  if-elim HasCallback (b == a) (λ e. absurd (away.0 (sym ((==_iff b a).0 e)))) (λ _. v.0),
  Armed-other h a t bs away.1 v.1,
)

-- The order looks at the times alone.
SameTimes : Heap → Heap → Type 0
SameTimes g h = (b : ℕ) → (g b).next_call_time ≡ (h b).next_call_time

AllAfter-same :
    (g h : Heap) (a : ℕ) (xs : List ℕ) → SameTimes g h → AllAfter h a xs → AllAfter g a xs
unfolding SameTimes
AllAfter-same g h a [] e all = tt
AllAfter-same g h a (b ∷ bs) e all = (rw (e a, e b) all.0, AllAfter-same g h a bs e all.1)

Sorted-same : (g h : Heap) (xs : List ℕ) → SameTimes g h → Sorted h xs → Sorted g xs
Sorted-same g h [] e s = tt
Sorted-same g h (a ∷ rest) e s = (s.0, AllAfter-same g h a rest e s.1, Sorted-same g h rest e s.2)

-- A timer that is not in the set changes and goes in.
inserted :
    (h : Heap) (a : ℕ) (t : TimerFunc) (xs : List ℕ)
    → 0 < a
    → HasCallback t
    → Away a xs
    → Sorted h xs
    → Armed h xs
    → Sorted (update h a t) (insert (update h a t) a xs)
      × Armed (update h a t) (insert (update h a t) a xs)
inserted h a t xs pa c away s v = (
  insert-Sorted (update h a t) a xs pa (Sorted-update h a t xs away s),
  Armed-insert (update h a t) a xs (rw (==_refl a) c) (Armed-update h a t xs c v),
)

queue-IsValid :
    (m : TimerManager) (a : ℕ) (t : TimerFunc)
    → 0 < a
    → HasCallback t
    → Away a m.timers
    → IsValid m
    → IsValid (queue (record m { heap = update m.heap a t }) a)
unfolding queue
queue-IsValid m a t pa c away v =
    let (s, armed) = inserted m.heap a t m.timers pa c away v.sorted v.armed in
    record { sorted = s; armed = armed }

without-IsValid :
    (m : TimerManager) (a : ℕ)
    → 0 < a
    → IsValid m
    → IsValid (record m { timers = erase m.heap a m.timers }) × Away a (erase m.heap a m.timers)
without-IsValid m a pa v =
    let (found, away, sorted, kept) = erase_lem m.heap a m.timers pa v.sorted in
    (record { sorted = sorted; armed = Armed-erase m.heap m.heap a m.timers v.armed }, away)

add_timer-IsValid :
    (m : TimerManager) (now a cycle : ℕ) (cb : Callback) (oneshot : Bool)
    → 0 < a
    → IsValid m
    → Away a m.timers
    → IsValid (add_timer m now a cycle (some cb) oneshot)
unfolding add_timer create
add_timer-IsValid m now a cycle cb oneshot pa v away =
    queue-IsValid m a (create now cycle (some cb) oneshot) pa (cb, refl) away v

disarmed-SameTimes : (h : Heap) (a : ℕ) → SameTimes (update h a (record (h a) { cb = none })) h
unfolding SameTimes
disarmed-SameTimes h a b =
    if-elim (λ (t : TimerFunc). t.next_call_time ≡ (h b).next_call_time) (b == a)
      (λ e. ap (λ x. (h x).next_call_time) (sym ((==_iff b a).0 e))) (λ _. refl)

cancel-IsValid : (m : TimerManager) (a : ℕ) → 0 < a → IsValid m → IsValid (cancel m a).1
unfolding cancel
cancel-IsValid m a pa v = elim (Option-cases (m.heap a).cb) [
  | inl e ↦ rw (cancel, e) v
  | inr (cb, e) ↦
      let t = record (m.heap a) { cb = none } in
      let heap = update m.heap a t in
      let (found, away, sorted, kept) =
        erase_lem heap a m.timers pa
          (Sorted-same heap m.heap m.timers (disarmed-SameTimes m.heap a) v.sorted) in
      rw (cancel, e)
        record {
          sorted = sorted;
          armed =
              Armed-other m.heap a t (erase heap a m.timers) away
                (Armed-erase m.heap heap a m.timers v.armed);
        }
]

abbrev Kept : Bool × TimerManager → Type 0
Kept r = IsValid r.1

refresh-IsValid : (m : TimerManager) (now a : ℕ) → 0 < a → IsValid m → IsValid (refresh m now a).1
unfolding refresh
refresh-IsValid m now a pa v = elim (Option-cases (m.heap a).cb) [
  | inl e ↦ rw (refresh, e) v
  | inr (cb, e) ↦
      let (left, away) = without-IsValid m a pa v in
      let t = record (m.heap a) { next_call_time = add64 now (m.heap a).cycle } in
      let (s, armed) =
        inserted m.heap a t (erase m.heap a m.timers) pa (cb, e) away left.sorted left.armed in
      rw (refresh, e)
        (if-elim Kept (contains m.heap a m.timers) (λ _. record { sorted = s; armed = armed })
          (λ _. v))
]

reset-IsValid :
    (m : TimerManager) (now a ms : ℕ) (from_now : Bool)
    → 0 < a
    → IsValid m
    → IsValid (reset m now a ms from_now).1
unfolding reset
reset-IsValid m now a ms from_now pa v =
    if-elim Kept (((m.heap a).cycle == ms) && not from_now) (λ _. v)
      (λ _. elim (Option-cases (m.heap a).cb) [
        | inl e ↦ rw e v
        | inr (cb, e) ↦
            let (left, away) = without-IsValid m a pa v in
            rw e (
              if-elim Kept (contains m.heap a m.timers)
                (λ _.
                  queue-IsValid (record m { timers = erase m.heap a m.timers }) a _ pa (cb, e) away
                    left)
                (λ _. v))
      ])

-- addTimer of a function that is not empty, with a timer at a new address that is not 0, and cancel,
-- refresh and reset of a timer at an address that is not 0 keep the invariant.
pub operations-IsValid :
    (m : TimerManager) (now a new cycle : ℕ) (cb : Callback) (oneshot : Bool)
    → 0 < a
    → 0 < new
    → Away new m.timers
    → IsValid m
    → IsValid (add_timer m now new cycle (some cb) oneshot)
      × IsValid (cancel m a).1
      × IsValid (refresh m now a).1
      × ((ms : ℕ) (from_now : Bool) → IsValid (reset m now a ms from_now).1)
operations-IsValid m now a new cycle cb oneshot pa pn away v = (
  add_timer-IsValid m now new cycle cb oneshot pn v away,
  cancel-IsValid m a pa v,
  refresh-IsValid m now a pa v,
  λ ms from_now. reset-IsValid m now a ms from_now pa v,
)
