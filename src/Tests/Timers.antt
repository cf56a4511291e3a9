-- ===== src/Tests/Timers.antt =====
-- Two timers, at the addresses 16 and 32: one due at 100, one at 150.
use uiconnect.Base.{ℕ, ◌≡◌, refl, inl, true, false, some, [], ◌∷◌, ◌++◌, ◌==◌, if◌then◌else◌, arith}
use uiconnect.Timer.{plain, TimerFunc, Heap, TimerManager, due, not_due, list_expired_cb}
use uiconnect.Timer.{add_timer, cancel, refresh, reset}
use uiconnect.Base.{Bool}
use uiconnect.Timer.Valid.{IsValid, operations-IsValid}
use uiconnect.Timer.Order.{Sorted, Away}
use uiconnect.Timer.Cut.{AllLate, AllDue}
use uiconnect.Timer.Expiry.{callbacks, Cyclic, list_expired_cb_lem}

abbrev timer : ℕ → ℕ → TimerFunc
timer when f = record { oneshot = false; cycle = 40; next_call_time = when; cb = some (plain f) }

abbrev heap : Heap
heap a = if a == 16 then timer 100 1 else timer 150 2

abbrev two : TimerManager
two = record {
  heap = heap;
  timers = 16 ∷ 32 ∷ [];
  tickled = false;
  on_front = true;
  front_calls = 0;
}

two-Sorted : Sorted heap (16 ∷ 32 ∷ [])
two-Sorted = (omega arith, (inl (omega arith), tt), (omega arith, tt, tt))

list_expired_cb_lem_example :
    ((list_expired_cb two 120 []).0 ≡ callbacks heap (due heap 120 (16 ∷ 32 ∷ [])))
    × (due heap 120 (16 ∷ 32 ∷ []) ++ not_due heap 120 (16 ∷ 32 ∷ []) ≡ 16 ∷ 32 ∷ [])
    × AllDue heap 120 (due heap 120 (16 ∷ 32 ∷ []))
    × AllLate heap 120 (not_due heap 120 (16 ∷ 32 ∷ []))
    × (let left = (list_expired_cb two 120 []).1 in Sorted left.heap left.timers)
    × (Cyclic heap 120 (due heap 120 (16 ∷ 32 ∷ []))
        → (let left = (list_expired_cb two 120 []).1 in AllLate left.heap 120 left.timers))
list_expired_cb_lem_example = list_expired_cb_lem two 120 [] two-Sorted

two-IsValid : IsValid two
two-IsValid = record { sorted = two-Sorted; armed = ((plain 1, refl), ((plain 2, refl), tt)) }

away : Away 48 (16 ∷ 32 ∷ [])
away = (omega arith, (omega arith, tt))

operations-IsValid_example :
    IsValid (add_timer two 70 48 40 (some (plain 3)) true)
    × IsValid (cancel two 16).1
    × IsValid (refresh two 70 16).1
    × ((ms : ℕ) (from_now : Bool) → IsValid (reset two 70 16 ms from_now).1)
operations-IsValid_example =
    operations-IsValid two 70 16 48 40 (plain 3) true (omega arith) (omega arith) away two-IsValid
