-- ===== src/Timer.antt =====
-- server/library/TimerFunc.h and TimerFunc.cpp: timers in a std::set ordered by their next call.
-- A timer is an object on a heap; its address is a number, and 0 is the null pointer. The set
-- holds addresses in the comparator's order. The clock and the address that `new` returns are
-- arguments. The locks make each method one step.
pub mod Order
pub mod Cut
pub mod Expiry
pub mod Valid
pub mod Calls
use uiconnect.Base.{
  ℕ, ◌+◌, ◌-◌, ◌%◌, ◌^◌, Bool, true, false, not, ◌&&◌, ◌||◌, Option, none, some, List, [], ◌∷◌,
  ◌++◌, ltb, leb, ◌==◌, if◌then◌else◌,
}

-- What a std::function is bound to: a function, or OnConditionTimer with a condition and one.
pub data Callback : Type 0 where
  plain : ℕ → Callback
  conditional : ℕ → ℕ → Callback

pub record TimerFunc : Type 0 where
  pub oneshot : Bool
  pub cycle : ℕ
  pub next_call_time : ℕ
  pub cb : Option Callback

abbrev pub Heap : Type 0
Heap = ℕ → TimerFunc

abbrev pub update : Heap → ℕ → TimerFunc → Heap
update h a t b = if b == a then t else h b

-- TimerManager, with the heap; `front_calls` counts the calls of m_onFrontInsertedCallback.
pub record TimerManager : Type 0 where
  pub heap : Heap
  pub timers : List ℕ
  pub tickled : Bool
  pub on_front : Bool
  pub front_calls : ℕ

abbrev pub add64 : ℕ → ℕ → ℕ
add64 a b = (a + b) % 2 ^ 64

abbrev pub sub64 : ℕ → ℕ → ℕ
sub64 a b = (a + 2 ^ 64 - b) % 2 ^ 64

-- TimeConparator::operator()
unfoldable pub timer_less : Heap → ℕ → ℕ → Bool
timer_less h lhs rhs =
    if (lhs == 0) && (rhs == 0)
    then false
    else if lhs == 0
    then true
    else if rhs == 0
    then false
    else if ltb (h lhs).next_call_time (h rhs).next_call_time
    then true
    else if ltb (h rhs).next_call_time (h lhs).next_call_time
    then false
    else ltb lhs rhs

-- std::set: two keys of which neither is less are one.
unfoldable pub same_key : Heap → ℕ → ℕ → Bool
unfolding timer_less
same_key h a b = not (timer_less h a b) && not (timer_less h b a)

unfoldable pub insert : Heap → ℕ → List ℕ → List ℕ
unfolding timer_less
insert h a [] = a ∷ []
insert h a (b ∷ bs) =
    if timer_less h a b then a ∷ b ∷ bs else b ∷ (if timer_less h b a then insert h a bs else bs)

unfoldable pub contains : Heap → ℕ → List ℕ → Bool
unfolding same_key
contains h a [] = false
contains h a (b ∷ bs) = same_key h a b || contains h a bs

-- erase(find(a))
unfoldable pub erase : Heap → ℕ → List ℕ → List ℕ
unfolding same_key
erase h a [] = []
erase h a (b ∷ bs) = if same_key h a b then bs else b ∷ erase h a bs

-- m_timers.insert(timer).first == m_timers.begin(), looked at after the insertion
unfoldable pub is_front : Heap → ℕ → List ℕ → Bool
unfolding same_key
is_front h a [] = false
is_front h a (b ∷ bs) = same_key h a b

-- TimerManager::queue
unfoldable pub queue : TimerManager → ℕ → TimerManager
unfolding insert is_front
queue m a =
    let timers = insert m.heap a m.timers in
    let at_front = is_front m.heap a timers && not m.tickled in
    record m {
      timers = timers;
      front_calls = if at_front && m.on_front then m.front_calls + 1 else m.front_calls;
    }

-- TimerFunc::TimerFunc
unfoldable pub create : ℕ → ℕ → Option Callback → Bool → TimerFunc
create now ms cb oneshot = record {
  oneshot = oneshot;
  cycle = ms;
  next_call_time = add64 now ms;
  cb = cb;
}

-- TimerManager::addTimer; `a` is the address of the new timer. The function may be empty, and is not
-- looked at.
unfoldable pub add_timer : TimerManager → ℕ → ℕ → ℕ → Option Callback → Bool → TimerManager
unfolding queue create
add_timer m now a cycle cb oneshot =
    queue (record m { heap = update m.heap a (create now cycle cb oneshot) }) a

-- TimerManager::addConditionTimer
unfoldable pub add_condition_timer : TimerManager → ℕ → ℕ → ℕ → ℕ → ℕ → Bool → TimerManager
unfolding add_timer
add_condition_timer m now a cycle f cond oneshot =
    add_timer m now a cycle (some (conditional cond f)) oneshot

-- TimerManager::OnConditionTimer under what a call of a std::function runs: `alive` tells which
-- conditions the weak_ptr can lock.
unfoldable pub run_callback : (ℕ → Bool) → Callback → List ℕ
run_callback alive (plain f) = f ∷ []
run_callback alive (conditional cond f) = if alive cond then f ∷ [] else []

-- TimerFunc::cancel of the timer at `a`
unfoldable pub cancel : TimerManager → ℕ → Bool × TimerManager
unfolding contains erase
cancel m a = elim (m.heap a).cb [
  | none ↦ (false, m)
  | some cb ↦
      let heap = update m.heap a (record (m.heap a) { cb = none }) in
      (true, record m { heap = heap; timers = erase heap a m.timers })
]

-- TimerFunc::refresh
unfoldable pub refresh : TimerManager → ℕ → ℕ → Bool × TimerManager
unfolding contains erase insert
refresh m now a = elim (m.heap a).cb [
  | none ↦ (false, m)
  | some cb ↦
      if contains m.heap a m.timers
      then (let left = erase m.heap a m.timers in
          let t = record (m.heap a) { next_call_time = add64 now (m.heap a).cycle } in
          let heap = update m.heap a t in
          (true, record m { heap = heap; timers = insert heap a left }))
      else (false, m)
]

-- TimerFunc::reset
unfoldable pub reset : TimerManager → ℕ → ℕ → ℕ → Bool → Bool × TimerManager
unfolding contains erase queue
reset m now a ms from_now =
    if ((m.heap a).cycle == ms) && not from_now then (true, m) else elim (m.heap a).cb [
      | none ↦ (false, m)
      | some cb ↦
          if contains m.heap a m.timers
          then (let left = erase m.heap a m.timers in
              let start =
                if from_now then now else sub64 (m.heap a).next_call_time (m.heap a).cycle in
              let t = record (m.heap a) { cycle = ms; next_call_time = add64 start ms } in
              (false, queue (record m { heap = update m.heap a t; timers = left }) a))
          else (false, m)
    ]

-- TimerManager::getNextTimer
unfoldable pub get_next_timer : TimerManager → ℕ → ℕ × TimerManager
get_next_timer m now = elim m.timers [
  | [] ↦ (0, record m { tickled = false })
  | a ∷ rest ↦
      let next = (m.heap a).next_call_time in
      (if leb next now then 0 else next - now, record m { tickled = false })
]

unfoldable pub has_timer : TimerManager → Bool
has_timer m = elim m.timers [ [] ↦ false | a ∷ rest ↦ true ]

-- setOnTimerInsertedAtFront, with a function or none
unfoldable pub set_on_front : TimerManager → Bool → TimerManager
set_on_front m given = record m { on_front = given }

-- The first loop of listExpiredCb: the timers at the front that are due, and the others.
unfoldable pub due : Heap → ℕ → List ℕ → List ℕ
due h now [] = []
due h now (a ∷ rest) = if leb (h a).next_call_time now then a ∷ due h now rest else []

unfoldable pub not_due : Heap → ℕ → List ℕ → List ℕ
not_due h now [] = []
not_due h now (a ∷ rest) = if leb (h a).next_call_time now then not_due h now rest else a ∷ rest

-- A round of the second loop: a cyclic timer goes back in, a one-shot timer loses its callback.
unfoldable pub rearm : TimerManager → ℕ → ℕ → TimerManager
unfolding insert
rearm m now a =
    if (m.heap a).oneshot
    then record m { heap = update m.heap a (record (m.heap a) { cb = none }) }
    else (let t = record (m.heap a) { next_call_time = add64 now (m.heap a).cycle } in
        let heap = update m.heap a t in record m { heap = heap; timers = insert heap a m.timers })

-- The second loop; each callback is handed out.
unfoldable pub hand_out :
    TimerManager → ℕ → List ℕ → List (Option Callback) → List (Option Callback) × TimerManager
unfolding rearm
hand_out m now [] cbs = (cbs, m)
hand_out m now (a ∷ rest) cbs = hand_out (rearm m now a) now rest (cbs ++ (m.heap a).cb ∷ [])

-- TimerManager::listExpiredCb
unfoldable pub list_expired_cb :
    TimerManager → ℕ → List (Option Callback) → List (Option Callback) × TimerManager
unfolding hand_out due not_due
list_expired_cb m now cbs =
    hand_out (record m { timers = not_due m.heap now m.timers }) now (due m.heap now m.timers) cbs
