-- ===== src/Tests/Locks.antt =====
-- A lock that is a flag, and two threads at a CASLock.
use uiconnect.Base.{ℕ, ◌<◌, ◌≡◌, ◌⊎◌, refl, Bool, true, false, [], ◌∷◌, arith}
use uiconnect.Base.Outcome.{Outcome, ok, fault}
use uiconnect.Base.Family.{update}
use uiconnect.Mutex.{
  Lockable, calls_lock, calls_unlock, ScopedLock, construct, run_calls, run_scope, outside, trying,
  inside, CasLock, Step, pick, Reach, start, later, call_lock, enter,
}
use uiconnect.Mutex.Guards.{run_scope_lem}
use uiconnect.Mutex.Exclusion.{Reach-inside}

abbrev take_flag : Bool → Outcome Bool
take_flag true = fault
take_flag false = ok true

abbrev drop_flag : Bool → Outcome Bool
drop_flag true = ok false
drop_flag false = fault

take_free : (m : Bool) → m ≡ false → (m' : Bool) × (take_flag m ≡ ok m') × (m' ≡ true)
take_free true e = cc
take_free false e = (true, refl, refl)

drop_held : (m : Bool) → m ≡ true → (m' : Bool) × (drop_flag m ≡ ok m') × (m' ≡ false)
drop_held true e = (false, refl, refl)
drop_held false e = cc

abbrev flag_lock : Lockable Bool
flag_lock = record {
  acquire = take_flag;
  release = drop_flag;
  held = λ m. m;
  acquire-held = take_free;
  release-held = drop_held;
}

run_scope_lem_example :
    (g : ScopedLock Bool) × (g' : ScopedLock Bool) × (m' : Bool) × (construct flag_lock false
      ≡ ok g)
    × (run_calls flag_lock (calls_unlock ∷ calls_unlock ∷ calls_lock ∷ []) g ≡ ok g')
    × (g'.mutex ≡ g'.locked)
    × (run_scope flag_lock (calls_unlock ∷ calls_unlock ∷ calls_lock ∷ []) false ≡ ok m')
    × (m' ≡ false)
run_scope_lem_example =
    run_scope_lem flag_lock (calls_unlock ∷ calls_unlock ∷ calls_lock ∷ []) false refl

-- two threads in lock, of which the first got in
abbrev contended : CasLock
contended = record {
  flag = true;
  at = update (update (update (λ i. outside) 0 trying) 1 trying) 0 inside;
}

contended_reached : Reach 2 contended
contended_reached =
    later (later (later start (pick 0 (omega arith) call_lock)) (pick 1 (omega arith) call_lock))
      (pick 0 (omega arith) (enter refl))

Reach-inside_example :
    ((i j : ℕ) → contended.at i ≡ inside → contended.at j ≡ inside → i ≡ j)
    × ((i : ℕ)
        → i < 2
        → contended.at i ≡ trying
        → ((j : ℕ) × (contended.at j ≡ inside))
          ⊎ Step 2 contended (record { flag = true; at = update contended.at i inside }))
Reach-inside_example = Reach-inside contended_reached
