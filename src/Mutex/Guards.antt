-- ===== src/Mutex/Guards.antt =====
-- What a guard does to the lock that it guards.
use uiconnect.Base.{◌≡◌, refl, ◌∙◌, true, false, List, [], ◌∷◌, Bool-cases, inl, inr}
use uiconnect.Base.Outcome.{ok}
use uiconnect.Mutex.{
  Lockable, ScopedLock, GuardCall, calls_lock, calls_unlock, construct, lock, unlock, destruct,
  run_call, run_calls, run_scope,
}

module _ {M : Type 0} (l : Lockable M) where
  -- the mutex is held just where m_locked says so
  abbrev IsTrue : ScopedLock M → Type 0
  IsTrue g = l.held g.mutex ≡ g.locked

  call-IsTrue :
      (c : GuardCall) (g : ScopedLock M)
      → IsTrue g
      → (g' : ScopedLock M) × (run_call l c g ≡ ok g') × IsTrue g'
  unfolding run_call lock unlock
  call-IsTrue calls_lock g t = elim (Bool-cases g.locked) [
    | inl e ↦ (g, rw e refl, t)
    | inr e ↦
        let (m, done, now) = l.acquire-held g.mutex (t ∙ e) in
        (record { mutex = m; locked = true }, rw e (rw done refl), now)
  ]
  call-IsTrue calls_unlock g t = elim (Bool-cases g.locked) [
    | inr e ↦ (g, rw e refl, t)
    | inl e ↦
        let (m, done, now) = l.release-held g.mutex (t ∙ e) in
        (record { mutex = m; locked = false }, rw e (rw done refl), now)
  ]

  calls-IsTrue :
      (cs : List GuardCall) (g : ScopedLock M)
      → IsTrue g
      → (g' : ScopedLock M) × (run_calls l cs g ≡ ok g') × IsTrue g'
  unfolding run_calls
  calls-IsTrue [] g t = (g, refl, t)
  calls-IsTrue (c ∷ cs) g t =
      let (g', one, t') = call-IsTrue c g t in
      let (last, rest, end) = calls-IsTrue cs g' t' in (last, rw one rest, end)

  destruct_lem :
      (g : ScopedLock M) → IsTrue g → (m : M) × (destruct l g ≡ ok m) × (l.held m ≡ false)
  unfolding destruct unlock
  destruct_lem g t = elim (Bool-cases g.locked) [
    | inr e ↦ (g.mutex, rw e refl, t ∙ e)
    | inl e ↦ let (m, done, now) = l.release-held g.mutex (t ∙ e) in (m, rw e (rw done refl), now)
  ]

  -- From a lock that the thread does not hold, any calls of a guard's methods between its constructor
  -- and its destructor return: the guard neither locks what it has locked nor unlocks what it has
  -- not. After each of them the lock is held just where m_locked is true, so after a last unlock it
  -- is free and after a last lock it is not; behind the destructor it is free.
  pub run_scope_lem :
      (cs : List GuardCall) (m : M)
      → l.held m ≡ false
      → (g : ScopedLock M) × (g' : ScopedLock M) × (m' : M) × (construct l m ≡ ok g)
        × (run_calls l cs g ≡ ok g')
        × (l.held g'.mutex ≡ g'.locked)
        × (run_scope l cs m ≡ ok m')
        × (l.held m' ≡ false)
  unfolding construct run_scope
  run_scope_lem cs m free =
      let (m1, done, now) = l.acquire-held m free in
      let g : ScopedLock M = record { mutex = m1; locked = true } in
      let (g', all, t) = calls-IsTrue cs g now in
      let (m', ended, now_free) = destruct_lem g' t in
      (g, g', m', rw done refl, all, t, rw done (rw all ended), now_free)
