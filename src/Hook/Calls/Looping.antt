-- ===== src/Hook/Calls/Looping.antt =====
-- The loop of do_io.
use uiconnect.Base.{
  ℕ, suc, ◌≡◌, ◌⊎◌, refl, ap, true, false, some, ◌==◌, Bool-cases, inl, inr, ==_iff,
}
use uiconnect.Hook.Calls.{
  Answer, done, failed, Kernel, eagain, eintr, etimedout, is_cancelled, IoEnd, returned, held,
  io_loop,
}

-- How the loop ends for the first answer: with it, or, where that is EAGAIN, held for good, or with
-- ETIMEDOUT.
abbrev pub EndsBy : ℕ → Kernel → Answer → IoEnd → Type 0
EndsBy timeout k a r =
    (r ≡ returned a)
    ⊎ ((a ≡ failed eagain)
        × (((k.resumes 0 ≡ false) × (r ≡ held))
            ⊎ ((k.resumes 0 ≡ true)
                × (is_cancelled k timeout 0 ≡ true)
                × (r ≡ returned (failed etimedout)))))

io_loop_answer :
    (fuel timeout : ℕ) (k : Kernel) (a : Answer)
    → k.answers 0 ≡ a
    → (r : IoEnd) × (io_loop (suc (suc fuel)) timeout k (done 0) 0 ≡ some (r, 1))
      × EndsBy timeout k a r
unfolding io_loop
io_loop_answer fuel timeout k (done n) h = (returned (done n), rw h refl, inl refl)
io_loop_answer fuel timeout k (failed e) h = (elim (Bool-cases (e == eintr)) [
  | inl p ↦ (returned (failed e), rw h (rw p (rw h refl)), inl refl)
  | inr p ↦ (elim (Bool-cases (e == eagain)) [
    | inr q ↦ (returned (failed e), rw h (rw p (rw q refl)), inl refl)
    | inl q ↦
        let again = ap failed ((==_iff e eagain).0 q) in
        (elim (Bool-cases (k.resumes 0)) [
          | inr d ↦ (held, rw h (rw p (rw q (rw d refl))), inr (again, inl (d, refl)))
          | inl d ↦ (elim (Bool-cases (is_cancelled k timeout 0)) [
            | inl c ↦ (
              returned (failed etimedout),
              rw h (rw p (rw q (rw d (rw c refl)))),
              inr (again, inr (d, c, refl)),
            )
            | inr c ↦ (returned (failed e), rw h (rw p (rw q (rw d (rw c (rw h refl))))), inl refl)
          ])
        ])
  ])
])

-- With fuel for two tests or more the loop of do_io ends after one original call, whatever the kernel
-- answers. It returns the answer of that call, EINTR included. Only for EAGAIN it may end
-- otherwise: held in its coroutine where nothing resumes that, and with ETIMEDOUT where it is resumed
-- after the timer's function has run.
pub io_loop_lem :
    (fuel timeout : ℕ) (k : Kernel)
    → (r : IoEnd) × (io_loop (suc (suc fuel)) timeout k (done 0) 0 ≡ some (r, 1))
      × EndsBy timeout k (k.answers 0) r
io_loop_lem fuel timeout k = io_loop_answer fuel timeout k (k.answers 0) refl
