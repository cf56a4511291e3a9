-- ===== src/Threads/Waiting/Waited.antt =====
-- When quit returns.
use uiconnect.Base.{
  ℕ, ◌≡◌, refl, sym, ◌∙◌, ◌⊎◌, inl, inr, Bool, true, Option, none, some, Bool-cases, ◌==◌, arith,
}
use uiconnect.Base.Family.{update}
use uiconnect.Threads.Waiting.{
  working, returned, marked, gone, Caller, called, passed, locking, testing, blocking, asleep,
  awake, skipped, waited, System, woken, Step, no_function, calls_function, returns, marks,
  notifies, calls, skips, passes, sets, locks, leaves, refuses, sleeps, relocks, wakes, Reach,
  start, step, spurious,
}

record Inv (is_bound : Bool) (s : System) : Type 0 where
  same : s.is_bound ≡ is_bound
  works : (s.body ≡ working) ⊎ (s.body ≡ returned) → is_bound ≡ true
  ended : s.is_end ≡ true → (is_bound ≡ true) × ((s.body ≡ marked) ⊎ (s.body ≡ gone))
  over : (i : ℕ) → s.at i ≡ waited → s.is_end ≡ true

over_moved :
    (s : System) (i : ℕ) (c : Caller)
    → ((j : ℕ) → s.at j ≡ waited → s.is_end ≡ true)
    → (c ≡ waited → s.is_end ≡ true)
    → (j : ℕ) → update s.at i c j ≡ waited
    → s.is_end ≡ true
over_moved s i c over new j h = elim (Bool-cases (i == j)) [
  | inl e ↦ new (sym (rw e refl) ∙ h)
  | inr e ↦ over j (sym (rw e refl) ∙ h)
]

caller_moves :
    {b : Bool} {s : System} (i : ℕ) (c : Caller) (quited : Bool) (owner : Option ℕ)
    → Inv b s
    → (c ≡ waited → s.is_end ≡ true)
    → Inv b (record s { is_quited = quited; owner = owner; at = update s.at i c })
caller_moves {s} i c quited owner inv new = record {
  same = inv.same;
  works = inv.works;
  ended = inv.ended;
  over = over_moved s i c inv.over new;
}

over_woken : (c : Caller) → woken c ≡ waited → c ≡ waited
over_woken c h = ground arith

Step-Inv : {b : Bool} {s t : System} → Step s t → Inv b s → Inv b t
Step-Inv {s} (no_function e h) inv = record {
  same = inv.same;
  works = λ k. ground arith;
  ended = λ k. ((inv.ended k).0, inr refl);
  over = inv.over;
}
Step-Inv {s} (calls_function e h) inv = record {
  same = inv.same;
  works = λ k. sym inv.same ∙ h;
  ended = λ k. absurd (not_ended (inv.ended k).1);
  over = inv.over;
}
  where
    not_ended : (s.body ≡ marked) ⊎ (s.body ≡ gone) → ⊥
    not_ended k = ground arith
Step-Inv {s} (returns e) inv = record {
  same = inv.same;
  works = λ k. inv.works (inl e);
  ended = λ k. absurd (not_ended (inv.ended k).1);
  over = inv.over;
}
  where
    not_ended : (s.body ≡ marked) ⊎ (s.body ≡ gone) → ⊥
    not_ended k = ground arith
Step-Inv {s} (marks e) inv = record {
  same = inv.same;
  works = λ k. inv.works (inr e);
  ended = λ k. (inv.works (inr e), inl refl);
  over = λ i k. refl;
}
Step-Inv {s} (notifies e) inv = record {
  same = inv.same;
  works = λ k. ground arith;
  ended = λ k. ((inv.ended k).0, inr refl);
  over = λ i k. inv.over i (over_woken (s.at i) k);
}
Step-Inv {s} (calls i e) inv = caller_moves i called s.is_quited s.owner inv (λ k. cc)
Step-Inv {s} (skips i e h) inv = caller_moves i skipped s.is_quited s.owner inv (λ k. cc)
Step-Inv {s} (passes i e h) inv = caller_moves i passed s.is_quited s.owner inv (λ k. cc)
Step-Inv {s} (sets i e) inv = caller_moves i locking true s.owner inv (λ k. cc)
Step-Inv {s} (locks i e h) inv = caller_moves i testing s.is_quited (some i) inv (λ k. cc)
Step-Inv {s} (leaves i e h) inv = caller_moves i waited s.is_quited none inv (λ k. h)
Step-Inv {s} (refuses i e h) inv = caller_moves i blocking s.is_quited s.owner inv (λ k. cc)
Step-Inv {s} (sleeps i e) inv = caller_moves i asleep s.is_quited none inv (λ k. cc)
Step-Inv {s} (relocks i e h) inv = caller_moves i testing s.is_quited (some i) inv (λ k. cc)

Reach-Inv : {b : Bool} {s : System} → Reach b s → Inv b s
Reach-Inv start = record {
  same = refl;
  works = λ k. ground arith;
  ended = λ k. cc;
  over = λ i k. cc;
}
Reach-Inv (step r st) = Step-Inv st (Reach-Inv r)
Reach-Inv (spurious {s} r (wakes i e)) =
    caller_moves i awake s.is_quited s.owner (Reach-Inv r) (λ k. cc)

-- However a thread and the callers of its quit run, spurious wake-ups included: where a call of quit
-- returns from its wait, the thread has a function, which has returned. So no call ever does where
-- the thread was started with no function.
pub Reach-waited :
    {b : Bool} {s : System}
    → Reach b s
    → (i : ℕ) → s.at i ≡ waited
    → (b ≡ true) × ((s.body ≡ marked) ⊎ (s.body ≡ gone))
Reach-waited r i e = let inv = Reach-Inv r in inv.ended (inv.over i e)
