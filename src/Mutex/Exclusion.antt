-- ===== src/Mutex/Exclusion.antt =====
-- Mutual exclusion by a CASLock, for any number of threads in any order.
use uiconnect.Base.{ℕ, ◌<◌, ◌≡◌, refl, sym, ◌⊎◌, inl, inr, Bool, true, Bool-cases, arith}
use mathlib.Core.Path.{subst}
use uiconnect.Base.Family.{update, update_same}
use uiconnect.Mutex.{
  Place, trying, inside, Move, call_lock, spin, enter, call_unlock, CasLock, Step, pick, Reach,
  start, later,
}

record Inv (flag : Bool) (at : ℕ → Place) : Type 0 where
  unique : (i j : ℕ) → at i ≡ inside → at j ≡ inside → i ≡ j
  owned : flag ≡ true → (i : ℕ) × (at i ≡ inside)
  free : (i : ℕ) → at i ≡ inside → flag ≡ true

Move-Inv :
    {f f' : Bool} {p p' : Place} (at : ℕ → Place) (i : ℕ)
    → Move f p f' p'
    → at i ≡ p
    → Inv f at
    → Inv f' (update at i p')
Move-Inv at i call_lock e inv = record {
  unique = λ j k a b. ground (arith, inv.unique j k);
  owned = λ h. let (o, q) = inv.owned h in (o, ground arith);
  free = λ j a. ground (arith, inv.free j);
}
Move-Inv at i (spin set) e inv = record {
  unique = λ j k a b. ground (arith, inv.unique j k);
  owned = λ h. let (o, q) = inv.owned set in (o, ground arith);
  free = λ j a. refl;
}
Move-Inv at i (enter clear) e inv = record {
  unique = λ j k a b. ground (arith, inv.free j, inv.free k);
  owned = λ h. (i, update_same at i inside);
  free = λ j a. refl;
}
Move-Inv at i call_unlock e inv = record {
  unique = λ j k a b. ground (arith, inv.unique j k);
  owned = λ h. cc;
  free = λ j a. ground (arith, inv.unique i j);
}

Step-Inv : {n : ℕ} {s t : CasLock} → Step n s t → Inv s.flag s.at → Inv t.flag t.at
Step-Inv {s} (pick i lt move) inv = Move-Inv s.at i move refl inv

Reach-Inv : {n : ℕ} {s : CasLock} → Reach n s → Inv s.flag s.at
Reach-Inv start = record { unique = λ i j a b. cc; owned = λ h. cc; free = λ i a. cc }
Reach-Inv (later r st) = Step-Inv st (Reach-Inv r)

-- Whatever `n` threads do with a CASLock, in any order: two of them are never inside together, and
-- where one is in the loop of lock, either some thread is inside or its next test-and-set gets in.
pub Reach-inside :
    {n : ℕ} {s : CasLock}
    → Reach n s
    → ((i j : ℕ) → s.at i ≡ inside → s.at j ≡ inside → i ≡ j)
      × ((i : ℕ)
          → i < n
          → s.at i ≡ trying
          → ((j : ℕ) × (s.at j ≡ inside))
            ⊎ Step n s (record { flag = true; at = update s.at i inside }))
Reach-inside {s} r = (
  inv.unique,
  λ i lt e. elim (Bool-cases s.flag) [
    | inl set ↦ inl (inv.owned set)
    | inr clear ↦ inr (pick i lt (subst (λ p. Move s.flag p true inside) (sym e) (enter clear)))
  ],
)
  where
    inv : Inv s.flag s.at
    inv = Reach-Inv r
