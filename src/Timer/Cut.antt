-- ===== src/Timer/Cut.antt =====
-- How the first loop of TimerManager::listExpiredCb cuts a sorted set.
use uiconnect.Base.{
  ℕ, ◌≤◌, ◌<◌, ◌≡◌, refl, ap, inl, inr, List, [], ◌∷◌, ◌++◌, leb, leb→le, if-elim, Bool-cases,
  arith,
}
use uiconnect.Timer.{Heap, due, not_due}
use uiconnect.Timer.Order.{AllAfter, Sorted, Away, AllAfter-Away}

-- Every timer is called after `now`.
abbrev pub AllLate : Heap → ℕ → List ℕ → Type 0
AllLate h now [] = Unit
AllLate h now (a ∷ rest) = (now < (h a).next_call_time) × AllLate h now rest

abbrev pub AllDue : Heap → ℕ → List ℕ → Type 0
AllDue h now [] = Unit
AllDue h now (a ∷ rest) = ((h a).next_call_time ≤ now) × AllDue h now rest

-- No timer stands twice, and none in both lists.
abbrev pub Apart : List ℕ → List ℕ → Type 0
Apart [] ts = Unit
Apart (d ∷ ds) ts = (0 < d) × Away d ds × Away d ts × Apart ds ts

pub due-append : (h : Heap) (now : ℕ) (xs : List ℕ) → due h now xs ++ not_due h now xs ≡ xs
unfolding due not_due
due-append h now [] = refl
due-append h now (a ∷ rest) = elim (Bool-cases (leb (h a).next_call_time now)) [
  | inl e ↦ rw e (ap (λ t. a ∷ t) (due-append h now rest))
  | inr e ↦ rw e refl
]

pub AllAfter-late :
    (h : Heap) (now a : ℕ) (xs : List ℕ)
    → now < (h a).next_call_time
    → AllAfter h a xs
    → AllLate h now xs
AllAfter-late h now a [] l all = tt
AllAfter-late h now a (b ∷ bs) l all = (ground arith, AllAfter-late h now a bs l all.1)

Away-due : (h : Heap) (now a : ℕ) (xs : List ℕ) → Away a xs → Away a (due h now xs)
unfolding due
Away-due h now a [] away = tt
Away-due h now a (b ∷ bs) away =
    if-elim (Away a) (leb (h b).next_call_time now) (λ _. (away.0, Away-due h now a bs away.1))
      (λ _. tt)

Away-not_due : (h : Heap) (now a : ℕ) (xs : List ℕ) → Away a xs → Away a (not_due h now xs)
unfolding not_due
Away-not_due h now a [] away = tt
Away-not_due h now a (b ∷ bs) away =
    if-elim (Away a) (leb (h b).next_call_time now) (λ _. Away-not_due h now a bs away.1)
      (λ _. away)

-- The two loops cut a sorted set into what is due and what is not.
pub record Cut (h : Heap) (now : ℕ) (xs : List ℕ) : Type 0 where
  pub all_due : AllDue h now (due h now xs)
  pub all_late : AllLate h now (not_due h now xs)
  pub sorted : Sorted h (not_due h now xs)
  pub apart : Apart (due h now xs) (not_due h now xs)

pub cut : (h : Heap) (now : ℕ) (xs : List ℕ) → Sorted h xs → Cut h now xs
unfolding due not_due
cut h now [] s = record { all_due = tt; all_late = tt; sorted = tt; apart = tt }
cut h now (a ∷ rest) s =
    let ih = cut h now rest s.2 in
    let away = AllAfter-Away h a rest s.1 in
    elim (Bool-cases (leb (h a).next_call_time now)) [
      | inl e ↦ record {
        all_due = rw e (leb→le (h a).next_call_time now e, ih.all_due);
        all_late = rw e ih.all_late;
        sorted = rw e ih.sorted;
        apart = rw e (s.0, Away-due h now a rest away, Away-not_due h now a rest away, ih.apart);
      }
      | inr e ↦
          let late : now < (h a).next_call_time = ground arith in
          record {
            all_due = rw e tt;
            all_late = rw e (late, AllAfter-late h now a rest late s.1);
            sorted = rw e s;
            apart = rw e tt;
          }
    ]
