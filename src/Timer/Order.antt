-- ===== src/Timer/Order.antt =====
-- TimeConparator as an order, and std::set kept sorted by it.
use uiconnect.Base.{
  ℕ, ◌<◌, ◌≡◌, refl, sym, ◌∙◌, ◌≢◌, ◌↔◌, ◌⊎◌, inl, inr, Bool, true, false, ◌||◌, List, [], ◌∷◌,
  if-elim, arith,
}
use uiconnect.Timer.{Heap, TimerFunc, update, timer_less, same_key, insert, erase, contains}
use mathlib.Core.Path.{subst}

-- called earlier, or at the same time from a lower address
abbrev pub Earlier : Heap → ℕ → ℕ → Type 0
Earlier h a b =
    ((h a).next_call_time < (h b).next_call_time)
    ⊎ (((h a).next_call_time ≡ (h b).next_call_time) × (a < b))

-- The comparator is a strict total order on timers: it is `Earlier`, which holds of no timer and
-- itself, passes on, and holds one way round for any two.
pub timer_less-Earlier :
    (h : Heap) (a b c : ℕ)
    → 0 < a
    → 0 < b
    → ((timer_less h a b ≡ true) ↔ Earlier h a b)
      × (timer_less h a a ≡ false)
      × (Earlier h a b → Earlier h b c → Earlier h a c)
      × (Earlier h a b ⊎ ((a ≡ b) ⊎ Earlier h b a))
unfolding timer_less
timer_less-Earlier h a b c pa pb = (ground arith, ground arith, ground arith, ground arith)

less_true : (h : Heap) (a b : ℕ) → timer_less h a b ≡ true → 0 < b → 0 < a → Earlier h a b
unfolding timer_less
less_true h a b e pb pa = ground arith

pub Earlier-trans : (h : Heap) (a b c : ℕ) → Earlier h a b → Earlier h b c → Earlier h a c
Earlier-trans h a b c p q = ground arith

pub Earlier-ne : (h : Heap) (a b : ℕ) → Earlier h a b → a ≢ b
Earlier-ne h a b p = ground arith

abbrev pub AllAfter : Heap → ℕ → List ℕ → Type 0
AllAfter h a [] = Unit
AllAfter h a (b ∷ bs) = Earlier h a b × AllAfter h a bs

-- The set as std::set keeps it: no null pointer, and each timer before those that follow.
abbrev pub Sorted : Heap → List ℕ → Type 0
Sorted h [] = Unit
Sorted h (a ∷ rest) = (0 < a) × AllAfter h a rest × Sorted h rest

AllAfter-trans :
    (h : Heap) (a b : ℕ) (xs : List ℕ) → Earlier h a b → AllAfter h b xs → AllAfter h a xs
AllAfter-trans h a b [] e all = tt
AllAfter-trans h a b (c ∷ cs) e all =
    (Earlier-trans h a b c e all.0, AllAfter-trans h a b cs e all.1)

AllAfter-insert :
    (h : Heap) (b a : ℕ) (xs : List ℕ)
    → Earlier h b a
    → AllAfter h b xs
    → AllAfter h b (insert h a xs)
unfolding insert
AllAfter-insert h b a [] e all = (e, tt)
AllAfter-insert h b a (c ∷ cs) e all =
    if-elim (AllAfter h b) (timer_less h a c) (λ _. (e, all))
      (λ _. (
        all.0,
        if-elim (AllAfter h b) (timer_less h c a) (λ _. AllAfter-insert h b a cs e all.1)
            (λ _. all.1),
      ))

pub insert-Sorted :
    (h : Heap) (a : ℕ) (xs : List ℕ) → 0 < a → Sorted h xs → Sorted h (insert h a xs)
unfolding insert
insert-Sorted h a [] pa s = (pa, tt, tt)
insert-Sorted h a (b ∷ bs) pa s =
    if-elim (Sorted h) (timer_less h a b)
      (λ first. let e = less_true h a b first s.0 pa in (pa, (e, AllAfter-trans h a b bs e s.1), s))
      (λ _. (
        s.0,
        if-elim (AllAfter h b) (timer_less h b a)
            (λ behind. AllAfter-insert h b a bs (less_true h b a behind pa s.0) s.1) (λ _. s.1),
        if-elim (Sorted h) (timer_less h b a) (λ _. insert-Sorted h a bs pa s.2) (λ _. s.2),
      ))

-- the members of a set, with multiplicity none
abbrev pub Has : ℕ → List ℕ → Type 0
Has x [] = ⊥
Has x (y ∷ ys) = (x ≡ y) ⊎ Has x ys

-- not a member
abbrev pub Away : ℕ → List ℕ → Type 0
Away a [] = Unit
Away a (b ∷ bs) = (a ≢ b) × Away a bs

pub AllAfter-Away : (h : Heap) (a : ℕ) (xs : List ℕ) → AllAfter h a xs → Away a xs
AllAfter-Away h a [] all = tt
AllAfter-Away h a (b ∷ bs) all = (Earlier-ne h a b all.0, AllAfter-Away h a bs all.1)

pub Away-insert : (h : Heap) (b a : ℕ) (xs : List ℕ) → b ≢ a → Away b xs → Away b (insert h a xs)
unfolding insert
Away-insert h b a [] ne away = (ne, tt)
Away-insert h b a (c ∷ cs) ne away =
    if-elim (Away b) (timer_less h a c) (λ _. (ne, away))
      (λ _. (
        away.0,
        if-elim (Away b) (timer_less h c a) (λ _. Away-insert h b a cs ne away.1) (λ _. away.1),
      ))

update_other : (h : Heap) (a b : ℕ) (t : TimerFunc) → a ≢ b → update h a t b ≡ h b
update_other h a b t ne = ground arith

-- A timer that is not in the set may change.
AllAfter-update :
    (h : Heap) (a b : ℕ) (t : TimerFunc) (xs : List ℕ)
    → a ≢ b
    → Away a xs
    → AllAfter h b xs
    → AllAfter (update h a t) b xs
AllAfter-update h a b t [] ne away all = tt
AllAfter-update h a b t (c ∷ cs) ne away all = (
  rw (update_other h a b t ne, update_other h a c t away.0) all.0,
  AllAfter-update h a b t cs ne away.1 all.1,
)

pub Sorted-update :
    (h : Heap) (a : ℕ) (t : TimerFunc) (xs : List ℕ)
    → Away a xs
    → Sorted h xs
    → Sorted (update h a t) xs
Sorted-update h a t [] away s = tt
Sorted-update h a t (b ∷ bs) away s =
    (s.0, AllAfter-update h a b t bs away.0 away.1 s.1, Sorted-update h a t bs away.1 s.2)

same_key-eq : (h : Heap) (a b : ℕ) → 0 < a → 0 < b → same_key h a b ≡ true → a ≡ b
unfolding same_key
same_key-eq h a b pa pb e = ground arith

same_key-ne : (h : Heap) (a b : ℕ) → 0 < a → same_key h a b ≡ false → a ≢ b
unfolding same_key
same_key-ne h a b pa e = ground arith

same_key_self : (h : Heap) (a : ℕ) → same_key h a a ≡ true
unfolding same_key
same_key_self h a = ground arith

or-true : (b : Bool) → (b || true) ≡ true
or-true true = refl
or-true false = refl

contains-Has : (h : Heap) (a : ℕ) (xs : List ℕ) → Has a xs → contains h a xs ≡ true
unfolding contains
contains-Has h a [] m = absurd m
contains-Has h a (b ∷ bs) (inl e) = rw (← e, same_key_self h a)
contains-Has h a (b ∷ bs) (inr m) = rw (contains-Has h a bs m) (or-true (same_key h a b))

erase-AllAfter : (h : Heap) (c a : ℕ) (xs : List ℕ) → AllAfter h c xs → AllAfter h c (erase h a xs)
unfolding erase
erase-AllAfter h c a [] all = tt
erase-AllAfter h c a (b ∷ bs) all =
    if-elim (AllAfter h c) (same_key h a b) (λ _. all.1)
      (λ _. (all.0, erase-AllAfter h c a bs all.1))

erase-Sorted : (h : Heap) (a : ℕ) (xs : List ℕ) → Sorted h xs → Sorted h (erase h a xs)
unfolding erase
erase-Sorted h a [] s = tt
erase-Sorted h a (b ∷ bs) s =
    if-elim (Sorted h) (same_key h a b) (λ _. s.2)
      (λ _. (s.0, erase-AllAfter h b a bs s.1, erase-Sorted h a bs s.2))

erase-Away : (h : Heap) (a : ℕ) (xs : List ℕ) → 0 < a → Sorted h xs → Away a (erase h a xs)
unfolding erase
erase-Away h a [] pa s = tt
erase-Away h a (b ∷ bs) pa s =
    if-elim (Away a) (same_key h a b)
      (λ e. subst (λ x. Away x bs) (sym (same_key-eq h a b pa s.0 e)) (AllAfter-Away h b bs s.1))
      (λ ne. (same_key-ne h a b pa ne, erase-Away h a bs pa s.2))

erase-Has :
    (h : Heap) (a b : ℕ) (xs : List ℕ)
    → 0 < a
    → Sorted h xs
    → a ≢ b
    → Has b xs
    → Has b (erase h a xs)
unfolding erase
erase-Has h a b [] pa s ne m = absurd m
erase-Has h a b (c ∷ cs) pa s ne (inl e) =
    if-elim (Has b) (same_key h a c) (λ k. absurd (ne (same_key-eq h a c pa s.0 k ∙ sym e)))
      (λ _. inl e)
erase-Has h a b (c ∷ cs) pa s ne (inr m) =
    if-elim (Has b) (same_key h a c) (λ _. m) (λ _. inr (erase-Has h a b cs pa s.2 ne m))

-- `find` finds a timer of a sorted set, and `erase` takes out that one alone.
pub erase_lem :
    (h : Heap) (a : ℕ) (xs : List ℕ)
    → 0 < a
    → Sorted h xs
    → (Has a xs → contains h a xs ≡ true)
      × Away a (erase h a xs)
      × Sorted h (erase h a xs)
      × ((b : ℕ) → a ≢ b → Has b xs → Has b (erase h a xs))
erase_lem h a xs pa s = (
  contains-Has h a xs,
  erase-Away h a xs pa s,
  erase-Sorted h a xs s,
  λ b ne m. erase-Has h a b xs pa s ne m,
)
