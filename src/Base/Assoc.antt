-- ===== src/Base/Assoc.antt =====
-- Maps whose keys are texts, as the list of their entries in the order of insertion.
use Prim.Native.Nat.{ℕ}
use mathlib.Core.Path.{◌≡◌, refl, ap, ◌∙◌}
use mathlib.Core.Logic.{inl, inr}
use mathlib.Core.Bool.{false}
use mathlib.Core.Option.{Option, none, some}
use mathlib.Core.List.{List, [], ◌∷◌}
use uiconnect.Base.Tests.{Bool-cases, if◌then◌else◌}
use uiconnect.Base.Text.{equal_text, equal_text_self, equal_text-eq}

module _ {ℓ} {A : Type ℓ} where
  -- find(name), with the value of the entry
  unfoldable pub find : List ℕ → List (List ℕ × A) → Option A
  unfolding equal_text
  find name [] = none
  find name ((key, a) ∷ rest) =
      let later = find name rest in if equal_text key name then some a else later

  -- m[name] = a
  unfoldable pub put : List ℕ → A → List (List ℕ × A) → List (List ℕ × A)
  unfolding equal_text
  put name a [] = (name, a) ∷ []
  put name a ((key, old) ∷ rest) =
      let later = put name a rest in
      if equal_text key name then (key, a) ∷ rest else (key, old) ∷ later

  pub find-put : (name : List ℕ) (a : A) (m : List (List ℕ × A)) → find name (put name a m) ≡ some a
  unfolding find put
  find-put name a [] = rw (equal_text_self name) refl
  find-put name a ((key, old) ∷ rest) = (elim (Bool-cases (equal_text key name)) [
    | inl e ↦ rw e (rw e refl)
    | inr e ↦ rw e (rw e (find-put name a rest))
  ])

  pub find-put_other :
      (name other : List ℕ) (a : A) (m : List (List ℕ × A))
      → equal_text other name ≡ false
      → find name (put other a m) ≡ find name m
  unfolding find put
  find-put_other name other a [] h = rw h refl
  find-put_other name other a ((key, old) ∷ rest) h = (elim (Bool-cases (equal_text key other)) [
    | inl e ↦
        let k : equal_text key name ≡ false =
          ap (λ t. equal_text t name) (equal_text-eq key other e) ∙ h in
        rw e (rw k refl)
    | inr e ↦
        rw e (
          ap (λ o. if equal_text key name then some old else o)
            (find-put_other name other a rest h))
  ])
