-- ===== src/Log/Manager/Lookup.antt =====
-- The loggers under their names, and the first loop of the listener.
use uiconnect.Base.{
  ℕ, ◌≡◌, refl, sym, ap, ◌∙◌, Bool, true, false, ◌||◌, List, [], ◌∷◌, Bool-cases, inl, inr,
}
use mathlib.Core.Path.{subst}
use uiconnect.Base.Text.{equal_text, equal_text-eq}
use uiconnect.Base.Assoc.{find-put, find-put_other}
use uiconnect.Log.{unknown}
use uiconnect.Log.Logger.{Heap, Logger, set_level, clear_outputters}
use uiconnect.Log.Manager.{LoggerManager, or_new, get_logger, with_logger, LogConfItem, drop_old}

pub get_logger_same :
    (name : List ℕ) (f : Heap → Logger → Heap × Logger) (m : LoggerManager)
    → get_logger name (with_logger name f m) ≡ (f m.heap (get_logger name m)).1
unfolding get_logger with_logger
get_logger_same name f m = ap (or_new name) (find-put name _ m.loggers)

pub get_logger_other :
    (name other : List ℕ) (f : Heap → Logger → Heap × Logger) (m : LoggerManager)
    → equal_text other name ≡ false
    → get_logger name (with_logger other f m) ≡ get_logger name m
unfolding get_logger with_logger
get_logger_other name other f m h = ap (or_new name) (find-put_other name other _ m.loggers h)

abbrev pub has_name : List ℕ → List LogConfItem → Bool
has_name name [] = false
has_name name (val ∷ rest) = equal_text val.name name || has_name name rest

-- no outputters, and the level of a logger that is not configured
abbrev pub IsCleared : Logger → Type 0
IsCleared l = (l.outputters ≡ []) × (l.level ≡ unknown)

abbrev cleared : Heap → Logger → Heap × Logger
unfolding set_level clear_outputters
cleared h l = (h, clear_outputters (set_level unknown l))

cleared-IsCleared :
    (name : List ℕ) (m : LoggerManager) → IsCleared (get_logger name (with_logger name cleared m))
unfolding cleared set_level clear_outputters
cleared-IsCleared name m = rw (get_logger_same name cleared m) (refl, refl)

cleared_other :
    (name other : List ℕ) (m : LoggerManager)
    → IsCleared (get_logger name m)
    → IsCleared (get_logger name (with_logger other cleared m))
cleared_other name other m c = (elim (Bool-cases (equal_text other name)) [
  | inl e ↦
      subst (λ n. IsCleared (get_logger n (with_logger other cleared m)))
        (equal_text-eq other name e) (cleared-IsCleared other m)
  | inr e ↦ subst IsCleared (sym (get_logger_other name other cleared m e)) c
])

drop_old_keeps :
    (name : List ℕ) (old : List LogConfItem) (m : LoggerManager)
    → IsCleared (get_logger name m)
    → IsCleared (get_logger name (drop_old old m))
unfolding drop_old cleared
drop_old_keeps name [] m c = c
drop_old_keeps name (val ∷ rest) m c =
    drop_old_keeps name rest (with_logger val.name cleared m) (cleared_other name val.name m c)

pub drop_old-IsCleared :
    (name : List ℕ) (old : List LogConfItem) (m : LoggerManager)
    → has_name name old ≡ true
    → IsCleared (get_logger name (drop_old old m))
unfolding drop_old cleared
drop_old-IsCleared name [] m h = cc
drop_old-IsCleared name (val ∷ rest) m h = (elim (Bool-cases (equal_text val.name name)) [
  | inl e ↦ drop_old_keeps name rest (with_logger val.name cleared m) (
      subst (λ n. IsCleared (get_logger n (with_logger val.name cleared m)))
        (equal_text-eq val.name name e) (cleared-IsCleared val.name m))
  | inr e ↦
      drop_old-IsCleared name rest (with_logger val.name cleared m)
        (sym (ap (λ b. b || has_name name rest) e) ∙ h)
])
