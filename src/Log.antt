-- ===== src/Log.antt =====
-- server/library/log: the levels of log/LogLevel.h and LogLevel.cpp. The children are the pattern
-- of LogFormatter, its items, and the logger with its outputters.
pub mod Pattern
pub mod Formatter
pub mod Outputter
pub mod Logger
pub mod Manager
use uiconnect.Base.{ℕ, ◌≡◌, refl, Bool, List, [], ◌∷◌, leb, if◌then◌else◌}
use uiconnect.Base.Text.{codes, equal_text}

pub data Level : Type 0 where
  unknown : Level
  debug : Level
  info : Level
  warn : Level
  error : Level
  fatal : Level

unfoldable pub rank : Level → ℕ
rank unknown = 0
rank debug = 1
rank info = 2
rank warn = 3
rank error = 4
rank fatal = 5

-- `least <= level`
unfoldable pub is_enabled : Level → Level → Bool
unfolding rank
is_enabled least level = leb (rank least) (rank level)

-- LogLevel::ToString
unfoldable pub to_string : Level → List ℕ
to_string unknown = codes "UNKNOWN"
to_string debug = codes "DEBUG"
to_string info = codes "INFO"
to_string warn = codes "WARN"
to_string error = codes "ERROR"
to_string fatal = codes "FATAL"

abbrev pub pick : List ℕ → List (List ℕ × Level) → Level
unfolding equal_text
pick str [] = unknown
pick str ((text, level) ∷ rest) =
    let later = pick str rest in if equal_text str text then level else later

-- LogLevel::FromString
unfoldable pub from_string : List ℕ → Level
from_string str = pick str (
    (codes "debug", debug)
    ∷ (codes "info", info)
    ∷ (codes "warn", warn)
    ∷ (codes "error", error)
    ∷ (codes "fatal", fatal)
    ∷ (codes "DEBUG", debug)
    ∷ (codes "INFO", info)
    ∷ (codes "WARN", warn)
    ∷ (codes "ERROR", error)
    ∷ (codes "FATAL", fatal)
    ∷ [])

pub from_string-to_string : (level : Level) → from_string (to_string level) ≡ level
unfolding from_string to_string pick
from_string-to_string unknown = refl
from_string-to_string debug = refl
from_string-to_string info = refl
from_string-to_string warn = refl
from_string-to_string error = refl
from_string-to_string fatal = refl
