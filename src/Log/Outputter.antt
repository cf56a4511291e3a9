-- ===== src/Log/Outputter.antt =====
-- server/library/log/LogOutputter.h and LogOutputter.cpp, with the two of log/outputter. What an
-- outputter does outside is a list of effects; whether a file can be opened is an argument.
use uiconnect.Base.{
  ℕ, ◌+◌, ◌%◌, ◌^◌, Bool, true, false, Option, none, some, List, [], ◌∷◌, ◌++◌, leb, if◌then◌else◌,
}
use uiconnect.Base.Outcome.{Outcome, ok, fault, ◌>>=◌}
use uiconnect.Log.{Level, debug, is_enabled}
use uiconnect.Log.Formatter.{LogItem, LogFormatter, create, format}

-- LogStdoutOutputter, or LogFileOutputter with m_fileName
pub data Target : Type 0 where
  stdout : Target
  file : List ℕ → Target

-- A text that goes to the target; m_fileStream opened, with whether it is; "error" on cout; and a
-- LOG_ERROR to the root, with m_mutex held, that the file cannot be opened.
pub data Effect : Type 0 where
  text_out : Target → List ℕ → Effect
  opened : List ℕ → Bool → Effect
  error_out : Effect
  root_error : List ℕ → Effect

-- `is_open`: m_fileStream can be written to
pub record LogOutputter : Type 0 where
  pub target : Target
  pub level : Level
  pub has_formatter : Bool
  pub formatter : Option LogFormatter
  pub is_open : Bool
  pub last_time : ℕ

abbrev pub is_some {ℓ} : {A : Type ℓ} → Option A → Bool
is_some none = false
is_some (some a) = true

-- LogOutputter::setFormatter
unfoldable pub set_formatter : Option LogFormatter → LogOutputter → LogOutputter
set_formatter val o = record o { formatter = val; has_formatter = is_some val }

-- what Logger does to m_formatter
unfoldable pub lend_formatter : Option LogFormatter → LogOutputter → LogOutputter
lend_formatter val o = record o { formatter = val }

-- LogOutputter::LogOutputter
unfoldable pub with_pattern : List ℕ → LogOutputter → LogOutputter
unfolding set_formatter create
with_pattern [] o = o
with_pattern (c ∷ cs) o = set_formatter (create (c ∷ cs)) o

abbrev bare_outputter : Target → LogOutputter
bare_outputter target = record {
  target = target;
  level = debug;
  has_formatter = false;
  formatter = none;
  is_open = false;
  last_time = 0;
}

-- LogFileOutputter::reopen of m_fileName; what the root makes of its error is not followed.
unfoldable pub reopen : Bool → List ℕ → LogOutputter → LogOutputter × List Effect
reopen true name o = (record o { is_open = true }, opened name true ∷ [])
reopen false name o = (record o { is_open = false }, opened name false ∷ root_error name ∷ [])

-- LogFileOutputter::LogFileOutputter
unfoldable pub new_file : Bool → List ℕ → List ℕ → LogOutputter
unfolding with_pattern reopen
new_file opens [] pattern = with_pattern pattern (bare_outputter (file []))
new_file opens (c ∷ cs) pattern =
    (reopen opens (c ∷ cs) (with_pattern pattern (bare_outputter (file (c ∷ cs))))).0

-- LogStdoutOutputter::LogStdoutOutputter
unfoldable pub new_stdout : List ℕ → LogOutputter
unfolding with_pattern
new_stdout pattern = with_pattern pattern (bare_outputter stdout)

abbrev pub present : Option LogFormatter → Outcome LogFormatter
present none = fault
present (some f) = ok f

-- what is put into m_fileStream
abbrev written : List ℕ → Bool → List ℕ → List Effect
written name true text = text_out (file name) text ∷ []
written name false text = error_out ∷ []

module _ (strftime : List ℕ → ℕ → List ℕ) (opens : Bool) where
  -- LogFileOutputter::log of an enabled level; m_lastTime + 3 is a uint64_t
  unfoldable pub log_file :
      List ℕ → LogOutputter → Level → LogItem → Outcome (LogOutputter × List Effect)
  unfolding reopen format
  log_file name o level item =
      let due = leb ((o.last_time + 3) % 2 ^ 64) item.time in
      let r = reopen opens name o in
      let p = if due then record r.0 { last_time = item.time } else o in
      let before = if due then r.1 else [] in
      present p.formatter >>= λ f.
      ok (p, before ++ written name p.is_open (format strftime f level item))

  -- LogStdoutOutputter::log of an enabled level
  unfoldable pub log_stdout : LogOutputter → Level → LogItem → Outcome (LogOutputter × List Effect)
  unfolding format
  log_stdout o level item =
      present o.formatter >>= λ f. ok (o, text_out stdout (format strftime f level item) ∷ [])

  unfoldable pub log_enabled :
      Target → LogOutputter → Level → LogItem → Outcome (LogOutputter × List Effect)
  unfolding log_file log_stdout
  log_enabled stdout o level item = log_stdout o level item
  log_enabled (file name) o level item = log_file name o level item

  -- LogOutputter::log
  unfoldable pub log : LogOutputter → Level → LogItem → Outcome (LogOutputter × List Effect)
  unfolding log_enabled is_enabled
  log o level item =
      if is_enabled o.level level then log_enabled o.target o level item else ok (o, [])
