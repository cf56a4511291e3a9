-- ===== src/Log/Logger.antt =====
-- server/library/log/Logger.cpp, LoggerManager.cpp and the listener of LogConfItem.h. The outputters
-- stand in a heap, since a logger has pointers to them. Of m_root, which is set for every logger but
-- the root itself, a logger has whether it is set.
pub mod Ready
pub mod Logged
use uiconnect.Base.{
  ℕ, suc, Bool, true, false, Option, none, some, List, [], ◌∷◌, ◌++◌, ◌==◌, if◌then◌else◌,
}
use uiconnect.Base.Text.{codes, equal_text}
use uiconnect.Base.Outcome.{Outcome, ok, fault, ◌>>=◌}
use uiconnect.Log.{Level, unknown, debug, info, warn, error, fatal, is_enabled}
use uiconnect.Log.Formatter.{LogItem, LogFormatter, create}
use uiconnect.Log.Outputter.{LogOutputter, Effect, lend_formatter, new_file, new_stdout, is_some}
use uiconnect.Log.Outputter

abbrev pub Heap : Type 0
Heap = ℕ → LogOutputter

abbrev pub update : Heap → ℕ → LogOutputter → Heap
update h a o b = if b == a then o else h b

pub record Logger : Type 0 where
  pub name : List ℕ
  pub level : Level
  pub outputters : List ℕ
  pub formatter : Option LogFormatter
  pub has_root : Bool

-- Logger::Logger
unfoldable pub new_logger : List ℕ → Logger
unfolding create
new_logger name = record {
  name = name;
  level = debug;
  outputters = [];
  formatter = create (codes "%d{%Y-%m-%d %H:%M:%S}%T%t%T%N%T%F%T[%p]%T[%c]%T%f:%l%T%m%n");
  has_root = false;
}

-- the loop of Logger::setFormatter
unfoldable pub lend_all : Option LogFormatter → Heap → List ℕ → Heap
unfolding lend_formatter
lend_all val h [] = h
lend_all val h (a ∷ rest) =
    let h' = if (h a).has_formatter then h else update h a (lend_formatter val (h a)) in
    lend_all val h' rest

-- Logger::setFormatter of a formatter
unfoldable pub set_formatter : Option LogFormatter → Heap → Logger → Heap × Logger
unfolding lend_all
set_formatter val h l = (lend_all val h l.outputters, record l { formatter = val })

abbrev pub set_new : Option LogFormatter → Heap → Logger → Heap × Logger
unfolding set_formatter
set_new none h l = (h, l)
set_new (some f) h l = if f.error then (h, l) else set_formatter (some f) h l

-- and of a pattern
unfoldable pub set_pattern : List ℕ → Heap → Logger → Heap × Logger
unfolding set_new create
set_pattern val h l = set_new (create val) h l

-- Logger::addOutputter
unfoldable pub add_outputter : ℕ → Heap → Logger → Heap × Logger
unfolding lend_formatter
add_outputter a h l =
    let h' = if is_some (h a).formatter then h else update h a (lend_formatter l.formatter (h a)) in
    (h', record l { outputters = l.outputters ++ a ∷ [] })

unfoldable pub remove_first : ℕ → List ℕ → List ℕ
remove_first a [] = []
remove_first a (b ∷ rest) = let later = remove_first a rest in if b == a then rest else b ∷ later

-- Logger::delOutputter
unfoldable pub del_outputter : ℕ → Logger → Logger
unfolding remove_first
del_outputter a l = record l { outputters = remove_first a l.outputters }

-- Logger::clearOutputters
unfoldable pub clear_outputters : Logger → Logger
clear_outputters l = record l { outputters = [] }

-- Logger::setLevel
unfoldable pub set_level : Level → Logger → Logger
set_level val l = record l { level = val }

module _ (strftime : List ℕ → ℕ → List ℕ) (opens : Bool) where
  -- the loop of Logger::log
  unfoldable pub log_all : Heap → List ℕ → Level → LogItem → Outcome (Heap × List Effect)
  unfolding Outputter.log
  log_all h [] level item = ok (h, [])
  log_all h (a ∷ rest) level item = Outputter.log strftime opens (h a) level item >>= λ r.
      log_all (update h a r.0) rest level item >>= λ more. ok (more.0, r.1 ++ more.1)

  -- Logger::log, where m_root is null
  unfoldable pub log_root : Heap → Logger → Level → LogItem → Outcome (Heap × List Effect)
  unfolding log_all is_enabled
  log_root h l level item =
      if is_enabled l.level level then log_all h l.outputters level item else ok (h, [])

  abbrev pub log_or_root :
      Heap → Logger → Logger → List ℕ → Level → LogItem → Outcome (Heap × List Effect)
  unfolding log_all log_root
  log_or_root h root l [] level item = if l.has_root then log_root h root level item else ok (h, [])
  log_or_root h root l (a ∷ rest) level item = log_all h (a ∷ rest) level item

  -- Logger::log, with the logger that m_root stands for
  unfoldable pub log : Heap → Logger → Logger → Level → LogItem → Outcome (Heap × List Effect)
  unfolding log_or_root is_enabled
  log h root l level item =
      if is_enabled l.level level then log_or_root h root l l.outputters level item else ok (h, [])
