-- ===== src/Log/Manager.antt =====
-- server/library/log/LoggerManager.cpp, and the listener that LogIniter of LogConfItem.h adds to the
-- configuration of the loggers. A shared pointer to a logger is its key in m_loggers, and the root is
-- the one under "root". The lines that the listener logs itself are left out.
pub mod Lookup
pub mod Configured
use uiconnect.Base.{
  ℕ, suc, ◌+◌, Bool, true, false, Option, none, some, List, [], ◌∷◌, ◌++◌, if◌then◌else◌,
}
use uiconnect.Base.Text.{codes, equal_text}
use uiconnect.Base.Assoc.{find, put}
use uiconnect.Log.{Level, unknown, debug, info, warn, error, fatal}
use uiconnect.Log.Outputter.{LogOutputter, new_file, new_stdout}
use uiconnect.Log.Logger.{
  Heap, update, Logger, new_logger, set_level, add_outputter, clear_outputters,
}

-- The outputters below `next` are in use.
pub record LoggerManager : Type 0 where
  pub loggers : List (List ℕ × Logger)
  pub heap : Heap
  pub next : ℕ

abbrev pub or_new : List ℕ → Option Logger → Logger
unfolding new_logger
or_new name none = record (new_logger name) { has_root = true }
or_new name (some l) = l

-- LoggerManager::getLogger, by what stands under the name afterwards
unfoldable pub get_logger : List ℕ → LoggerManager → Logger
unfolding find or_new
get_logger name m = or_new name (find name m.loggers)

-- a call on the logger that getLogger gives
unfoldable pub with_logger :
    List ℕ → (Heap → Logger → Heap × Logger) → LoggerManager → LoggerManager
unfolding get_logger put
with_logger name f m =
    let r = f m.heap (get_logger name m) in
    record m { loggers = put name r.1 m.loggers; heap = r.0 }

-- LogConfItem::Outputter and LogConfItem
pub record OutputterConf : Type 0 where
  pub type_name : List ℕ
  pub file : List ℕ

pub record LogConfItem : Type 0 where
  pub name : List ℕ
  pub level : List ℕ
  pub pattern : List ℕ
  pub outputters : List OutputterConf

-- the first loop of the listener
unfoldable pub drop_old : List LogConfItem → LoggerManager → LoggerManager
unfolding with_logger set_level clear_outputters
drop_old [] m = m
drop_old (val ∷ rest) m =
    drop_old rest (with_logger val.name (λ h l. (h, clear_outputters (set_level unknown l))) m)

abbrev pub level_table : List (List ℕ × Level)
level_table =
    (codes "unknown", unknown)
    ∷ (codes "debug", debug)
    ∷ (codes "info", info)
    ∷ (codes "warn", warn)
    ∷ (codes "error", error)
    ∷ (codes "fatal", fatal)
    ∷ []

-- the loop over `level`
unfoldable pub set_levels : List ℕ → List (List ℕ × Level) → Logger → Logger
unfolding equal_text set_level
set_levels text [] l = l
set_levels text ((conf, level) ∷ rest) l =
    set_levels text rest (if equal_text conf text then set_level level l else l)

-- WorkPath() and whether a file can be opened
module _ (work_path : List ℕ) (opens : Bool) where
  -- the outputter that is made for a configured one, if its type is known
  unfoldable pub made : List ℕ → OutputterConf → Option LogOutputter
  unfolding new_file new_stdout equal_text
  made pattern op =
      if equal_text op.type_name (codes "FileLogOutputter")
      then some (new_file opens (work_path ++ op.file) pattern)
      else if equal_text op.type_name (codes "StdoutOutputter")
      then some (new_stdout pattern)
      else none

  abbrev pub add_made : List ℕ → Option LogOutputter → LoggerManager → LoggerManager
  unfolding with_logger add_outputter
  add_made name none m = m
  add_made name (some o) m =
      with_logger name (λ h l. add_outputter m.next h l)
        (record m { heap = update m.heap m.next o; next = suc m.next })

  -- the loop over val.outputters
  unfoldable pub add_outputters :
      List ℕ → List ℕ → List OutputterConf → LoggerManager → LoggerManager
  unfolding add_made made
  add_outputters name pattern [] m = m
  add_outputters name pattern (op ∷ rest) m =
      add_outputters name pattern rest (add_made name (made pattern op) m)

  -- the second loop of the listener
  unfoldable pub set_up : List LogConfItem → LoggerManager → LoggerManager
  unfolding with_logger set_levels add_outputters
  set_up [] m = m
  set_up (val ∷ rest) m = set_up rest (
      add_outputters val.name val.pattern val.outputters
        (with_logger val.name (λ h l. (h, set_levels val.level level_table l)) m))

  -- the listener
  unfoldable pub on_changed : List LogConfItem → List LogConfItem → LoggerManager → LoggerManager
  unfolding drop_old set_up
  on_changed old_value new_value m = set_up new_value (drop_old old_value m)
