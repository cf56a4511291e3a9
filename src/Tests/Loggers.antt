-- ===== src/Tests/Loggers.antt =====
-- A new logger with an outputter, and a change of the configuration of a logger `net`.
use uiconnect.Base.{ℕ, ◌≡◌, refl, true, List, [], ◌∷◌, map}
use uiconnect.Base.Text.{codes, equal_text}
use uiconnect.Base.Outcome.{ok}
use uiconnect.Log.{warn}
use uiconnect.Log.Formatter.{LogItem}
use uiconnect.Log.Outputter.{Effect, new_stdout}
use uiconnect.Log.Logger.{Heap, Logger, new_logger, log}
use uiconnect.Log.Logger.Ready.{
  IsReady, Call, add, set_pattern_to, run_all, run_all-IsReady, new_logger-IsReady,
}
use uiconnect.Log.Logger.Logged.{log-IsReady}
use uiconnect.Log.Manager.{LoggerManager, get_logger, LogConfItem, on_changed}
use uiconnect.Log.Manager.Configured.{all_made, on_changed_lem}

abbrev heap : Heap
heap a = new_stdout []

abbrev name : List ℕ
name = codes "net"

abbrev calls : List Call
calls = add 0 ∷ set_pattern_to (codes "%m%n") ∷ []

abbrev net : Heap × Logger
net = run_all calls heap (new_logger name)

abbrev item : LogItem
item = record {
  logger_name = name;
  file = [];
  line = 3;
  elapse = 0;
  thread_id = 7;
  fiber_id = 0;
  time = 12;
  thread_name = [];
  content = codes "hello";
  level = warn;
}

abbrev no_date : List ℕ → ℕ → List ℕ
no_date fmt t = []

log-IsReady_example :
    (r : Heap × List Effect) × (log no_date true net.0 net.1 net.1 warn item ≡ ok r)
    × IsReady r.0 net.1
    × IsReady r.0 net.1
log-IsReady_example =
    log-IsReady no_date net.0 net.1 net.1 warn item
      (run_all-IsReady calls heap (new_logger name) (new_logger-IsReady heap name))
      (run_all-IsReady calls heap (new_logger name) (new_logger-IsReady heap name))

abbrev conf : LogConfItem
conf = record {
  name = name;
  level = codes "warn";
  pattern = codes "%m%n";
  outputters =
      record { type_name = codes "StdoutOutputter"; file = [] }
      ∷ record { type_name = codes "FileLogOutputter"; file = codes "/net.log" }
      ∷ [];
}

abbrev manager : LoggerManager
manager = record { loggers = []; heap = heap; next = 0 }

on_changed_lem_example :
    (let out = on_changed (codes "/srv") true (conf ∷ []) (conf ∷ []) manager in
      let l = get_logger name out in
      (l.level ≡ warn)
      × (map out.heap l.outputters
          ≡ all_made (codes "/srv") true l.formatter conf.pattern conf.outputters))
unfolding equal_text
on_changed_lem_example =
    on_changed_lem (codes "/srv") true (conf ∷ []) [] conf warn manager refl refl refl
