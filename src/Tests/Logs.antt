-- ===== src/Tests/Logs.antt =====
-- The pattern `[%p] %d{%H}%n`, and `100%%`, which is not read as the comment of init says.
use uiconnect.Base.{ℕ, ◌≡◌, refl, true, false, some, List, [], ◌∷◌}
use uiconnect.Base.Text.{codes, decimal, digits_from}
use uiconnect.Log.{warn, to_string}
use uiconnect.Log.Pattern.{
  is_alpha, parse, parse_loop, round, describe, scan_name, scan_format, after_scan, push, flush,
  described,
}
use uiconnect.Log.Pattern.Printed.{print}
use uiconnect.Log.Formatter.{LogItem, format}
use uiconnect.Log.Formatter.Rendered.{
  Part, words, field, field_as, log_level, time, new_line, segments, rendered,
}

abbrev parts : List Part
parts =
    words (codes "[")
    ∷ field log_level
    ∷ words (codes "] ")
    ∷ field_as time (codes "%H")
    ∷ field new_line
    ∷ []

abbrev item : LogItem
item = record {
  logger_name = codes "root";
  file = codes "a.cpp";
  line = 3;
  elapse = 0;
  thread_id = 7;
  fiber_id = 0;
  time = 12;
  thread_name = [];
  content = codes "hello";
  level = warn;
}

abbrev hours : List ℕ → ℕ → List ℕ
unfolding decimal
hours fmt t = decimal t

written : print (segments parts) ≡ codes "[%p] %d{%H}%n"
unfolding print
written = refl

shown_line : rendered hours warn item parts ≡ codes "[WARN] 12\n"
unfolding to_string decimal digits_from
shown_line = refl

-- The second `%` of a doubled one begins an item, with no name here.
doubled :
    parse (codes "100%%")
    ≡ some (record {
      vec =
          record { text = codes "100%"; format = []; is_item = false }
          ∷ record { text = []; format = []; is_item = true }
          ∷ [];
      description = [];
      error = false;
    })
unfolding parse parse_loop round describe scan_name scan_format after_scan push flush described
    is_alpha
doubled = refl
