-- ===== src/Log/Formatter/Rendered.antt =====
-- A formatter made from a pattern that is written from texts and the fields of LogFormatter.h's list.
use uiconnect.Base.{ℕ, ◌≡◌, refl, some, List, [], ◌∷◌, ◌++◌}
use uiconnect.Base.Text.{codes, decimal}
use uiconnect.Log.{Level, to_string}
use uiconnect.Log.Pattern.Enough.{parse_total}
use uiconnect.Log.Pattern.Printed.{Segment, text, bare, formatted}
use uiconnect.Log.Formatter.{LogItem, LogFormatter, from_parse, create, format_to}

-- A formatter is made of every pattern.
pub create_total : (pattern : List ℕ) → (f : LogFormatter) × (create pattern ≡ some f)
unfolding create from_parse
create_total pattern = let t = parse_total pattern in rw t.1 (_, refl)

pub data Field : Type 0 where
  message : Field
  log_level : Field
  elapsed_time : Field
  log_name : Field
  thread_id : Field
  fiber_id : Field
  new_line : Field
  time : Field
  file_name : Field
  line : Field
  tab : Field
  thread_name : Field

abbrev pub letter : Field → ℕ
letter message = b'm'
letter log_level = b'p'
letter elapsed_time = b'r'
letter log_name = b'c'
letter thread_id = b't'
letter fiber_id = b'F'
letter new_line = b'n'
letter time = b'd'
letter file_name = b'f'
letter line = b'l'
letter tab = b'T'
letter thread_name = b'N'

-- A text, a field, or a field with a format.
pub data Part : Type 0 where
  words : List ℕ → Part
  field : Field → Part
  field_as : Field → List ℕ → Part

abbrev pub segments : List Part → List Segment
segments [] = []
segments (words t ∷ rest) = text t ∷ segments rest
segments (field k ∷ rest) = bare (letter k ∷ []) ∷ segments rest
segments (field_as k fmt ∷ rest) = formatted (letter k ∷ []) fmt ∷ segments rest

-- a date's format, or the default
abbrev pub date_format : List ℕ → List ℕ
date_format [] = codes "%Y-%m-%d %H:%M:%S"
date_format (c ∷ cs) = c ∷ cs

module _ (strftime : List ℕ → ℕ → List ℕ) (level : Level) (item : LogItem) where
  -- what a field stands for in the line of `item`
  abbrev pub shown : Field → List ℕ → List ℕ
  unfolding to_string decimal
  shown message fmt = item.content
  shown log_level fmt = to_string level
  shown elapsed_time fmt = decimal item.elapse
  shown log_name fmt = item.logger_name
  shown thread_id fmt = decimal item.thread_id
  shown fiber_id fmt = decimal item.fiber_id
  shown new_line fmt = 10 ∷ []
  shown time fmt = strftime (date_format fmt) item.time
  shown file_name fmt = item.file
  shown line fmt = decimal item.line
  shown tab fmt = 9 ∷ []
  shown thread_name fmt = item.thread_name

  abbrev pub rendered : List Part → List ℕ
  rendered [] = []
  rendered (words t ∷ rest) = t ++ rendered rest
  rendered (field k ∷ rest) = shown k [] ++ rendered rest
  rendered (field_as k fmt ∷ rest) = shown k fmt ++ rendered rest

  -- What is put into a stream by `g` is what `f` puts there and `w`, and `g` is no more in error.
  abbrev Adds : LogFormatter → LogFormatter → List ℕ → List ℕ → Type 0
  Adds f g os w =
      (g.error ≡ f.error)
      × (format_to strftime g os level item ≡ format_to strftime f os level item ++ w)
