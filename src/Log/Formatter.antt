-- ===== src/Log/Formatter.antt =====
-- server/library/log/LogFormatter.cpp and LogFormatter.h: the format items, the second half of
-- LogFormatter::init, and format; with LogItem of LogItem.h. `strftime` is what localtime_r and
-- strftime write into the buffer of a date for a format and a time.
pub mod Rendered
use uiconnect.Base.{ℕ, Bool, true, false, Option, none, some, List, [], ◌∷◌, ◌++◌, if◌then◌else◌}
use uiconnect.Base.Text.{codes, equal_text, decimal}
use uiconnect.Log.{Level, to_string}
use uiconnect.Log.Pattern.{Chunk, Parse, parse}

-- m_logger by its name, m_ss by its content; a line is not negative
pub record LogItem : Type 0 where
  pub logger_name : List ℕ
  pub file : List ℕ
  pub line : ℕ
  pub elapse : ℕ
  pub thread_id : ℕ
  pub fiber_id : ℕ
  pub time : ℕ
  pub thread_name : List ℕ
  pub content : List ℕ
  pub level : Level

pub data FormatItem : Type 0 where
  message_item : FormatItem
  level_item : FormatItem
  elapse_item : FormatItem
  name_item : FormatItem
  thread_id_item : FormatItem
  new_line_item : FormatItem
  date_time_item : List ℕ → FormatItem
  filename_item : FormatItem
  line_item : FormatItem
  tab_item : FormatItem
  fiber_id_item : FormatItem
  thread_name_item : FormatItem
  string_item : List ℕ → FormatItem

-- DateTimeFormatItem::DateTimeFormatItem
unfoldable pub date_time : List ℕ → FormatItem
date_time [] = date_time_item (codes "%Y-%m-%d %H:%M:%S")
date_time (c ∷ cs) = date_time_item (c ∷ cs)

-- s_format_items
abbrev pub format_items : List (List ℕ × (List ℕ → FormatItem))
unfolding date_time
format_items =
    (codes "m", λ fmt. message_item)
    ∷ (codes "p", λ fmt. level_item)
    ∷ (codes "r", λ fmt. elapse_item)
    ∷ (codes "c", λ fmt. name_item)
    ∷ (codes "t", λ fmt. thread_id_item)
    ∷ (codes "n", λ fmt. new_line_item)
    ∷ (codes "d", λ fmt. date_time fmt)
    ∷ (codes "f", λ fmt. filename_item)
    ∷ (codes "l", λ fmt. line_item)
    ∷ (codes "T", λ fmt. tab_item)
    ∷ (codes "F", λ fmt. fiber_id_item)
    ∷ (codes "N", λ fmt. thread_name_item)
    ∷ []

unfoldable pub find_item :
    List ℕ → List (List ℕ × (List ℕ → FormatItem)) → Option (List ℕ → FormatItem)
unfolding equal_text
find_item str [] = none
find_item str ((key, make) ∷ rest) =
    let later = find_item str rest in if equal_text key str then some make else later

pub record LogFormatter : Type 0 where
  pub pattern : List ℕ
  pub items : List FormatItem
  pub error : Bool

abbrev pub add_found : Chunk → Option (List ℕ → FormatItem) → LogFormatter → LogFormatter
add_found chunk none f = record f {
  items = f.items ++ string_item (codes "<<error_format %" ++ (chunk.text ++ codes ">>")) ∷ [];
  error = true;
}
add_found chunk (some make) f = record f { items = f.items ++ make chunk.format ∷ [] }

-- one round of the loop over `vec`
unfoldable pub add_chunk : LogFormatter → Chunk → LogFormatter
unfolding find_item
add_chunk f chunk =
    if chunk.is_item
    then add_found chunk (find_item chunk.text format_items) f
    else record f { items = f.items ++ string_item chunk.text ∷ [] }

unfoldable pub add_chunks : LogFormatter → List Chunk → LogFormatter
unfolding add_chunk
add_chunks f [] = f
add_chunks f (chunk ∷ rest) = add_chunks (add_chunk f chunk) rest

abbrev pub from_parse : List ℕ → Option Parse → Option LogFormatter
unfolding add_chunks
from_parse pattern none = none
from_parse pattern (some st) =
    some (add_chunks (record { pattern = pattern; items = []; error = st.error }) st.vec)

-- LogFormatter::LogFormatter and init
unfoldable pub create : List ℕ → Option LogFormatter
unfolding parse
create pattern = from_parse pattern (parse pattern)

module _ (strftime : List ℕ → ℕ → List ℕ) where
  -- FormatItem::format, what each puts into the stream
  unfoldable pub format_item : Level → LogItem → FormatItem → List ℕ
  unfolding to_string decimal
  format_item level item message_item = item.content
  format_item level item level_item = to_string level
  format_item level item elapse_item = decimal item.elapse
  format_item level item name_item = item.logger_name
  format_item level item thread_id_item = decimal item.thread_id
  format_item level item new_line_item = 10 ∷ []
  format_item level item (date_time_item fmt) = strftime fmt item.time
  format_item level item filename_item = item.file
  format_item level item line_item = decimal item.line
  format_item level item tab_item = 9 ∷ []
  format_item level item fiber_id_item = decimal item.fiber_id
  format_item level item thread_name_item = item.thread_name
  format_item level item (string_item text) = text

  unfoldable pub format_items_to : Level → LogItem → List ℕ → List FormatItem → List ℕ
  unfolding format_item
  format_items_to level item os [] = os
  format_items_to level item os (i ∷ rest) =
      format_items_to level item (os ++ format_item level item i) rest

  -- LogFormatter::format, with what it puts into a stream that holds `os`
  unfoldable pub format_to : LogFormatter → List ℕ → Level → LogItem → List ℕ
  unfolding format_items_to
  format_to f os level item = format_items_to level item os f.items

  -- and the text that it returns
  unfoldable pub format : LogFormatter → Level → LogItem → List ℕ
  unfolding format_to
  format f level item = format_to f [] level item
