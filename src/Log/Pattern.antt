-- ===== src/Log/Pattern.antt =====
-- server/library/log/LogFormatter.cpp, LogFormatter::init, its first half: the pattern is cut into
-- chunks. A position in the pattern is the rest of it from there.
pub mod Enough
pub mod Printed
use uiconnect.Base.{
  ℕ, zero, suc, Bool, true, false, not, ◌&&◌, ◌||◌, Option, none, some, List, [], ◌∷◌, ◌++◌, leb,
  ◌==◌, length, if◌then◌else◌,
}
use uiconnect.Base.Text.{codes}

-- the tuples of `vec`: a description or an item's name, its format, and 1 for an item
pub record Chunk : Type 0 where
  pub text : List ℕ
  pub format : List ℕ
  pub is_item : Bool

-- the locals of init, and m_error
pub record Parse : Type 0 where
  pub vec : List Chunk
  pub description : List ℕ
  pub error : Bool

-- isalpha in the C locale
unfoldable pub is_alpha : ℕ → Bool
is_alpha c = (leb 65 c && leb c 90) || (leb 97 c && leb c 122)

-- How the inner loop ends: with fmt_status 0, `str`, `fmt` and the rest of the pattern from n, or
-- with fmt_status 1.
pub data Scan : Type 0 where
  closed : List ℕ → List ℕ → List ℕ → Scan
  unclosed : Scan

-- the inner loop with fmt_status 1; `fmt` has the characters since fmt_begin
unfoldable pub scan_format : List ℕ → List ℕ → List ℕ → Scan
scan_format str fmt [] = unclosed
scan_format str fmt (c ∷ rest) =
    let more = scan_format str (fmt ++ c ∷ []) rest in
    if c == 125 then closed str fmt rest else more

-- and with fmt_status 0; `str` has the characters since i + 1
unfoldable pub scan_name : List ℕ → List ℕ → Scan
unfolding is_alpha scan_format
scan_name str [] = closed str [] []
scan_name str (c ∷ rest) =
    let more = scan_name (str ++ c ∷ []) rest in
    if not (is_alpha c) && (not (c == 123) && not (c == 125))
    then closed str [] (c ∷ rest)
    else if c == 123
    then scan_format str [] rest
    else more

unfoldable pub describe : ℕ → Parse → Parse
describe c st = record st { description = st.description ++ c ∷ [] }

-- what `if(!description.empty())` appends
unfoldable pub described : List ℕ → List Chunk
described [] = []
described (c ∷ cs) = record { text = c ∷ cs; format = []; is_item = false } ∷ []

-- before an item and behind the loop
unfoldable pub flush : Parse → Parse
unfolding described
flush st = record st { vec = st.vec ++ described st.description; description = [] }

unfoldable pub push : Chunk → Parse → Parse
push chunk st = record st { vec = st.vec ++ chunk ∷ [] }

-- what stands behind the inner loop, for the position behind a `%`
unfoldable pub after_scan : Parse → List ℕ → Scan → Parse × List ℕ
unfolding flush push
after_scan st rest (closed str fmt left) =
    (push (record { text = str; format = fmt; is_item = true }) (flush st), left)
after_scan st rest unclosed = (
  push (record { text = codes "<<pattern_error>>"; format = []; is_item = false })
      (record st { error = true }),
  rest,
)

abbrev is_percent : List ℕ → Bool
is_percent [] = false
is_percent (c ∷ rest) = c == 37

-- one round of the outer loop, and the position that it goes on from
unfoldable pub round : Parse → ℕ → List ℕ → Parse × List ℕ
unfolding describe scan_name after_scan
round st c rest =
    if not (c == 37)
    then (describe c st, rest)
    else if is_percent rest
    then (describe 37 st, rest)
    else after_scan st rest (scan_name [] rest)

-- The outer loop takes at least one character a round.
unfoldable pub parse_loop : ℕ → Parse → List ℕ → Option Parse
unfolding round flush
parse_loop fuel st [] = some (flush st)
parse_loop zero st (c ∷ rest) = none
parse_loop (suc fuel) st (c ∷ rest) = let next = round st c rest in parse_loop fuel next.0 next.1

abbrev pub fresh : Parse
fresh = record { vec = []; description = []; error = false }

unfoldable pub parse : List ℕ → Option Parse
unfolding parse_loop
parse pattern = parse_loop (length pattern) fresh pattern
