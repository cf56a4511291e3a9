-- ===== src/Log/Pattern/Enough.antt =====
-- The rounds of LogFormatter::init.
use uiconnect.Base.{
  ℕ, zero, suc, ◌≤◌, ◌≡◌, refl, not, ◌&&◌, Option, some, List, [], ◌∷◌, ◌++◌, ◌==◌, length, arith,
  if-elim,
}
use uiconnect.Log.Pattern.{
  Parse, Scan, closed, unclosed, is_alpha, is_percent, scan_format, scan_name, after_scan, round,
  parse_loop, parse, fresh,
}

-- The rest of the pattern that a closed scan leaves has at most `n` characters.
abbrev IsWithin : ℕ → Scan → Type 0
IsWithin n (closed str fmt left) = length left ≤ n
IsWithin n unclosed = Unit {0}

IsWithin-suc : (n : ℕ) (s : Scan) → IsWithin n s → IsWithin (suc n) s
IsWithin-suc n (closed str fmt left) w = omega arith
IsWithin-suc n unclosed w = tt

scan_format-IsWithin : (str fmt rest : List ℕ) → IsWithin (length rest) (scan_format str fmt rest)
unfolding scan_format
scan_format-IsWithin str fmt [] = tt
scan_format-IsWithin str fmt (c ∷ rest) =
    if-elim (IsWithin (suc (length rest))) (c == 125) (λ e. omega arith)
      (λ e.
        IsWithin-suc (length rest) (scan_format str (fmt ++ c ∷ []) rest)
          (scan_format-IsWithin str (fmt ++ c ∷ []) rest))

scan_name-IsWithin : (str rest : List ℕ) → IsWithin (length rest) (scan_name str rest)
unfolding scan_name
scan_name-IsWithin str [] = omega arith
scan_name-IsWithin str (c ∷ rest) =
    if-elim (IsWithin (suc (length rest))) (not (is_alpha c) && (not (c == 123) && not (c == 125)))
      (λ e. omega arith)
      (λ e.
        if-elim (IsWithin (suc (length rest))) (c == 123)
          (λ d.
            IsWithin-suc (length rest) (scan_format str [] rest) (scan_format-IsWithin str [] rest))
          (λ d.
            IsWithin-suc (length rest) (scan_name (str ++ c ∷ []) rest)
              (scan_name-IsWithin (str ++ c ∷ []) rest)))

after_scan_le :
    (st : Parse) (rest : List ℕ) (s : Scan)
    → IsWithin (length rest) s
    → length (after_scan st rest s).1 ≤ length rest
unfolding after_scan
after_scan_le st rest (closed str fmt left) w = w
after_scan_le st rest unclosed w = omega arith

round_le : (st : Parse) (c : ℕ) (rest : List ℕ) → length (round st c rest).1 ≤ length rest
unfolding round
round_le st c rest =
    let P : Parse × List ℕ → Type 0 = λ next. length next.1 ≤ length rest in
    if-elim P (not (c == 37)) (λ e. omega arith)
      (λ e.
        if-elim P (is_percent rest) (λ d. omega arith)
          (λ d. after_scan_le st rest (scan_name [] rest) (scan_name-IsWithin [] rest)))

-- With the rounds of its length, or more of them, any pattern is gone through.
pub parse_loop_enough :
    (fuel : ℕ) (st : Parse) (pattern : List ℕ)
    → length pattern ≤ fuel
    → (out : Parse) × (parse_loop fuel st pattern ≡ some out)
unfolding parse_loop
parse_loop_enough zero st [] h = (_, refl)
parse_loop_enough (suc fuel) st [] h = (_, refl)
parse_loop_enough zero st (c ∷ rest) h = absurd (omega arith)
parse_loop_enough (suc fuel) st (c ∷ rest) h =
    let le = round_le st c rest in
    parse_loop_enough fuel (round st c rest).0 (round st c rest).1 (omega arith)

-- and more rounds give the same.
pub parse_loop_more :
    (m n : ℕ) (st : Parse) (pattern : List ℕ)
    → length pattern ≤ m
    → length pattern ≤ n
    → parse_loop m st pattern ≡ parse_loop n st pattern
unfolding parse_loop
parse_loop_more zero zero st [] g h = refl
parse_loop_more zero (suc n) st [] g h = refl
parse_loop_more (suc m) zero st [] g h = refl
parse_loop_more (suc m) (suc n) st [] g h = refl
parse_loop_more zero n st (c ∷ rest) g h = absurd (omega arith)
parse_loop_more (suc m) zero st (c ∷ rest) g h = absurd (omega arith)
parse_loop_more (suc m) (suc n) st (c ∷ rest) g h =
    let le = round_le st c rest in
    parse_loop_more m n (round st c rest).0 (round st c rest).1 (omega arith) (omega arith)

-- The loop with the rounds that it is given.
abbrev pub parse_from : Parse → List ℕ → Option Parse
parse_from st pattern = parse_loop (length pattern) st pattern

pub parse_from-round :
    (st : Parse) (c : ℕ) (rest : List ℕ)
    → parse_from st (c ∷ rest) ≡ parse_from (round st c rest).0 (round st c rest).1
unfolding parse_loop
parse_from-round st c rest =
    let le = round_le st c rest in
    parse_loop_more (length rest) (length (round st c rest).1) (round st c rest).0
      (round st c rest).1 (omega arith) (omega arith)

pub parse_total : (pattern : List ℕ) → (out : Parse) × (parse pattern ≡ some out)
unfolding parse
parse_total pattern = parse_loop_enough (length pattern) fresh pattern (omega arith)
