-- ===== src/Log/Pattern/Printed.antt =====
-- Patterns written from their parts, `text`, `%name` and `%name{format}`, and read by init.
use uiconnect.Base.{
  ℕ, ◌≡◌, refl, sym, ap, ◌∙◌, Bool, true, false, not, ◌&&◌, some, List, [], ◌∷◌, ◌++◌, append_assoc,
  append-nil, ◌==◌, arith,
}
use uiconnect.Log.Pattern.{
  Chunk, Parse, closed, is_alpha, scan_format, scan_name, describe, described, flush, push,
  after_scan, round, parse_loop, parse, fresh,
}
use uiconnect.Log.Pattern.Enough.{parse_from, parse_from-round}

pub data Segment : Type 0 where
  text : List ℕ → Segment
  bare : List ℕ → Segment
  formatted : List ℕ → List ℕ → Segment

unfoldable pub print : List Segment → List ℕ
print [] = []
print (text t ∷ rest) = t ++ print rest
print (bare name ∷ rest) = 37 ∷ (name ++ print rest)
print (formatted name fmt ∷ rest) = 37 ∷ (name ++ 123 ∷ (fmt ++ 125 ∷ print rest))

-- the chunks of the segments, with a description begun
unfoldable pub chunks : List ℕ → List Segment → List Chunk
unfolding described
chunks description [] = described description
chunks description (text t ∷ rest) = chunks (description ++ t) rest
chunks description (bare name ∷ rest) =
    described description ++ record { text = name; format = []; is_item = true } ∷ chunks [] rest
chunks description (formatted name fmt ∷ rest) =
    described description ++ record { text = name; format = fmt; is_item = true } ∷ chunks [] rest

abbrev pub Each : (ℕ → Bool) → List ℕ → Type 0
Each p [] = Unit {0}
Each p (c ∷ cs) = (p c ≡ true) × Each p cs

-- what ends a name without a format
abbrev pub stops : List ℕ → Bool
unfolding is_alpha
stops [] = true
stops (c ∷ rest) = not (is_alpha c) && (not (c == 123) && not (c == 125))

abbrev pub is_name : List ℕ → Bool
is_name [] = false
is_name (c ∷ cs) = true

-- A text has no `%`, a name is of letters, a bare one is not empty and ends where it stops, and a
-- format has no `}`.
abbrev pub IsPrintable : List Segment → Type 0
unfolding is_alpha print
IsPrintable [] = Unit {0}
IsPrintable (text t ∷ rest) = Each (λ c. not (c == 37)) t × IsPrintable rest
IsPrintable (bare name ∷ rest) =
    (is_name name ≡ true) × Each is_alpha name × (stops (print rest) ≡ true) × IsPrintable rest
IsPrintable (formatted name fmt ∷ rest) =
    Each is_alpha name × Each (λ c. not (c == 125)) fmt × IsPrintable rest

scan_format_lem :
    (str acc fmt rest : List ℕ)
    → Each (λ c. not (c == 125)) fmt
    → scan_format str acc (fmt ++ 125 ∷ rest) ≡ closed str (acc ++ fmt) rest
unfolding scan_format
scan_format_lem str acc [] rest h = ap (λ f. closed str f rest) (sym (append-nil acc))
scan_format_lem str acc (c ∷ cs) rest (h, hs) =
    let e : (c == 125) ≡ false = ground arith in
    rw e (
      scan_format_lem str (acc ++ c ∷ []) cs rest hs
      ∙ ap (λ f. closed str f rest) (append_assoc acc (c ∷ []) cs))

alpha-brace : (c : ℕ) → is_alpha c ≡ true → (c == 123) ≡ false
unfolding is_alpha
alpha-brace c h = ground arith

alpha-percent : (c : ℕ) → is_alpha c ≡ true → (c == 37) ≡ false
unfolding is_alpha
alpha-percent c h = ground arith

scan_name-letter :
    (acc : List ℕ) (c : ℕ) (rest : List ℕ)
    → is_alpha c ≡ true
    → scan_name acc (c ∷ rest) ≡ scan_name (acc ++ c ∷ []) rest
unfolding scan_name
scan_name-letter acc c rest h = rw h (rw (alpha-brace c h) refl)

scan_name_bare :
    (acc name rest : List ℕ)
    → Each is_alpha name
    → stops rest ≡ true
    → scan_name acc (name ++ rest) ≡ closed (acc ++ name) [] rest
unfolding scan_name
scan_name_bare acc [] [] h s = ap (λ n. closed n [] []) (sym (append-nil acc))
scan_name_bare acc [] (c ∷ rest) h s =
    rw s (ap (λ n. closed n [] (c ∷ rest)) (sym (append-nil acc)))
scan_name_bare acc (c ∷ cs) rest (h, hs) s =
    scan_name-letter acc c (cs ++ rest) h
    ∙ scan_name_bare (acc ++ c ∷ []) cs rest hs s
    ∙ ap (λ n. closed n [] rest) (append_assoc acc (c ∷ []) cs)

scan_name_formatted :
    (acc name rest : List ℕ)
    → Each is_alpha name
    → scan_name acc (name ++ 123 ∷ rest) ≡ scan_format (acc ++ name) [] rest
unfolding scan_name
scan_name_formatted acc [] rest h = ap (λ n. scan_format n [] rest) (sym (append-nil acc))
scan_name_formatted acc (c ∷ cs) rest (h, hs) =
    scan_name-letter acc c (cs ++ 123 ∷ rest) h
    ∙ scan_name_formatted (acc ++ c ∷ []) cs rest hs
    ∙ ap (λ n. scan_format n [] rest) (append_assoc acc (c ∷ []) cs)

parse_from-text :
    (st : Parse) (t rest : List ℕ)
    → Each (λ c. not (c == 37)) t
    → parse_from st (t ++ rest) ≡ parse_from (record st { description = st.description ++ t }) rest
unfolding round describe
parse_from-text st [] rest h =
    ap (λ d. parse_from (record st { description = d }) rest) (sym (append-nil st.description))
parse_from-text st (c ∷ cs) rest (h, hs) =
    parse_from-round st c (cs ++ rest)
    ∙ rw h (
        parse_from-text (record st { description = st.description ++ c ∷ [] }) cs rest hs
        ∙ ap (λ d. parse_from (record st { description = d }) rest)
            (append_assoc st.description (c ∷ []) cs))

-- An item whose scan is closed.
parse_from-item :
    (st : Parse) (c : ℕ) (more name fmt left : List ℕ)
    → (c == 37) ≡ false
    → scan_name [] (c ∷ more) ≡ closed name fmt left
    → parse_from st (37 ∷ c ∷ more)
      ≡ parse_from (push (record { text = name; format = fmt; is_item = true }) (flush st)) left
unfolding round after_scan
parse_from-item st c more name fmt left h e = parse_from-round st 37 (c ∷ more) ∙ rw h (rw e refl)

parse_from-bare :
    (st : Parse) (name rest : List ℕ)
    → is_name name ≡ true
    → Each is_alpha name
    → stops rest ≡ true
    → parse_from st (37 ∷ (name ++ rest))
      ≡ parse_from (push (record { text = name; format = []; is_item = true }) (flush st)) rest
parse_from-bare st [] rest ne h s = cc
parse_from-bare st (c ∷ cs) rest ne h s =
    parse_from-item st c (cs ++ rest) (c ∷ cs) [] rest (alpha-percent c h.0)
      (scan_name_bare [] (c ∷ cs) rest h s)

parse_from-formatted :
    (st : Parse) (name fmt rest : List ℕ)
    → Each is_alpha name
    → Each (λ c. not (c == 125)) fmt
    → parse_from st (37 ∷ (name ++ 123 ∷ (fmt ++ 125 ∷ rest)))
      ≡ parse_from (push (record { text = name; format = fmt; is_item = true }) (flush st)) rest
parse_from-formatted st [] fmt rest h k =
    parse_from-item st 123 (fmt ++ 125 ∷ rest) [] fmt rest refl
      (scan_name_formatted [] [] (fmt ++ 125 ∷ rest) h ∙ scan_format_lem [] [] fmt rest k)
parse_from-formatted st (c ∷ cs) fmt rest h k =
    parse_from-item st c (cs ++ 123 ∷ (fmt ++ 125 ∷ rest)) (c ∷ cs) fmt rest (alpha-percent c h.0) (
      scan_name_formatted [] (c ∷ cs) (fmt ++ 125 ∷ rest) h
      ∙ scan_format_lem (c ∷ cs) [] fmt rest k)

-- What is read adds up.
item-append :
    (vec : List Chunk) (description : List ℕ) (item : Chunk) (rest : List Chunk)
    → ((vec ++ described description) ++ item ∷ []) ++ rest
      ≡ vec ++ (described description ++ item ∷ rest)
item-append vec description item rest =
    append_assoc (vec ++ described description) (item ∷ []) rest
    ∙ append_assoc vec (described description) (item ∷ rest)

parse_from-print :
    (st : Parse) (segments : List Segment)
    → IsPrintable segments
    → parse_from st (print segments)
      ≡ some (record st { vec = st.vec ++ chunks st.description segments; description = [] })
unfolding print chunks parse_loop flush push
parse_from-print st [] h = refl
parse_from-print st (text t ∷ rest) (h, hs) =
    parse_from-text st t (print rest) h
    ∙ parse_from-print (record st { description = st.description ++ t }) rest hs
parse_from-print st (bare name ∷ rest) (ne, h, s, hs) =
    parse_from-bare st name (print rest) ne h s
    ∙ parse_from-print _ rest hs
    ∙ ap (λ v. some (record st { vec = v; description = [] }))
        (item-append st.vec st.description _ (chunks [] rest))
parse_from-print st (formatted name fmt ∷ rest) (h, k, hs) =
    parse_from-formatted st name fmt (print rest) h k
    ∙ parse_from-print _ rest hs
    ∙ ap (λ v. some (record st { vec = v; description = [] }))
        (item-append st.vec st.description _ (chunks [] rest))

-- From a printed pattern init reads its parts, each item with its name and format and the texts
-- between them, and sees no error.
pub parse-print :
    (segments : List Segment)
    → IsPrintable segments
    → parse (print segments)
      ≡ some (record { vec = chunks [] segments; description = []; error = false })
unfolding parse
parse-print segments h = parse_from-print fresh segments h
