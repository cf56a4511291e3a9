-- ===== src/Tests/Yamls.antt =====
-- A toy YAML, whose nodes are their texts: 0 and a string; 1 and the parts of a sequence; 2 and those of a
-- map, keys and values in turn. A part stands behind its length.
use uiconnect.Base.{
  ℕ, zero, suc, ◌≤◌, ◌≡◌, refl, ap, ◌∙◌, Bool, true, false, List, [], ◌∷◌, ◌++◌, map, length,
  length-append, take, drop, ltb, arith,
}
use uiconnect.Base.Text.{codes}
use uiconnect.Base.Outcome.{Outcome, ok, thrown}
use uiconnect.Log.Manager.{LogConfItem}
use uiconnect.Config.Convert.{
  Yaml, Converter, vector_converter, set_converter, log_entries, log_to, log_from,
}
use uiconnect.Config.Convert.RoundTrip.{ComesBack, IsSorted, vector-set-ComesBack}
use uiconnect.Config.Convert.LogItems.{outputter_node, log_from-log_to}

abbrev encode : List (List ℕ) → List ℕ
encode [] = []
encode (n ∷ ns) = length n ∷ (n ++ encode ns)

abbrev decode : ℕ → List ℕ → List (List ℕ)
decode zero text = []
decode (suc fuel) [] = []
decode (suc fuel) (k ∷ text) = take k text ∷ decode fuel (drop k text)

take_front : (xs ys : List ℕ) → take (length xs) (xs ++ ys) ≡ xs
take_front [] ys = refl
take_front (x ∷ xs) ys = ap (λ t. x ∷ t) (take_front xs ys)

drop_front : (xs ys : List ℕ) → drop (length xs) (xs ++ ys) ≡ ys
drop_front [] ys = refl
drop_front (x ∷ xs) ys = drop_front xs ys

decode-encode :
    (fuel : ℕ) (ns : List (List ℕ)) → length (encode ns) ≤ fuel → decode fuel (encode ns) ≡ ns
decode-encode zero [] h = refl
decode-encode (suc fuel) [] h = refl
decode-encode zero (n ∷ ns) h = absurd (omega arith)
decode-encode (suc fuel) (n ∷ ns) h = rw (take_front n (encode ns)) (
    rw (drop_front n (encode ns))
      (ap (λ t. n ∷ t) (decode-encode fuel ns (omega (arith, length-append n (encode ns))))))

abbrev parts : List ℕ → List (List ℕ)
parts [] = []
parts (kind ∷ text) = decode (length text) text

abbrev in_pairs : List (List ℕ) → List (List ℕ × List ℕ)
in_pairs [] = []
in_pairs (k ∷ []) = []
in_pairs (k ∷ v ∷ rest) = (k, v) ∷ in_pairs rest

abbrev in_turn : List (List ℕ × List ℕ) → List (List ℕ)
in_turn [] = []
in_turn ((k, v) ∷ rest) = (0 ∷ k) ∷ v ∷ in_turn rest

pairs-turn :
    (es : List (List ℕ × List ℕ))
    → in_pairs (in_turn es) ≡ map (λ (e : List ℕ × List ℕ). (0 ∷ e.0, e.1)) es
pairs-turn [] = refl
pairs-turn ((k, v) ∷ rest) = ap (λ t. (0 ∷ k, v) ∷ t) (pairs-turn rest)

abbrev is_kind : ℕ → List ℕ → Bool
is_kind kind [] = false
is_kind zero (zero ∷ text) = true
is_kind zero (suc k ∷ text) = false
is_kind (suc kind) (zero ∷ text) = false
is_kind (suc kind) (suc k ∷ text) = is_kind kind (k ∷ text)

abbrev text_of : List ℕ → Outcome (List ℕ)
text_of [] = thrown
text_of (zero ∷ text) = ok text
text_of (suc k ∷ text) = thrown

abbrev toy : Yaml (List ℕ)
toy = record {
  load = ok;
  dump = λ n. n;
  items = parts;
  entries = λ n. in_pairs (parts n);
  as_string = text_of;
  is_map = is_kind 2;
  is_sequence = is_kind 1;
  scalar = λ t. 0 ∷ t;
  sequence = λ ns. 1 ∷ encode ns;
  map_of = λ es. 2 ∷ encode (in_turn es);
  load-sequence = λ ns. refl;
  load-map = λ es. refl;
  items-sequence = λ ns. decode-encode (length (encode ns)) ns (omega arith);
  entries-map = λ es.
      ap in_pairs (decode-encode (length (encode (in_turn es))) (in_turn es) (omega arith))
      ∙ pairs-turn es;
  as_string-scalar = λ t. refl;
  map-IsMap = λ es. refl;
  sequence-IsSequence = λ ns. refl;
  scalar_not = λ t. refl;
}

-- a number as a string of one character
abbrev digit : Converter ℕ
digit = record { to = λ n. ok (0 ∷ n ∷ []); from = from_digit }
  where
    from_digit : List ℕ → Outcome ℕ
    from_digit [] = thrown
    from_digit (x ∷ []) = thrown
    from_digit (x ∷ n ∷ rest) = ok n

vector-set-ComesBack_example :
    ComesBack toy (vector_converter toy digit) (3 ∷ 5 ∷ [])
    × (IsSorted ltb (3 ∷ 5 ∷ []) → ComesBack toy (set_converter toy digit ltb) (3 ∷ 5 ∷ []))
vector-set-ComesBack_example = vector-set-ComesBack toy digit ltb (3 ∷ 5 ∷ []) (
  (0 ∷ 3 ∷ [], 0 ∷ 3 ∷ [], refl, refl, refl, refl),
  ((0 ∷ 5 ∷ [], 0 ∷ 5 ∷ [], refl, refl, refl, refl), tt),
)

abbrev conf : LogConfItem
conf = record {
  name = codes "root";
  level = codes "info";
  pattern = codes "%m";
  outputters = record { type_name = codes "StdoutOutputter"; file = [] } ∷ [];
}

log_from-log_to_example :
    (log_from toy (
        toy.dump (
          toy.map_of (
            log_entries toy conf
            ++ (codes "outputters", toy.sequence (map (outputter_node toy) conf.outputters)) ∷ [])))
      ≡ ok conf)
    × (log_from toy (log_to toy conf) ≡ ok (record conf { outputters = [] }))
log_from-log_to_example = log_from-log_to toy conf
