-- ===== src/Http.antt =====
-- server/library/protocol/http/Http.h: the maps of HttpRequest and HttpResponse, whose keys are
-- compared by strcasecmp. A string is its bytes, none of them 0; a std::map is the list of its
-- entries in the order of the keys. boost::lexical_cast is a parameter.
pub mod Names
pub mod Parser
pub mod Dump
pub mod Connection
pub mod Fields
pub mod Request
pub mod Access
pub mod Response
pub mod Dispatcher
pub mod Routes
use uiconnect.Base.{
  ℕ, ◌+◌, Bool, true, false, not, ◌&&◌, Option, none, some, List, [], ◌∷◌, map, ltb, leb,
  if◌then◌else◌,
}

-- tolower of the C locale
abbrev pub to_lower : ℕ → ℕ
to_lower b = if leb 65 b && leb b 90 then b + 32 else b

unfoldable pub is_before : List ℕ → List ℕ → Bool
is_before [] [] = false
is_before [] (y ∷ ys) = true
is_before (x ∷ xs) [] = false
is_before (x ∷ xs) (y ∷ ys) =
    let rest = is_before xs ys in if ltb x y then true else if ltb y x then false else rest

-- CaseInsensitive::operator(): strcasecmp(lhs, rhs) < 0
unfoldable pub key_less : List ℕ → List ℕ → Bool
unfolding is_before
key_less lhs rhs = is_before (map to_lower lhs) (map to_lower rhs)

-- std::map: two keys of which neither is less are one.
unfoldable pub same_key : List ℕ → List ℕ → Bool
unfolding key_less
same_key a b = not (key_less a b) && not (key_less b a)

abbrev pub MapType : Type 0
MapType = List (List ℕ × List ℕ)

-- find(key), with the value of the entry
unfoldable pub find : List ℕ → MapType → Option (List ℕ)
unfolding same_key
find key [] = none
find key ((k, v) ∷ rest) = let later = find key rest in if same_key key k then some v else later

-- m[key] = val: an entry that is there keeps its key.
unfoldable pub assign : List ℕ → List ℕ → MapType → MapType
unfolding same_key key_less
assign key val [] = (key, val) ∷ []
assign key val ((k, v) ∷ rest) =
    let later = assign key val rest in
    if same_key key k
    then (k, val) ∷ rest
    else if key_less key k
    then (key, val) ∷ (k, v) ∷ rest
    else (k, v) ∷ later

unfoldable pub erase : List ℕ → MapType → MapType
unfolding same_key
erase key [] = []
erase key ((k, v) ∷ rest) =
    let later = erase key rest in if same_key key k then later else (k, v) ∷ later

-- it == end() ? defaultVal : it->second
unfoldable pub find_or : List ℕ → List ℕ → MapType → List ℕ
unfolding find
find_or key default_val m = elim (find key m) [ none ↦ default_val | some v ↦ v ]

module _ {T : Type 0} (lexical_cast : List ℕ → Option T) where
  -- getAs: a value that lexical_cast rejects counts as none.
  unfoldable pub get_as : MapType → List ℕ → T → T
  unfolding find
  get_as m key default_val = elim (find key m) [
    | none ↦ default_val
    | some v ↦ elim (lexical_cast v) [ none ↦ default_val | some t ↦ t ]
  ]

  -- checkGetAs: its result and `val`
  unfoldable pub check_get_as : MapType → List ℕ → T → Bool × T
  unfolding find
  check_get_as m key default_val = elim (find key m) [
    | none ↦ (false, default_val)
    | some v ↦ elim (lexical_cast v) [ none ↦ (false, default_val) | some t ↦ (true, t) ]
  ]
