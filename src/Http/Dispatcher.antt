-- ===== src/Http/Dispatcher.antt =====
-- server/library/reactor/HttpDispatcher.h and HttpDispatcher.cpp. A processor is a number; of
-- boost::regex the model has whether a pattern matches a whole path, as a parameter. The texts of
-- the answer for an unknown path are parameters too.
use uiconnect.Base.{ℕ, Bool, false, Option, none, some, List, [], ◌∷◌, ◌++◌, if◌then◌else◌}
use uiconnect.Base.Text.{equal_text}
use uiconnect.Http.{is_before}
use uiconnect.Http.Response.{HttpResponse, set_header}

-- m_processors, an unordered_map, in the order of insertion; m_fuzzyProcessors, a map, in the order
-- of its keys, each with its pattern and processor
pub record HttpDispatcher : Type 0 where
  pub processors : List (List ℕ × ℕ)
  pub fuzzy_processors : List (List ℕ × List ℕ × ℕ)

unfoldable pub find_path : List ℕ → List (List ℕ × ℕ) → Option ℕ
unfolding equal_text
find_path q [] = none
find_path q ((p, hp) ∷ rest) =
    let later = find_path q rest in if equal_text p q then some hp else later

-- m_processors[str] = hp
unfoldable pub set_path : List ℕ → ℕ → List (List ℕ × ℕ) → List (List ℕ × ℕ)
unfolding equal_text
set_path str hp [] = (str, hp) ∷ []
set_path str hp ((p, old) ∷ rest) =
    let later = set_path str hp rest in
    if equal_text p str then (p, hp) ∷ rest else (p, old) ∷ later

-- m_fuzzyProcessors[str] = {pattern, hp}, where there is no entry for `str` yet
unfoldable pub add_fuzzy :
    List ℕ → List ℕ → ℕ → List (List ℕ × List ℕ × ℕ) → List (List ℕ × List ℕ × ℕ)
unfolding equal_text is_before
add_fuzzy str pattern hp [] = (str, pattern, hp) ∷ []
add_fuzzy str pattern hp ((p, r, old) ∷ rest) =
    let later = add_fuzzy str pattern hp rest in
    if equal_text p str
    then (p, r, old) ∷ rest
    else if is_before str p
    then (str, pattern, hp) ∷ (p, r, old) ∷ rest
    else (p, r, old) ∷ later

-- (^str/+.*)|(str)
abbrev pub fuzzy_pattern : List ℕ → List ℕ
fuzzy_pattern str =
    (40 ∷ 94 ∷ []) ++ (str ++ ((47 ∷ 43 ∷ 46 ∷ 42 ∷ 41 ∷ 124 ∷ 40 ∷ []) ++ (str ++ 41 ∷ [])))

unfoldable pub fuzzy_regist : HttpDispatcher → List ℕ → ℕ → HttpDispatcher
unfolding add_fuzzy
fuzzy_regist d str hp = record d {
  fuzzy_processors = add_fuzzy str (fuzzy_pattern str) hp d.fuzzy_processors;
}

unfoldable pub regist : HttpDispatcher → List ℕ → ℕ → Bool → HttpDispatcher
unfolding set_path fuzzy_regist
regist d str hp fuzzy =
    let set = record d { processors = set_path str hp d.processors } in
    if fuzzy then fuzzy_regist set str hp else set

-- What dispatch does with the response: a processor gets it, or dispatch fills it in.
pub data Dispatched : Type 0 where
  handled : ℕ → Dispatched
  not_found : HttpResponse → Dispatched

module _ (regex_match : List ℕ → List ℕ → Bool) (server value message : List ℕ) where
  unfoldable pub find_fuzzy : List ℕ → List (List ℕ × List ℕ × ℕ) → Option ℕ
  find_fuzzy q [] = none
  find_fuzzy q ((p, r, hp) ∷ rest) =
      let later = find_fuzzy q rest in if regex_match r q then some hp else later

  -- HttpDispatcher::dispatch on the path of the request
  unfoldable pub dispatch : HttpDispatcher → List ℕ → HttpResponse → Dispatched
  unfolding find_path find_fuzzy set_header
  dispatch d query res = elim (find_path query d.processors) [
    | some hp ↦ handled hp
    | none ↦ elim (find_fuzzy query d.fuzzy_processors) [
      | some hp ↦ handled hp
      | none ↦ not_found (record (set_header (record res { version = 0x11 }) server value) {
        close = false;
        status = 404;
        body = message;
      })
    ]
  ]
