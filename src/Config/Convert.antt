-- ===== src/Config/Convert.antt =====
-- server/library/config/ItemConverter.hpp, and the converters of log/LogConfItem.h. yaml-cpp is an
-- interface: what its nodes are, what Load and operator<< do, and what they do to one another. The
-- converters of std::map and std::unordered_map pass a node for a std::string, which does not compile
-- where they are used; they are left out, as are those of std::unordered_set, whose order is not fixed.
pub mod RoundTrip
pub mod LogItems
use uiconnect.Base.{ℕ, ◌≡◌, Bool, true, false, not, List, [], ◌∷◌, ◌++◌, map, if◌then◌else◌}
use uiconnect.Base.Text.{codes, equal_text}
use uiconnect.Base.Outcome.{Outcome, ok, thrown, ◌>>=◌}
use uiconnect.Log.Manager.{OutputterConf, LogConfItem}

-- Nodes N: `load` is YAML::Load, which may throw, `dump` what operator<< prints, `items` are node[i] for
-- each i below size(), `entries` what the iterators of a map give, `sequence`, `map_of` and `scalar` the
-- nodes that push_back, operator[] and assignment of a string build up. What was printed for a sequence
-- or a map is read as that again.
pub record Yaml (N : Type 0) : Type 0 where
  pub load : List ℕ → Outcome N
  pub dump : N → List ℕ
  pub items : N → List N
  pub entries : N → List (N × N)
  pub as_string : N → Outcome (List ℕ)
  pub is_map : N → Bool
  pub is_sequence : N → Bool
  pub scalar : List ℕ → N
  pub sequence : List N → N
  pub map_of : List (List ℕ × N) → N
  pub load-sequence : (ns : List N) → load (dump (sequence ns)) ≡ ok (sequence ns)
  pub load-map : (es : List (List ℕ × N)) → load (dump (map_of es)) ≡ ok (map_of es)
  pub items-sequence : (ns : List N) → items (sequence ns) ≡ ns
  pub entries-map :
      (es : List (List ℕ × N))
      → entries (map_of es) ≡ map (λ (e : List ℕ × N). (scalar e.0, e.1)) es
  pub as_string-scalar : (t : List ℕ) → as_string (scalar t) ≡ ok t
  pub map-IsMap : (es : List (List ℕ × N)) → is_map (map_of es) ≡ true
  pub sequence-IsSequence : (ns : List N) → is_sequence (sequence ns) ≡ true
  pub scalar_not : (t : List ℕ) → is_sequence (scalar t) ≡ false

-- ItemConverter<T, std::string> and ItemConverter<std::string, T>
pub record Converter (A : Type 0) : Type 0 where
  pub to : A → Outcome (List ℕ)
  pub from : List ℕ → Outcome A

module _ {N : Type 0} (y : Yaml N) {A : Type 0} (c : Converter A) where
  -- the nodes that the loop of a converter to a string pushes
  unfoldable pub nodes_of : List A → Outcome (List N)
  nodes_of [] = ok []
  nodes_of (a ∷ rest) = c.to a >>= λ text. y.load text >>= λ n. nodes_of rest >>= λ ns. ok (n ∷ ns)

  -- ItemConverter<std::vector<T>, std::string>, and that of std::list and std::set
  unfoldable pub sequence_to : List A → Outcome (List ℕ)
  unfolding nodes_of
  sequence_to v = nodes_of v >>= λ ns. ok (y.dump (y.sequence ns))

  -- what the loop of a converter from a string converts
  unfoldable pub values_of : List N → Outcome (List A)
  values_of [] = ok []
  values_of (n ∷ rest) = c.from (y.dump n) >>= λ a. values_of rest >>= λ as'. ok (a ∷ as')

  -- ItemConverter<std::string, std::vector<T>>, and that of std::list
  unfoldable pub vector_from : List ℕ → Outcome (List A)
  unfolding values_of
  vector_from text = y.load text >>= λ node. values_of (y.items node)

  abbrev pub vector_converter : Converter (List A)
  unfolding sequence_to vector_from
  vector_converter = record { to = sequence_to; from = vector_from }

-- set.insert(a), by the order of the set
unfoldable pub insert_with : {A : Type 0} → (A → A → Bool) → A → List A → List A
insert_with less a [] = a ∷ []
insert_with less a (b ∷ rest) =
    let later = insert_with less a rest in
    if less a b then a ∷ b ∷ rest else if less b a then b ∷ later else b ∷ rest

unfoldable pub insert_all : {A : Type 0} → (A → A → Bool) → List A → List A → List A
unfolding insert_with
insert_all less [] set = set
insert_all less (a ∷ rest) set = insert_all less rest (insert_with less a set)

module _ {N : Type 0} (y : Yaml N) {A : Type 0} (c : Converter A) (less : A → A → Bool) where
  -- ItemConverter<std::string, std::set<T>>
  unfoldable pub set_from : List ℕ → Outcome (List A)
  unfolding values_of insert_all
  set_from text =
      y.load text >>= λ node. values_of y c (y.items node) >>= λ vs. ok (insert_all less vs [])

  abbrev pub set_converter : Converter (List A)
  unfolding sequence_to set_from
  set_converter = record { to = sequence_to y c; from = set_from }

module _ {N : Type 0} (y : Yaml N) where
  -- the entries name, level and pattern of ItemConverter<LogConfItem, std::string>
  abbrev pub log_entries : LogConfItem → List (List ℕ × N)
  log_entries log =
      (codes "name", y.scalar log.name)
      ∷ (codes "level", y.scalar log.level)
      ∷ (codes "pattern", y.scalar log.pattern)
      ∷ []

  -- ItemConverter<LogConfItem, std::string>: what is pushed for an outputter is the text of `node`.
  unfoldable pub log_to : LogConfItem → List ℕ
  log_to log =
      let node = y.map_of (log_entries log) in
      let outputters =
        y.sequence (map (λ (op : OutputterConf). y.scalar (y.dump node)) log.outputters) in
      y.dump (y.map_of (log_entries log ++ (codes "outputters", y.scalar (y.dump outputters)) ∷ []))

  -- the loop over the entries of an outputter
  unfoldable pub read_outputter : List (N × N) → OutputterConf → Outcome OutputterConf
  unfolding equal_text
  read_outputter [] op = ok op
  read_outputter ((k, v) ∷ rest) op = y.as_string k >>= λ key.
      (if equal_text key (codes "type")
        then (y.as_string v >>= λ t. ok (record op { type_name = t }))
        else if equal_text key (codes "file")
        then (y.as_string v >>= λ t. ok (record op { file = t }))
        else ok op)
      >>= λ op'. read_outputter rest op'

  -- the loop over outputters, which passes over what is no map
  unfoldable pub read_outputters : List N → LogConfItem → Outcome LogConfItem
  unfolding read_outputter
  read_outputters [] item = ok item
  read_outputters (n ∷ rest) item =
      (if not (y.is_map n)
        then ok item
        else (read_outputter (y.entries n) (record { type_name = []; file = [] }) >>= λ op.
            ok (record item { outputters = item.outputters ++ op ∷ [] })))
      >>= λ item'. read_outputters rest item'

  -- one round of the loop of ItemConverter<std::string, LogConfItem>
  unfoldable pub read_log_entry : List ℕ → N → LogConfItem → Outcome LogConfItem
  unfolding equal_text read_outputters
  read_log_entry key v item =
      if equal_text key (codes "name")
      then (y.as_string v >>= λ t. ok (record item { name = t }))
      else if equal_text key (codes "level")
      then (y.as_string v >>= λ t. ok (record item { level = t }))
      else if equal_text key (codes "pattern")
      then (y.as_string v >>= λ t. ok (record item { pattern = t }))
      else if equal_text key (codes "outputters")
      then (if y.is_sequence v then read_outputters (y.items v) item else ok item)
      else ok item

  unfoldable pub read_log_entries : List (N × N) → LogConfItem → Outcome LogConfItem
  unfolding read_log_entry
  read_log_entries [] item = ok item
  read_log_entries ((k, v) ∷ rest) item =
      y.as_string k >>= λ key. read_log_entry key v item >>= λ item'. read_log_entries rest item'

  abbrev pub no_log : LogConfItem
  no_log = record { name = []; level = []; pattern = []; outputters = [] }

  -- ItemConverter<std::string, LogConfItem>
  unfoldable pub log_from : List ℕ → Outcome LogConfItem
  unfolding read_log_entries
  log_from text = y.load text >>= λ node.
      if not (y.is_map node) then ok no_log else read_log_entries (y.entries node) no_log
