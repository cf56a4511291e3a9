-- ===== src/Config.antt =====
-- server/library/config/Config.h, Config.cpp and ConfigItem.hpp: the registry of items, a listener
-- being a number. The types of the items are numbers; a value of any of them is a V. What is outside:
-- the equality of values, the converters (`convert`, which gives none where it throws), and what
-- yaml-cpp prints for a node.
pub mod Paths
pub mod Loading
pub mod Registry
pub mod Files
pub mod Convert
use uiconnect.Base.{
  ℕ, suc, ◌+◌, ◌%◌, ◌^◌, Bool, true, false, not, ◌&&◌, ◌||◌, Option, none, some, List, [], ◌∷◌,
  ◌++◌, map, leb, ltb, ◌==◌, if◌then◌else◌,
}
use uiconnect.Base.Text.{codes}
use uiconnect.Base.Assoc.{find, put}
use uiconnect.Base.Outcome.{Outcome, ok, thrown}
use uiconnect.Http.{to_lower}

-- a character of "abcdefghijklmnopqrstuvwxyz._0123456789"
unfoldable pub is_name_char : ℕ → Bool
is_name_char c = (leb 97 c && leb c 122) || ((c == 46) || ((c == 95) || (leb 48 c && leb c 57)))

-- Config::IsNodeNameValid
unfoldable pub is_node_name_valid : List ℕ → Bool
unfolding is_name_char
is_node_name_valid [] = true
is_node_name_valid (c ∷ cs) = is_name_char c && is_node_name_valid cs

-- YAML::Node: a scalar, a map, or another node, which is a number here
mutual
  pub data Node : Type 0 where
    scalar : List ℕ → Node
    map_node : Entries → Node
    other_node : ℕ → Node

  pub data Entries : Type 0 where
    no_entries : Entries
    entry : List ℕ → Node → Entries → Entries

-- the name of a node below `prefix`
abbrev pub below : List ℕ → List ℕ → List ℕ
below [] key = key
below (c ∷ cs) key = (c ∷ cs) ++ 46 ∷ key

unfoldable mutual
  unfolding is_node_name_valid

  -- VisitNodesDFS
  pub visit_nodes : List ℕ → Node → List (List ℕ × Node)
  visit_nodes prefix (scalar text) =
      if is_node_name_valid prefix then (prefix, scalar text) ∷ [] else []
  visit_nodes prefix (map_node entries) =
      let inner = visit_entries prefix entries in
      if is_node_name_valid prefix then (prefix, map_node entries) ∷ inner else []
  visit_nodes prefix (other_node n) =
      if is_node_name_valid prefix then (prefix, other_node n) ∷ [] else []

  -- its loop
  pub visit_entries : List ℕ → Entries → List (List ℕ × Node)
  visit_entries prefix no_entries = []
  visit_entries prefix (entry key node rest) =
      visit_nodes (below prefix key) node ++ visit_entries prefix rest

-- `kind` is the type of the item. `callbacks` is m_cbs, in the order of its keys; `calls` is what was
-- called, with the old value and the new one.
pub record ConfigItem (V : Type 0) : Type 0 where
  pub name : List ℕ
  pub description : List ℕ
  pub kind : ℕ
  pub val : V
  pub callbacks : List (ℕ × ℕ)
  pub calls : List (ℕ × V × V)

-- Config::GetData, in the order of insertion
abbrev pub ConfigItemMap : Type 0 → Type 0
ConfigItemMap V = List (List ℕ × ConfigItem V)

-- m_cbs[id] = cb
unfoldable pub put_callback : ℕ → ℕ → List (ℕ × ℕ) → List (ℕ × ℕ)
put_callback id cb [] = (id, cb) ∷ []
put_callback id cb ((key, old) ∷ rest) =
    let later = put_callback id cb rest in
    if key == id
    then (key, cb) ∷ rest
    else if ltb id key
    then (id, cb) ∷ (key, old) ∷ rest
    else (key, old) ∷ later

unfoldable pub erase_callback : ℕ → List (ℕ × ℕ) → List (ℕ × ℕ)
erase_callback id [] = []
erase_callback id ((key, cb) ∷ rest) =
    let later = erase_callback id rest in if key == id then rest else (key, cb) ∷ later

module _ {V : Type 0} where
  -- ConfigItem::ConfigItem
  unfoldable pub new_item : List ℕ → ℕ → V → List ℕ → ConfigItem V
  new_item name kind default_value description = record {
    name = map to_lower name;
    description = description;
    kind = kind;
    val = default_value;
    callbacks = [];
    calls = [];
  }

  unfoldable pub call_all : V → V → List (ℕ × ℕ) → List (ℕ × V × V)
  call_all old new [] = []
  call_all old new ((id, cb) ∷ rest) = (cb, old, new) ∷ call_all old new rest

  -- ConfigItem::addListener, with s_cbId, which the items of a type share
  unfoldable pub add_listener : ℕ → ℕ → ConfigItem V → ℕ × ConfigItem V
  unfolding put_callback
  add_listener cb last_id item =
      let id = (last_id + 1) % 2 ^ 64 in
      (id, record item { callbacks = put_callback id cb item.callbacks })

  -- ConfigItem::delListener
  unfoldable pub del_listener : ℕ → ConfigItem V → ConfigItem V
  unfolding erase_callback
  del_listener id item = record item { callbacks = erase_callback id item.callbacks }

  -- ConfigItem::clearListener
  unfoldable pub clear_listener : ConfigItem V → ConfigItem V
  clear_listener item = record item { callbacks = [] }

  -- Config::SearchBase
  unfoldable pub search_base : List ℕ → ConfigItemMap V → Option (ConfigItem V)
  unfolding find
  search_base name m = find name m

  -- std::dynamic_pointer_cast
  unfoldable pub cast : ℕ → Option (ConfigItem V) → Option (ConfigItem V)
  cast kind none = none
  cast kind (some item) = if item.kind == kind then some item else none

  -- Config::Search
  unfoldable pub search_item : ℕ → List ℕ → ConfigItemMap V → Option (ConfigItem V)
  unfolding cast find
  search_item kind name m = cast kind (find name m)

  abbrev pub or_add :
      ℕ
      → List ℕ
      → V
      → List ℕ
      → ConfigItemMap V
      → Option (ConfigItem V)
      → Outcome (Option (ConfigItem V) × ConfigItemMap V)
  unfolding cast is_node_name_valid new_item put
  or_add kind name default_value description m (some item) = ok (cast kind (some item), m)
  or_add kind name default_value description m none =
      let v = new_item name kind default_value description in
      if not (is_node_name_valid name) then thrown else ok (some v, put name v m)

  -- Config::SearchOrAdd
  unfoldable pub search_or_add :
      ℕ → List ℕ → V → List ℕ → ConfigItemMap V → Outcome (Option (ConfigItem V) × ConfigItemMap V)
  unfolding or_add find
  search_or_add kind name default_value description m =
      or_add kind name default_value description m (find name m)

  module _ (equal : V → V → Bool) (convert : ℕ → List ℕ → Option V) (emit : Node → List ℕ) where
    -- ConfigItem::setValue
    unfoldable pub set_value : V → ConfigItem V → ConfigItem V
    unfolding call_all
    set_value v item =
        if equal v item.val
        then item
        else record item { val = v; calls = item.calls ++ call_all item.val v item.callbacks }

    abbrev pub set_converted : Option V → ConfigItem V → ConfigItem V
    unfolding set_value
    set_converted none item = item
    set_converted (some v) item = set_value v item

    -- ConfigItem::fromString
    unfoldable pub from_string : List ℕ → ConfigItem V → ConfigItem V
    unfolding set_converted
    from_string str item = set_converted (convert item.kind str) item

    -- what fromString is called with
    unfoldable pub text_of : Node → List ℕ
    text_of (scalar text) = text
    text_of (map_node entries) = emit (map_node entries)
    text_of (other_node n) = emit (other_node n)

    abbrev pub load_found :
        List ℕ → Node → Option (ConfigItem V) → ConfigItemMap V → ConfigItemMap V
    unfolding from_string text_of put
    load_found key node none m = m
    load_found key node (some item) m = put key (from_string (text_of node) item) m

    -- one round of the loop of LoadFromYaml
    unfoldable pub load_node : List ℕ × Node → ConfigItemMap V → ConfigItemMap V
    unfolding load_found search_base
    load_node ([], node) m = m
    load_node (c ∷ cs, node) m =
        let key = map to_lower (c ∷ cs) in load_found key node (search_base key m) m

    unfoldable pub load_nodes : List (List ℕ × Node) → ConfigItemMap V → ConfigItemMap V
    unfolding load_node
    load_nodes [] m = m
    load_nodes (n ∷ rest) m = load_nodes rest (load_node n m)

    -- Config::LoadFromYaml
    unfoldable pub load_from_yaml : Node → ConfigItemMap V → ConfigItemMap V
    unfolding load_nodes visit_nodes visit_entries
    load_from_yaml root m = load_nodes (visit_nodes [] root) m
