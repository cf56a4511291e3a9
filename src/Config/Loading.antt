-- ===== src/Config/Loading.antt =====
-- What Config::LoadFromYaml does to the items.
use uiconnect.Base.{
  ℕ, ◌≡◌, refl, sym, ap, ◌∙◌, Bool, true, false, Option, none, some, List, [], ◌∷◌, ◌++◌, map,
  Bool-cases, Option-cases, inl, inr, if◌then◌else◌, arith,
}
use mathlib.Core.Path.{subst}
use uiconnect.Base.Text.{equal_text, equal_text-eq}
use uiconnect.Base.Assoc.{find, find-put, find-put_other}
use uiconnect.Http.{to_lower}
use uiconnect.Config.Paths.{paths, named, visited_nodes}
use uiconnect.Config.{
  is_name_char, is_node_name_valid, Node, scalar, map_node, other_node, Entries, no_entries, entry,
  below, visit_nodes, visit_entries, ConfigItem, ConfigItemMap, search_base, from_string, text_of,
  load_found, load_node, load_nodes, load_from_yaml,
}

lower_char : (c : ℕ) → is_name_char c ≡ true → to_lower c ≡ c
unfolding is_name_char
lower_char c h = ground arith

lower_name : (name : List ℕ) → is_node_name_valid name ≡ true → map to_lower name ≡ name
unfolding is_node_name_valid
lower_name [] h = refl
lower_name (c ∷ cs) h =
    let first : is_name_char c ≡ true = ground arith in
    let rest : is_node_name_valid cs ≡ true = ground arith in
    ap (λ d. d ∷ map to_lower cs) (lower_char c first) ∙ ap (λ ds. c ∷ ds) (lower_name cs rest)

-- the keys of visited nodes in lower case
abbrev pub lower_keys : List (List ℕ × Node) → List (List ℕ × Node)
lower_keys [] = []
lower_keys ((key, node) ∷ rest) = (map to_lower key, node) ∷ lower_keys rest

lower_keys-append :
    (xs ys : List (List ℕ × Node)) → lower_keys (xs ++ ys) ≡ lower_keys xs ++ lower_keys ys
lower_keys-append [] ys = refl
lower_keys-append ((key, node) ∷ rest) ys =
    ap (λ t. (map to_lower key, node) ∷ t) (lower_keys-append rest ys)

-- A list of one node, if its name is valid, and what is behind it.
if_valid :
    (prefix : List ℕ) (node : Node) (inner : List (List ℕ × Node))
    → lower_keys inner ≡ inner
    → lower_keys (if is_node_name_valid prefix then (prefix, node) ∷ inner else [])
      ≡ (if is_node_name_valid prefix then (prefix, node) ∷ inner else [])
if_valid prefix node inner e = (elim (Bool-cases (is_node_name_valid prefix)) [
  | inl h ↦ rw h (
      ap (λ k. (k, node) ∷ lower_keys inner) (lower_name prefix h) ∙ ap (λ t. (prefix, node) ∷ t) e)
  | inr h ↦ rw h refl
])

mutual
  unfolding visit_nodes

  lower_nodes :
      (prefix : List ℕ) (node : Node)
      → lower_keys (visit_nodes prefix node) ≡ visit_nodes prefix node
  lower_nodes prefix (scalar text) = if_valid prefix (scalar text) [] refl
  lower_nodes prefix (map_node entries) =
      if_valid prefix (map_node entries) (visit_entries prefix entries)
        (lower_entries prefix entries)
  lower_nodes prefix (other_node n) = if_valid prefix (other_node n) [] refl

  lower_entries :
      (prefix : List ℕ) (entries : Entries)
      → lower_keys (visit_entries prefix entries) ≡ visit_entries prefix entries
  lower_entries prefix no_entries = refl
  lower_entries prefix (entry key node rest) =
      lower_keys-append (visit_nodes (below prefix key) node) (visit_entries prefix rest)
      ∙ ap (λ t. t ++ lower_keys (visit_entries prefix rest)) (lower_nodes (below prefix key) node)
      ∙ ap (λ t. visit_nodes (below prefix key) node ++ t) (lower_entries prefix rest)

-- Only nodes whose full names are valid are visited, so that LoadFromYaml finds nothing to put into
-- lower case.
pub lower_keys-visit_nodes : (root : Node) → lower_keys (visit_nodes [] root) ≡ visit_nodes [] root
lower_keys-visit_nodes root = lower_nodes [] root

module _ {V : Type 0} (equal : V → V → Bool) (convert : ℕ → List ℕ → Option V)
    (emit : Node → List ℕ) where
  abbrev set_by : List ℕ → List ℕ × Node → ConfigItem V → ConfigItem V
  set_by name ([], node) item = item
  set_by name (c ∷ cs, node) item =
      if equal_text (map to_lower (c ∷ cs)) name
      then from_string equal convert emit (text_of equal convert emit node) item
      else item

  -- An item after its nodes, those with its name, have set it one after another.
  abbrev pub set_by_all : List ℕ → List (List ℕ × Node) → ConfigItem V → ConfigItem V
  set_by_all name [] item = item
  set_by_all name (n ∷ rest) item = set_by_all name rest (set_by name n item)

  abbrev pub lift : (ConfigItem V → ConfigItem V) → Option (ConfigItem V) → Option (ConfigItem V)
  lift f none = none
  lift f (some item) = some (f item)

  lift_same : (o : Option (ConfigItem V)) → o ≡ lift (λ item. item) o
  lift_same none = refl
  lift_same (some item) = refl

  find-load_found :
      (name : List ℕ) (node : Node) (m : ConfigItemMap V)
      → find name (load_found equal convert emit name node (find name m) m)
        ≡ lift (from_string equal convert emit (text_of equal convert emit node)) (find name m)
  unfolding load_found
  find-load_found name node m = (elim (Option-cases (find name m)) [
    | inl e ↦ rw e e
    | inr (item, e) ↦ rw e (find-put name _ m)
  ])

  find-load_found_other :
      (name key : List ℕ) (node : Node) (o : Option (ConfigItem V)) (m : ConfigItemMap V)
      → equal_text key name ≡ false
      → find name (load_found equal convert emit key node o m) ≡ find name m
  unfolding load_found
  find-load_found_other name key node none m h = refl
  find-load_found_other name key node (some item) m h = find-put_other name key _ m h

  find-load_node :
      (name : List ℕ) (n : List ℕ × Node) (m : ConfigItemMap V)
      → find name (load_node equal convert emit n m) ≡ lift (set_by name n) (find name m)
  unfolding load_node search_base
  find-load_node name ([], node) m = lift_same (find name m)
  find-load_node name (c ∷ cs, node) m =
      let key = map to_lower (c ∷ cs) in
      let set_it = from_string equal convert emit (text_of equal convert emit node) in
      let setter : Bool → Option (ConfigItem V) =
        λ b. lift (λ item. if b then set_it item else item) (find name m) in
      (elim (Bool-cases (equal_text key name)) [
        | inl h ↦
            subst
              (λ k.
                find name (load_found equal convert emit k node (find k m) m)
                ≡ lift (from_string equal convert emit (text_of equal convert emit node))
                    (find name m))
              (sym (equal_text-eq key name h)) (find-load_found name node m)
            ∙ ap setter (sym h)
        | inr h ↦
            find-load_found_other name key node (find key m) m h
            ∙ lift_same (find name m)
            ∙ ap setter (sym h)
      ])

  lift_twice :
      (f g : ConfigItem V → ConfigItem V) (o : Option (ConfigItem V))
      → lift g (lift f o) ≡ lift (λ item. g (f item)) o
  lift_twice f g none = refl
  lift_twice f g (some item) = refl

  find-load_nodes :
      (name : List ℕ) (nodes : List (List ℕ × Node)) (m : ConfigItemMap V)
      → find name (load_nodes equal convert emit nodes m)
        ≡ lift (set_by_all name nodes) (find name m)
  unfolding load_nodes
  find-load_nodes name [] m = lift_same (find name m)
  find-load_nodes name (n ∷ rest) m =
      find-load_nodes name rest (load_node equal convert emit n m)
      ∙ ap (lift (set_by_all name rest)) (find-load_node name n m)
      ∙ lift_twice (set_by name n) (set_by_all name rest) (find name m)

  -- After a document is loaded, an item is what it was set to by the document's nodes with its name,
  -- at whatever depth, one after another, each node before those in it; a node's name is its keys from
  -- the root with dots between them, and a node has one only if that name and those of the nodes it
  -- stands in are valid. No other node has an effect on the item; no item appears or is lost.
  pub search_base-load_from_yaml :
      (name : List ℕ) (root : Node) (m : ConfigItemMap V)
      → search_base name (load_from_yaml equal convert emit root m)
        ≡ lift (set_by_all name (named [] (paths root))) (search_base name m)
  unfolding search_base load_from_yaml
  search_base-load_from_yaml name root m =
      find-load_nodes name (visit_nodes [] root) m
      ∙ ap (λ nodes. lift (set_by_all name nodes) (find name m)) (visited_nodes [] root)
