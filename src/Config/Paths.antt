-- ===== src/Config/Paths.antt =====
-- The nodes of a document by the keys on the way to them, and what VisitNodesDFS makes of them.
use uiconnect.Base.{
  ℕ, ◌≡◌, refl, sym, ap, ◌∙◌, Bool, true, false, ◌&&◌, List, [], ◌∷◌, ◌++◌, map, Bool-cases, inl,
  inr, if◌then◌else◌, arith,
}
use uiconnect.Config.{
  is_node_name_valid, Node, scalar, map_node, other_node, Entries, no_entries, entry, below,
  visit_nodes, visit_entries,
}

-- Every node of a document with the keys on the way to it, a node before the nodes in it.
abbrev mutual
  pub paths : Node → List (List (List ℕ) × Node)
  paths (scalar text) = ([], scalar text) ∷ []
  paths (map_node entries) = ([], map_node entries) ∷ entry_paths entries
  paths (other_node n) = ([], other_node n) ∷ []

  entry_paths : Entries → List (List (List ℕ) × Node)
  entry_paths no_entries = []
  entry_paths (entry key node rest) =
      map (λ (keys, n). (key ∷ keys, n)) (paths node) ++ entry_paths rest

-- a path's name: its keys behind one another, with dots between them
abbrev full_name : List ℕ → List (List ℕ) → List ℕ
full_name prefix [] = prefix
full_name prefix (key ∷ keys) = full_name (below prefix key) keys

-- whether the name of a path, and of every node on the way, is valid
abbrev is_path_valid : List ℕ → List (List ℕ) → Bool
is_path_valid prefix [] = is_node_name_valid prefix
is_path_valid prefix (key ∷ keys) =
    is_node_name_valid prefix && is_path_valid (below prefix key) keys

-- The nodes that have a name, with it.
abbrev pub named : List ℕ → List (List (List ℕ) × Node) → List (List ℕ × Node)
named prefix [] = []
named prefix ((keys, node) ∷ rest) =
    let others = named prefix rest in
    if is_path_valid prefix keys then (full_name prefix keys, node) ∷ others else others

named-append :
    (prefix : List ℕ) (xs ys : List (List (List ℕ) × Node))
    → named prefix (xs ++ ys) ≡ named prefix xs ++ named prefix ys
named-append prefix [] ys = refl
named-append prefix ((keys, node) ∷ rest) ys = ground (arith, named-append prefix rest ys)

named-under :
    (prefix key : List ℕ) (ps : List (List (List ℕ) × Node))
    → is_node_name_valid prefix ≡ true
    → named prefix (map (λ (keys, n). (key ∷ keys, n)) ps) ≡ named (below prefix key) ps
named-under prefix key [] h = refl
named-under prefix key ((keys, node) ∷ rest) h = rw (h, named-under prefix key rest h) refl

-- Nothing in a node whose name is not valid has a name.
unnamed :
    (prefix : List ℕ) (ps : List (List (List ℕ) × Node))
    → is_node_name_valid prefix ≡ false
    → named prefix ps ≡ []
unnamed prefix [] h = refl
unnamed prefix (([], node) ∷ rest) h = rw (h, unnamed prefix rest h) refl
unnamed prefix ((key ∷ keys, node) ∷ rest) h = rw (h, unnamed prefix rest h) refl

mutual
  unfolding visit_nodes

  pub visited_nodes :
      (prefix : List ℕ) (node : Node) → visit_nodes prefix node ≡ named prefix (paths node)
  visited_nodes prefix (scalar text) = refl
  visited_nodes prefix (map_node entries) = (elim (Bool-cases (is_node_name_valid prefix)) [
    | inl h ↦ rw h (ap (λ t. (prefix, map_node entries) ∷ t) (visited_entries prefix entries h))
    | inr h ↦ rw (h, unnamed prefix (entry_paths entries) h) refl
  ])
  visited_nodes prefix (other_node n) = refl

  visited_entries :
      (prefix : List ℕ) (entries : Entries)
      → is_node_name_valid prefix ≡ true
      → visit_entries prefix entries ≡ named prefix (entry_paths entries)
  visited_entries prefix no_entries h = refl
  visited_entries prefix (entry key node rest) h =
      ap (λ t. t ++ visit_entries prefix rest) (visited_nodes (below prefix key) node)
      ∙ ap (λ t. named (below prefix key) (paths node) ++ t) (visited_entries prefix rest h)
      ∙ ap (λ t. t ++ named prefix (entry_paths rest)) (sym (named-under prefix key (paths node) h))
      ∙ sym
          (named-append prefix (map (λ (keys, n). (key ∷ keys, n)) (paths node)) (entry_paths rest))
