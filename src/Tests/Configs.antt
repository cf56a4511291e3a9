-- ===== src/Tests/Configs.antt =====
-- A registry with an item of type 1 under `tcp.timeout`, whose values are texts.
use uiconnect.Base.{ℕ, ◌≡◌, refl, Option, none, some, List, [], ◌∷◌, ◌++◌, arith}
use uiconnect.Base.Text.{codes, equal_text}
use uiconnect.Config.{
  Node, scalar, map_node, no_entries, entry, ConfigItem, ConfigItemMap, search_base, call_all,
  add_listener, del_listener, set_value, load_from_yaml,
}
use uiconnect.Config.Paths.{paths, named}
use uiconnect.Config.Loading.{lift, set_by_all, search_base-load_from_yaml}
use uiconnect.Config.Registry.{listener_lem}
use uiconnect.Config.Files.{ConfigFile}

abbrev root : Node
root = map_node (
    entry (codes "tcp") (map_node (entry (codes "timeout") (scalar (codes "30")) no_entries))
      no_entries)

abbrev taken : ℕ → List ℕ → Option (List ℕ)
taken kind text = some text

abbrev no_text : Node → List ℕ
no_text node = []

abbrev timeout : List ℕ
timeout = codes "tcp.timeout"

abbrev default_item : ConfigItem (List ℕ)
default_item = record {
  name = timeout;
  description = [];
  kind = 1;
  val = codes "10";
  callbacks = [];
  calls = [];
}

abbrev items : ConfigItemMap (List ℕ)
items = (timeout, default_item) ∷ []

search_base-load_from_yaml_example :
    search_base timeout (load_from_yaml equal_text taken no_text root items)
    ≡ lift equal_text taken no_text
        (set_by_all equal_text taken no_text timeout (named [] (paths root)))
        (search_base timeout items)
search_base-load_from_yaml_example =
    search_base-load_from_yaml equal_text taken no_text timeout root items

listener_lem_example :
    (let r = add_listener 7 0 default_item in
      ((set_value equal_text taken no_text (codes "30") r.1).calls
        ≡ [] ++ (call_all (codes "10") (codes "30") [] ++ (7, codes "10", codes "30") ∷ []))
      × (del_listener r.0 r.1 ≡ default_item))
unfolding equal_text
listener_lem_example =
    listener_lem equal_text taken no_text 7 0 (codes "30") default_item tt (omega arith) refl

abbrev files : List ConfigFile
files =
    record { path = codes "a.yml"; mtime = 5; document = some root }
    ∷ record { path = codes "b.yml"; mtime = 6; document = none }
    ∷ []
