-- ===== src/Config/Convert/LogItems.antt =====
-- What the converters of LogConfItem make of one another.
use uiconnect.Base.{ℕ, ◌≡◌, refl, sym, ap, ◌∙◌, List, [], ◌∷◌, ◌++◌, map, append_assoc, append-nil}
use uiconnect.Base.Text.{codes, equal_text}
use uiconnect.Base.Outcome.{ok}
use uiconnect.Log.Manager.{OutputterConf, LogConfItem}
use uiconnect.Config.Convert.{
  Yaml, log_entries, log_to, read_outputter, read_outputters, read_log_entry, read_log_entries,
  no_log, log_from,
}

module _ {N : Type 0} (y : Yaml N) where
  abbrev as_entries : List (List ℕ × N) → List (N × N)
  as_entries es = map (λ (e : List ℕ × N). (y.scalar e.0, e.1)) es

  -- an entry `key` of a node, in front of others
  read_next :
      (key : List ℕ) (v : N) (rest : List (List ℕ × N)) (item item' : LogConfItem)
      → read_log_entry y key v item ≡ ok item'
      → read_log_entries y (as_entries ((key, v) ∷ rest)) item
        ≡ read_log_entries y (as_entries rest) item'
  unfolding read_log_entries
  read_next key v rest item item' h = rw (y.as_string-scalar key) (rw h refl)

  -- name, level and pattern
  read_logs :
      (log : LogConfItem) (rest : List (List ℕ × N))
      → read_log_entries y (as_entries (log_entries y log ++ rest)) (no_log y)
        ≡ read_log_entries y (as_entries rest) (record log { outputters = [] })
  unfolding read_log_entry equal_text
  read_logs log rest =
      let named : LogConfItem = record (no_log y) { name = log.name } in
      let levelled : LogConfItem = record named { level = log.level } in
      read_next (codes "name") (y.scalar log.name)
        ((codes "level", y.scalar log.level) ∷ (codes "pattern", y.scalar log.pattern) ∷ rest)
        (no_log y) named (rw (y.as_string-scalar log.name) refl)
      ∙ read_next (codes "level") (y.scalar log.level)
          ((codes "pattern", y.scalar log.pattern) ∷ rest) named levelled
          (rw (y.as_string-scalar log.level) refl)
      ∙ read_next (codes "pattern") (y.scalar log.pattern) rest levelled
          (record log { outputters = [] }) (rw (y.as_string-scalar log.pattern) refl)

  -- what is read from the text of a map
  from_map :
      (es : List (List ℕ × N))
      → log_from y (y.dump (y.map_of es)) ≡ read_log_entries y (as_entries es) (no_log y)
  unfolding log_from
  from_map es = rw (y.load-map es) (rw (y.map-IsMap es) (rw (y.entries-map es) refl))

  -- an outputter, as a node
  abbrev pub outputter_node : OutputterConf → N
  outputter_node op =
      y.map_of ((codes "type", y.scalar op.type_name) ∷ (codes "file", y.scalar op.file) ∷ [])

  read_node :
      (op : OutputterConf)
      → read_outputter y (y.entries (outputter_node op)) (record { type_name = []; file = [] })
        ≡ ok op
  unfolding read_outputter equal_text
  read_node op =
      rw
        (y.entries-map
          ((codes "type", y.scalar op.type_name) ∷ (codes "file", y.scalar op.file) ∷ []))
        (rw (y.as_string-scalar (codes "type")) (
          rw (y.as_string-scalar op.type_name)
            (rw (y.as_string-scalar (codes "file")) (rw (y.as_string-scalar op.file) refl))))

  read_all :
      (ops : List OutputterConf) (item : LogConfItem)
      → read_outputters y (map outputter_node ops) item
        ≡ ok (record item { outputters = item.outputters ++ ops })
  unfolding read_outputters
  read_all [] item =
      ap (λ ops. ok (record item { outputters = ops })) (sym (append-nil item.outputters))
  read_all (op ∷ ops) item =
      let more : LogConfItem = record item { outputters = item.outputters ++ op ∷ [] } in
      rw
        (y.map-IsMap
          ((codes "type", y.scalar op.type_name) ∷ (codes "file", y.scalar op.file) ∷ []))
        (rw (read_node op) (
          read_all ops more
          ∙ ap (λ all. ok (record item { outputters = all }))
              (append_assoc item.outputters (op ∷ []) ops)))

  -- The text of a map with the name, the level and the pattern of a logger and a sequence of its
  -- outputters, each a map with its type and file, is converted to the configuration of that logger.
  -- The text that such a configuration is converted to is converted back to it with no outputters at
  -- all, whatever they are: they are not in it.
  pub log_from-log_to :
      (log : LogConfItem)
      → (log_from y (
            y.dump (
              y.map_of (
                log_entries y log
                ++ (codes "outputters", y.sequence (map outputter_node log.outputters)) ∷ [])))
          ≡ ok log)
        × (log_from y (log_to y log) ≡ ok (record log { outputters = [] }))
  unfolding log_to read_log_entry equal_text read_log_entries
  log_from-log_to log =
      let bare : LogConfItem = record log { outputters = [] } in
      let ops = y.sequence (map outputter_node log.outputters) in
      let text = y.scalar (
        y.dump (
          y.sequence (
            map (λ (op : OutputterConf). y.scalar (y.dump (y.map_of (log_entries y log))))
              log.outputters))) in
      (
        from_map (log_entries y log ++ (codes "outputters", ops) ∷ [])
            ∙ read_logs log ((codes "outputters", ops) ∷ [])
            ∙ read_next (codes "outputters") ops [] bare log (
                rw (y.sequence-IsSequence (map outputter_node log.outputters)) (
                  rw (y.items-sequence (map outputter_node log.outputters))
                    (read_all log.outputters bare))),
        from_map (log_entries y log ++ (codes "outputters", text) ∷ [])
            ∙ read_logs log ((codes "outputters", text) ∷ [])
            ∙ read_next (codes "outputters") text [] bare bare (rw (y.scalar_not _) refl),
      )
