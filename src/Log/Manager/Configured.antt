-- ===== src/Log/Manager/Configured.antt =====
-- What the listener of the configuration makes of a logger.
use uiconnect.Base.{
  ℕ, suc, ◌<◌, ◌≡◌, refl, sym, ap, ◌∙◌, Bool, true, false, Option, none, some, List, [], ◌∷◌, ◌++◌,
  map, append_assoc, append-nil, ◌==◌, Bool-cases, Option-cases, inl, inr, ==_refl, if◌then◌else◌,
  arith,
}
use mathlib.Core.Path.{subst}
use uiconnect.Base.Text.{codes, equal_text}
use uiconnect.Log.{Level, unknown, debug, info, warn, error, fatal}
use uiconnect.Log.Formatter.{LogFormatter}
use uiconnect.Log.Outputter.{LogOutputter, is_some, lend_formatter}
use uiconnect.Log.Logger.{Heap, update, Logger, set_level, add_outputter}
use uiconnect.Log.Manager.{
  LoggerManager, get_logger, with_logger, OutputterConf, LogConfItem, drop_old, level_table,
  set_levels, made, add_made, add_outputters, set_up, on_changed,
}
use uiconnect.Log.Manager.Lookup.{
  get_logger_same, get_logger_other, has_name, IsCleared, drop_old-IsCleared,
}

abbrev adds : ℕ → Heap → Logger → Heap × Logger
unfolding add_outputter
adds a h l = add_outputter a h l

abbrev sets : List ℕ → Heap → Logger → Heap × Logger
unfolding set_levels
sets text h l = (h, set_levels text level_table l)

-- a manager with an outputter more in its heap
abbrev with_outputter : LogOutputter → LoggerManager → LoggerManager
with_outputter o m = record m { heap = update m.heap m.next o; next = suc m.next }

-- the level's name in the configuration
abbrev pub conf_text : Level → List ℕ
conf_text unknown = codes "unknown"
conf_text debug = codes "debug"
conf_text info = codes "info"
conf_text warn = codes "warn"
conf_text error = codes "error"
conf_text fatal = codes "fatal"

set_levels_lem :
    (level : Level) (l : Logger) → set_levels (conf_text level) level_table l ≡ set_level level l
unfolding set_levels set_level equal_text
set_levels_lem unknown l = refl
set_levels_lem debug l = refl
set_levels_lem info l = refl
set_levels_lem warn l = refl
set_levels_lem error l = refl
set_levels_lem fatal l = refl

module _ (work_path : List ℕ) (opens : Bool) where
  add_made_other :
      (name other : List ℕ) (o : Option LogOutputter) (m : LoggerManager)
      → equal_text other name ≡ false
      → get_logger name (add_made work_path opens other o m) ≡ get_logger name m
  unfolding add_made get_logger
  add_made_other name other none m h = refl
  add_made_other name other (some o) m h =
      get_logger_other name other (adds m.next) (with_outputter o m) h

  add_outputters_other :
      (name other pattern : List ℕ) (ops : List OutputterConf) (m : LoggerManager)
      → equal_text other name ≡ false
      → get_logger name (add_outputters work_path opens other pattern ops m) ≡ get_logger name m
  unfolding add_outputters
  add_outputters_other name other pattern [] m h = refl
  add_outputters_other name other pattern (op ∷ rest) m h =
      let o = made work_path opens pattern op in
      add_outputters_other name other pattern rest (add_made work_path opens other o m) h
      ∙ add_made_other name other o m h

  set_up_other :
      (name : List ℕ) (before : List LogConfItem) (m : LoggerManager)
      → has_name name before ≡ false
      → get_logger name (set_up work_path opens before m) ≡ get_logger name m
  unfolding set_up sets
  set_up_other name [] m h = refl
  set_up_other name (val ∷ rest) m h =
      let e : equal_text val.name name ≡ false = ground arith in
      let d : has_name name rest ≡ false = ground arith in
      let k = with_logger val.name (sets val.level) m in
      set_up_other name rest (add_outputters work_path opens val.name val.pattern val.outputters k)
        d
      ∙ add_outputters_other name val.name val.pattern val.outputters k e
      ∙ get_logger_other name val.name (sets val.level) m e

  set_up-append :
      (xs ys : List LogConfItem) (m : LoggerManager)
      → set_up work_path opens (xs ++ ys) m
        ≡ set_up work_path opens ys (set_up work_path opens xs m)
  unfolding set_up
  set_up-append [] ys m = refl
  set_up-append (x ∷ xs) ys m = set_up-append xs ys _

  -- what an outputter is once it is added to a logger with the formatter `f`
  abbrev pub lent : Option LogFormatter → LogOutputter → LogOutputter
  unfolding lend_formatter
  lent f o = if is_some o.formatter then o else lend_formatter f o

  abbrev pub add_one :
      Option LogFormatter → Option LogOutputter → List LogOutputter → List LogOutputter
  unfolding lent
  add_one f none rest = rest
  add_one f (some o) rest = lent f o ∷ rest

  -- the outputters for a configured list of them
  abbrev pub all_made : Option LogFormatter → List ℕ → List OutputterConf → List LogOutputter
  unfolding made add_one
  all_made f pattern [] = []
  all_made f pattern (op ∷ rest) =
      add_one f (made work_path opens pattern op) (all_made f pattern rest)

  abbrev pub IsBelow : ℕ → List ℕ → Type 0
  IsBelow n [] = Unit {0}
  IsBelow n (a ∷ rest) = (a < n) × IsBelow n rest

  map-update :
      (h : Heap) (n : ℕ) (o : LogOutputter) (outs : List ℕ)
      → IsBelow n outs
      → map (update h n o) outs ≡ map h outs
  map-update h n o [] b = refl
  map-update h n o (a ∷ rest) (lt, more) =
      let e : (a == n) ≡ false = ground arith in
      rw e (ap (λ t. h a ∷ t) (map-update h n o rest more))

  IsBelow-snoc : (n : ℕ) (outs : List ℕ) → IsBelow n outs → IsBelow (suc n) (outs ++ n ∷ [])
  IsBelow-snoc n [] b = (omega arith, tt)
  IsBelow-snoc n (a ∷ rest) (lt, more) = (omega arith, IsBelow-snoc n rest more)

  map-append : (h : Heap) (xs ys : List ℕ) → map h (xs ++ ys) ≡ map h xs ++ map h ys
  map-append h [] ys = refl
  map-append h (x ∷ xs) ys = ap (λ t. h x ∷ t) (map-append h xs ys)

  map-update_snoc :
      (h : Heap) (n : ℕ) (o : LogOutputter) (outs : List ℕ)
      → IsBelow n outs
      → map (update h n o) (outs ++ n ∷ []) ≡ map h outs ++ o ∷ []
  map-update_snoc h n o outs b =
      let self : update h n o n ≡ o = rw (==_refl n) refl in
      map-append (update h n o) outs (n ∷ [])
      ∙ ap (λ t. t ++ update h n o n ∷ []) (map-update h n o outs b)
      ∙ ap (λ p. map h outs ++ p ∷ []) self

  -- A new outputter is added, and the old ones stay.
  add_new :
      (h : Heap) (n : ℕ) (o : LogOutputter) (l : Logger)
      → IsBelow n l.outputters
      → map (add_outputter n (update h n o) l).0 (l.outputters ++ n ∷ [])
        ≡ map h l.outputters ++ lent l.formatter o ∷ []
  unfolding add_outputter lend_formatter
  add_new h n o l b =
      let lend = lend_formatter l.formatter o in
      (elim (Bool-cases (is_some o.formatter)) [
        | inl e ↦ rw (==_refl n) (rw e (map-update_snoc h n o l.outputters b))
        | inr e ↦ rw (==_refl n) (
            rw e (
              map-update_snoc (update h n o) n lend l.outputters b
              ∙ ap (λ t. t ++ lend ∷ []) (map-update h n o l.outputters b)))
      ])

  -- The logger has the outputters that it had and those behind them, and the rest as before.
  abbrev pub Gains : List ℕ → LoggerManager → LoggerManager → List LogOutputter → Type 0
  Gains name m out more =
      let l = get_logger name m in
      let k = get_logger name out in
      (map out.heap k.outputters ≡ map m.heap l.outputters ++ more)
      × (k.formatter ≡ l.formatter)
      × (k.level ≡ l.level)

  add_made-Gains :
      (name : List ℕ) (o : LogOutputter) (m : LoggerManager)
      → IsBelow m.next (get_logger name m).outputters
      → (let out = add_made work_path opens name (some o) m in
          Gains name m out (lent (get_logger name m).formatter o ∷ [])
          × IsBelow out.next (get_logger name out).outputters)
  unfolding add_made add_outputter with_logger get_logger
  add_made-Gains name o m b =
      let l = get_logger name m in
      let out = add_made work_path opens name (some o) m in
      let k = get_logger_same name (adds m.next) (with_outputter o m) in
      (
        (
          ap (λ (j : Logger). map out.heap j.outputters) k ∙ add_new m.heap m.next o l b,
          ap (λ (j : Logger). j.formatter) k,
          ap (λ (j : Logger). j.level) k,
        ),
        subst (λ (j : Logger). IsBelow (suc m.next) j.outputters) (sym k)
            (IsBelow-snoc m.next l.outputters b),
      )

  add_outputters-Gains :
      (name pattern : List ℕ) (ops : List OutputterConf) (m : LoggerManager)
      → IsBelow m.next (get_logger name m).outputters
      → Gains name m
          (add_outputters work_path opens name pattern ops m)
          (all_made (get_logger name m).formatter pattern ops)
  unfolding add_outputters
  add_outputters-Gains name pattern [] m b =
      (sym (append-nil (map m.heap (get_logger name m).outputters)), refl, refl)
  add_outputters-Gains name pattern (op ∷ rest) m b =
      let l = get_logger name m in
      let P : Option LogOutputter → Type 0 = λ o.
        Gains name m
          (add_outputters work_path opens name pattern rest (add_made work_path opens name o m))
          (add_one l.formatter o (all_made l.formatter pattern rest)) in
      (elim (Option-cases (made work_path opens pattern op)) [
        | inl e ↦ subst P (sym e) (add_outputters-Gains name pattern rest m b)
        | inr (o, e) ↦ subst P (sym e) (
            let m' = add_made work_path opens name (some o) m in
            let (first, below) = add_made-Gains name o m b in
            let more = add_outputters-Gains name pattern rest m' below in
            (
              more.0
                  ∙ ap (λ t. t ++ all_made (get_logger name m').formatter pattern rest) first.0
                  ∙ append_assoc (map m.heap l.outputters) _ _
                  ∙ ap
                      (λ f. map m.heap l.outputters ++ lent l.formatter o ∷ all_made f pattern rest)
                      first.1,
              more.1 ∙ first.1,
              more.2 ∙ first.2,
            ))
      ])

  -- After a change of the configuration a logger that was configured before, and is so by the last
  -- entry now, has the level of that entry, and of outputters just the ones made for the entry: for
  -- each one of a known type, in their order, with a formatter of its pattern or else the logger's.
  pub on_changed_lem :
      (old before : List LogConfItem) (val : LogConfItem) (level : Level) (m : LoggerManager)
      → has_name val.name old ≡ true
      → has_name val.name before ≡ false
      → val.level ≡ conf_text level
      → (let out = on_changed work_path opens old (before ++ val ∷ []) m in
          let l = get_logger val.name out in
          (l.level ≡ level)
          × (map out.heap l.outputters ≡ all_made l.formatter val.pattern val.outputters))
  unfolding on_changed set_up sets set_level
  on_changed_lem old before val level m was not_before text =
      let m0 = drop_old old m in
      let m1 = set_up work_path opens before m0 in
      let m2 = with_logger val.name (sets val.level) m1 in
      let out = add_outputters work_path opens val.name val.pattern val.outputters m2 in
      let c1 : IsCleared (get_logger val.name m1) =
        subst IsCleared (sym (set_up_other val.name before m0 not_before))
          (drop_old-IsCleared val.name old m was) in
      let k : get_logger val.name m2 ≡ set_level level (get_logger val.name m1) =
        get_logger_same val.name (sets val.level) m1
        ∙ ap (λ t. set_levels t level_table (get_logger val.name m1)) text
        ∙ set_levels_lem level (get_logger val.name m1) in
      let empty : (get_logger val.name m2).outputters ≡ [] =
        ap (λ (j : Logger). j.outputters) k ∙ c1.0 in
      let g =
        add_outputters-Gains val.name val.pattern val.outputters m2
          (subst (IsBelow m2.next) (sym empty) tt) in
      let P : LoggerManager → Type 0 = λ end.
        let l = get_logger val.name end in
        (l.level ≡ level)
        × (map end.heap l.outputters ≡ all_made l.formatter val.pattern val.outputters) in
      subst P (sym (set_up-append before (val ∷ []) m0)) (
        g.2 ∙ ap (λ (j : Logger). j.level) k,
        g.0
            ∙ ap
                (λ o.
                  map m2.heap o
                  ++ all_made (get_logger val.name m2).formatter val.pattern val.outputters)
                empty
            ∙ ap (λ f. all_made f val.pattern val.outputters) (sym g.1),
      )
