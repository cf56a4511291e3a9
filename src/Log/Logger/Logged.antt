-- ===== src/Log/Logger/Logged.antt =====
-- Logger::log where nothing is a null pointer.
use uiconnect.Base.{
  ℕ, ◌≡◌, refl, sym, ap, ◌∙◌, true, false, List, [], ◌∷◌, ◌++◌, Option-cases, inl, inr, if-elim,
  leb, ◌+◌, ◌%◌, ◌^◌,
}
use uiconnect.Base.Outcome.{Outcome, ok, ◌>>=◌}
use uiconnect.Log.{Level, is_enabled}
use uiconnect.Log.Formatter.{LogItem, LogFormatter}
use uiconnect.Log.Outputter.{
  Target, stdout, file, LogOutputter, Effect, is_some, lend_formatter, reopen, log_file, log_stdout,
  log_enabled, present,
}
use uiconnect.Log.Outputter
use uiconnect.Log.Logger.{Heap, update, Logger, log_all, log_root, log_or_root, log}
use uiconnect.Log.Logger.Ready.{Has, IsReady, Keeps, Keeps-Has, Keeps-update}

none_some : false ≡ true → ⊥
none_some e = cc

module _ (strftime : List ℕ → ℕ → List ℕ) where
  abbrev Returns : Outcome (LogOutputter × List Effect) → Type 0
  Returns m = (r : LogOutputter × List Effect) × (m ≡ ok r) × (is_some r.0.formatter ≡ true)

  present-Returns :
      (p : LogOutputter) (k : LogFormatter → List Effect)
      → is_some p.formatter ≡ true
      → Returns (present p.formatter >>= λ f. ok (p, k f))
  present-Returns p k e = (elim (Option-cases p.formatter) [
    | inl c ↦ absurd (none_some (ap is_some (sym c) ∙ e))
    | inr (f, c) ↦ ((p, k f), ap (λ o. present o >>= λ g. ok (p, k g)) c, e)
  ])

  log_enabled-Returns :
      (target : Target) (o : LogOutputter) (level : Level) (item : LogItem)
      → is_some o.formatter ≡ true
      → Returns (log_enabled strftime true target o level item)
  unfolding log_enabled log_file log_stdout reopen
  log_enabled-Returns stdout o level item e = present-Returns o _ e
  log_enabled-Returns (file name) o level item e = present-Returns _ _ (
      if-elim (λ (p : LogOutputter). is_some p.formatter ≡ true)
        (leb ((o.last_time + 3) % 2 ^ 64) item.time) (λ c. e) (λ c. e))

  outputter_log :
      (o : LogOutputter) (level : Level) (item : LogItem)
      → is_some o.formatter ≡ true
      → Returns (Outputter.log strftime true o level item)
  unfolding Outputter.log
  outputter_log o level item e =
      if-elim Returns (is_enabled o.level level) (λ c. log_enabled-Returns o.target o level item e)
        (λ c. ((o, []), refl, e))

  abbrev Logs : Heap → Outcome (Heap × List Effect) → Type 0
  Logs h m = (r : Heap × List Effect) × (m ≡ ok r) × Keeps h r.0

  log_all-Logs :
      (h : Heap) (outs : List ℕ) (level : Level) (item : LogItem)
      → Has h outs
      → Logs h (log_all strftime true h outs level item)
  unfolding log_all
  log_all-Logs h [] level item has = ((h, []), refl, λ b k. k)
  log_all-Logs h (a ∷ rest) level item (e, has) =
      let (r, p, s) = outputter_log (h a) level item e in
      let k = Keeps-update h a r.0 s in
      let (more, q, m) =
        log_all-Logs (update h a r.0) rest level item (Keeps-Has h (update h a r.0) rest k has) in
      ((more.0, r.1 ++ more.1), rw p (rw q refl), λ b x. m b (k b x))

  log_root-Logs :
      (h : Heap) (l : Logger) (level : Level) (item : LogItem)
      → Has h l.outputters
      → Logs h (log_root strftime true h l level item)
  unfolding log_root
  log_root-Logs h l level item has =
      if-elim (Logs h) (is_enabled l.level level) (λ c. log_all-Logs h l.outputters level item has)
        (λ c. ((h, []), refl, λ b k. k))

  log_or_root-Logs :
      (h : Heap) (root l : Logger) (outs : List ℕ) (level : Level) (item : LogItem)
      → Has h root.outputters
      → Has h outs
      → Logs h (log_or_root strftime true h root l outs level item)
  unfolding log_or_root
  log_or_root-Logs h root l [] level item ready has =
      if-elim (Logs h) l.has_root (λ c. log_root-Logs h root level item ready)
        (λ c. ((h, []), refl, λ b k. k))
  log_or_root-Logs h root l (a ∷ rest) level item ready has =
      log_all-Logs h (a ∷ rest) level item has

  -- Where every file opens, a logger logs, and the root for it, if both have formatters and so have
  -- their outputters; they have them afterwards too.
  pub log-IsReady :
      (h : Heap) (root l : Logger) (level : Level) (item : LogItem)
      → IsReady h root
      → IsReady h l
      → (r : Heap × List Effect) × (log strftime true h root l level item ≡ ok r)
        × IsReady r.0 root
        × IsReady r.0 l
  unfolding log
  log-IsReady h root l level item (e, has) (d, more) =
      let (r, p, k) =
        if-elim (Logs h) (is_enabled l.level level)
          (λ c. log_or_root-Logs h root l l.outputters level item has more)
          (λ c. ((h, []), refl, λ b x. x)) in
      (r, p, (e, Keeps-Has h r.0 root.outputters k has), (d, Keeps-Has h r.0 l.outputters k more))
