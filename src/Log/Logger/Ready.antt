-- ===== src/Log/Logger/Ready.antt =====
-- A logger that has a formatter, and so does each of its outputters: nothing is called through a null
-- pointer when it logs.
use uiconnect.Base.{
  ℕ, ◌≡◌, refl, ap, ◌∙◌, true, Option, none, some, List, [], ◌∷◌, ◌++◌, ◌==◌, if-elim, ==_refl,
}
use uiconnect.Log.{Level}
use uiconnect.Log.Formatter.{LogFormatter, create}
use uiconnect.Log.Formatter.Rendered.{create_total}
use uiconnect.Log.Outputter.{LogOutputter, is_some, lend_formatter}
use uiconnect.Log.Logger.{
  Heap, update, Logger, new_logger, lend_all, set_formatter, set_new, set_pattern, add_outputter,
  set_level, remove_first, del_outputter, clear_outputters,
}

abbrev pub Has : Heap → List ℕ → Type 0
Has h [] = Unit {0}
Has h (a ∷ rest) = (is_some (h a).formatter ≡ true) × Has h rest

abbrev pub IsReady : Heap → Logger → Type 0
IsReady h l = (is_some l.formatter ≡ true) × Has h l.outputters

-- No outputter loses its formatter.
abbrev pub Keeps : Heap → Heap → Type 0
Keeps h g = (b : ℕ) → is_some (h b).formatter ≡ true → is_some (g b).formatter ≡ true

pub Keeps-Has : (h g : Heap) (outs : List ℕ) → Keeps h g → Has h outs → Has g outs
Keeps-Has h g [] k has = tt
Keeps-Has h g (a ∷ rest) k (has, more) = (k a has, Keeps-Has h g rest k more)

pub Keeps-update :
    (h : Heap) (a : ℕ) (o : LogOutputter) → is_some o.formatter ≡ true → Keeps h (update h a o)
Keeps-update h a o e b k =
    if-elim (λ (p : LogOutputter). is_some p.formatter ≡ true) (b == a) (λ c. e) (λ c. k)

Keeps-lend :
    (val : Option LogFormatter) (h : Heap) (outs : List ℕ)
    → is_some val ≡ true
    → Keeps h (lend_all val h outs)
unfolding lend_all lend_formatter
Keeps-lend val h [] e b k = k
Keeps-lend val h (a ∷ rest) e b k =
    if-elim (λ (g : Heap). is_some (lend_all val g rest b).formatter ≡ true) (h a).has_formatter
      (λ c. Keeps-lend val h rest e b k)
      (λ c.
        Keeps-lend val (update h a (lend_formatter val (h a))) rest e b
          (Keeps-update h a (lend_formatter val (h a)) e b k))

set_formatter-IsReady :
    (f : LogFormatter) (h : Heap) (l : Logger)
    → IsReady h l
    → (let r = set_formatter (some f) h l in IsReady r.0 r.1 × Keeps h r.0)
unfolding set_formatter
set_formatter-IsReady f h l (e, has) =
    let k = Keeps-lend (some f) h l.outputters refl in
    ((refl, Keeps-Has h (lend_all (some f) h l.outputters) l.outputters k has), k)

set_new-IsReady :
    (o : Option LogFormatter) (h : Heap) (l : Logger)
    → IsReady h l
    → (let r = set_new o h l in IsReady r.0 r.1 × Keeps h r.0)
unfolding set_new
set_new-IsReady none h l ready = (ready, λ b k. k)
set_new-IsReady (some f) h l ready =
    if-elim (λ (r : Heap × Logger). IsReady r.0 r.1 × Keeps h r.0) f.error (λ c. (ready, λ b k. k))
      (λ c. set_formatter-IsReady f h l ready)

Has-append : (h : Heap) (xs ys : List ℕ) → Has h xs → Has h ys → Has h (xs ++ ys)
Has-append h [] ys p q = q
Has-append h (x ∷ xs) ys (p, ps) q = (p, Has-append h xs ys ps q)

update_self : (h : Heap) (a : ℕ) (o : LogOutputter) → update h a o a ≡ o
update_self h a o = rw (==_refl a) refl

add_outputter-IsReady :
    (a : ℕ) (h : Heap) (l : Logger)
    → IsReady h l
    → (let r = add_outputter a h l in IsReady r.0 r.1 × Keeps h r.0)
unfolding add_outputter lend_formatter
add_outputter-IsReady a h l (e, has) =
    let o = lend_formatter l.formatter (h a) in
    let P : Heap → Type 0 =
      λ g. IsReady g (record l { outputters = l.outputters ++ a ∷ [] }) × Keeps h g in
    let with_it : (g : Heap) → Keeps h g → is_some (g a).formatter ≡ true → P g = λ g k s.
      ((e, Has-append g l.outputters (a ∷ []) (Keeps-Has h g l.outputters k has) (s, tt)), k) in
    if-elim P (is_some (h a).formatter) (λ c. with_it h (λ b k. k) c)
      (λ c.
        with_it (update h a o) (Keeps-update h a o e)
          (ap (λ (p : LogOutputter). is_some p.formatter) (update_self h a o) ∙ e))

Has-remove_first : (h : Heap) (a : ℕ) (outs : List ℕ) → Has h outs → Has h (remove_first a outs)
unfolding remove_first
Has-remove_first h a [] has = tt
Has-remove_first h a (b ∷ rest) (has, more) =
    if-elim (Has h) (b == a) (λ c. more) (λ c. (has, Has-remove_first h a rest more))

-- What can be done to a logger, one call at a time; the formatter of setFormatter is not null.
pub data Call : Type 0 where
  set_formatter_to : LogFormatter → Call
  set_pattern_to : List ℕ → Call
  add : ℕ → Call
  del : ℕ → Call
  clear : Call
  set_level_to : Level → Call

abbrev pub run : Call → Heap → Logger → Heap × Logger
unfolding set_formatter set_pattern add_outputter del_outputter clear_outputters set_level
run (set_formatter_to f) h l = set_formatter (some f) h l
run (set_pattern_to val) h l = set_pattern val h l
run (add a) h l = add_outputter a h l
run (del a) h l = (h, del_outputter a l)
run clear h l = (h, clear_outputters l)
run (set_level_to val) h l = (h, set_level val l)

abbrev pub run_all : List Call → Heap → Logger → Heap × Logger
unfolding run
run_all [] h l = (h, l)
run_all (c ∷ rest) h l = let r = run c h l in run_all rest r.0 r.1

run-IsReady :
    (c : Call) (h : Heap) (l : Logger) → IsReady h l → (let r = run c h l in IsReady r.0 r.1)
unfolding run del_outputter clear_outputters set_level set_pattern
run-IsReady (set_formatter_to f) h l ready = (set_formatter-IsReady f h l ready).0
run-IsReady (set_pattern_to val) h l ready = (set_new-IsReady (create val) h l ready).0
run-IsReady (add a) h l ready = (add_outputter-IsReady a h l ready).0
run-IsReady (del a) h l (e, has) = (e, Has-remove_first h a l.outputters has)
run-IsReady clear h l (e, has) = (e, tt)
run-IsReady (set_level_to val) h l ready = ready

-- Where a logger and its outputters have formatters, they still have them after any calls.
pub run_all-IsReady :
    (calls : List Call) (h : Heap) (l : Logger)
    → IsReady h l
    → (let r = run_all calls h l in IsReady r.0 r.1)
unfolding run_all
run_all-IsReady [] h l ready = ready
run_all-IsReady (c ∷ rest) h l ready =
    let r = run c h l in run_all-IsReady rest r.0 r.1 (run-IsReady c h l ready)

pub new_logger-IsReady : (h : Heap) (name : List ℕ) → IsReady h (new_logger name)
unfolding new_logger
new_logger-IsReady h name = rw (create_total _).1 (refl, tt)
