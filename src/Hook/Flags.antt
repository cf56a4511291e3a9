-- ===== src/Hook/Flags.antt =====
-- What do_io makes of a descriptor, and a descriptor's flags.
use uiconnect.Base.{ℕ, ◌≢◌, ap, Bool, true, false, Option, none, some, Bool-cases, inl, inr}
use mathlib.Core.Path.{subst}
use uiconnect.Base.Outcome.{ok, bind_ok, ok-injective}
use uiconnect.Hook.{
  Stat, FdItem, FdManager, get, TimeoutType, Io, original, ebadf, waits, do_io_on, do_io,
}

-- a result other than waiting
abbrev IsDirect : Io → Type 0
IsDirect original = Unit {0}
IsDirect ebadf = Unit {0}
IsDirect (waits t) = ⊥

do_io_on-IsDirect : (kind : TimeoutType) (o : Option FdItem) → IsDirect (do_io_on kind o)
unfolding do_io_on
do_io_on-IsDirect kind none = tt
do_io_on-IsDirect kind (some fdi) = (elim (Bool-cases fdi.is_closed) [
  | inl e ↦ rw e tt
  | inr e ↦ rw e tt
])

-- do_io never waits in a coroutine, whatever the descriptor, its timeout and the switch of the hooks.
pub do_io_lem :
    (depth : ℕ) (enabled : Bool) (kind : TimeoutType) (stat : Stat) (fd t : ℕ)
    (fds fds' : FdManager)
    → do_io depth enabled kind stat fd fds ≢ ok (waits t, fds')
unfolding do_io
do_io_lem depth true kind stat fd t fds fds' h =
    let (r, p, q) = bind_ok (get depth stat fd false fds) _ h in
    subst IsDirect (ap (λ (x : Io × FdManager). x.0) (ok-injective q)) (do_io_on-IsDirect kind r.0)
do_io_lem depth false kind stat fd t fds fds' h =
    subst IsDirect (ap (λ (x : Io × FdManager). x.0) (ok-injective h)) tt
