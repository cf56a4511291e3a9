-- ===== src/Hook/Calls/Connecting.antt =====
-- The hooked connect.
use uiconnect.Base.{
  ℕ, ◌≤◌, ◌<◌, ◌≡◌, ◌⊎◌, refl, ap, ◌∙◌, Bool, true, false, none, some, List, length, get_elem?,
  Bool-cases, Option-cases, ltb, ltb→lt, ltb→ge, inl, inr, arith,
}
use uiconnect.Base.Outcome.{ok, fault}
use uiconnect.Hook.{stat_socket, FdItem, FdManager}
use uiconnect.Hook.Table.{get_elem?_lt, get_there, get_endless, get_behind}
use uiconnect.Hook.Calls.{
  bad_fd, failed, Kernel, connect_on, connect_with_timeout, Call, connect, perform, run,
  new_manager,
}
use uiconnect.Hook.Calls.Open.{IsOther, AllOther-get_elem?}
use uiconnect.Hook.Calls.Kept.{run-new_manager}

connect_on-plain :
    (timeout : ℕ) (k : Kernel) (item : FdItem)
    → IsOther (some item)
    → connect_on timeout k (some item) ≡ ok (k.answers 0)
unfolding connect_on
connect_on-plain timeout k item other = rw (other.0, other.1) refl

-- After any hooked calls that return, connect of a socket with the hooks enabled never waits: from
-- descriptor 64 on it fails with EBADF and calls no original function; below that it returns what the
-- original function does where the slot has an item, and does not return where it has none.
pub run-connect :
    (calls : List (Bool × Kernel × Call)) (fds : FdManager) (k : Kernel) (timeout fd : ℕ)
    → run calls new_manager ≡ ok fds
    → stat_socket (k.stat fd) ≡ true
    → ((64 ≤ fd) × (perform true k (connect timeout fd) fds ≡ ok (failed bad_fd, fds)))
      ⊎ (((item : FdItem) × (get_elem? fds fd ≡ some (some item))
            × (perform true k (connect timeout fd) fds ≡ ok (k.answers 0, fds)))
          ⊎ ((get_elem? fds fd ≡ some none) × (perform true k (connect timeout fd) fds ≡ fault)))
unfolding perform connect_with_timeout connect_on
run-connect calls fds k timeout fd e sock =
    let h = run-new_manager calls fds e in
    (elim (Bool-cases (ltb fd 64)) [
      | inr ge ↦
          let le = ltb→ge fd 64 ge in
          inl (le, rw (get_behind (k.stat fd) fd fds k.depth (omega (arith, h.1))).0 refl)
      | inl lt ↦
          let within : fd < length fds = omega (arith, ltb→lt fd 64 lt, h.1) in
          let (slot, p) = get_elem?_lt fds fd within in
          inr (elim (Option-cases slot) [
            | inl missing ↦
                let free = p ∙ ap some missing in
                inr (free, rw (get_endless (k.stat fd) fd fds k.depth false within free sock) refl)
            | inr (item, there) ↦
                let found = p ∙ ap some there in
                let other = AllOther-get_elem? fds fd (some item) h.0 found in
                inl (
                  item,
                  found,
                  rw (get_there (k.stat fd) fd fds k.depth false item within found)
                      (rw (connect_on-plain timeout k item other) refl),
                )
          ])
    ])
