-- ===== src/Hook/Calls/Kept.antt =====
-- The table of descriptors after any hooked calls, and what the calls then do.
use uiconnect.Base.{
  ℕ, zero, suc, ◌<◌, ◌≡◌, ◌⊎◌, sym, Bool, true, false, Option, none, some, List, [], ◌∷◌, get_elem?,
  replicate, length-replicate, if-elim, inl, inr,
}
use mathlib.Core.Path.{subst}
use uiconnect.Base.Outcome.{Outcome, ok, ok-injective, thrown, fault, ◌>>=◌, bind_ok}
use uiconnect.Hook.{
  Stat, stat_socket, FdItem, FdManager, get, TimeoutType, so_rcvtimeo, set_flags, set_fionbio,
  set_socket_timeout, do_io,
}
use uiconnect.Hook.Calls.{
  Answer, done, failed, Kernel, add_item, change_item, connect_with_timeout, Call, socket, connect,
  accept, transfer, close, fcntl_setfl, fcntl_getfl, change_slot, del_slot, read_flags,
  ioctl_fionbio, setsockopt, close_fd, call_io, finish_io, perform, run, new_manager,
}
use uiconnect.Hook.Calls.Open.{
  IsOther, AllOther, IsTable, IsEndless, get-IsTable, call_io-original, add_item-IsTable,
  add_item-socket, IsMild, change_slot-IsTable, del_slot-IsTable, connect_on-other,
  set_flags-IsMild, set_fionbio-IsMild, set_socket_timeout-IsMild,
}

-- What a call may do to a table of n slots: it returns with one, or does not return.
abbrev pub Keeps {ℓ} : {A : Type ℓ} → ℕ → Outcome (A × FdManager) → Type 0
Keeps n (ok r) = IsTable n r.1
Keeps n thrown = ⊥
Keeps n fault = Unit {0}

-- a get that is not asked to make an item, and what a call makes of the item and the table
get-Keeps {ℓ} :
    {A : Type ℓ} (n depth : ℕ) (stat : Stat) (fd : ℕ) (fds : FdManager) (ret : Option FdItem → A)
    (next : Option FdItem → FdManager → FdManager)
    → IsTable n fds
    → ((o : Option FdItem) (fds' : FdManager)
        → IsOther o
        → IsTable n fds'
        → IsTable n (next o fds'))
    → Keeps n (get depth stat fd false fds >>= λ r. ok (ret r.0, next r.0 r.1))
get-Keeps n depth stat fd fds ret next h keeps = (elim (get-IsTable n depth stat fd fds h) [
  | inl (o, fds', e, other, table) ↦ rw e (keeps o fds' other table)
  | inr (endless, e) ↦ rw e tt
])

-- such a call that changes the item
changed-Keeps :
    (n : ℕ) (change : FdItem → FdItem) (k : Kernel) (fd : ℕ) (fds : FdManager)
    → IsTable n fds
    → IsMild change
    → Keeps n (change_item change k fd (k.answers 0) fds)
unfolding change_item
changed-Keeps n change k fd fds h mild =
    get-Keeps n k.depth (k.stat fd) fd fds (λ o. k.answers 0) (change_slot change fd) h
      (λ o fds' other table. change_slot-IsTable change fd n o fds' mild other table)

add_item-Keeps :
    (k : Kernel) (ret : Answer) (n : ℕ) (fds : FdManager)
    → IsTable n fds
    → Keeps n (add_item k ret fds)
unfolding add_item
add_item-Keeps k (failed e) n fds h = h
add_item-Keeps k (done fd) n fds h = (elim (add_item-IsTable k fd n fds h) [
  | inl (fds', e, table) ↦ subst (Keeps n) (sym e) table
  | inr e ↦ subst (Keeps n) (sym e) tt
])

perform-Keeps :
    (enabled : Bool) (k : Kernel) (call : Call) (n : ℕ) (fds : FdManager)
    → IsTable n fds
    → Keeps n (perform enabled k call fds)
unfolding perform connect_with_timeout close_fd
perform-Keeps enabled k socket n fds h =
    if-elim (Keeps n) enabled (λ e. add_item-Keeps k (k.answers 0) n fds h) (λ e. h)
perform-Keeps enabled k (connect timeout fd) n fds h =
    if-elim (Keeps n) enabled
      (λ e. elim (get-IsTable n k.depth (k.stat fd) fd fds h) [
        | inl (o, fds', p, other, table) ↦
            let (ret, q) = connect_on-other timeout k o other in rw p (rw q table)
        | inr (endless, p) ↦ rw p tt
      ])
      (λ e. h)
perform-Keeps enabled k (accept s) n fds h =
    (elim (call_io-original enabled so_rcvtimeo k s n fds h) [
      | inl (fds', e, table) ↦ rw e (add_item-Keeps k (k.answers 0) n fds' table)
      | inr (on, endless, e) ↦ rw e tt
    ])
perform-Keeps enabled k (transfer kind fd) n fds h =
    (elim (call_io-original enabled kind k fd n fds h) [
      | inl (fds', e, table) ↦ rw e table
      | inr (on, endless, e) ↦ rw e tt
    ])
perform-Keeps enabled k (close fd) n fds h =
    if-elim (Keeps n) enabled
      (λ e.
        get-Keeps n k.depth (k.stat fd) fd fds (λ o. k.answers 0) (del_slot fd) h
          (λ o fds' other table. del_slot-IsTable fd n o fds' table))
      (λ e. h)
perform-Keeps enabled k (fcntl_setfl fd arg) n fds h =
    changed-Keeps n (λ item. (set_flags arg item).0) k fd fds h (set_flags-IsMild arg)
perform-Keeps enabled k (fcntl_getfl fd) n fds h =
    get-Keeps n k.depth (k.stat fd) fd fds (read_flags (k.answers 0)) (λ o fds'. fds') h
      (λ o fds' other table. table)
perform-Keeps enabled k (ioctl_fionbio fd value) n fds h =
    changed-Keeps n (set_fionbio value) k fd fds h (set_fionbio-IsMild value)
perform-Keeps enabled k (setsockopt kind fd sec usec) n fds h =
    if-elim (Keeps n) enabled
      (λ e.
        changed-Keeps n (set_socket_timeout kind sec usec) k fd fds h
          (set_socket_timeout-IsMild kind sec usec))
      (λ e. h)

run-IsTable :
    (calls : List (Bool × Kernel × Call)) (n : ℕ) (fds fds' : FdManager)
    → IsTable n fds
    → run calls fds ≡ ok fds'
    → IsTable n fds'
unfolding run
run-IsTable [] n fds fds' h e = subst (IsTable n) (ok-injective e) h
run-IsTable ((enabled, k, call) ∷ calls) n fds fds' h e =
    let (r, p, q) = bind_ok (perform enabled k call fds) (λ r. run calls r.1) e in
    run-IsTable calls n r.1 fds' (subst (Keeps n) p (perform-Keeps enabled k call n fds h)) q

new_manager-IsTable : IsTable 64 new_manager
new_manager-IsTable = (AllOther-replicate 64, length-replicate {A = Option FdItem} 64 none)
  where
    AllOther-replicate : (n : ℕ) → AllOther (replicate n none)
    AllOther-replicate zero = tt
    AllOther-replicate (suc n) = (tt, AllOther-replicate n)

-- After any calls that return the table has its 64 slots, and its items are open and none of a socket.
pub run-new_manager :
    (calls : List (Bool × Kernel × Call)) (fds : FdManager)
    → run calls new_manager ≡ ok fds
    → IsTable 64 fds
run-new_manager calls fds e = run-IsTable calls 64 new_manager fds new_manager-IsTable e

-- After any hooked calls that return, in threads with the hooks enabled or not, a call that reads or
-- writes returns what the original function returns at its first call, whatever that answers later;
-- the table still has 64 slots, and its items are open and none of a socket. Or else the hooks are
-- enabled, the descriptor is a socket below 64 that has no item, and the call does not return, however
-- much stack there is: the new item asks the hooked fcntl, which makes a new item.
pub run-transfer :
    (calls : List (Bool × Kernel × Call)) (fds : FdManager) (enabled : Bool) (k : Kernel)
    (kind : TimeoutType) (fd : ℕ)
    → run calls new_manager ≡ ok fds
    → ((fds' : FdManager) × (perform enabled k (transfer kind fd) fds ≡ ok (k.answers 0, fds'))
        × IsTable 64 fds')
      ⊎ ((enabled ≡ true)
          × IsEndless 64 (k.stat fd) fd fds
          × (perform enabled k (transfer kind fd) fds ≡ fault))
unfolding perform
run-transfer calls fds enabled k kind fd e =
    call_io-original enabled kind k fd 64 fds (run-new_manager calls fds e)

-- After any hooked calls that return, where the original accept, with the hooks not enabled, or the
-- original socket, with the hooks enabled, returns a descriptor of a socket, the hooked one returns
-- it where its slot has an item, which is none of a socket then. Or else the descriptor is 64 or more,
-- or its slot is empty, and neither returns: they read behind the table, or make items without end.
pub run-accept :
    (calls : List (Bool × Kernel × Call)) (fds : FdManager) (k : Kernel) (s fd : ℕ)
    → run calls new_manager ≡ ok fds
    → k.answers 0 ≡ done fd
    → stat_socket (k.stat fd) ≡ true
    → ((item : FdItem) × (get_elem? fds fd ≡ some (some item))
        × (item.is_socket ≡ false)
        × (perform false k (accept s) fds ≡ ok (done fd, fds))
        × (perform true k socket fds ≡ ok (done fd, fds)))
      ⊎ ((fd < 64 → get_elem? fds fd ≡ some none)
          × (perform false k (accept s) fds ≡ fault)
          × (perform true k socket fds ≡ fault))
unfolding perform call_io do_io finish_io
run-accept calls fds k s fd e answer sock =
    (elim (add_item-socket k fd 64 fds (run-new_manager calls fds e) sock) [
      | inl (item, found, plain, q) ↦ inl (item, found, plain, rw answer q, rw answer q)
      | inr (free, q) ↦ inr (free, rw answer q, rw answer q)
    ])
