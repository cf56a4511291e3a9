-- ===== src/Hook/Calls/Open.antt =====
-- Tables of descriptors whose items are open, and none of a socket, under get and the changes of an
-- item.
use uiconnect.Base.{
  ℕ, zero, suc, ◌<◌, ◌≡◌, ◌⊎◌, refl, ap, ◌∙◌, Bool, true, false, Option, none, some, [], ◌∷◌,
  length, get_elem?, set, length-set, Bool-cases, Option-cases, ltb, ltb→lt, ltb→ge, leb, if-elim,
  inl, inr, arith,
}
use mathlib.Core.Path.{subst}
use uiconnect.Base.Outcome.{Outcome, ok, fault}
use uiconnect.Hook.{
  Stat, stat_socket, FdItem, new_item, FdManager, get, del, TimeoutType, so_rcvtimeo, so_sndtimeo,
  set_timeout, set_flags, set_fionbio, set_socket_timeout, is_plain, do_io, do_io_on,
}
use uiconnect.Hook.Table.{get_elem?_lt, get_there, get_missing, get_endless, get_behind}
use uiconnect.Hook.Calls.{
  Answer, failed, bad_fd, connect_on, done, Kernel, finish_io, call_io, add_item, change_slot,
  del_slot,
}

abbrev pub IsOther : Option FdItem → Type 0
IsOther none = Unit {0}
IsOther (some item) = (item.is_closed ≡ false) × (item.is_socket ≡ false)

abbrev pub AllOther : FdManager → Type 0
AllOther [] = Unit {0}
AllOther (slot ∷ slots) = IsOther slot × AllOther slots

-- a table of n slots whose items are open, and none of a socket
abbrev pub IsTable : ℕ → FdManager → Type 0
IsTable n fds = AllOther fds × (length fds ≡ n)

AllOther-set :
    (fds : FdManager) (i : ℕ) (slot : Option FdItem)
    → AllOther fds
    → IsOther slot
    → AllOther (set fds i slot)
AllOther-set [] i slot h o = tt
AllOther-set (x ∷ xs) zero slot h o = (o, h.1)
AllOther-set (x ∷ xs) (suc i) slot h o = (h.0, AllOther-set xs i slot h.1 o)

pub AllOther-get_elem? :
    (fds : FdManager) (i : ℕ) (slot : Option FdItem)
    → AllOther fds
    → get_elem? fds i ≡ some slot
    → IsOther slot
AllOther-get_elem? [] i slot h e = cc
AllOther-get_elem? (x ∷ xs) zero slot h e = subst IsOther (cc) h.0
AllOther-get_elem? (x ∷ xs) (suc i) slot h e = AllOther-get_elem? xs i slot h.1 e

IsTable-set :
    (n : ℕ) (fds : FdManager) (i : ℕ) (slot : Option FdItem)
    → IsTable n fds
    → IsOther slot
    → IsTable n (set fds i slot)
IsTable-set n fds i slot (h, e) o = (AllOther-set fds i slot h o, length-set fds i slot ∙ e)

-- The slot is empty, and the descriptor is a socket: get does not return.
abbrev pub IsEndless : ℕ → Stat → ℕ → FdManager → Type 0
IsEndless n stat fd fds = (fd < n) × (get_elem? fds fd ≡ some none) × (stat_socket stat ≡ true)

-- get returns an item, or none, and leaves a table of the same size.
abbrev pub Gets : ℕ → FdManager → Outcome (Option FdItem × FdManager) → Type 0
Gets n fds m =
    (o : Option FdItem) × (fds' : FdManager) × (m ≡ ok (o, fds')) × IsOther o × IsTable n fds'

get_below :
    (n depth : ℕ) (stat : Stat) (fd : ℕ) (make : Bool) (fds : FdManager)
    → IsTable n fds
    → fd < n
    → Gets n fds (get depth stat fd make fds)
      ⊎ (IsEndless n stat fd fds × (get depth stat fd make fds ≡ fault))
unfolding new_item
get_below n depth stat fd make fds h lt =
    let within : fd < length fds = omega (arith, h.1) in
    let (slot, e) = get_elem?_lt fds fd within in
    (elim (Option-cases slot) [
      | inl missing ↦
          let free = e ∙ ap some missing in
          (elim (Bool-cases (stat_socket stat)) [
            | inl sock ↦ inr ((lt, free, sock), get_endless stat fd fds depth make within free sock)
            | inr plain ↦
                let item = some (new_item stat fd) in
                inl (
                  item,
                  set fds fd item,
                  get_missing stat fd fds depth make within free plain,
                  (refl, plain),
                  IsTable-set n fds fd item h (refl, plain),
                )
          ])
      | inr (item, there) ↦
          let found = e ∙ ap some there in
          inl (
            some item,
            fds,
            get_there stat fd fds depth make item within found,
            AllOther-get_elem? fds fd (some item) h.0 found,
            h,
          )
    ])

-- A get that is not asked to make an item returns, but for a socket in an empty slot.
pub get-IsTable :
    (n depth : ℕ) (stat : Stat) (fd : ℕ) (fds : FdManager)
    → IsTable n fds
    → Gets n fds (get depth stat fd false fds)
      ⊎ (IsEndless n stat fd fds × (get depth stat fd false fds ≡ fault))
get-IsTable n depth stat fd fds h = (elim (Bool-cases (ltb fd n)) [
  | inl lt ↦ get_below n depth stat fd false fds h (ltb→lt fd n lt)
  | inr ge ↦
      inl (none, fds, (get_behind stat fd fds depth (omega (arith, ltb→ge fd n ge, h.1))).0, tt, h)
])

finish-original :
    (kind : TimeoutType) (k : Kernel) (o : Option FdItem)
    → IsOther o
    → finish_io k (do_io_on kind o) ≡ ok (k.answers 0)
unfolding finish_io do_io_on
finish-original kind k none other = refl
finish-original kind k (some item) other = rw other.0 refl

-- Input and output is what the original call does, where it returns; with the hooks enabled, on a
-- socket in an empty slot, it does not.
pub call_io-original :
    (enabled : Bool) (kind : TimeoutType) (k : Kernel) (fd n : ℕ) (fds : FdManager)
    → IsTable n fds
    → ((fds' : FdManager) × (call_io enabled kind k fd fds ≡ ok (k.answers 0, fds'))
        × IsTable n fds')
      ⊎ ((enabled ≡ true)
          × IsEndless n (k.stat fd) fd fds
          × (call_io enabled kind k fd fds ≡ fault))
unfolding call_io do_io finish_io
call_io-original false kind k fd n fds h = inl (fds, refl, h)
call_io-original true kind k fd n fds h = (elim (get-IsTable n k.depth (k.stat fd) fd fds h) [
  | inl (o, fds', e, other, table) ↦
      inl (fds', rw e (rw (finish-original kind k o other) refl), table)
  | inr (endless, e) ↦ inr (refl, endless, rw e refl)
])

-- What get(fd, true) makes of a descriptor of a socket: it has an item already, and none of a socket, or
-- it does not return.
pub add_item-socket :
    (k : Kernel) (fd n : ℕ) (fds : FdManager)
    → IsTable n fds
    → stat_socket (k.stat fd) ≡ true
    → ((item : FdItem) × (get_elem? fds fd ≡ some (some item))
        × (item.is_socket ≡ false)
        × (add_item k (done fd) fds ≡ ok (done fd, fds)))
      ⊎ (((fd < n → get_elem? fds fd ≡ some none)) × (add_item k (done fd) fds ≡ fault))
unfolding add_item
add_item-socket k fd n fds h sock = (elim (Bool-cases (ltb fd n)) [
  | inl lt ↦
      let within : fd < length fds = omega (arith, ltb→lt fd n lt, h.1) in
      let (slot, e) = get_elem?_lt fds fd within in
      (elim (Option-cases slot) [
        | inl missing ↦
            let free = e ∙ ap some missing in
            inr (λ w. free, rw (get_endless (k.stat fd) fd fds k.depth true within free sock) refl)
        | inr (item, there) ↦
            let found = e ∙ ap some there in
            inl (
              item,
              found,
              (AllOther-get_elem? fds fd (some item) h.0 found).1,
              rw (get_there (k.stat fd) fd fds k.depth true item within found) refl,
            )
      ])
  | inr ge ↦
      let le = ltb→ge fd n ge in
      inr (
        λ w. absurd (omega arith),
        rw (get_behind (k.stat fd) fd fds k.depth (omega (arith, h.1))).1 refl,
      )
])

-- A descriptor is added to the table, or the call does not return.
pub add_item-IsTable :
    (k : Kernel) (fd n : ℕ) (fds : FdManager)
    → IsTable n fds
    → ((fds' : FdManager) × (add_item k (done fd) fds ≡ ok (done fd, fds')) × IsTable n fds')
      ⊎ (add_item k (done fd) fds ≡ fault)
unfolding add_item
add_item-IsTable k fd n fds h = (elim (Bool-cases (ltb fd n)) [
  | inl lt ↦ (elim (get_below n k.depth (k.stat fd) fd true fds h (ltb→lt fd n lt)) [
    | inl (o, fds', e, other, table) ↦ inl (fds', rw e refl, table)
    | inr (endless, e) ↦ inr (rw e refl)
  ])
  | inr ge ↦
      inr (rw (get_behind (k.stat fd) fd fds k.depth (omega (arith, ltb→ge fd n ge, h.1))).1 refl)
])

-- A change of an item that keeps whether it is closed and whether it is a socket.
abbrev pub IsMild : (FdItem → FdItem) → Type 0
IsMild change =
    (item : FdItem)
    → ((change item).is_closed ≡ item.is_closed) × ((change item).is_socket ≡ item.is_socket)

pub change_slot-IsTable :
    (change : FdItem → FdItem) (fd n : ℕ) (o : Option FdItem) (fds : FdManager)
    → IsMild change
    → IsOther o
    → IsTable n fds
    → IsTable n (change_slot change fd o fds)
change_slot-IsTable change fd n none fds keeps is_open h = h
change_slot-IsTable change fd n (some item) fds keeps is_open h =
    IsTable-set n fds fd (some (change item)) h
      ((keeps item).0 ∙ is_open.0, (keeps item).1 ∙ is_open.1)

pub del_slot-IsTable :
    (fd n : ℕ) (o : Option FdItem) (fds : FdManager) → IsTable n fds → IsTable n (del_slot fd o fds)
unfolding del_slot del
del_slot-IsTable fd n none fds h = h
del_slot-IsTable fd n (some item) fds h =
    if-elim (IsTable n) (leb (length fds) fd) (λ e. h) (λ e. IsTable-set n fds fd none h tt)

-- The changes of the flags and the timeouts are such.
pub set_flags-IsMild : (arg : ℕ) → IsMild (λ item. (set_flags arg item).0)
unfolding set_flags
set_flags-IsMild arg item =
    if-elim
      (λ (r : FdItem × ℕ). (r.0.is_closed ≡ item.is_closed) × (r.0.is_socket ≡ item.is_socket))
      (is_plain item) (λ e. (refl, refl)) (λ e. (refl, refl))

pub set_fionbio-IsMild : (value : ℕ) → IsMild (set_fionbio value)
unfolding set_fionbio
set_fionbio-IsMild value item =
    if-elim (λ (r : FdItem). (r.is_closed ≡ item.is_closed) × (r.is_socket ≡ item.is_socket))
      (is_plain item) (λ e. (refl, refl)) (λ e. (refl, refl))

pub set_socket_timeout-IsMild :
    (kind : TimeoutType) (sec usec : ℕ) → IsMild (set_socket_timeout kind sec usec)
unfolding set_socket_timeout set_timeout
set_socket_timeout-IsMild so_rcvtimeo sec usec item = (refl, refl)
set_socket_timeout-IsMild so_sndtimeo sec usec item = (refl, refl)

-- connect of an item that is open and none of a socket is the original call; with no item it fails.
pub connect_on-other :
    (timeout : ℕ) (k : Kernel) (o : Option FdItem)
    → IsOther o
    → (ret : Answer) × (connect_on timeout k o ≡ ok ret)
unfolding connect_on
connect_on-other timeout k none other = (failed bad_fd, refl)
connect_on-other timeout k (some item) other = (k.answers 0, rw (other.0, other.1) refl)
