-- ===== src/Hook/Table.antt =====
-- What FDManager::get does, slot by slot.
use uiconnect.Base.{
  ℕ, zero, suc, ◌≤◌, ◌<◌, ◌≡◌, refl, Bool, true, false, Option, none, some, [], ◌∷◌, length,
  get_elem?, set, le→leb, gt→leb, lt→ltb, arith,
}
use uiconnect.Base.Outcome.{Outcome, ok, fault, ◌>>=◌}
use uiconnect.Hook.{
  Stat, stat_socket, FdItem, new_item, create, FdManager, at_index, get_slot, put_item, get_with,
  get,
}

pub get_elem?-set :
    (fds : FdManager) (fd : ℕ) (slot : Option FdItem)
    → fd < length fds
    → get_elem? (set fds fd slot) fd ≡ some slot
get_elem?-set [] fd slot h = absurd (omega arith)
get_elem?-set (x ∷ xs) zero slot h = refl
get_elem?-set (x ∷ xs) (suc fd) slot h = get_elem?-set xs fd slot (omega arith)

pub get_elem?_lt :
    (fds : FdManager) (fd : ℕ)
    → fd < length fds
    → (slot : Option FdItem) × (get_elem? fds fd ≡ some slot)
get_elem?_lt [] fd h = absurd (omega arith)
get_elem?_lt (x ∷ xs) zero h = (x, refl)
get_elem?_lt (x ∷ xs) (suc fd) h = get_elem?_lt xs fd (omega arith)

out_of_range : (fds : FdManager) (fd : ℕ) → length fds ≤ fd → get_elem? fds fd ≡ none
out_of_range [] fd h = refl
out_of_range (x ∷ xs) zero h = absurd (omega arith)
out_of_range (x ∷ xs) (suc fd) h = out_of_range xs fd (omega arith)

-- One call of get, for what the hooked fcntl of a new item does.
module _ (asks : FdManager → Outcome FdManager) (stat : Stat) (fd : ℕ) (fds : FdManager) where
  there_with :
      (make : Bool) (item : FdItem)
      → fd < length fds
      → get_elem? fds fd ≡ some (some item)
      → get_with asks stat fd make fds ≡ ok (some item, fds)
  unfolding get_with at_index get_slot
  there_with make item h e = rw (gt→leb (length fds) fd h) (rw (e, at_index) refl)

  missing_with :
      (make : Bool)
      → fd < length fds
      → get_elem? fds fd ≡ some none
      → stat_socket stat ≡ false
      → get_with asks stat fd make fds
        ≡ ok (some (new_item stat fd), set fds fd (some (new_item stat fd)))
  unfolding get_with at_index get_slot create put_item
  missing_with make h e plain = rw (gt→leb (length fds) fd h) (
      rw (e, at_index)
        (rw (plain, create) (rw (gt→leb (length fds) fd h) (rw (lt→ltb fd (length fds) h) refl))))

  endless_with :
      (make : Bool)
      → fd < length fds
      → get_elem? fds fd ≡ some none
      → stat_socket stat ≡ true
      → asks fds ≡ fault
      → get_with asks stat fd make fds ≡ fault
  unfolding get_with at_index get_slot create
  endless_with make h e sock ends =
      rw (gt→leb (length fds) fd h) (rw (e, at_index) (rw (sock, create) (rw ends refl)))

  behind_with :
      length fds ≤ fd
      → (get_with asks stat fd false fds ≡ ok (none, fds))
        × (get_with asks stat fd true fds ≡ fault)
  unfolding get_with at_index
  behind_with h = (
    rw (le→leb (length fds) fd h) refl,
    rw (le→leb (length fds) fd h) (rw (out_of_range fds fd h, at_index) refl),
  )

module _ (stat : Stat) (fd : ℕ) (fds : FdManager) where
  -- what the hooked fcntl does, with room for none or for some calls of get
  abbrev overflows : FdManager → Outcome FdManager
  overflows t = fault

  abbrev nested : ℕ → FdManager → Outcome FdManager
  nested depth t = get depth stat fd false t >>= λ r. ok r.1

  -- get of a descriptor whose slot has an item returns it.
  pub get_there :
      (depth : ℕ) (make : Bool) (item : FdItem)
      → fd < length fds
      → get_elem? fds fd ≡ some (some item)
      → get depth stat fd make fds ≡ ok (some item, fds)
  unfolding get
  get_there zero make item h e = there_with overflows stat fd fds make item h e
  get_there (suc depth) make item h e = there_with (nested depth) stat fd fds make item h e

  -- Where its slot has none, and it is not a socket, a new item comes into it.
  pub get_missing :
      (depth : ℕ) (make : Bool)
      → fd < length fds
      → get_elem? fds fd ≡ some none
      → stat_socket stat ≡ false
      → get depth stat fd make fds
        ≡ ok (some (new_item stat fd), set fds fd (some (new_item stat fd)))
  unfolding get
  get_missing zero make h e plain = missing_with overflows stat fd fds make h e plain
  get_missing (suc depth) make h e plain = missing_with (nested depth) stat fd fds make h e plain

  -- Where its slot has none, and it is a socket, get calls itself until the stack is used up, however
  -- much of it there is.
  pub get_endless :
      (depth : ℕ) (make : Bool)
      → fd < length fds
      → get_elem? fds fd ≡ some none
      → stat_socket stat ≡ true
      → get depth stat fd make fds ≡ fault
  unfolding get
  get_endless zero make h e sock = endless_with overflows stat fd fds make h e sock refl
  get_endless (suc depth) make h e sock =
      endless_with (nested depth) stat fd fds make h e sock
        (rw (get_endless depth false h e sock) refl)

  -- From size() on get gives nothing where it is not asked to make an item, and where it is it reads
  -- behind the table before it makes it larger.
  pub get_behind :
      (depth : ℕ)
      → length fds ≤ fd
      → (get depth stat fd false fds ≡ ok (none, fds)) × (get depth stat fd true fds ≡ fault)
  unfolding get
  get_behind zero h = behind_with overflows stat fd fds h
  get_behind (suc depth) h = behind_with (nested depth) stat fd fds h
