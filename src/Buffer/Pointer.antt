-- ===== src/Buffer/Pointer.antt =====
-- Where the block pointers stand after Buffer::setMsg and ByteArray::hasRead.
use uiconnect.Base.{
  ℕ, ◌+◌, ◌-◌, ◌*◌, ◌/◌, ◌%◌, ◌≤◌, ◌<◌, ◌≡◌, refl, sym, ap, ◌∙◌, List, length, arith,
}
use uiconnect.Base.Outcome.{ok, ok_unique}
use uiconnect.ByteArray.{ByteArray, get_unread_size}
use uiconnect.ByteArray.Moves.{has_read}
use uiconnect.ByteArray.Sound.{IsSound}
use uiconnect.ByteArray.Sound.Write.{place, write_place, written, write_lem}
use uiconnect.ByteArray.Sound.Moves.{with_written, stepped, has_written_lem, has_read_lem}
use uiconnect.ByteArray.Sound.Read.{read_place}
use uiconnect.Buffer.{set_msg}
use native.Mathlib.Nat.{div-add-mod', mod-lt, mod-eq_of_lt, mul-add-mod_self_right, mod-eq-sub-mod}

-- The place of `pos` in its block and what n bytes have beyond whole blocks, from 1 to `base`, together.
abbrev pub fill_of : ℕ → ℕ → ℕ → ℕ
fill_of base pos n = pos % base + (n - 1) % base + 1

-- A pointer at its position is at the next position too, if those two are together less than a
-- block; else it is one block short.
pub place-stepped :
    (base k pos n : ℕ)
    → 0 < base
    → 0 < n
    → k * base + pos % base ≡ pos
    → (fill_of base pos n < base → place base (pos + n) (stepped base k n) ≡ pos + n)
      × (base ≤ fill_of base pos n → place base (pos + n) (stepped base k n) + base ≡ pos + n)
place-stepped base k pos n b h e =
    let q = (n - 1) / base in
    let t = fill_of base pos n in
    let whole : (k + q) * base + t ≡ pos + n = omega (arith, div-add-mod' (n - 1) base) in
    let rem : (pos + n) % base ≡ t % base =
      ap (λ x. x % base) (sym whole) ∙ mul-add-mod_self_right (k + q) base t in
    let inner = mod-lt pos b in
    let step = mod-lt (n - 1) b in
    (
      λ low. omega (arith, mod-eq_of_lt low),
      λ high.
          omega (arith, mod-eq-sub-mod high, mod-eq_of_lt {n = t - base} {m = base} (omega arith)),
    )

-- After `setMsg` of n bytes, at least one, from a sound buffer with an exact write pointer, the
-- pointer is exact again if the place in its block where the message begins and (n - 1) % base_size + 1
-- are together less than base_size; otherwise it stands one block too early.
pub write_place-set_msg :
    (a b : ByteArray) (msg : List ℕ)
    → IsSound a
    → write_place a ≡ a.write_pos
    → 0 < length msg
    → set_msg a msg ≡ ok b
    → (fill_of a.base_size a.write_pos (length msg) < a.base_size → write_place b ≡ b.write_pos)
      × (a.base_size ≤ fill_of a.base_size a.write_pos (length msg)
          → write_place b + a.base_size ≡ b.write_pos)
unfolding set_msg
write_place-set_msg a b msg v exact ne got =
    let (c, wrote, w, bytes, room) = write_lem a msg v ne in
    let (k, e, moved, u) = has_written_lem (written a msg c) (length msg) w ne room in
    let same =
      ok_unique (set_msg a msg) {a = with_written (written a msg c) k (length msg)}
        (rw (wrote, moved) refl) got in
    let there : k * a.base_size + a.write_pos % a.base_size ≡ a.write_pos =
      ap (place a.base_size a.write_pos) (sym e) ∙ exact in
    rw (← same) (place-stepped a.base_size k a.write_pos (length msg) v.base_pos ne there)

-- The same of `hasRead` and the read pointer.
pub read_place-has_read :
    (a b : ByteArray) (size : ℕ)
    → IsSound a
    → read_place a ≡ a.read_pos
    → 0 < size
    → size ≤ get_unread_size a
    → has_read a size ≡ ok b
    → (fill_of a.base_size a.read_pos size < a.base_size → read_place b ≡ b.read_pos)
      × (a.base_size ≤ fill_of a.base_size a.read_pos size
          → read_place b + a.base_size ≡ b.read_pos)
read_place-has_read a b size v exact ne fits got =
    let (k, e, moved, u) = has_read_lem a size v ne fits in
    let same = ok_unique (has_read a size) moved got in
    let there : k * a.base_size + a.read_pos % a.base_size ≡ a.read_pos =
      ap (place a.base_size a.read_pos) (sym e) ∙ exact in
    rw (← same) (place-stepped a.base_size k a.read_pos size v.base_pos ne there)
