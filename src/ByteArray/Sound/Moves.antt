-- ===== src/ByteArray/Sound/Moves.antt =====
-- ByteArray::hasRead and hasWritten from a sound array.
use uiconnect.Base.{
  ℕ, zero, suc, ◌+◌, ◌-◌, ◌*◌, ◌/◌, ◌≤◌, ◌<◌, ◌≡◌, refl, ap, ◌∙◌, ◌⊎◌, inl, inr, List, length, drop,
  length-drop, ltb, leb, ◌||◌, true, false, arith,
}
use uiconnect.Base.Outcome.{ok, thrown}
use uiconnect.ByteArray.{Node, Link, at, ByteArray, next, get_free_size, get_unread_size}
use uiconnect.ByteArray.Moves.{advance, has_read, has_written}
use uiconnect.ByteArray.Flat.{Blocks, Blocks-drop, length-flat}
use uiconnect.ByteArray.Sound.{IsSound, Behind-at}
use uiconnect.ByteArray.Sound.Loop.{head_size-ok}
use native.Mathlib.Nat.{
  div-eq_of_lt, div-eq-sub-div, div-mul-le_self, le_of_mul-le-mul_right, le_trans,
}
use native.Mathlib.Decide.{dec_lt}

-- A block that is there has a next pointer, null behind the last.
next-ok :
    (base k : ℕ) (chain : List Node)
    → 0 < base
    → Blocks base chain
    → k < length chain
    → next chain (at k) ≡ ok (at (suc k))
unfolding next
next-ok base k chain b v h =
    let left = length-drop k chain in
    let some_left : 1 * base ≤ length (drop k chain) * base = grind (arith, left) in
    rw
      (head_size-ok base (drop k chain) (Blocks-drop base k chain v)
        (omega (arith, length-flat base (drop k chain) (Blocks-drop base k chain v), some_left)))
      refl

-- One block further takes one off the quotient.
div_step : (n base : ℕ) → 0 < base → base ≤ n → n / base ≡ suc ((n - base) / base)
div_step n base b h = omega (arith, div-eq-sub-div b h)

advance_done :
    (fuel base : ℕ) (chain : List Node) (pos target : ℕ) (block : Link)
    → target ≤ pos
    → advance (suc fuel) base chain pos target block ≡ ok block
unfolding advance
advance_done fuel base chain pos target block h = ground arith

advance_within :
    (fuel base : ℕ) (chain : List Node) (pos target : ℕ) (block : Link)
    → pos < target
    → target ≤ pos + base
    → advance (suc fuel) base chain pos target block
      ≡ advance fuel base chain (pos + base) target block
unfolding advance
advance_within fuel base chain pos target block h j = ground arith

advance_over :
    (fuel base : ℕ) (chain : List Node) (pos target : ℕ) (block block' : Link)
    → pos + base < target
    → next chain block ≡ ok block'
    → advance (suc fuel) base chain pos target block
      ≡ advance fuel base chain (pos + base) target block'
unfolding advance
advance_over fuel base chain pos target block block' h e = ground arith

-- With enough fuel the loop moves on by one block for each whole block that it passes.
pub advance-ok :
    (fuel base : ℕ) (chain : List Node) (pos target k : ℕ)
    → 0 < base
    → Blocks base chain
    → target - pos < fuel
    → pos < target
    → k + (target - pos - 1) / base ≤ length chain
    → advance fuel base chain pos target (at k) ≡ ok (at (k + (target - pos - 1) / base))
advance-ok zero base chain pos target k b v f lt room = absurd (omega arith)
advance-ok (suc zero) base chain pos target k b v f lt room = absurd (omega arith)
advance-ok (suc (suc fuel)) base chain pos target k b v f lt room =
    elim (dec_lt (pos + base) target) [
      | yes more ↦
          let passed : (target - pos - 1) / base ≡ suc ((target - pos - 1 - base) / base) =
            div_step (target - pos - 1) base b (omega arith) in
          let same : target - (pos + base) - 1 ≡ target - pos - 1 - base = omega arith in
          let rest : suc k + (target - (pos + base) - 1) / base ≡ k + (target - pos - 1) / base =
            rw same (omega (arith, passed)) in
          advance_over (suc fuel) base chain pos target (at k) (at (suc k)) more
            (next-ok base k chain b v (omega (arith, passed)))
          ∙ advance-ok (suc fuel) base chain (pos + base) target (suc k) b v (omega arith)
              (omega arith) (rw rest room)
          ∙ ap (λ j. ok (at j)) rest
      | no last ↦
          let small : target - pos - 1 < base = omega arith in
          advance_within (suc fuel) base chain pos target (at k) lt (omega arith)
          ∙ advance_done fuel base chain (pos + base) target (at k) (omega arith)
          ∙ ap (λ j. ok (at j)) (omega (arith, div-eq_of_lt small))
    ]

-- The pointer that k blocks and a step of `size` bytes lead to.
abbrev pub stepped : ℕ → ℕ → ℕ → Link
stepped base k size = at (k + (size - 1) / base)

step_room :
    (base k pos size n : ℕ)
    → 0 < base
    → 0 < size
    → k * base ≤ pos
    → pos + size ≤ n * base
    → (k + (size - 1) / base ≤ n) × ((k + (size - 1) / base) * base ≤ pos + size)
step_room base k pos size n b h p fits =
    let q : (size - 1) / base * base ≤ size - 1 = div-mul-le_self (size - 1) base in
    let m : (k + (size - 1) / base) * base ≤ pos + size = omega arith in
    (le_of_mul-le-mul_right (le_trans m fits) b, m)

accept : (size room : ℕ) → 0 < size → size ≤ room → (leb size 0 || ltb room size) ≡ false
accept size room h f = ground arith

reject : (size room : ℕ) → (size ≡ 0) ⊎ (room < size) → (leb size 0 || ltb room size) ≡ true
reject size room (inl e) = ground arith
reject size room (inr f) = ground arith

-- the array with `size` bytes written, its pointer k blocks from the root before
abbrev pub with_written : ByteArray → ℕ → ℕ → ByteArray
with_written a k size = record a {
  write_pos = a.write_pos + size;
  write_block = stepped a.base_size k size;
}

abbrev pub with_read : ByteArray → ℕ → ℕ → ByteArray
with_read a k size = record a {
  read_pos = a.read_pos + size;
  read_block = stepped a.base_size k size;
}

advance_by :
    (base : ℕ) (chain : List Node) (pos size k : ℕ)
    → 0 < base
    → Blocks base chain
    → 0 < size
    → k + (size - 1) / base ≤ length chain
    → advance (suc size) base chain pos (pos + size) (at k) ≡ ok (stepped base k size)
advance_by base chain pos size k b v h room =
    let e : pos + size - pos - 1 ≡ size - 1 = omega arith in
    advance-ok (suc size) base chain pos (pos + size) k b v (omega arith) (omega arith) (rw e room)
    ∙ ap (λ n. ok (at (k + n / base))) e

-- From a sound array `hasWritten` of a size from 1 to the free size returns, with the position and
-- the pointer moved on and nothing else changed, and the array stays sound.
pub has_written_lem :
    (a : ByteArray) (size : ℕ)
    → IsSound a
    → 0 < size
    → size ≤ get_free_size a
    → (k : ℕ) × (a.write_block ≡ at k)
      × (has_written a size ≡ ok (with_written a k size))
      × IsSound (with_written a k size)
unfolding has_written
has_written_lem a size v h fits =
    let (k, e, behind) = Behind-at a.base_size a.write_pos a.write_block v.write_behind in
    let room =
      step_room a.base_size k a.write_pos size (length a.chain) v.base_pos h behind
        (omega (arith, v.sized, v.write_le)) in
    (
      k,
      e,
      rw
          (
            accept size (get_free_size a) h fits,
            e,
            advance_by a.base_size a.chain a.write_pos size k v.base_pos v.blocks h room.0,
          )
          refl,
      record {
        base_pos = v.base_pos;
        blocks = v.blocks;
        sized = v.sized;
        read_le = omega (arith, v.read_le);
        write_le = omega (arith, v.write_le);
        write_behind = room.1;
        read_behind = v.read_behind;
      },
    )

-- The same of `hasRead`, with the unread size for the free size.
pub has_read_lem :
    (a : ByteArray) (size : ℕ)
    → IsSound a
    → 0 < size
    → size ≤ get_unread_size a
    → (k : ℕ) × (a.read_block ≡ at k)
      × (has_read a size ≡ ok (with_read a k size))
      × IsSound (with_read a k size)
unfolding has_read
has_read_lem a size v h fits =
    let (k, e, behind) = Behind-at a.base_size a.read_pos a.read_block v.read_behind in
    let room =
      step_room a.base_size k a.read_pos size (length a.chain) v.base_pos h behind
        (omega (arith, v.sized, v.write_le, v.read_le)) in
    (
      k,
      e,
      rw
          (
            accept size (get_unread_size a) h fits,
            e,
            advance_by a.base_size a.chain a.read_pos size k v.base_pos v.blocks h room.0,
          )
          refl,
      record {
        base_pos = v.base_pos;
        blocks = v.blocks;
        sized = v.sized;
        read_le = omega (arith, v.read_le);
        write_le = v.write_le;
        write_behind = v.write_behind;
        read_behind = room.1;
      },
    )

-- Whatever the array, `hasRead` and `hasWritten` throw for no bytes, and for more than are unread
-- or free.
pub moves_throw :
    (a : ByteArray) (size : ℕ)
    → ((size ≡ 0) ⊎ (get_unread_size a < size) → has_read a size ≡ thrown)
      × ((size ≡ 0) ⊎ (get_free_size a < size) → has_written a size ≡ thrown)
unfolding has_read has_written
moves_throw a size =
    (λ bad. rw (reject size (get_unread_size a) bad), λ bad. rw (reject size (get_free_size a) bad))
