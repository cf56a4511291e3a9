-- ===== src/Http/Connection/Ahead.antt =====
-- A read buffer whose unread bytes can be read at once, and their first word.
use uiconnect.Base.{
  ℕ, ◌-◌, ◌+◌, ◌*◌, ◌/◌, ◌%◌, ◌≤◌, ◌<◌, ◌≡◌, refl, sym, ap, ◌∙◌, inr, Option, none, some, List, [],
  min, take, drop, length, ne-==, arith,
}
use mathlib.Core.Path.{subst}
use uiconnect.Base.Text.{codes}
use uiconnect.Base.Outcome.{Outcome, ok, ok_unique}
use uiconnect.ByteArray.{ByteArray, get_unread_size}
use uiconnect.ByteArray.Read.{read_next}
use uiconnect.ByteArray.Moves.{has_read}
use uiconnect.ByteArray.Sound.{IsSound}
use uiconnect.ByteArray.Sound.Moves.{has_read_lem, with_read}
use uiconnect.ByteArray.Sound.Read.{read_place, pending, read_next_ok, length-pending}
use uiconnect.Buffer.{find, find_from}
use uiconnect.Buffer.Queue.{pending-has_read}
use uiconnect.Buffer.Pointer.{fill_of, read_place-has_read}
use native.Mathlib.Nat.{mod-eq_of_lt, div-add-mod', mul-add-mod_self_right}

-- A sound buffer with an exact read pointer whose unread bytes end inside the block where they
-- begin.
abbrev pub IsAhead : ByteArray → Type 0
IsAhead a =
    IsSound a
    × (read_place a ≡ a.read_pos)
    × (a.read_pos % a.base_size + get_unread_size a < a.base_size)

-- They still do when some are read.
pub IsAhead-has_read :
    (a : ByteArray) (size : ℕ)
    → IsAhead a
    → 0 < size
    → size ≤ get_unread_size a
    → (b : ByteArray) × (has_read a size ≡ ok b) × IsAhead b × (pending b ≡ drop size (pending a))
IsAhead-has_read a size (v, exact, inside) h fits =
    let (b, got, w, rest, r, e) = pending-has_read a size v h fits in
    let (k, here, moved, u) = has_read_lem a size v h fits in
    let same : with_read a k size ≡ b = ok_unique (has_read a size) moved got in
    let base : a.base_size ≡ b.base_size = ap (λ (x : ByteArray). x.base_size) same in
    let t = a.read_pos % a.base_size + size in
    let whole : (a.read_pos / a.base_size) * a.base_size + t ≡ a.read_pos + size =
      omega (arith, div-add-mod' a.read_pos a.base_size) in
    let place : b.read_pos % a.base_size ≡ t =
      ap (λ n. n % a.base_size) (r ∙ sym whole)
      ∙ mul-add-mod_self_right (a.read_pos / a.base_size) a.base_size t
      ∙ mod-eq_of_lt {n = t} {m = a.base_size} (omega arith) in
    let filled : fill_of a.base_size a.read_pos size < a.base_size =
      omega (arith, mod-eq_of_lt {n = size - 1} {m = a.base_size} (omega arith)) in
    let still : b.read_pos % a.base_size + get_unread_size b < a.base_size = omega (arith, place) in
    (
      b,
      got,
      (
        w,
        (read_place-has_read a b size v exact h fits got).0 filled,
        subst (λ n. b.read_pos % n + get_unread_size b < n) base still,
      ),
      rest,
    )

-- The first word of a text: what `find` gives for the next 20 bytes.
abbrev pub word_at : List ℕ → Option ℕ → Option ℕ × List ℕ
word_at buf none = (none, [])
word_at buf (some pos) = (some pos, take pos buf)

unfoldable pub first_word : List ℕ → Option ℕ × List ℕ
unfolding find_from
first_word text =
    let buf = take (min 20 (length text)) text in word_at buf (find_from 0 (codes " ") buf)

pub find-IsAhead :
    (a : ByteArray)
    → IsAhead a
    → 0 < get_unread_size a
    → find a (codes " ") [] 20 ≡ ok (first_word (pending a))
unfolding find first_word
find-IsAhead a (v, exact, inside) h =
    let n = min 20 (get_unread_size a) in
    let e : length (pending a) ≡ get_unread_size a = length-pending a v in
    let got : read_next a n ≡ ok (take n (pending a)) =
      read_next_ok a n v exact (omega arith) (omega arith) (inr (omega arith)) in
    rw (ne-== n (omega arith))
      (rw got (rw e (worded (take n (pending a)) (find_from 0 (codes " ") (take n (pending a))))))
  where
    worded :
        (buf : List ℕ) (o : Option ℕ)
        → (elim o as (λ x. Outcome (Option ℕ × List ℕ)) [
          | none ↦ ok (none, [])
          | some pos ↦ ok (some pos, take pos buf)
        ])
          ≡ ok (word_at buf o)
    worded buf none = refl
    worded buf (some pos) = refl
