-- ===== src/Buffer/Queue.antt =====
-- A buffer as the queue of its unread bytes: Buffer::setMsg appends, ByteArray::hasRead drops.
use uiconnect.Base.{
  ℕ, ◌+◌, ◌≤◌, ◌<◌, ◌≡◌, refl, sym, ap, ◌∙◌, List, ◌++◌, length, take, drop, replicate, length-take,
  length-append, take_all, take-append_le, take-append_ge, drop-append_le, drop-drop, arith,
}
use uiconnect.Base.Outcome.{ok}
use uiconnect.ByteArray.{ByteArray, new_node, splice, get_unread_size}
use uiconnect.ByteArray.Moves.{has_read}
use uiconnect.ByteArray.Flat.{flat, flat-append, length-flat}
use uiconnect.ByteArray.Sound.{IsSound}
use uiconnect.ByteArray.Sound.Write.{extend, needed, write_place, written, write_lem}
use uiconnect.ByteArray.Sound.Moves.{with_written, with_read, has_written_lem, has_read_lem}
use uiconnect.ByteArray.Sound.Read.{pending}
use uiconnect.Buffer.{set_msg}

-- Overwriting at the end of what counts, and counting it.
take-splice :
    (xs buf : List ℕ) (wp : ℕ)
    → wp ≤ length xs
    → take (wp + length buf) (splice xs wp buf) ≡ take wp xs ++ buf
take-splice xs buf wp h =
    let cut : length (take wp xs) ≡ wp = omega (arith, length-take wp xs) in
    ap (λ n. take (n + length buf) (splice xs wp buf)) (sym cut)
    ∙ take-append_ge (take wp xs) (buf ++ drop (wp + length buf) xs) (length buf)
    ∙ rw
        (
          take-append_le (length buf) buf (drop (wp + length buf) xs) (omega arith),
          take_all (length buf) buf (omega arith),
        )
        refl

append_pending :
    (xs more c msg : List ℕ) (rp wp there : ℕ)
    → rp ≤ wp
    → wp ≤ length xs
    → c ≡ splice (xs ++ more) there msg
    → there ≡ wp
    → drop rp (take (wp + length msg) c) ≡ drop rp (take wp xs) ++ msg
append_pending xs more c msg rp wp there h inside e exact =
    let cut : length (take wp (xs ++ more)) ≡ wp =
      omega (arith, length-take wp (xs ++ more), length-append xs more) in
    ap (λ t. drop rp (take (wp + length msg) t)) (e ∙ ap (λ p. splice (xs ++ more) p msg) exact)
    ∙ ap (drop rp) (take-splice (xs ++ more) msg wp (omega (arith, length-append xs more)))
    ∙ drop-append_le rp (take wp (xs ++ more)) msg (omega arith)
    ∙ ap (λ t. drop rp t ++ msg) (take-append_le wp xs more inside)

-- What a write and its hasWritten leave as it was.
pub record KeepsReader (a b : ByteArray) : Type 0 where
  pub base_size : b.base_size ≡ a.base_size
  pub read_pos : b.read_pos ≡ a.read_pos
  pub read_block : b.read_block ≡ a.read_block
  pub endian : b.endian ≡ a.endian

-- From a sound buffer whose write pointer stands at its position, `setMsg` of at least one byte
-- returns a sound buffer with the message behind the unread bytes, and the reader's state kept.
pub pending-set_msg :
    (a : ByteArray) (msg : List ℕ)
    → IsSound a
    → write_place a ≡ a.write_pos
    → 0 < length msg
    → (b : ByteArray) × (set_msg a msg ≡ ok b)
      × IsSound b
      × (pending b ≡ pending a ++ msg)
      × (b.write_pos ≡ a.write_pos + length msg)
      × KeepsReader a b
unfolding set_msg
pending-set_msg a msg v exact ne =
    let (c, wrote, w, bytes, room) = write_lem a msg v ne in
    let (k, e, moved, u) = has_written_lem (written a msg c) (length msg) w ne room in
    let m = needed a (length msg) in
    let inside : a.write_pos ≤ length (flat a.chain) =
      omega (arith, length-flat a.base_size a.chain v.blocks, v.sized, v.write_le) in
    let more = flat (replicate m (new_node a.base_size a.fill)) in
    let grown : flat (extend a m).chain ≡ flat a.chain ++ more =
      flat-append a.chain (replicate m (new_node a.base_size a.fill)) in
    (
      with_written (written a msg c) k (length msg),
      rw (wrote, moved) refl,
      u,
      append_pending (flat a.chain) more (flat c) msg a.read_pos a.write_pos (write_place a)
          v.read_le inside (bytes ∙ ap (λ t. splice t (write_place a) msg) grown) exact,
      refl,
      record { base_size = refl; read_pos = refl; read_block = refl; endian = refl },
    )

-- From a sound buffer `hasRead` of 1 byte to all unread ones drops them from the queue.
pub pending-has_read :
    (a : ByteArray) (size : ℕ)
    → IsSound a
    → 0 < size
    → size ≤ get_unread_size a
    → (b : ByteArray) × (has_read a size ≡ ok b)
      × IsSound b
      × (pending b ≡ drop size (pending a))
      × (b.read_pos ≡ a.read_pos + size)
      × (b.write_pos ≡ a.write_pos)
pending-has_read a size v h fits =
    let (k, e, moved, u) = has_read_lem a size v h fits in
    (
      with_read a k size,
      moved,
      u,
      sym (drop-drop size a.read_pos (take a.write_pos (flat a.chain))),
      refl,
      refl,
    )
