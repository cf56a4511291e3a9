-- ===== src/Buffer/Numbers.antt =====
-- Fixed-size integers of ByteArray.cpp through a buffer, in either byte order.
use uiconnect.Base.{
  ℕ, ◌^◌, ◌≤◌, ◌<◌, ◌≡◌, refl, ap, ◌∙◌, inl, inr, List, [], ◌++◌, length, take, ◌==◌, Bool-cases,
  take_all, arith,
}
use uiconnect.Base.Outcome.{ok, ◌>>=◌}
use uiconnect.ByteArray.{ByteArray, get_unread_size}
use uiconnect.ByteArray.Write.{write}
use uiconnect.ByteArray.Read.{read, read_next}
use uiconnect.ByteArray.Moves.{has_written}
use uiconnect.ByteArray.Codec.Fixed.{
  to_bytes, from_bytes, byteswap, to_order, write_fixed, read_fixed,
}
use uiconnect.ByteArray.Codec.Bytes.{
  length-to_bytes, from_bytes-to_bytes, byteswap-byteswap, byteswap-lt,
}
use uiconnect.ByteArray.Sound.{IsSound}
use uiconnect.ByteArray.Sound.Write.{write_place}
use uiconnect.ByteArray.Sound.Read.{
  pending, read_place, IsReadable, read_next_ok, length-pending, nil_of_length,
}
use uiconnect.Buffer.{set_msg}
use uiconnect.Buffer.Queue.{pending-set_msg}

to_order_back :
    (byte_order n v : ℕ) (a b : ByteArray)
    → b.endian ≡ a.endian
    → v < 256 ^ n
    → to_order byte_order b n (from_bytes (to_bytes n (to_order byte_order a n v))) ≡ v
unfolding to_order
to_order_back byte_order n v a b e h = elim (Bool-cases (a.endian == byte_order)) [
  | inl same ↦ rw (e, same) (from_bytes-to_bytes n v h)
  | inr other ↦
      rw (e, other, from_bytes-to_bytes n (byteswap n v) (byteswap-lt n v))
        (byteswap-byteswap n v h)
]

next_is : (b : ByteArray) (n : ℕ) → read b n b.read_pos ≡ read_next b n
unfolding read_next
next_is b n = refl

counted :
    (a : ByteArray) (bs : List ℕ) (n : ℕ)
    → length bs ≡ n
    → (write a bs >>= λ c. has_written c n) ≡ set_msg a bs
unfolding set_msg
counted a bs n e = rw (← e) refl

-- With nothing unread in a sound buffer with exact pointers, an n-byte integer that is written and
-- counted by hasWritten is read back, if the position starts a block or the integer fits in what
-- is left of its block.
pub read_fixed-write_fixed :
    (byte_order : ℕ) (a : ByteArray) (n v : ℕ)
    → IsSound a
    → write_place a ≡ a.write_pos
    → read_place a ≡ a.read_pos
    → get_unread_size a ≡ 0
    → 0 < n
    → v < 256 ^ n
    → IsReadable a n
    → (b : ByteArray) × ((write_fixed byte_order a n v >>= λ c. has_written c n) ≡ ok b)
      × (read_fixed byte_order b n b.read_pos ≡ ok v)
unfolding write_fixed read_fixed
read_fixed-write_fixed byte_order a n v sound exact there none_left h small good =
    let bs = to_bytes n (to_order byte_order a n v) in
    let count : length bs ≡ n = length-to_bytes n (to_order byte_order a n v) in
    let (b, done, sound', queue, moved, keeps) =
      pending-set_msg a bs sound exact (omega (arith, count)) in
    let empty : pending a ≡ [] = nil_of_length (pending a) (length-pending a sound ∙ none_left) in
    let all : pending b ≡ bs = queue ∙ ap (λ t. t ++ bs) empty in
    let there' : read_place b ≡ b.read_pos =
      rw (keeps.base_size, keeps.read_pos, keeps.read_block) there in
    let fits : n ≤ get_unread_size b =
      omega (arith, length-pending b sound', ap length all, count) in
    let good' : IsReadable b n = rw (keeps.base_size, keeps.read_pos) good in
    let got : read b n b.read_pos ≡ ok bs =
      next_is b n
      ∙ read_next_ok b n sound' there' h fits good'
      ∙ ap ok (ap (take n) all ∙ take_all n bs (omega arith)) in
    (
      b,
      counted a bs n count ∙ done,
      rw got (ap ok (to_order_back byte_order n v a b keeps.endian small)),
    )
