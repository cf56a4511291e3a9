-- ===== src/ByteArray/Read.antt =====
-- ByteArray::read, toString and toHexString.
use uiconnect.Base.{
  ℕ, suc, ◌+◌, ◌-◌, ◌/◌, ◌%◌, not, ◌&&◌, List, [], ◌∷◌, ◌++◌, ltb, leb, ◌==◌, if◌then◌else◌,
}
use uiconnect.Base.Outcome.{Outcome, ok, fault, ◌>>=◌, ◌>>◌, require, throw_if}
use uiconnect.ByteArray.{Node, ByteArray, get_unread_size, get_cur_block_unread_size, load, from}

-- The loop of `read` over the nodes from `cur` on; `u` is getCurBlockUnreadSize(), which the loop
-- does not change.
unfoldable pub read_loop : List Node → ℕ → ℕ → ℕ → Outcome (List ℕ)
unfolding load
read_loop [] pos u left = fault
read_loop (node ∷ rest) pos u left =
    if leb left u
    then load node pos left
    else do xs ← load node pos u; ys ← read_loop rest 0 u (left - u); ok (xs ++ ys)

-- read(buf, size, startPos), with what it copies into `buf`
unfoldable pub read : ByteArray → ℕ → ℕ → Outcome (List ℕ)
unfolding read_loop
read a size start = do
  throw_if (ltb a.write_pos start)
  throw_if (ltb (get_unread_size a) size)
  require (not (a.base_size == 0))
  if size == 0 then ok [] else do
    cur ← from a.chain a.read_block
    read_loop cur (start % a.base_size) (get_cur_block_unread_size a) size

-- read(buf, size)
unfoldable pub read_next : ByteArray → ℕ → Outcome (List ℕ)
unfolding read
read_next a size = read a size a.read_pos

unfoldable pub to_string : ByteArray → Outcome (List ℕ)
unfolding read
to_string a = if get_unread_size a == 0 then ok [] else read a (get_unread_size a) a.read_pos

-- a digit of std::hex
unfoldable pub hex_digit : ℕ → ℕ
hex_digit d = if ltb d 10 then b'0' + d else b'a' + (d - 10)

-- two digits and a space for each byte, a line break before every 32nd but the first
unfoldable pub hex_bytes : ℕ → List ℕ → List ℕ
unfolding hex_digit
hex_bytes i [] = []
hex_bytes i (b ∷ bs) =
    (if ltb 0 i && (i % 32 == 0) then b'\n' ∷ [] else [])
    ++ (hex_digit (b / 16) ∷ hex_digit (b % 16) ∷ b' ' ∷ hex_bytes (suc i) bs)

unfoldable pub to_hex_string : ByteArray → Outcome (List ℕ)
unfolding to_string hex_bytes
to_hex_string a = do str ← to_string a; ok (hex_bytes 0 str)
