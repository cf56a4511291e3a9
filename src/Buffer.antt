-- ===== src/Buffer.antt =====
-- server/library/network/socket/Buffer.h and Buffer.cpp: messages and packets over a ByteArray.
-- A Buffer has no state of its own.
pub mod Queue
pub mod Pointer
pub mod Numbers
pub mod Search
pub mod Packets
pub mod Cleared
use uiconnect.Base.{
  ℕ, zero, suc, ◌+◌, ◌-◌, ◌%◌, ◌^◌, min, Bool, true, false, ◌||◌, Option, none, some, List, [], ◌∷◌,
  ◌++◌, length, take, get_elem?, ltb, ◌==◌, if◌then◌else◌,
}
use uiconnect.Base.Outcome.{Outcome, ok, fault, ◌>>=◌}
use uiconnect.ByteArray.{ByteArray, get_unread_size}
use uiconnect.ByteArray.Write.{write}
use uiconnect.ByteArray.Read.{read, read_next}
use uiconnect.ByteArray.Moves.{has_read, has_written}
use uiconnect.ByteArray.Codec.Fixed.{from_bytes}
use uiconnect.Packet.{Packet, invalid, create_empty, pack_size}

-- Buffer::setMsg(const char*, int)
unfoldable pub set_msg : ByteArray → List ℕ → Outcome ByteArray
set_msg a msg = do b ← write a msg; has_written b (length msg)

-- setMsg(const Packet&): packSize() bytes from packData.c_str(), which ends in a 0; behind that the
-- access is undefined. Sizes are below 2 ^ 31, those that an `int` keeps.
unfoldable pub set_pack : ByteArray → Packet → Outcome ByteArray
unfolding set_msg pack_size
set_pack a p =
    if ltb (length p.pack_data + 1) (pack_size p)
    then fault
    else set_msg a (take (pack_size p) (p.pack_data ++ 0 ∷ []))

-- `size_t` subtraction
abbrev pub sub64 : ℕ → ℕ → ℕ
sub64 a b = (a + 2 ^ 64 - b) % 2 ^ 64

-- a memcpy of n bytes into an integer of the host
unfoldable pub read_host : ByteArray → ℕ → ℕ → Outcome ℕ
unfolding from_bytes
read_host a n start = do bs ← read a n start; ok (from_bytes bs)

-- The search for the head, which goes on by two bytes; `read` throws behind the write position,
-- so the unread bytes bound its rounds.
unfoldable pub find_head : ℕ → ByteArray → ℕ → Outcome ℕ
unfolding read_host
find_head zero a pos = fault
find_head (suc fuel) a pos = read_host a 2 pos >>= λ header.
    elim ((header == 0xFEFF) || ltb a.write_pos (pos + 2)) [
      | true ↦ ok (pos + 2)
      | false ↦ find_head fuel a (pos + 2)
    ]

-- The sum of packData[i] for `count` values of i; std::string gives 0 at its size, and behind that
-- the access is undefined.
unfoldable pub sum_load : List ℕ → ℕ → ℕ → ℕ → Outcome ℕ
sum_load bytes i zero acc = ok acc
sum_load bytes i (suc count) acc = elim (get_elem? bytes i) [
  | some b ↦ sum_load bytes (suc i) count ((acc + b) % 2 ^ 16)
  | none ↦ elim (i == length bytes) [ true ↦ sum_load bytes (suc i) count acc | false ↦ fault ]
]

-- getPack from the read of cmd on, with the position behind the head, and the length
unfoldable pub take_pack : ByteArray → ℕ → ℕ → Outcome (Packet × ByteArray)
unfolding read_host sum_load
take_pack a pos len = do
  let start = pos - 2
  cmd ← read_host a 2 (pos + 8)
  let load = sub64 len 4
  sum ← read_host a 2 (sub64 (start + len) 2)
  bytes ← read a len start
  total ← sum_load bytes 12 ((12 + load) % 2 ^ 64 - 12) 0
  b ← has_read a (sub64 (start + len) a.read_pos)
  ok (
    record {
      head = 0xFEFF;
      length_field = len;
      cmd = if total == sum then cmd else invalid;
      data_load_pos = 12;
      data_load_size = load;
      check_sum = sum;
      pack_data = bytes;
    },
    b,
  )

-- Buffer::getPack(Packet*): what it leaves in the packet and in the buffer.
unfoldable pub get_pack : ByteArray → Packet → Outcome (Packet × ByteArray)
unfolding find_head read_host take_pack
get_pack a p = do
  pos ← find_head (suc (suc (get_unread_size a))) a a.read_pos
  if ltb (sub64 a.write_pos pos) 8 then ok (record p { head = 0xFEFF }, a) else do
    len ← read_host a 8 pos
    if ltb (sub64 a.write_pos (pos + 8)) len
        then ok (record p { head = 0xFEFF; length_field = len }, a)
        else take_pack a pos len

-- getPack(), which makes the packet
unfoldable pub get_new_pack : ByteArray → Outcome (Packet × ByteArray)
unfolding get_pack create_empty
get_new_pack a = get_pack a (create_empty invalid)

unfoldable pub is_prefix : List ℕ → List ℕ → Bool
is_prefix [] ys = true
is_prefix (x ∷ xs) [] = false
is_prefix (x ∷ xs) (y ∷ ys) = if x == y then is_prefix xs ys else false

-- std::string::find, from index i on
unfoldable pub find_from : ℕ → List ℕ → List ℕ → Option ℕ
unfolding is_prefix
find_from i str [] = if is_prefix str [] then some i else none
find_from i str (b ∷ bs) =
    let rest = find_from (suc i) str bs in if is_prefix str (b ∷ bs) then some i else rest

-- Buffer::find: the place of `str` among the next bytes, `none` for npos, and the new `prefix`.
unfoldable pub find : ByteArray → List ℕ → List ℕ → ℕ → Outcome (Option ℕ × List ℕ)
unfolding find_from
find a str prefix read_length =
    let len = min read_length (get_unread_size a) in
    if len == 0 then ok (none, prefix) else do
      buf ← read_next a len
      elim (find_from 0 str buf) [
        | none ↦ ok (none, prefix)
        | some pos ↦ ok (some pos, take pos buf)
      ]
