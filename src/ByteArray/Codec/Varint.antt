-- ===== src/ByteArray/Codec/Varint.antt =====
-- writeUint32, writeUint64, writeInt32, writeInt64 and their readers: seven bits to a byte.
use Prim.Native.Nat.{bit_or}
use uiconnect.Base.{ℕ, zero, suc, ◌+◌, ◌*◌, ◌/◌, ◌%◌, ◌^◌, true, false, List, [], ◌∷◌, ltb, leb}
use uiconnect.Base.Outcome.{Outcome, ok, fault, ◌>>=◌}
use uiconnect.ByteArray.{ByteArray}
use uiconnect.ByteArray.Write.{write}
use uiconnect.ByteArray.Codec.Fixed.{read_fuint8}
use uiconnect.ByteArray.Codec.Zigzag.{
  encode_zigzag32, encode_zigzag64, decode_zigzag32, decode_zigzag64,
}

-- The loop that fills `tmp`, with `room` entries of it left: a write behind the array is a fault.
-- (value & 0x7F) | 0x80 is value % 128 + 128.
unfoldable pub varint_bytes : ℕ → ℕ → Outcome (List ℕ)
varint_bytes zero value = fault
varint_bytes (suc room) value = elim (leb 0x80 value) [
  | true ↦ varint_bytes room (value / 2 ^ 7) >>= λ rest. ok ((value % 2 ^ 7 + 0x80) ∷ rest)
  | false ↦ ok (value ∷ [])
]

unfoldable pub write_uint32 : ByteArray → ℕ → Outcome ByteArray
unfolding varint_bytes
write_uint32 a value = do tmp ← varint_bytes 5 value; write a tmp

unfoldable pub write_uint64 : ByteArray → ℕ → Outcome ByteArray
unfolding varint_bytes
write_uint64 a value = do tmp ← varint_bytes 10 value; write a tmp

unfoldable pub write_int32 : ByteArray → ℕ → Outcome ByteArray
unfolding write_uint32
write_int32 a value = do v ← encode_zigzag32 value; write_uint32 a v

unfoldable pub write_int64 : ByteArray → ℕ → Outcome ByteArray
unfolding write_uint64
write_int64 a value = do v ← encode_zigzag64 value; write_uint64 a v

-- for(i = 0; i < w; i += 7), over the rounds left; every round reads at the same `start`.
unfoldable pub read_varint : ℕ → ℕ → ByteArray → ℕ → ℕ → ℕ → Outcome ℕ
unfolding read_fuint8
read_varint w zero a start i result = ok result
read_varint w (suc rounds) a start i result = read_fuint8 a start >>= λ b. elim (ltb b 0x80) [
  | true ↦ ok (bit_or result (b * 2 ^ i % 2 ^ w))
  | false ↦ read_varint w rounds a start (i + 7) (bit_or result (b % 2 ^ 7 * 2 ^ i % 2 ^ w))
]

-- i = 0, 7, 14, 21, 28
unfoldable pub read_uint32 : ByteArray → ℕ → Outcome ℕ
unfolding read_varint
read_uint32 a start = read_varint 32 5 a start 0 0

-- i = 0, 7, ..., 63
unfoldable pub read_uint64 : ByteArray → ℕ → Outcome ℕ
unfolding read_varint
read_uint64 a start = read_varint 64 10 a start 0 0

unfoldable pub read_int32 : ByteArray → ℕ → Outcome ℕ
unfolding read_uint32
read_int32 a start = do v ← read_uint32 a start; ok (decode_zigzag32 v)

unfoldable pub read_int64 : ByteArray → ℕ → Outcome ℕ
unfolding read_uint64
read_int64 a start = do v ← read_uint64 a start; ok (decode_zigzag64 v)
