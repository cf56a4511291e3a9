-- ===== src/ByteArray/Codec/Zigzag.antt =====
-- EncodeZigzag32/64 and DecodeZigzag32/64. A signed integer of w bits is its bit pattern below
-- 2 ^ w. Where the source negates INT_MIN or doubles past INT_MAX, signed overflow is undefined.
use Prim.Native.Nat.{bit_xor}
use uiconnect.Base.{ℕ, ◌+◌, ◌-◌, ◌*◌, ◌/◌, ◌%◌, ◌^◌, ltb, ◌==◌, not, if◌then◌else◌}
use uiconnect.Base.Outcome.{Outcome, ok, ◌>>◌, require}

-- v < 0 ? ((uint)(-v)) * 2 - 1 : v * 2
unfoldable pub encode_zigzag : ℕ → ℕ → Outcome ℕ
encode_zigzag w v =
    if ltb v (2 ^ (w - 1))
    then (do require (ltb (v * 2) (2 ^ (w - 1))); ok (v * 2))
    else (do require (not (v == 2 ^ (w - 1))); ok (((2 ^ w - v) * 2 + 2 ^ w - 1) % 2 ^ w))

-- (v >> 1) ^ -(v & 1)
unfoldable pub decode_zigzag : ℕ → ℕ → ℕ
decode_zigzag w v = bit_xor (v / 2) ((2 ^ w - v % 2) % 2 ^ w)

unfoldable pub encode_zigzag32 : ℕ → Outcome ℕ
unfolding encode_zigzag
encode_zigzag32 v = encode_zigzag 32 v

unfoldable pub encode_zigzag64 : ℕ → Outcome ℕ
unfolding encode_zigzag
encode_zigzag64 v = encode_zigzag 64 v

unfoldable pub decode_zigzag32 : ℕ → ℕ
unfolding decode_zigzag
decode_zigzag32 v = decode_zigzag 32 v

unfoldable pub decode_zigzag64 : ℕ → ℕ
unfolding decode_zigzag
decode_zigzag64 v = decode_zigzag 64 v
