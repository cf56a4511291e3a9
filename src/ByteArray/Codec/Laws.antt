-- ===== src/ByteArray/Codec/Laws.antt =====
-- What the varint and zigzag codecs of ByteArray.cpp keep and lose.
use uiconnect.Base.{
  ℕ, zero, suc, ◌+◌, ◌-◌, ◌*◌, ◌/◌, ◌%◌, ◌^◌, ◌≤◌, ◌<◌, ◌≡◌, refl, ap, ◌∙◌, ◌⊎◌, inl, inr, List, [],
  ◌∷◌, length, ltb, if◌then◌else◌, ◌==◌, lt→ltb, ge→ltb, Bool, true, false, arith,
}
use uiconnect.Base.Outcome.{Outcome, ok, bind_cong}
use Prim.Native.Nat.{bit_or, bit_or-bitwise}
use uiconnect.Base.Xor.{xor-zero, xor-ones}
use uiconnect.ByteArray.{ByteArray}
use uiconnect.ByteArray.Write.{write}
use uiconnect.ByteArray.Codec.Fixed.{read_fuint8}
use uiconnect.ByteArray.Codec.Varint.{
  varint_bytes, read_varint, write_uint32, write_uint64, read_uint32, read_uint64,
}
use uiconnect.ByteArray.Codec.Zigzag.{
  encode_zigzag, decode_zigzag, encode_zigzag32, decode_zigzag32, encode_zigzag64, decode_zigzag64,
}
use native.Mathlib.Decide.{dec_lt}
use native.Mathlib.Nat.{pow-suc, mod-eq_of_lt, add-mod_right, mod_self}

-- The number that a sequence of seven-bit groups stands for, the lowest first.
pub varint_value : List ℕ → ℕ
varint_value [] = 0
varint_value (b ∷ bs) = if ltb b 128 then b else b - 128 + 128 * varint_value bs

-- All bytes but the last have the continuation bit.
abbrev pub IsVarint : List ℕ → Type 0
IsVarint [] = ⊥
IsVarint (b ∷ []) = b < 128
IsVarint (b ∷ bs) = (128 ≤ b) × (b < 256) × IsVarint bs

varint_value-last : (b : ℕ) → b < 128 → varint_value (b ∷ []) ≡ b
unfolding varint_value
varint_value-last b h = ground arith

varint_value-more :
    (b : ℕ) (bs : List ℕ) → 128 ≤ b → varint_value (b ∷ bs) ≡ b - 128 + 128 * varint_value bs
unfolding varint_value
varint_value-more b bs h = ground arith

IsVarint-cons : (b : ℕ) (bs : List ℕ) → 128 ≤ b → b < 256 → IsVarint bs → IsVarint (b ∷ bs)
IsVarint-cons b [] h k v = absurd v
IsVarint-cons b (c ∷ cs) h k v = (h, k, v)

varint_bytes-last : (room value : ℕ) → value < 128 → varint_bytes (suc room) value ≡ ok (value ∷ [])
unfolding varint_bytes
varint_bytes-last room value h = ground arith

varint_bytes-more :
    (room value : ℕ) (bs : List ℕ)
    → 128 ≤ value
    → varint_bytes room (value / 128) ≡ ok bs
    → varint_bytes (suc room) value ≡ ok ((value % 128 + 128) ∷ bs)
unfolding varint_bytes
varint_bytes-more room value bs h e = ground arith

-- With `suc room` bytes of `tmp` the loop of writeUint32 and writeUint64 encodes every number of
-- 7 * (room + 1) bits without leaving `tmp`: the groups stand for the number, all but the last have
-- the continuation bit, and there are at most `suc room` of them.
pub varint_bytes-value :
    (room value : ℕ)
    → value < 128 ^ suc room
    → (bs : List ℕ) × (varint_bytes (suc room) value ≡ ok bs)
      × (varint_value bs ≡ value)
      × IsVarint bs
      × (length bs ≤ suc room)
varint_bytes-value zero value h =
    let small : value < 128 = h in
    (value ∷ [], varint_bytes-last 0 value small, varint_value-last value small, small, omega arith)
varint_bytes-value (suc room) value h = elim (dec_lt value 128) [
  | yes last ↦ (
    value ∷ [],
    varint_bytes-last (suc room) value last,
    varint_value-last value last,
    last,
    omega arith,
  )
  | no more ↦
      let (bs, e, same, form, count) =
        varint_bytes-value room (value / 128) (omega (arith, pow-suc 128 (suc room))) in
      (
        (value % 128 + 128) ∷ bs,
        varint_bytes-more (suc room) value bs (omega arith) e,
        varint_value-more (value % 128 + 128) bs (omega arith) ∙ omega (arith, same),
        IsVarint-cons (value % 128 + 128) bs (omega arith) (omega arith) form,
        omega arith,
      )
]

-- A uint32_t is written as at most 5 such bytes and a uint64_t as at most 10, in one `write`.
pub write_uint-value :
    (a : ByteArray) (value : ℕ)
    → (value < 2 ^ 32
        → (bs : List ℕ) × (write_uint32 a value ≡ write a bs)
          × (varint_value bs ≡ value)
          × IsVarint bs
          × (length bs ≤ 5))
      × (value < 2 ^ 64
          → (bs : List ℕ) × (write_uint64 a value ≡ write a bs)
            × (varint_value bs ≡ value)
            × IsVarint bs
            × (length bs ≤ 10))
unfolding write_uint32 write_uint64
write_uint-value a value = (
  λ h.
      let (bs, e, same, form, count) = varint_bytes-value 4 value (omega arith) in
      (bs, rw e refl, same, form, count),
  λ h.
      let (bs, e, same, form, count) = varint_bytes-value 9 value (omega arith) in
      (bs, rw e refl, same, form, count),
)

branch_cong :
    (c : Bool) (x : Outcome ℕ) {y z : Outcome ℕ}
    → y ≡ z
    → elim c [ true ↦ x | false ↦ y ] ≡ elim c [ true ↦ x | false ↦ z ]
branch_cong true x e = refl
branch_cong false x e = e

read_varint-one :
    (w rounds : ℕ) (a b : ByteArray) (s t i r : ℕ)
    → read_fuint8 a s ≡ read_fuint8 b t
    → read_varint w rounds a s i r ≡ read_varint w rounds b t i r
unfolding read_varint
read_varint-one w zero a b s t i r e = refl
read_varint-one w (suc rounds) a b s t i r e =
    bind_cong (read_fuint8 a s) (read_fuint8 b t) _ _ e λ x.
      branch_cong (ltb x 128) _
        (read_varint-one w rounds a b s t (i + 7) (bit_or r (x % 2 ^ 7 * 2 ^ i % 2 ^ w)) e)

-- The readers look at one byte alone: from two places where readFuint8 gives the same, readUint32
-- gives the same, and so does readUint64.
pub read_uint-one :
    (a b : ByteArray) (s t : ℕ)
    → read_fuint8 a s ≡ read_fuint8 b t
    → (read_uint32 a s ≡ read_uint32 b t) × (read_uint64 a s ≡ read_uint64 b t)
unfolding read_uint32 read_uint64
read_uint-one a b s t e = (read_varint-one 32 5 a b s t 0 0 e, read_varint-one 64 10 a b s t 0 0 e)

read_varint-small :
    (w rounds b : ℕ) (a : ByteArray) (s : ℕ)
    → read_fuint8 a s ≡ ok b
    → b < 128
    → read_varint w (suc rounds) a s 0 0 ≡ ok (bit_or 0 (b * 2 ^ 0 % 2 ^ w))
unfolding read_varint
read_varint-small w rounds b a s e h = rw e (branch_true (ltb b 128) _ _ (lt→ltb b 128 h))
  where
    branch_true : (c : Bool) (x y : Outcome ℕ) → c ≡ true → elim c [ true ↦ x | false ↦ y ] ≡ x
    branch_true true x y e = refl
    branch_true false x y e = cc

-- A byte below 128 is the number itself.
pub read_uint-small :
    (a : ByteArray) (s b : ℕ)
    → read_fuint8 a s ≡ ok b
    → b < 128
    → (read_uint32 a s ≡ ok b) × (read_uint64 a s ≡ ok b)
unfolding read_uint32 read_uint64
read_uint-small a s b e h = (
  read_varint-small 32 4 b a s e h ∙ ap ok (bit_or-bitwise 0 (b * 2 ^ 0 % 2 ^ 32) ∙ omega arith),
  read_varint-small 64 9 b a s e h ∙ ap ok (bit_or-bitwise 0 (b * 2 ^ 0 % 2 ^ 64) ∙ omega arith),
)

module _ (w : ℕ) where
  encode-nonneg : (v : ℕ) → v * 2 < 2 ^ (w - 1) → encode_zigzag w v ≡ ok (v * 2)
  unfolding encode_zigzag
  encode-nonneg v h = rw (lt→ltb v (2 ^ (w - 1)) (omega arith), lt→ltb (v * 2) (2 ^ (w - 1)) h)

  encode-neg :
      (v : ℕ)
      → 2 ^ (w - 1) < v
      → v < 2 ^ w
      → 2 ^ w ≡ 2 * 2 ^ (w - 1)
      → encode_zigzag w v ≡ ok ((2 ^ w - v) * 2 - 1)
  unfolding encode_zigzag
  encode-neg v low high e =
      let other : (v == 2 ^ (w - 1)) ≡ false = ground arith in
      let n = (2 ^ w - v) * 2 - 1 in
      let sum : (2 ^ w - v) * 2 + 2 ^ w - 1 ≡ n + 2 ^ w = omega arith in
      rw (
        ge→ltb v (2 ^ (w - 1)) (omega arith),
        other,
        sum,
        add-mod_right,
        mod-eq_of_lt {n = n} {m = 2 ^ w} (omega arith),
      )

  decode-even : (e : ℕ) → e % 2 ≡ 0 → decode_zigzag w e ≡ e / 2
  unfolding decode_zigzag
  decode-even e h =
      let all : 2 ^ w - 0 ≡ 2 ^ w = omega arith in
      let none_set : (2 ^ w - 0) % 2 ^ w ≡ 0 = ap (λ (t : ℕ). t % 2 ^ w) all ∙ mod_self (2 ^ w) in
      rw (h, none_set) (xor-zero (e / 2))

  decode-odd : (e : ℕ) → e % 2 ≡ 1 → e / 2 < 2 ^ w → decode_zigzag w e ≡ 2 ^ w - 1 - e / 2
  unfolding decode_zigzag
  decode-odd e h lt =
      rw (h, mod-eq_of_lt {n = 2 ^ w - 1} {m = 2 ^ w} (omega arith))
        (xor-ones (e / 2) w (2 ^ w - 1) (omega arith) lt)

  zigzag-nonneg :
      (v : ℕ) → v * 2 < 2 ^ (w - 1) → (e : ℕ) × (encode_zigzag w v ≡ ok e) × (decode_zigzag w e ≡ v)
  zigzag-nonneg v h = (v * 2, encode-nonneg v h, decode-even (v * 2) (omega arith) ∙ omega arith)

  zigzag-neg :
      (v : ℕ)
      → 2 ^ (w - 1) < v
      → v < 2 ^ w
      → 2 ^ w ≡ 2 * 2 ^ (w - 1)
      → (e : ℕ) × (encode_zigzag w v ≡ ok e) × (decode_zigzag w e ≡ v)
  zigzag-neg v low high e =
      let n = (2 ^ w - v) * 2 - 1 in
      (n, encode-neg v low high e, decode-odd n (omega arith) (omega arith) ∙ omega arith)

round32 :
    (v : ℕ)
    → (v < 2 ^ 30) ⊎ ((2 ^ 31 < v) × (v < 2 ^ 32))
    → (e : ℕ) × (encode_zigzag32 v ≡ ok e) × (decode_zigzag32 e ≡ v)
unfolding encode_zigzag32 decode_zigzag32
round32 v (inl h) = zigzag-nonneg 32 v (omega arith)
round32 v (inr h) = zigzag-neg 32 v h.0 h.1 refl

round64 :
    (v : ℕ)
    → (v < 2 ^ 62) ⊎ ((2 ^ 63 < v) × (v < 2 ^ 64))
    → (e : ℕ) × (encode_zigzag64 v ≡ ok e) × (decode_zigzag64 e ≡ v)
unfolding encode_zigzag64 decode_zigzag64
round64 v (inl h) = zigzag-nonneg 64 v (omega arith)
round64 v (inr h) = zigzag-neg 64 v h.0 h.1 refl

-- Every int32_t from -(2 ^ 31 - 1) to 2 ^ 30 - 1, and every int64_t from -(2 ^ 63 - 1) to
-- 2 ^ 62 - 1, is encoded with no signed overflow, and decoding gives it back.
pub zigzag_round_trip :
    (v : ℕ)
    → ((v < 2 ^ 30) ⊎ ((2 ^ 31 < v) × (v < 2 ^ 32))
        → (e : ℕ) × (encode_zigzag32 v ≡ ok e) × (decode_zigzag32 e ≡ v))
      × ((v < 2 ^ 62) ⊎ ((2 ^ 63 < v) × (v < 2 ^ 64))
          → (e : ℕ) × (encode_zigzag64 v ≡ ok e) × (decode_zigzag64 e ≡ v))
zigzag_round_trip v = (round32 v, round64 v)
