-- ===== src/ByteArray/Codec/Bytes.antt =====
-- Integers in memory and byteswap of Endian.h.
use uiconnect.Base.{
  ℕ, zero, suc, ◌+◌, ◌*◌, ◌/◌, ◌%◌, ◌^◌, ◌<◌, ◌≡◌, refl, sym, ap, ◌∙◌, List, [], ◌∷◌, ◌++◌, length,
  length-append, arith,
}
use uiconnect.ByteArray.Codec.Fixed.{to_bytes, from_bytes, byteswap}
use mathlib.Core.List.{reverse, reverse-reverse, reverse-append}
use native.Mathlib.Nat.{pow-suc}

-- every entry is a byte
abbrev pub Bytes : List ℕ → Type 0
Bytes [] = Unit
Bytes (b ∷ bs) = (b < 256) × Bytes bs

pub length-to_bytes : (n v : ℕ) → length (to_bytes n v) ≡ n
unfolding to_bytes
length-to_bytes zero v = refl
length-to_bytes (suc n) v = ap suc (length-to_bytes n (v / 256))

pub to_bytes-Bytes : (n v : ℕ) → Bytes (to_bytes n v)
unfolding to_bytes
to_bytes-Bytes zero v = tt
to_bytes-Bytes (suc n) v = (omega arith, to_bytes-Bytes n (v / 256))

pub from_bytes-lt : (bs : List ℕ) → Bytes bs → from_bytes bs < 256 ^ length bs
unfolding from_bytes
from_bytes-lt [] h = omega arith
from_bytes-lt (b ∷ bs) h = omega (arith, from_bytes-lt bs h.1, pow-suc 256 (length bs), h.0)

pub from_bytes-to_bytes : (n v : ℕ) → v < 256 ^ n → from_bytes (to_bytes n v) ≡ v
unfolding from_bytes to_bytes
from_bytes-to_bytes zero v h = omega arith
from_bytes-to_bytes (suc n) v h =
    omega (arith, from_bytes-to_bytes n (v / 256) (omega (arith, pow-suc 256 n)))

pub to_bytes-from_bytes : (bs : List ℕ) → Bytes bs → to_bytes (length bs) (from_bytes bs) ≡ bs
unfolding from_bytes to_bytes
to_bytes-from_bytes [] h = refl
to_bytes-from_bytes (b ∷ bs) h =
    let low : (b + 256 * from_bytes bs) % 256 ≡ b = omega (arith, h.0) in
    let high : (b + 256 * from_bytes bs) / 256 ≡ from_bytes bs = omega (arith, h.0) in
    rw (low, high, to_bytes-from_bytes bs h.1)

reverse-cons : (b : ℕ) (bs : List ℕ) → reverse (b ∷ bs) ≡ reverse bs ++ b ∷ []
reverse-cons b bs = reverse-append (b ∷ []) bs

length-reverse : (bs : List ℕ) → length (reverse bs) ≡ length bs
length-reverse [] = refl
length-reverse (b ∷ bs) =
    rw (reverse-cons b bs) (omega (arith, length-append (reverse bs) (b ∷ []), length-reverse bs))

Bytes-append : (xs ys : List ℕ) → Bytes xs → Bytes ys → Bytes (xs ++ ys)
Bytes-append [] ys h k = k
Bytes-append (x ∷ xs) ys h k = (h.0, Bytes-append xs ys h.1 k)

reverse-Bytes : (bs : List ℕ) → Bytes bs → Bytes (reverse bs)
reverse-Bytes [] h = tt
reverse-Bytes (b ∷ bs) h =
    rw (reverse-cons b bs) (Bytes-append (reverse bs) (b ∷ []) (reverse-Bytes bs h.1) (h.0, tt))

to_bytes-byteswap : (n v : ℕ) → to_bytes n (byteswap n v) ≡ reverse (to_bytes n v)
unfolding byteswap
to_bytes-byteswap n v =
    let e : length (reverse (to_bytes n v)) ≡ n =
      length-reverse (to_bytes n v) ∙ length-to_bytes n v in
    ap (λ k. to_bytes k (from_bytes (reverse (to_bytes n v)))) (sym e)
    ∙ to_bytes-from_bytes (reverse (to_bytes n v))
        (reverse-Bytes (to_bytes n v) (to_bytes-Bytes n v))

-- Swapping the bytes of an n-byte integer twice gives it back.
pub byteswap-byteswap : (n v : ℕ) → v < 256 ^ n → byteswap n (byteswap n v) ≡ v
unfolding byteswap
byteswap-byteswap n v h =
    rw (to_bytes-byteswap n v, reverse-reverse (to_bytes n v)) (from_bytes-to_bytes n v h)

pub byteswap-lt : (n v : ℕ) → byteswap n v < 256 ^ n
unfolding byteswap
byteswap-lt n v =
    let e : length (reverse (to_bytes n v)) ≡ n =
      length-reverse (to_bytes n v) ∙ length-to_bytes n v in
    rw e at
      (from_bytes-lt (reverse (to_bytes n v)) (reverse-Bytes (to_bytes n v) (to_bytes-Bytes n v)))
