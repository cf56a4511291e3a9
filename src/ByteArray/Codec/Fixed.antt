-- ===== src/ByteArray/Codec/Fixed.antt =====
-- writeFint8 to writeFuint64, writeFloat, writeDouble and their readers, and byteswap of Endian.h.
-- An integer is its bit pattern, a number below 2 ^ (8 * n) in n bytes, and a float or double the
-- pattern that memcpy moves. In memory the host keeps the low byte first. BYTE_ORDER comes from
-- the system's headers: it is the parameter `byte_order`.
use uiconnect.Base.{ℕ, zero, suc, ◌+◌, ◌*◌, ◌/◌, ◌%◌, List, [], ◌∷◌, ◌==◌, if◌then◌else◌}
use uiconnect.Base.Outcome.{Outcome, ok, ◌>>=◌}
use uiconnect.ByteArray.{ByteArray}
use uiconnect.ByteArray.Write.{write}
use uiconnect.ByteArray.Read.{read}
use mathlib.Core.List.{reverse}

-- an n-byte integer in memory
unfoldable pub to_bytes : ℕ → ℕ → List ℕ
to_bytes zero v = []
to_bytes (suc n) v = (v % 256) ∷ to_bytes n (v / 256)

unfoldable pub from_bytes : List ℕ → ℕ
from_bytes [] = 0
from_bytes (b ∷ bs) = b + 256 * from_bytes bs

-- bswap_16, bswap_32, bswap_64
unfoldable pub byteswap : ℕ → ℕ → ℕ
unfolding to_bytes from_bytes
byteswap n v = from_bytes (reverse (to_bytes n v))

-- Writing and reading single bytes knows no byte order.
unfoldable pub write_fuint8 : ByteArray → ℕ → Outcome ByteArray
unfolding to_bytes
write_fuint8 a v = write a (to_bytes 1 v)

unfoldable pub write_fint8 : ByteArray → ℕ → Outcome ByteArray
unfolding to_bytes
write_fint8 a v = write a (to_bytes 1 v)

unfoldable pub read_fuint8 : ByteArray → ℕ → Outcome ℕ
unfolding from_bytes
read_fuint8 a start = do bs ← read a 1 start; ok (from_bytes bs)

unfoldable pub read_fint8 : ByteArray → ℕ → Outcome ℕ
unfolding from_bytes
read_fint8 a start = do bs ← read a 1 start; ok (from_bytes bs)

module _ (byte_order : ℕ) where
  -- if(m_endian != BYTE_ORDER) value = byteswap(value); and the macro XX the other way round
  unfoldable pub to_order : ByteArray → ℕ → ℕ → ℕ
  unfolding byteswap
  to_order a n v = if a.endian == byte_order then v else byteswap n v

  unfoldable pub write_fixed : ByteArray → ℕ → ℕ → Outcome ByteArray
  unfolding to_order to_bytes
  write_fixed a n v = write a (to_bytes n (to_order a n v))

  unfoldable pub read_fixed : ByteArray → ℕ → ℕ → Outcome ℕ
  unfolding to_order from_bytes
  read_fixed a n start = do bs ← read a n start; ok (to_order a n (from_bytes bs))

  unfoldable pub write_fint16 : ByteArray → ℕ → Outcome ByteArray
  unfolding write_fixed
  write_fint16 a v = write_fixed a 2 v

  unfoldable pub write_fuint16 : ByteArray → ℕ → Outcome ByteArray
  unfolding write_fixed
  write_fuint16 a v = write_fixed a 2 v

  unfoldable pub write_fint32 : ByteArray → ℕ → Outcome ByteArray
  unfolding write_fixed
  write_fint32 a v = write_fixed a 4 v

  unfoldable pub write_fuint32 : ByteArray → ℕ → Outcome ByteArray
  unfolding write_fixed
  write_fuint32 a v = write_fixed a 4 v

  unfoldable pub write_fint64 : ByteArray → ℕ → Outcome ByteArray
  unfolding write_fixed
  write_fint64 a v = write_fixed a 8 v

  unfoldable pub write_fuint64 : ByteArray → ℕ → Outcome ByteArray
  unfolding write_fixed
  write_fuint64 a v = write_fixed a 8 v

  unfoldable pub write_float : ByteArray → ℕ → Outcome ByteArray
  unfolding write_fuint32
  write_float a v = write_fuint32 a v

  unfoldable pub write_double : ByteArray → ℕ → Outcome ByteArray
  unfolding write_fuint64
  write_double a v = write_fuint64 a v

  unfoldable pub read_fint16 : ByteArray → ℕ → Outcome ℕ
  unfolding read_fixed
  read_fint16 a start = read_fixed a 2 start

  unfoldable pub read_fuint16 : ByteArray → ℕ → Outcome ℕ
  unfolding read_fixed
  read_fuint16 a start = read_fixed a 2 start

  unfoldable pub read_fint32 : ByteArray → ℕ → Outcome ℕ
  unfolding read_fixed
  read_fint32 a start = read_fixed a 4 start

  unfoldable pub read_fuint32 : ByteArray → ℕ → Outcome ℕ
  unfolding read_fixed
  read_fuint32 a start = read_fixed a 4 start

  unfoldable pub read_fint64 : ByteArray → ℕ → Outcome ℕ
  unfolding read_fixed
  read_fint64 a start = read_fixed a 8 start

  unfoldable pub read_fuint64 : ByteArray → ℕ → Outcome ℕ
  unfolding read_fixed
  read_fuint64 a start = read_fixed a 8 start

  unfoldable pub read_float : ByteArray → ℕ → Outcome ℕ
  unfolding read_fuint32
  read_float a start = read_fuint32 a start

  unfoldable pub read_double : ByteArray → ℕ → Outcome ℕ
  unfolding read_fuint64
  read_double a start = read_fuint64 a start
