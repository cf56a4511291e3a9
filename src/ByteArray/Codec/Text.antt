-- ===== src/ByteArray/Codec/Text.antt =====
-- writeStringF16 to writeStringWithoutLength and their readers.
use uiconnect.Base.{ℕ, ◌%◌, ◌^◌, List, length}
use uiconnect.Base.Outcome.{Outcome, ◌>>=◌}
use uiconnect.ByteArray.{ByteArray}
use uiconnect.ByteArray.Write.{write}
use uiconnect.ByteArray.Read.{read}
use uiconnect.ByteArray.Codec.Fixed.{
  write_fuint16, write_fuint32, write_fuint64, read_fuint16, read_fuint32, read_fuint64,
}
use uiconnect.ByteArray.Codec.Varint.{write_uint64, read_uint64}

unfoldable pub write_string_without_length : ByteArray → List ℕ → Outcome ByteArray
write_string_without_length a value = write a value

unfoldable pub write_string_vint : ByteArray → List ℕ → Outcome ByteArray
write_string_vint a value = do b ← write_uint64 a (length value % 2 ^ 64); write b value

unfoldable pub read_string_vint : ByteArray → ℕ → Outcome (List ℕ)
read_string_vint a start = do len ← read_uint64 a start; read a len start

module _ (byte_order : ℕ) where
  unfoldable pub write_string_f16 : ByteArray → List ℕ → Outcome ByteArray
  write_string_f16 a value = do
    b ← write_fuint16 byte_order a (length value % 2 ^ 16)
    write b value

  unfoldable pub write_string_f32 : ByteArray → List ℕ → Outcome ByteArray
  write_string_f32 a value = do
    b ← write_fuint32 byte_order a (length value % 2 ^ 32)
    write b value

  unfoldable pub write_string_f64 : ByteArray → List ℕ → Outcome ByteArray
  write_string_f64 a value = do
    b ← write_fuint64 byte_order a (length value % 2 ^ 64)
    write b value

  unfoldable pub read_string_f16 : ByteArray → ℕ → Outcome (List ℕ)
  read_string_f16 a start = do len ← read_fuint16 byte_order a start; read a len start

  unfoldable pub read_string_f32 : ByteArray → ℕ → Outcome (List ℕ)
  read_string_f32 a start = do len ← read_fuint32 byte_order a start; read a len start

  unfoldable pub read_string_f64 : ByteArray → ℕ → Outcome (List ℕ)
  read_string_f64 a start = do len ← read_fuint64 byte_order a start; read a len start
