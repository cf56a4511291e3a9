-- ===== src/Tests/Codecs.antt =====
-- The integer codecs at concrete numbers.
use uiconnect.Base.{◌≡◌, refl, [], ◌∷◌}
use uiconnect.Base.Outcome.{ok}
use uiconnect.ByteArray.{ByteArray}
use uiconnect.ByteArray.Read.{read}
use uiconnect.ByteArray.Codec.Fixed.{read_fuint8}
use uiconnect.ByteArray.Codec.Varint.{read_uint32, read_uint64}
use uiconnect.ByteArray.Codec.Laws.{read_uint-one}
use uiconnect.ByteArray.{at}
use uiconnect.Base.{true}

abbrev stored : ByteArray
stored = record {
  base_size = 4;
  write_pos = 4;
  read_pos = 0;
  capacity = 4;
  endian = 2;
  chain = record { cells = 172 ∷ 2 ∷ 172 ∷ 3 ∷ []; live = true } ∷ [];
  write_block = at 0;
  read_block = at 0;
  fill = 0;
}

same_first : read_fuint8 stored 0 ≡ read_fuint8 stored 2
unfolding read_fuint8 read
same_first = refl

-- 300 and 428 read as one number
read_uint-one_example :
    (read_uint32 stored 0 ≡ read_uint32 stored 2) × (read_uint64 stored 0 ≡ read_uint64 stored 2)
read_uint-one_example = read_uint-one stored stored 0 2 same_first

second : read_fuint8 stored 1 ≡ ok 2
unfolding read_fuint8 read
second = refl
