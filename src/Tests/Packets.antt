-- ===== src/Tests/Packets.antt =====
-- A packet with a load of three bytes, and an integer, through an empty buffer.
use uiconnect.Base.{ℕ, ◌≡◌, refl, inl, ◌≤◌, ◌⊎◌, true, List, [], ◌∷◌, ◌++◌, length, arith}
use uiconnect.Base.Outcome.{ok, thrown, ◌>>=◌}
use uiconnect.ByteArray.{at, ByteArray, get_unread_size}
use uiconnect.ByteArray.Read.{read}
use uiconnect.ByteArray.Moves.{has_read, has_written}
use uiconnect.ByteArray.Codec.Fixed.{write_fixed, read_fixed}
use uiconnect.ByteArray.Sound.{IsSound}
use uiconnect.Buffer.{get_pack}
use uiconnect.Buffer.Packets.{get_pack_lem}
use uiconnect.Buffer.Numbers.{read_fixed-write_fixed}
use uiconnect.Packet.{Packet, invalid, create_empty, data_load, create}

abbrev pub empty : ByteArray
empty = record {
  base_size = 4;
  write_pos = 0;
  read_pos = 0;
  capacity = 4;
  endian = 2;
  chain = record { cells = 0 ∷ 0 ∷ 0 ∷ 0 ∷ []; live = true } ∷ [];
  write_block = at 0;
  read_block = at 0;
  fill = 0;
}

pub empty-IsSound : IsSound empty
empty-IsSound = record {
  base_pos = omega arith;
  blocks = (refl, refl, tt);
  sized = refl;
  read_le = omega arith;
  write_le = omega arith;
  write_behind = omega arith;
  read_behind = omega arith;
}

abbrev pub three : List ℕ
three = 65 ∷ 66 ∷ 67 ∷ []

-- 70000 as four bytes, in the order of the host and not in that of the array
read_fixed-write_fixed_example :
    (b : ByteArray) × ((write_fixed 1234 empty 4 70000 >>= λ c. has_written c 4) ≡ ok b)
    × (read_fixed 1234 b 4 b.read_pos ≡ ok 70000)
read_fixed-write_fixed_example =
    read_fixed-write_fixed 1234 empty 4 70000 empty-IsSound refl refl refl (omega arith)
      (omega arith) (inl refl)

-- a block of 16 bytes with a packet of no load, command 5: getPack takes its first four bytes
abbrev frame : List ℕ
frame = 0xFF ∷ 0xFE ∷ 4 ∷ 0 ∷ 0 ∷ 0 ∷ 0 ∷ 0 ∷ 0 ∷ 0 ∷ 5 ∷ 0 ∷ 0 ∷ 0 ∷ []

frame_lem : frame ≡ (create 5 []).pack_data
unfolding create
frame_lem = refl

abbrev framed : ℕ → ByteArray
framed n = record {
  base_size = 16;
  write_pos = 14;
  read_pos = n;
  capacity = 16;
  endian = 2;
  chain = record { cells = frame ++ 0 ∷ 0 ∷ []; live = true } ∷ [];
  write_block = at 0;
  read_block = at 0;
  fill = 0;
}

abbrev taken : Packet
taken = record {
  head = 0xFEFF;
  length_field = 4;
  cmd = invalid;
  data_load_pos = 12;
  data_load_size = 0;
  check_sum = 4;
  pack_data = 0xFF ∷ 0xFE ∷ 4 ∷ 0 ∷ [];
}

taken_lem : get_pack (framed 0) (create_empty invalid) ≡ ok (taken, framed 4)
unfolding get_pack read has_read
taken_lem = refl

get_pack_lem_example :
    ((framed 4 ≡ framed 0) × (taken.cmd ≡ (create_empty invalid).cmd))
    ⊎ ((length taken.pack_data ≤ 4)
        × (data_load taken ≡ thrown)
        × (get_unread_size (framed 4) ≤ get_unread_size (framed 0)))
get_pack_lem_example =
    get_pack_lem (framed 0) (create_empty invalid) taken (framed 4) (omega arith) taken_lem
