-- ===== src/Tests/Bytes.antt =====
-- Byte arrays and buffers: one block of four bytes, and two blocks with four unread bytes.
use uiconnect.Base.{ℕ, ◌+◌, ◌≤◌, ◌<◌, ◌≡◌, refl, inr, true, List, [], ◌∷◌, arith}
use uiconnect.Base.Outcome.{ok, fault}
use uiconnect.ByteArray.{Node, at, ByteArray, get_free_size, splice}
use uiconnect.ByteArray.Write.{write}
use uiconnect.ByteArray.Read.{read_next}
use uiconnect.ByteArray.Moves.{has_read, has_written}
use uiconnect.ByteArray.Flat.{flat}
use uiconnect.ByteArray.Sound.{IsSound}
use uiconnect.ByteArray.Sound.Write.{extend, needed, write_place, written, write_lem}
use uiconnect.ByteArray.Sound.Read.{pending, read_next_ok, read_next_fault}
use uiconnect.Buffer.{set_msg}
use uiconnect.Buffer.Queue.{KeepsReader, pending-set_msg, pending-has_read}
use uiconnect.Buffer.Pointer.{fill_of, write_place-set_msg}

abbrev node : ℕ → ℕ → ℕ → ℕ → Node
node a b c d = record { cells = a ∷ b ∷ c ∷ d ∷ []; live = true }

abbrev fresh : ByteArray
fresh = record {
  base_size = 4;
  write_pos = 0;
  read_pos = 0;
  capacity = 4;
  endian = 2;
  chain = node 7 7 7 7 ∷ [];
  write_block = at 0;
  read_block = at 0;
  fill = 7;
}

abbrev half_read : ByteArray
half_read = record fresh {
  write_pos = 6;
  read_pos = 2;
  capacity = 8;
  chain = node 1 2 3 4 ∷ node 5 6 7 7 ∷ [];
  write_block = at 1;
}

abbrev whole_blocks : ByteArray
whole_blocks = record half_read { read_pos = 0 }

abbrev three : List ℕ
three = 11 ∷ 12 ∷ 13 ∷ []

fresh-IsSound : IsSound fresh
fresh-IsSound = record {
  base_pos = omega arith;
  blocks = (refl, refl, tt);
  sized = refl;
  read_le = omega arith;
  write_le = omega arith;
  write_behind = omega arith;
  read_behind = omega arith;
}

half_read-IsSound : IsSound half_read
half_read-IsSound = record {
  base_pos = omega arith;
  blocks = (refl, refl, (refl, refl, tt));
  sized = refl;
  read_le = omega arith;
  write_le = omega arith;
  write_behind = omega arith;
  read_behind = omega arith;
}

whole_blocks-IsSound : IsSound whole_blocks
whole_blocks-IsSound = record {
  base_pos = omega arith;
  blocks = (refl, refl, (refl, refl, tt));
  sized = refl;
  read_le = omega arith;
  write_le = omega arith;
  write_behind = omega arith;
  read_behind = omega arith;
}

-- three bytes do not fit behind six of eight
write_lem_example :
    (c : List Node) × (write half_read three ≡ ok (written half_read three c))
    × IsSound (written half_read three c)
    × (flat c ≡ splice (flat (extend half_read (needed half_read 3)).chain) 6 three)
    × (3 ≤ get_free_size (written half_read three c))
write_lem_example = write_lem half_read three half_read-IsSound (omega arith)

read_next_ok_example : read_next half_read 2 ≡ ok (3 ∷ 4 ∷ [])
read_next_ok_example =
    read_next_ok half_read 2 half_read-IsSound refl (omega arith) (omega arith) (inr (omega arith))

-- the bytes 3, 4 and 5, of which the last is in the next block
read_next_fault_example : read_next half_read 3 ≡ fault
read_next_fault_example =
    read_next_fault half_read 3 half_read-IsSound (omega arith) (omega arith) (omega arith)
      (omega arith)

pending-set_msg_example :
    (b : ByteArray) × (set_msg half_read three ≡ ok b)
    × IsSound b
    × (pending b ≡ 3 ∷ 4 ∷ 5 ∷ 6 ∷ 11 ∷ 12 ∷ 13 ∷ [])
    × (b.write_pos ≡ 9)
    × KeepsReader half_read b
pending-set_msg_example = pending-set_msg half_read three half_read-IsSound refl (omega arith)

pending-has_read_example :
    (b : ByteArray) × (has_read half_read 3 ≡ ok b)
    × IsSound b
    × (pending b ≡ 6 ∷ [])
    × (b.read_pos ≡ 5)
    × (b.write_pos ≡ 6)
pending-has_read_example =
    pending-has_read half_read 3 half_read-IsSound (omega arith) (omega arith)

-- `half_read` after its next two bytes, which fill its second block
abbrev filled : ByteArray
filled = record half_read { write_pos = 8; chain = node 1 2 3 4 ∷ node 5 6 11 12 ∷ [] }

set_msg-half_read : set_msg half_read (11 ∷ 12 ∷ []) ≡ ok filled
unfolding set_msg write has_written
set_msg-half_read = refl

write_place-set_msg_example :
    (fill_of 4 6 2 < 4 → write_place filled ≡ 8) × (4 ≤ fill_of 4 6 2 → write_place filled + 4 ≡ 8)
write_place-set_msg_example =
    write_place-set_msg half_read filled (11 ∷ 12 ∷ []) half_read-IsSound refl (omega arith)
      set_msg-half_read

has_read_half : has_read half_read 1 ≡ ok (record half_read { read_pos = 3 })
unfolding has_read
has_read_half = refl
