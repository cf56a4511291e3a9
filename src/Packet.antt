-- ===== src/Packet.antt =====
-- server/library/network/socket/Packet.h and Packet.cpp: a framed message. WORD has 2 bytes and
-- DWORD, `unsigned long` on Linux, 8; the frame is head, length, command, load, check sum.
pub mod Frame
use uiconnect.Base.{
  ℕ, ◌+◌, ◌%◌, ◌^◌, Bool, not, List, [], ◌∷◌, ◌++◌, length, take, drop, ltb, ◌==◌, if◌then◌else◌,
}
use uiconnect.Base.Outcome.{Outcome, ok, thrown}
use uiconnect.ByteArray.Codec.Fixed.{to_bytes}

pub record Packet : Type 0 where
  pub head : ℕ
  pub length_field : ℕ
  pub cmd : ℕ
  pub data_load_pos : ℕ
  pub data_load_size : ℕ
  pub check_sum : ℕ
  pub pack_data : List ℕ

-- PackCommand::INVALID
abbrev pub invalid : ℕ
invalid = 0

-- Packet::Packet(WORD)
unfoldable pub create_empty : ℕ → Packet
create_empty command = record {
  head = 0xFEFF;
  length_field = 0;
  cmd = command;
  data_load_pos = 0;
  data_load_size = 0;
  check_sum = 0;
  pack_data = [];
}

-- the sum of the bytes in a WORD, from `acc` on
unfoldable pub sum_bytes : ℕ → List ℕ → ℕ
sum_bytes acc [] = acc
sum_bytes acc (b ∷ bs) = sum_bytes ((acc + b) % 2 ^ 16) bs

-- Packet::Packet(WORD, const char*, int)
unfoldable pub create : ℕ → List ℕ → Packet
unfolding sum_bytes to_bytes
create command load =
    let len = length load + 4 in
    let sum = sum_bytes 0 load in
    record {
      head = 0xFEFF;
      length_field = len;
      cmd = command;
      data_load_pos = 12;
      data_load_size = length load;
      check_sum = sum;
      pack_data =
          to_bytes 2 0xFEFF ++ (to_bytes 8 len ++ (to_bytes 2 command ++ (load ++ to_bytes 2 sum)));
    }

-- Packet::dataLoad; std::string throws for a place behind its end.
unfoldable pub data_load : Packet → Outcome (List ℕ)
data_load p =
    if ltb (length p.pack_data) p.data_load_pos
    then thrown
    else ok (take p.data_load_size (drop p.data_load_pos p.pack_data))

-- Packet::packSize
unfoldable pub pack_size : Packet → ℕ
pack_size p = (10 + p.length_field) % 2 ^ 64

unfoldable pub is_valid : Packet → Bool
is_valid p = not (p.cmd == invalid)

-- Packet::clear
unfoldable pub clear : Packet → Packet
clear p = record p { cmd = invalid; pack_data = [] }
