-- ===== src/Tests/Cleared.antt =====
-- A buffer of two blocks that is cleared while its reader stands in the second one.
use uiconnect.Base.{ℕ, ◌≡◌, ◌≢◌, ◌⊎◌, refl, true, [], ◌∷◌, arith}
use uiconnect.Base.Outcome.{ok, fault}
use uiconnect.ByteArray.{Node, at, dangling, ByteArray}
use uiconnect.ByteArray.Write.{write}
use uiconnect.ByteArray.Read.{read_next}
use uiconnect.ByteArray.Moves.{clear, has_written}
use uiconnect.ByteArray.Sound.{IsSound}
use uiconnect.ByteArray.Sound.Read.{pending}
use uiconnect.Buffer.{set_msg}
use uiconnect.Buffer.Cleared.{clear-read_next}

abbrev node : ℕ → ℕ → ℕ → ℕ → Node
node a b c d = record { cells = a ∷ b ∷ c ∷ d ∷ []; live = true }

abbrev second_block : ByteArray
second_block = record {
  base_size = 4;
  write_pos = 6;
  read_pos = 5;
  capacity = 8;
  endian = 2;
  chain = node 1 2 3 4 ∷ node 5 6 7 7 ∷ [];
  write_block = at 1;
  read_block = at 1;
  fill = 7;
}

second_block-IsSound : IsSound second_block
second_block-IsSound = record {
  base_pos = omega arith;
  blocks = (refl, refl, (refl, refl, tt));
  sized = refl;
  read_le = omega arith;
  write_le = omega arith;
  write_behind = omega arith;
  read_behind = omega arith;
}

abbrev after : ByteArray
after = record second_block {
  write_pos = 0;
  read_pos = 0;
  capacity = 4;
  chain = node 1 2 3 4 ∷ [];
  write_block = at 0;
  read_block = dangling;
}

abbrev refilled : ByteArray
refilled = record after { write_pos = 2; chain = node 9 8 3 4 ∷ [] }

cleared : clear second_block ≡ ok after
unfolding clear
cleared = refl

set_again : set_msg after (9 ∷ 8 ∷ []) ≡ ok refilled
unfolding set_msg write has_written
set_again = refl

clear-read_next_example :
    ((second_block.read_block ≡ at 0) × IsSound after × (pending after ≡ []))
    ⊎ ((second_block.read_block ≢ at 0) × (read_next refilled 2 ≡ fault))
clear-read_next_example =
    clear-read_next second_block after refilled (9 ∷ 8 ∷ []) 2 second_block-IsSound (omega arith)
      cleared set_again (omega arith) (omega arith)
