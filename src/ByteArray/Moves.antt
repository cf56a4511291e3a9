-- ===== src/ByteArray/Moves.antt =====
-- ByteArray::hasRead, hasWritten, clear, reset and refresh: what moves the positions and blocks.
use uiconnect.Base.{
  ℕ, zero, suc, ◌+◌, ◌/◌, ◌%◌, ◌^◌, max, true, false, ◌||◌, List, [], ◌∷◌, length, take, replicate,
  ltb, leb, if◌then◌else◌,
}
use uiconnect.Base.Outcome.{Outcome, ok, fault, ◌>>=◌, ◌>>◌, require, throw_if}
use uiconnect.ByteArray.{
  Node, Link, at, dangling, ByteArray, get_free_size, get_unread_size, all_live, next,
}

-- while(tmpPos < target) { tmpPos += m_baseSize; if(tmpPos < target) block = block->next; }
-- `suc size` rounds are enough for blocks that are not empty; with empty ones the loop of the
-- source has no end and no effect, which C++ leaves undefined.
unfoldable pub advance : ℕ → ℕ → List Node → ℕ → ℕ → Link → Outcome Link
unfolding next
advance zero base chain pos target block = fault
advance (suc fuel) base chain pos target block = elim (ltb pos target) [
  | true ↦ (if ltb (pos + base) target then next chain block else ok block) >>= λ block'.
      advance fuel base chain (pos + base) target block'
  | false ↦ ok block
]

unfoldable pub has_read : ByteArray → ℕ → Outcome ByteArray
unfolding advance
has_read a size = do
  throw_if (leb size 0 || ltb (get_unread_size a) size)
  let target = a.read_pos + size
  block ← advance (suc size) a.base_size a.chain a.read_pos target a.read_block
  ok (record a { read_pos = target; read_block = block })

unfoldable pub has_written : ByteArray → ℕ → Outcome ByteArray
unfolding advance
has_written a size = do
  throw_if (leb size 0 || ltb (get_free_size a) size)
  let target = a.write_pos + size
  block ← advance (suc size) a.base_size a.chain a.write_pos target a.write_block
  ok (record a { write_pos = target; write_block = block })

-- `clear` frees every node but the root: a pointer to another one dangles.
unfoldable pub after_clear : Link → Link
after_clear dangling = dangling
after_clear (at zero) = at 0
after_clear (at (suc k)) = dangling

unfoldable pub clear : ByteArray → Outcome ByteArray
unfolding after_clear all_live
clear a = do
  require (all_live a.chain)
  ok (record a {
    read_pos = 0;
    write_pos = 0;
    capacity = a.base_size;
    chain = take 1 a.chain;
    write_block = at 0;
    read_block = after_clear a.read_block;
  })

-- The nodes before `block_no` are zeroed, the others freed; the chain still links to those.
unfoldable pub reset_nodes : ℕ → ℕ → List Node → List Node
reset_nodes i block_no [] = []
reset_nodes i block_no (node ∷ rest) =
    (if ltb i block_no
      then record node { cells = replicate (length node.cells) 0 }
      else record node { live = false })
    ∷ reset_nodes (suc i) block_no rest

unfoldable pub reset : ByteArray → ℕ → Outcome ByteArray
unfolding reset_nodes all_live
reset a block_no = if ltb block_no 1 then ok a else do
  require (all_live a.chain)
  ok (record a {
    read_pos = 0;
    write_pos = 0;
    chain = reset_nodes 0 block_no a.chain;
    write_block = at 0;
  })

-- std::max(1, (int)n)
unfoldable pub at_least_one : ℕ → ℕ
at_least_one n = let low = n % 2 ^ 32 in if ltb low (2 ^ 31) then max 1 low else 1

unfoldable pub refresh : ByteArray → Outcome ByteArray
unfolding reset at_least_one
refresh a = do require (ltb 0 a.base_size); reset a (at_least_one (a.write_pos / a.base_size / 2))
