-- ===== src/ByteArray/Write.antt =====
-- ByteArray::addCapacityIfNotEnough and ByteArray::write.
use uiconnect.Base.{
  ℕ, ◌+◌, ◌-◌, ◌*◌, ◌/◌, ◌%◌, not, ◌||◌, List, [], ◌∷◌, ◌++◌, length, take, drop, replicate, leb,
  ◌==◌, if◌then◌else◌,
}
use uiconnect.Base.Outcome.{Outcome, ok, fault, ◌>>=◌, ◌>>◌, require}
use uiconnect.ByteArray.{
  Node, ByteArray, new_node, get_free_size, store, head_size, all_live, from, before,
}

-- ceil(1.5 * addSize / m_baseSize), which the double has exactly for sizes below 2 ^ 50
unfoldable pub added_blocks : ℕ → ℕ → ℕ
added_blocks add base = (3 * add + (2 * base - 1)) / (2 * base)

-- The walk to the last node reads `next` of every node.
unfoldable pub add_capacity_if_not_enough : ByteArray → ℕ → Outcome ByteArray
unfolding added_blocks new_node all_live
add_capacity_if_not_enough a size = if leb size 0 || leb size (get_free_size a) then ok a else do
  require (not (a.base_size == 0))
  require (all_live a.chain)
  let count = added_blocks (size - get_free_size a) a.base_size
  ok (record a {
    chain = a.chain ++ replicate count (new_node a.base_size a.fill);
    capacity = a.capacity + count * a.base_size;
  })

-- The loop of `write` over the nodes from `cur` on.
unfoldable pub write_loop : List Node → ℕ → ℕ → List ℕ → Outcome (List Node)
unfolding store head_size
write_loop [] pos free buf = fault
write_loop (node ∷ rest) pos free buf =
    if leb (length buf) free then (do node' ← store node pos buf; ok (node' ∷ rest)) else do
      node' ← store node pos (take free buf)
      free' ← head_size rest
      rest' ← write_loop rest 0 free' (drop free buf)
      ok (node' ∷ rest')

unfoldable pub write : ByteArray → List ℕ → Outcome ByteArray
unfolding add_capacity_if_not_enough write_loop
write a buf = if length buf == 0 then ok a else do
  b ← add_capacity_if_not_enough a (length buf)
  require (not (b.base_size == 0))
  cur ← from b.chain b.write_block
  let pos = b.write_pos % b.base_size
  rest ← write_loop cur pos (b.base_size - pos) buf
  ok (record b { chain = before b.chain b.write_block ++ rest })
