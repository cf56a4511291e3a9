-- ===== src/ByteArray/Iov.antt =====
-- ByteArray::getReadBuffers and getWriteBuffers: the pieces that sendmsg and recvmsg work on.
use uiconnect.Base.{ℕ, suc, ◌+◌, ◌-◌, ◌%◌, min, not, List, [], ◌∷◌, drop, leb, ◌==◌, if◌then◌else◌}
use uiconnect.Base.Outcome.{Outcome, ok, fault, ◌>>=◌, ◌>>◌, require}
use uiconnect.ByteArray.{
  Node, at, dangling, ByteArray, get_unread_size, get_cur_block_unread_size, head_size,
}
use uiconnect.ByteArray.Write.{add_capacity_if_not_enough}

-- struct iovec: iov_base is an offset into a block of the chain.
pub record IoVec : Type 0 where
  pub block : ℕ
  pub offset : ℕ
  pub len : ℕ

-- `all` is the whole length asked for, `total` is getUnreadSize(), `gone` is readAlreadySize.
unfoldable pub read_iovs : List Node → ℕ → ℕ → ℕ → ℕ → ℕ → ℕ → ℕ → ℕ → Outcome (List IoVec)
unfolding head_size
read_iovs [] k pos u left all total base gone = fault
read_iovs (node ∷ rest) k pos u left all total base gone = do
  require node.live
  if leb left u then ok (record { block = k; offset = pos; len = all } ∷ []) else do
    more ←
        read_iovs rest (suc k) 0 (min base (total - (gone + u))) (left - u) all total base
          (gone + u)
    ok (record { block = k; offset = pos; len = u } ∷ more)

unfoldable pub get_read_buffers : ByteArray → ℕ → Outcome (ℕ × List IoVec)
unfolding read_iovs
get_read_buffers a want =
    let len = min (get_unread_size a) want in
    if len == 0 then ok (0, []) else do
      require (not (a.base_size == 0))
      elim a.read_block [
        | dangling ↦ fault
        | at k ↦
            read_iovs (drop k a.chain) k (a.read_pos % a.base_size) (get_cur_block_unread_size a)
              len len (get_unread_size a) a.base_size 0
            >>= λ iovs. ok (len, iovs)
      ]

unfoldable pub write_iovs : List Node → ℕ → ℕ → ℕ → ℕ → Outcome (List IoVec)
unfolding head_size
write_iovs [] k pos free left = fault
write_iovs (node ∷ rest) k pos free left = do
  require node.live
  if leb left free then ok (record { block = k; offset = pos; len = left } ∷ []) else do
    free' ← head_size rest
    more ← write_iovs rest (suc k) 0 free' (left - free)
    ok (record { block = k; offset = pos; len = free } ∷ more)

unfoldable pub get_write_buffers : ByteArray → ℕ → Outcome (ℕ × List IoVec × ByteArray)
unfolding write_iovs add_capacity_if_not_enough head_size
get_write_buffers a len = if len == 0 then ok (0, [], a) else do
  b ← add_capacity_if_not_enough a len
  require (not (b.base_size == 0))
  elim b.write_block [
    | dangling ↦ fault
    | at k ↦ head_size (drop k b.chain) >>= λ size.
        let pos = b.write_pos % b.base_size in
        write_iovs (drop k b.chain) k pos (size - pos) len >>= λ iovs. ok (len, iovs, b)
  ]
