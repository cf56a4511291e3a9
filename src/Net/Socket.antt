-- ===== src/Net/Socket.antt =====
-- server/library/network/socket/TcpSocket.cpp: send, recv and close over a Buffer. The answers of
-- sendmsg and recvmsg are arguments; of a socket the model keeps whether it is open.
use uiconnect.Base.{
  ℕ, zero, ◌+◌, ◌-◌, Bool, true, false, Option, none, some, List, [], ◌∷◌, length, get_elem?, set,
  take, drop, ltb, leb, if◌then◌else◌,
}
use uiconnect.Base.Outcome.{Outcome, ok, fault, ◌>>=◌, ◌>>◌, require}
use uiconnect.ByteArray.{Node, ByteArray, get_free_size, get_unread_size, store}
use uiconnect.ByteArray.Write.{write}
use uiconnect.ByteArray.Moves.{has_read, has_written}
use uiconnect.ByteArray.Iov.{IoVec, get_read_buffers, get_write_buffers}

-- The `int&` that send and recv set: -1, or a number of bytes.
pub data Size : Type 0 where
  minus_one : Size
  bytes : ℕ → Size

-- sendmsg: how many bytes it took, or an errno that means to retry (EWOULDBLOCK, EAGAIN, EINTR) or
-- another one.
pub data Sent : Type 0 where
  took : ℕ → Sent
  retry broken : Sent

-- recvmsg: bytes (none when the other side closed), EINTR, EWOULDBLOCK or another errno
pub data Received : Type 0 where
  got : List ℕ → Received
  interrupted would_block failed : Received

-- The kernel reads an iovec: it has to lie in its block.
unfoldable pub within : List Node → List IoVec → Bool
within chain [] = true
within chain (v ∷ rest) =
    let others = within chain rest in
    elim (get_elem? chain v.block) [
      | none ↦ false
      | some node ↦ if leb (v.offset + v.len) (length node.cells) then others else false
    ]

-- TcpSocket::send: its result, sendSize and the buffer. `size` is sendSize before. An empty vector
-- of iovecs goes to sendmsg as it is.
unfoldable pub send :
    Bool → (List IoVec → Sent) → ByteArray → Size → Outcome (Bool × Size × ByteArray)
unfolding within
send false kernel a size = ok (false, size, a)
send true kernel a size = get_read_buffers a (get_unread_size a) >>= λ (n, iovs).
    require (within a.chain iovs) >> elim (kernel iovs) [
      | retry ↦ ok (true, bytes 0, a)
      | broken ↦ ok (false, minus_one, a)
      | took zero ↦ ok (false, bytes 0, a)
      | took n ↦ has_read a n >>= λ b. ok (true, bytes n, b)
    ]

-- recvmsg fills the iovecs in their order.
unfoldable pub scatter : List Node → List IoVec → List ℕ → Outcome (List Node)
unfolding store
scatter chain [] bs = ok chain
scatter chain (v ∷ rest) bs = elim (get_elem? chain v.block) [
  | none ↦ fault
  | some node ↦ store node v.offset (take v.len bs) >>= λ node'.
      scatter (set chain v.block node') rest (drop v.len bs)
]

-- What recv does with the bytes of one recvmsg: `a` is the buffer after getWriteBuffers.
unfoldable pub receive : ByteArray → List IoVec → List ℕ → Outcome ByteArray
unfolding scatter
receive a iovs bs = scatter a.chain iovs bs >>= λ chain.
    let free = get_free_size a in
    let filled = record a { chain = chain } in
    elim (ltb free (length bs)) [
      | true ↦ has_written filled free >>= λ b.
          write b (drop free bs) >>= λ c. has_written c (length bs - free)
      | false ↦ has_written filled (length bs)
    ]

-- TcpSocket::recv: its result, recvSize and the buffer, or `none` while it waits for an answer
-- behind the given ones. `sum` is recvSize before. A read fills at most the free size and the
-- 65536 bytes of extrabuf.
unfoldable pub recv_loop :
    Bool → ByteArray → ℕ → List Received → Outcome (Option (Bool × Size × ByteArray))
unfolding receive
recv_loop nonblock a sum [] = ok none
recv_loop nonblock a sum (answer ∷ rest) = get_write_buffers a (get_free_size a) >>= λ (n, iovs, b).
    elim answer [
      | got [] ↦ ok (some (false, bytes 0, b))
      | got (x ∷ xs) ↦ receive b iovs (x ∷ xs) >>= λ c. elim nonblock [
        | true ↦ recv_loop nonblock c (sum + length (x ∷ xs)) rest
        | false ↦ ok (some (true, bytes (sum + length (x ∷ xs)), c))
      ]
      | interrupted ↦ recv_loop nonblock b sum rest
      | would_block ↦ ok (some (true, bytes sum, b))
      | failed ↦ ok (some (false, minus_one, b))
    ]

unfoldable pub recv :
    Bool → Bool → ByteArray → Size → List Received → Outcome (Option (Bool × Size × ByteArray))
unfolding recv_loop
recv false nonblock a size answers = ok (some (false, size, a))
recv true nonblock a size answers = recv_loop nonblock a 0 answers
