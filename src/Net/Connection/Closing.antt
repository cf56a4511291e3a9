-- ===== src/Net/Connection/Closing.antt =====
-- When a connection opens, stays open and closes.
use uiconnect.ByteArray.Write.{write}
use uiconnect.Base.{
  ltb, ◌<◌, ne-==, lt→ltb, ◌≤◌, ◌⊎◌, drop, ◌-◌, ℕ, suc, ◌≡◌, refl, ap, ◌≢◌, inl, inr, Bool, true,
  false, List, [], ◌∷◌, ◌++◌, length, arith,
}
use uiconnect.Base.Outcome.{ok, thrown, ◌>>=◌}
use uiconnect.ByteArray.{ByteArray, get_free_size, get_unread_size}
use uiconnect.ByteArray.Moves.{has_written}
use uiconnect.ByteArray.Iov.{IoVec, get_read_buffers, get_write_buffers}
use uiconnect.ByteArray.Sound.Moves.{moves_throw}
use uiconnect.ByteArray.Sound.{IsSound}
use uiconnect.ByteArray.Sound.Read.{pending}
use uiconnect.Buffer.Queue.{pending-has_read}
use uiconnect.Net.Channel.{Env, read_event, disable_writing, enable_writing}
use uiconnect.Net.Channel.Registered.{IsRegistered, add_target_event-Registered}
use uiconnect.Net.Socket.{
  within, Size, Sent, took, retry, broken, bytes, minus_one, Received, got, scatter, receive,
  recv_loop, recv,
}
use uiconnect.Net.Connection.{
  Connection, connected, disconnected, on_written, init, on_close, on_write, on_closed, is_open,
  handle_sent, written_out, call,
}

-- onClose leaves a connection disconnected; done again, whatever the circumstances, it does
-- nothing, and so on a disconnected one.
pub on_close_lem :
    (env env' : Env) (c : Connection)
    → ((on_close env c).state ≡ disconnected)
      × (on_close env' (on_close env c) ≡ on_close env c)
      × (c.state ≡ disconnected → on_close env c ≡ c)
      × (c.state ≢ disconnected
          → ((on_close env c).fd ≡ 0)
            × (c.closes ≡ true → (on_close env c).calls ≡ c.calls ++ on_closed 0 ∷ []))
unfolding on_close
on_close_lem env env' c = (ground arith, ground arith, ground arith, ground arith)

-- A successful init leaves the connection connected and its channel registered; one that fails
-- leaves its state as it was.
pub init-IsRegistered :
    (env : Env) (c : Connection)
    → ((init env c).0 ≡ true
        → ((init env c).1.state ≡ connected) × IsRegistered (init env c).1.channel)
      × ((init env c).0 ≡ false → (init env c).1.state ≡ c.state)
unfolding init
init-IsRegistered env c =
    (ground (arith, add_target_event-Registered env c.channel read_event), ground arith)

receive_full :
    (a : ByteArray) (x : ℕ) (xs : List ℕ) → get_free_size a ≡ 0 → receive a [] (x ∷ xs) ≡ thrown
unfolding receive scatter
receive_full a x xs e =
    let none_free : has_written a (get_free_size a) ≡ thrown =
      (moves_throw a (get_free_size a)).1 (inl e) in
    let more : ltb (get_free_size a) (length (x ∷ xs)) ≡ true =
      lt→ltb (get_free_size a) (length (x ∷ xs)) (omega (arith, e)) in
    rw more (
      ap
        (λ r. r >>= λ b. write b (drop (get_free_size a) (x ∷ xs)) >>= λ c.
          has_written c (length (x ∷ xs) - get_free_size a))
        none_free)

-- A buffer with no free byte takes none: recv throws when bytes arrive.
pub recv_full :
    (nonblock : Bool) (a : ByteArray) (size : Size) (x : ℕ) (xs : List ℕ) (rest : List Received)
    → get_free_size a ≡ 0
    → recv true nonblock a size (got (x ∷ xs) ∷ rest) ≡ thrown
unfolding recv recv_loop get_write_buffers
recv_full nonblock a size x xs rest e = rw (e, receive_full a x xs e) refl

-- What onWrite makes of a connection after sendmsg has taken n + 1 bytes of its queue and left `b`.
abbrev pub GoesOn : Env → (List IoVec → Sent) → Connection → ℕ → ByteArray → Type 0
GoesOn env kernel c n b =
    (suc n ≡ get_unread_size c.write_buffer
      → on_write env kernel c
        ≡ ok (
            call c.writes (on_written (bytes (suc n)))
              (record c { write_buffer = b; channel = (disable_writing env c.channel).1 })))
    × (suc n < get_unread_size c.write_buffer
        → on_write env kernel c
          ≡ ok (record c { write_buffer = b; channel = (enable_writing env c.channel).1 }))

-- onWrite of an open connection with a sound write buffer whose iovecs lie in their blocks: if
-- sendmsg takes n + 1 of the unread bytes, they leave the queue, and then, if they were all, writing
-- is disabled and the write callback is called, if there is one, with their number, and if some are
-- left, writing is enabled and no callback is called; if it takes none, fails, or asks to retry, the
-- connection closes.
pub on_write_lem :
    (env : Env) (kernel : List IoVec → Sent) (c : Connection) (m : ℕ) (iovs : List IoVec)
    → c.state ≡ connected
    → is_open c.fd ≡ true
    → IsSound c.write_buffer
    → get_read_buffers c.write_buffer (get_unread_size c.write_buffer) ≡ ok (m, iovs)
    → within c.write_buffer.chain iovs ≡ true
    → ((kernel iovs ≡ took 0) ⊎ ((kernel iovs ≡ broken) ⊎ (kernel iovs ≡ retry))
        → on_write env kernel c ≡ ok (on_close env c))
      × ((n : ℕ)
          → kernel iovs ≡ took (suc n)
          → suc n ≤ get_unread_size c.write_buffer
          → (b : ByteArray) × GoesOn env kernel c n b
            × IsSound b
            × (pending b ≡ drop (suc n) (pending c.write_buffer)))
unfolding on_write uiconnect.Net.Socket.send handle_sent written_out
on_write_lem env kernel c m iovs s o v e w = (closes, goes_on)
  where
    closes :
        (kernel iovs ≡ took 0) ⊎ ((kernel iovs ≡ broken) ⊎ (kernel iovs ≡ retry))
        → on_write env kernel c ≡ ok (on_close env c)
    closes (inl k) = rw (s, o, e, w, k) refl
    closes (inr (inl k)) = rw (s, o, e, w, k) refl
    closes (inr (inr k)) = rw (s, o, e, w, k) refl

    goes_on :
        (n : ℕ)
        → kernel iovs ≡ took (suc n)
        → suc n ≤ get_unread_size c.write_buffer
        → (b : ByteArray) × GoesOn env kernel c n b
          × IsSound b
          × (pending b ≡ drop (suc n) (pending c.write_buffer))
    goes_on n k fits =
        let (b, moved, sound, rest, r, p) =
          pending-has_read c.write_buffer (suc n) v (omega arith) fits in
        let left : get_unread_size b ≡ get_unread_size c.write_buffer - suc n =
          omega (arith, r, p) in
        (
          b,
          (
            λ full.
                let z : get_unread_size b ≡ 0 = omega (arith, left, full) in
                rw (s, o, e, w, k, moved, z) refl,
            λ part.
                let more : 0 < get_unread_size b = omega (arith, left, part) in
                rw (s, o, e, w, k, moved, ne-== (get_unread_size b) more) refl,
          ),
          sound,
          rest,
        )
