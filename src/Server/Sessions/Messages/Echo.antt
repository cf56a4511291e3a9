-- ===== src/Server/Sessions/Messages/Echo.antt =====
-- What EchoProcessor makes of packets.
use uiconnect.Base.{
  ℕ, ◌+◌, ◌^◌, ◌%◌, ◌≤◌, ◌<◌, ◌≡◌, refl, sym, ap, ◌∙◌, Bool, true, false, Option, none, some, List,
  ◌++◌, length, lt→ltb, inl, inr, arith,
}
use uiconnect.Base.Outcome.{Outcome, ok, thrown, fault, ◌>>=◌, bind_assoc}
use uiconnect.ByteArray.{ByteArray, get_unread_size}
use uiconnect.ByteArray.Iov.{IoVec}
use uiconnect.ByteArray.Sound.{IsSound}
use uiconnect.ByteArray.Sound.Read.{pending}
use uiconnect.ByteArray.Sound.Write.{write_place}
use uiconnect.Packet.{Packet, invalid, create, is_valid, pack_size, data_load}
use uiconnect.Packet.Frame.{set_pack-create, create_lem, length-frame}
use uiconnect.Buffer.{set_pack, get_pack}
use uiconnect.Buffer.Packets.{get_pack-IsLoadless}
use uiconnect.Net.Channel.{Env}
use uiconnect.Net.Socket.{Sent}
use uiconnect.Net.Connection.{Connection, on_write}
use uiconnect.Net.Connection
use uiconnect.Server.Sessions.{count_message}
use uiconnect.Server.Sessions.Messages.{
  TcpSession, ProcessorProxy, set_processor, handle_message, handle_msg, send, echo,
}

bind_unit {ℓ} :
    {A : Type ℓ} (m : Outcome A) (f : A → Outcome A) → ((a : A) → f a ≡ ok a) → (m >>= f) ≡ m
bind_unit (ok a) f h = h a
bind_unit thrown f h = refl
bind_unit fault f h = refl

not_valid : (p : Packet) → p.cmd ≡ invalid → ¬ (is_valid p ≡ true)
unfolding is_valid
not_valid p e v = grind arith

-- setMsg of a packet whose length counts its bytes, and not ten fewer, reads behind them
set_pack_short :
    (a : ByteArray) (p : Packet)
    → length p.pack_data ≤ 4
    → p.length_field ≡ length p.pack_data
    → set_pack a p ≡ fault
unfolding set_pack pack_size
set_pack_short a p few sized =
    rw
      (lt→ltb (length p.pack_data + 1) ((10 + p.length_field) % 2 ^ 64) (omega (arith, few, sized)))
      refl

-- the session's send goes on with onWrite of its connection
send-on_write :
    (env : Env) (kernel : List IoVec → Sent) (pack : Packet) (s : TcpSession) (c : Connection)
    (b : ByteArray)
    → s.connection ≡ some c
    → set_pack c.write_buffer pack ≡ ok b
    → send env kernel pack s ≡ (
        on_write env kernel (record c { write_buffer = b }) >>= λ c'.
        ok (record s { connection = some c' }))
unfolding send Connection.send
send-on_write env kernel pack s c b has e =
    rw (has, e)
      (bind_assoc (on_write env kernel (record c { write_buffer = b })) (λ c'. ok (true, c'))
        (λ r. ok (record s { connection = some r.1 })))

-- to log a load that dataLoad gives changes nothing
echo-send :
    (debug : Bool) (env : Env) (kernel : List IoVec → Sent) (pack : Packet) (load : List ℕ)
    (s : TcpSession)
    → data_load pack ≡ ok load
    → echo debug env kernel pack s ≡ send env kernel pack s
unfolding echo
echo-send true env kernel pack load s e = bind_unit (send env kernel pack s) _ (λ t. rw e refl)
echo-send false env kernel pack load s e = bind_unit (send env kernel pack s) _ (λ t. refl)

-- A session whose connection has a sound write buffer with an exact write pointer, in a program whose
-- processor is EchoProcessor, answers a packet built from a load with the packet: it counts its
-- load + 14 bytes, and goes on with onWrite of the connection, in whose write buffer the whole packet
-- stands behind what was pending; to log the load changes nothing.
pub echo-create :
    (proxy : ProcessorProxy) (debug : Bool) (env : Env) (kernel : List IoVec → Sent)
    (now command : ℕ) (load : List ℕ) (s : TcpSession) (c : Connection)
    → s.connection ≡ some c
    → IsSound c.write_buffer
    → write_place c.write_buffer ≡ c.write_buffer.write_pos
    → length load + 14 < 2 ^ 31
    → (b : ByteArray) × (handle_message
          (set_processor (echo debug env kernel) proxy)
          now
          (create command load)
          s
        ≡ (on_write env kernel (record c { write_buffer = b }) >>= λ c'. ok (record {
          control = record {
            active_time = now;
            processed = (s.control.processed + (length load + 14)) % 2 ^ 64;
          };
          connection = some c';
        })))
      × IsSound b
      × (pending b ≡ pending c.write_buffer ++ (create command load).pack_data)
unfolding handle_message handle_msg count_message
echo-create proxy debug env kernel now command load s c has v exact short =
    let pack = create command load in
    let (b, e, sound, queued, rest) = set_pack-create c.write_buffer command load v exact short in
    let (whole, loaded) = create_lem command load (omega (arith, short)) in
    let counted : TcpSession = record s {
      control = count_message now (pack_size pack) s.control;
    } in
    (
      b,
      echo-send debug env kernel pack load counted loaded
          ∙ send-on_write env kernel pack counted c b has e
          ∙ ap
              (λ n. on_write env kernel (record c { write_buffer = b }) >>= λ c'.
                ok (record { control = count_message now n s.control; connection = some c' }))
              (sym whole ∙ length-frame command load),
      sound,
      queued,
    )

-- A packet that getPack finds in fewer than 2 ^ 32 unread bytes, whatever they are, has no frame: where
-- it is valid, EchoProcessor reads behind its packData, whatever the session.
pub echo-get_pack :
    (proxy : ProcessorProxy) (debug : Bool) (env : Env) (kernel : List IoVec → Sent) (now : ℕ)
    (a b : ByteArray) (before pack : Packet) (s : TcpSession)
    → get_unread_size a < 2 ^ 32
    → before.cmd ≡ invalid
    → get_pack a before ≡ ok (pack, b)
    → is_valid pack ≡ true
    → handle_message (set_processor (echo debug env kernel) proxy) now pack s ≡ fault
unfolding handle_message handle_msg echo send Connection.send
echo-get_pack proxy debug env kernel now a b before pack s small cleared got valid =
    (elim (get_pack-IsLoadless a before pack b small got) [
      | inl (same, cmd) ↦ absurd (not_valid pack (cmd ∙ cleared) valid)
      | inr ((few, at_12, sized), le) ↦ of_connection s.connection refl few sized
    ])
  where
    of_connection :
        (o : Option Connection)
        → s.connection ≡ o
        → length pack.pack_data ≤ 4
        → pack.length_field ≡ length pack.pack_data
        → handle_message (set_processor (echo debug env kernel) proxy) now pack s ≡ fault
    of_connection none e few sized = rw (e, handle_message) refl
    of_connection (some c) e few sized =
        rw (e, set_pack_short c.write_buffer pack few sized, handle_message) refl
