-- ===== src/Packet/Frame.antt =====
-- The frame that a packet is built into, and its way through a buffer.
use uiconnect.Base.{
  ℕ, ◌+◌, ◌^◌, ◌<◌, ◌≡◌, ap, ◌∙◌, List, [], ◌∷◌, ◌++◌, length, take, ge→ltb, length-append,
  take-append_le, take_all, arith,
}
use uiconnect.Base.Outcome.{ok}
use uiconnect.ByteArray.Codec.Fixed.{to_bytes}
use uiconnect.ByteArray.{ByteArray}
use uiconnect.ByteArray.Sound.{IsSound}
use uiconnect.ByteArray.Sound.Write.{write_place}
use uiconnect.ByteArray.Sound.Read.{pending}
use uiconnect.Buffer.{set_pack}
use uiconnect.Buffer.Queue.{KeepsReader, pending-set_msg}
use uiconnect.Packet.{create, data_load, pack_size, sum_bytes}

pub length-frame :
    (command : ℕ) (load : List ℕ) → length (create command load).pack_data ≡ length load + 14
unfolding create to_bytes
length-frame command load = omega (arith, length-append load (to_bytes 2 (sum_bytes 0 load)))

-- A packet built from a load has its whole frame of packSize() bytes, and dataLoad() gives the
-- load back.
pub create_lem :
    (command : ℕ) (load : List ℕ)
    → length load + 14 < 2 ^ 64
    → (length (create command load).pack_data ≡ pack_size (create command load))
      × (data_load (create command load) ≡ ok load)
unfolding create data_load pack_size to_bytes
create_lem command load h =
    let whole : length (create command load).pack_data ≡ length load + 14 =
      length-frame command load in
    (
      whole ∙ omega (arith, h),
      rw (ge→ltb (length (create command load).pack_data) 12 (omega (arith, whole))) (
          ap ok (
            take-append_le (length load) load (to_bytes 2 (sum_bytes 0 load)) (omega arith)
            ∙ take_all (length load) load (omega arith))),
    )

-- From a sound buffer with an exact write pointer, setMsg of a packet built from a load appends
-- its frame to the unread bytes.
pub set_pack-create :
    (a : ByteArray) (command : ℕ) (load : List ℕ)
    → IsSound a
    → write_place a ≡ a.write_pos
    → length load + 14 < 2 ^ 31
    → (b : ByteArray) × (set_pack a (create command load) ≡ ok b)
      × IsSound b
      × (pending b ≡ pending a ++ (create command load).pack_data)
      × KeepsReader a b
unfolding set_pack
set_pack-create a command load v exact h =
    let p = create command load in
    let whole : length p.pack_data ≡ length load + 14 = length-frame command load in
    let size : length p.pack_data ≡ pack_size p = (create_lem command load (omega arith)).0 in
    let cut : take (pack_size p) (p.pack_data ++ 0 ∷ []) ≡ p.pack_data =
      take-append_le (pack_size p) p.pack_data (0 ∷ []) (omega (arith, size))
      ∙ take_all (pack_size p) p.pack_data (omega (arith, size)) in
    let (b, done, sound, queue, moved, keeps) =
      pending-set_msg a p.pack_data v exact (omega (arith, whole)) in
    (
      b,
      rw (ge→ltb (length p.pack_data + 1) (pack_size p) (omega (arith, size)), cut) done,
      sound,
      queue,
      keeps,
    )
