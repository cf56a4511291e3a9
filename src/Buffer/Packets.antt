-- ===== src/Buffer/Packets.antt =====
-- What Buffer::getPack takes out of a byte array.
use uiconnect.Base.{
  ℕ, zero, suc, ◌+◌, ◌-◌, ◌%◌, ◌^◌, ◌≤◌, ◌<◌, ◌≡◌, ◌⊎◌, refl, sym, ap, ◌∙◌, Bool, true, false, not,
  some, List, [], ◌∷◌, ◌++◌, length, drop, get_elem?, length-append, length-take, length-drop, ltb,
  leb, lt→ltb, ltb→ge, leb→le, leb→gt, if-cases, ◌==◌, ==_iff, ◌&&◌, ◌||◌, if◌then◌else◌,
  Bool-cases, Option-cases, inl, inr, arith,
}
use mathlib.Core.Path.{subst}
use uiconnect.Base.Outcome.{
  Outcome, ok, thrown, fault, ◌>>=◌, bind_ok, ok-injective, require_ok, throw_if_ok,
}
use uiconnect.ByteArray.{Node, ByteArray, load, from, get_unread_size, get_cur_block_unread_size}
use uiconnect.ByteArray.Read.{read, read_loop}
use uiconnect.ByteArray.Moves.{has_read, advance}
use uiconnect.Packet.{Packet, data_load}
use uiconnect.Buffer.{sub64, read_host, find_head, sum_load, take_pack, get_pack}

and-right : (c d : Bool) → (c && d) ≡ true → d ≡ true
and-right true d h = h
and-right false d h = cc

-- a memcpy that is allowed copies as many bytes as it is asked for
load-length :
    (node : Node) (pos n : ℕ) (bytes : List ℕ) → load node pos n ≡ ok bytes → length bytes ≡ n
unfolding load
load-length node pos n bytes h =
    let (allowed, e) = require_ok (node.live && leb (pos + n) (length node.cells)) _ h in
    let fits : pos + n ≤ length node.cells =
      leb→le (pos + n) (length node.cells) (and-right node.live _ allowed) in
    sym (ap length (ok-injective e))
    ∙ omega (arith, length-take n (drop pos node.cells), length-drop pos node.cells)

length-read_loop :
    (chain : List Node) (pos u left : ℕ) (bytes : List ℕ)
    → read_loop chain pos u left ≡ ok bytes
    → length bytes ≡ left
unfolding read_loop
length-read_loop [] pos u left bytes h = cc
length-read_loop (node ∷ rest) pos u left bytes h =
    (elim (if-cases (leb left u) (load node pos left)
      (do xs ← load node pos u; ys ← read_loop rest 0 u (left - u); ok (xs ++ ys))) [
        | inl (c, e) ↦ load-length node pos left bytes (sym e ∙ h)
        | inr (c, e) ↦
            let (xs, p, q) = bind_ok (load node pos u) _ (sym e ∙ h) in
            let (ys, p', q') = bind_ok (read_loop rest 0 u (left - u)) _ q in
            sym (ap length (ok-injective q'))
            ∙ omega (
              arith,
              length-append xs ys,
              load-length node pos u xs p,
              length-read_loop rest 0 u (left - u) ys p',
              leb→gt left u c,
            )
      ])

-- read gives as many bytes as it is asked for, which are no more than the unread ones.
pub length-read :
    (a : ByteArray) (size start : ℕ) (bytes : List ℕ)
    → read a size start ≡ ok bytes
    → (length bytes ≡ size) × (size ≤ get_unread_size a)
unfolding read
length-read a size start bytes h =
    let (before, e) = throw_if_ok (ltb a.write_pos start) _ h in
    let (enough, e') = throw_if_ok (ltb (get_unread_size a) size) _ e in
    let (based, e'') = require_ok (not (a.base_size == 0)) _ e' in
    (copied e'', ltb→ge (get_unread_size a) size enough)
  where
    loop : Outcome (List ℕ)
    loop = do
      cur ← from a.chain a.read_block
      read_loop cur (start % a.base_size) (get_cur_block_unread_size a) size

    copied : (if size == 0 then ok [] else loop) ≡ ok bytes → length bytes ≡ size
    copied e = (elim (if-cases (size == 0) (ok []) loop) [
      | inl (c, p) ↦ sym (ap length (ok-injective (sym p ∙ e))) ∙ sym ((==_iff size 0).0 c)
      | inr (c, p) ↦
          let (cur, q, r) = bind_ok (from a.chain a.read_block) _ (sym p ∙ e) in
          length-read_loop cur (start % a.base_size) (get_cur_block_unread_size a) size bytes r
    ])

within : (bytes : List ℕ) (i b : ℕ) → get_elem? bytes i ≡ some b → i < length bytes
within [] i b h = cc
within (x ∷ xs) zero b h = omega arith
within (x ∷ xs) (suc i) b h = omega (arith, within xs i b h)

-- The sum reads no byte or stays within the bytes and the 0 behind them.
sum_load-ok :
    (bytes : List ℕ) (i count acc sum : ℕ)
    → sum_load bytes i count acc ≡ ok sum
    → (count ≡ 0) ⊎ (i + count ≤ length bytes + 1)
unfolding sum_load
sum_load-ok bytes i zero acc sum h = inl refl
sum_load-ok bytes i (suc count) acc sum h = (elim (Option-cases (get_elem? bytes i)) [
  | inr (b, e) ↦ inr (
      further (omega (arith, within bytes i b e))
        (sum_load-ok bytes (suc i) count ((acc + b) % 2 ^ 16) sum (rw (e, sum_load) at h)))
  | inl e ↦ (elim (Bool-cases (i == length bytes)) [
    | inl p ↦ inr (
        further (omega (arith, (==_iff i (length bytes)).0 p))
          (sum_load-ok bytes (suc i) count acc sum (rw p at (rw (e, sum_load) at h))))
    | inr p ↦ absurd (fault≢ok (rw p at (rw (e, sum_load) at h)))
  ])
])
  where
    further :
        i ≤ length bytes
        → (count ≡ 0) ⊎ (suc i + count ≤ length bytes + 1)
        → i + suc count ≤ length bytes + 1
    further le (inl z) = omega arith
    further le (inr later) = omega arith

    fault≢ok : fault ≡ ok sum → ⊥
    fault≢ok e = cc

has_read_unread :
    (a : ByteArray) (size : ℕ) (b : ByteArray)
    → has_read a size ≡ ok b
    → get_unread_size b ≤ get_unread_size a
unfolding has_read
has_read_unread a size b h =
    let (allowed, e) = throw_if_ok (leb size 0 || ltb (get_unread_size a) size) _ h in
    let (block, q, e') =
      bind_ok (advance (suc size) a.base_size a.chain a.read_pos (a.read_pos + size) a.read_block) _
        e in
    subst (λ (c : ByteArray). get_unread_size c ≤ get_unread_size a) (ok-injective e') (omega arith)

-- A packet whose load is to start behind its end, where dataLoad throws.
abbrev pub IsLoadless : Packet → Type 0
IsLoadless p =
    (length p.pack_data ≤ 4) × (p.data_load_pos ≡ 12) × (p.length_field ≡ length p.pack_data)

-- The packet that is taken is such a one, and the buffer loses unread bytes only.
take_pack-ok :
    (a : ByteArray) (pos len : ℕ) (p : Packet) (b : ByteArray)
    → get_unread_size a < 2 ^ 32
    → take_pack a pos len ≡ ok (p, b)
    → IsLoadless p × (get_unread_size b ≤ get_unread_size a)
unfolding take_pack
take_pack-ok a pos len p b small h =
    let (cmd, e1, h1) = bind_ok (read_host a 2 (pos + 8)) _ h in
    let (sum, e2, h2) = bind_ok (read_host a 2 (sub64 (pos - 2 + len) 2)) _ h1 in
    let (bytes, e3, h3) = bind_ok (read a len (pos - 2)) _ h2 in
    let (total, e4, h4) = bind_ok (sum_load bytes 12 ((12 + sub64 len 4) % 2 ^ 64 - 12) 0) _ h3 in
    let (b', e5, h5) = bind_ok (has_read a (sub64 (pos - 2 + len) a.read_pos)) _ h4 in
    let (size, fits) = length-read a len (pos - 2) bytes e3 in
    subst (λ (r : Packet × ByteArray). IsLoadless r.0 × (get_unread_size r.1 ≤ get_unread_size a))
      (ok-injective h5)
      (
        (
          few bytes (omega arith) size
              (sum_load-ok bytes 12 ((12 + sub64 len 4) % 2 ^ 64 - 12) 0 total e4),
          refl,
          sym size,
        ),
        has_read_unread a (sub64 (pos - 2 + len) a.read_pos) b' e5,
      )
  where
    few :
        (bytes : List ℕ)
        → len < 2 ^ 32
        → length bytes ≡ len
        → ((12 + sub64 len 4) % 2 ^ 64 - 12 ≡ 0)
          ⊎ (12 + ((12 + sub64 len 4) % 2 ^ 64 - 12) ≤ length bytes + 1)
        → length bytes ≤ 4
    few bytes small size (inl nothing) = omega arith
    few bytes small size (inr inside) = omega arith

-- What getPack leaves: the buffer and the packet's command as they were, or a packet without a load
-- and a buffer with no more unread bytes.
pub get_pack-IsLoadless :
    (a : ByteArray) (p p' : Packet) (b : ByteArray)
    → get_unread_size a < 2 ^ 32
    → get_pack a p ≡ ok (p', b)
    → ((b ≡ a) × (p'.cmd ≡ p.cmd)) ⊎ (IsLoadless p' × (get_unread_size b ≤ get_unread_size a))
unfolding get_pack
get_pack-IsLoadless a p p' b small h =
    let (pos, e, h1) = bind_ok (find_head (suc (suc (get_unread_size a))) a a.read_pos) _ h in
    behind_head pos h1
  where
    Result : Packet × ByteArray → Type 0
    Result (q, c) =
        ((c ≡ a) × (q.cmd ≡ p.cmd)) ⊎ (IsLoadless q × (get_unread_size c ≤ get_unread_size a))

    left :
        (q : Packet)
        → q.cmd ≡ p.cmd
        → ◌≡◌ {A = Outcome (Packet × ByteArray)} (ok (q, a)) (ok (p', b))
        → Result (p', b)
    left q cmd e = subst Result (ok-injective e) (inl (refl, cmd))

    with_length : ℕ → ℕ → Outcome (Packet × ByteArray)
    with_length pos len =
        if ltb (sub64 a.write_pos (pos + 8)) len
        then ok (record p { head = 0xFEFF; length_field = len }, a)
        else take_pack a pos len

    behind_length : (pos len : ℕ) → with_length pos len ≡ ok (p', b) → Result (p', b)
    behind_length pos len e =
        (elim (if-cases (ltb (sub64 a.write_pos (pos + 8)) len)
          (ok (record p { head = 0xFEFF; length_field = len }, a)) (take_pack a pos len)) [
            | inl (c, q) ↦ left (record p { head = 0xFEFF; length_field = len }) refl (sym q ∙ e)
            | inr (c, q) ↦ inr (take_pack-ok a pos len p' b small (sym q ∙ e))
          ])

    behind_head :
        (pos : ℕ)
        → (if ltb (sub64 a.write_pos pos) 8
            then ok (record p { head = 0xFEFF }, a)
            else read_host a 8 pos >>= with_length pos)
          ≡ ok (p', b)
        → Result (p', b)
    behind_head pos e =
        (elim (if-cases (ltb (sub64 a.write_pos pos) 8) (ok (record p { head = 0xFEFF }, a))
          (read_host a 8 pos >>= with_length pos)) [
            | inl (c, q) ↦ left (record p { head = 0xFEFF }) refl (sym q ∙ e)
            | inr (c, q) ↦
                let (len, r, e') = bind_ok (read_host a 8 pos) (with_length pos) (sym q ∙ e) in
                behind_length pos len e'
          ])

-- Of fewer than 2 ^ 32 unread bytes, whatever they are, getPack that returns leaves the buffer and the
-- packet's command as they were, or it leaves a packet of at most four bytes, whose dataLoad throws,
-- and a buffer with no more unread bytes than before: it never takes a packet with a load.
pub get_pack_lem :
    (a : ByteArray) (p p' : Packet) (b : ByteArray)
    → get_unread_size a < 2 ^ 32
    → get_pack a p ≡ ok (p', b)
    → ((b ≡ a) × (p'.cmd ≡ p.cmd))
      ⊎ ((length p'.pack_data ≤ 4)
          × (data_load p' ≡ thrown)
          × (get_unread_size b ≤ get_unread_size a))
unfolding data_load
get_pack_lem a p p' b small h = (elim (get_pack-IsLoadless a p p' b small h) [
  | inl same ↦ inl same
  | inr ((few, at_12, same), le) ↦
      inr (
        few,
        rw (lt→ltb (length p'.pack_data) p'.data_load_pos (omega (arith, few, at_12))) refl,
        le,
      )
])
