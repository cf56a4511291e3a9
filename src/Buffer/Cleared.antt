-- ===== src/Buffer/Cleared.antt =====
-- A buffer behind ByteArray::clear.
use uiconnect.Base.{
  ℕ, zero, suc, ◌+◌, ◌-◌, ◌*◌, ◌%◌, ◌≤◌, ◌<◌, ◌≡◌, ◌⊎◌, refl, sym, ap, ◌∙◌, not, ◌||◌, List, [],
  ◌++◌, length, take, replicate, leb, ltb, ◌==◌, if-cases, ge→ltb, ne-==, Bool-cases, length-take,
  false, ◌≢◌, inl, inr, arith,
}
use mathlib.Core.Path.{subst}
use uiconnect.Base.Outcome.{
  Outcome, ok, fault, ◌>>=◌, ◌>>◌, bind_ok, ok-injective, require, require_ok, throw_if_ok,
}
use uiconnect.ByteArray.{
  Link, at, dangling, ByteArray, all_live, new_node, get_unread_size, get_free_size, from, before,
}
use uiconnect.ByteArray.Write.{write, add_capacity_if_not_enough, added_blocks, write_loop}
use uiconnect.ByteArray.Read.{read_next}
use uiconnect.ByteArray.Moves.{clear, after_clear, has_written, advance}
use uiconnect.ByteArray.Flat.{Blocks-take}
use uiconnect.ByteArray.Sound.{IsSound, Behind}
use uiconnect.ByteArray.Sound.Read.{pending}
use uiconnect.Buffer.{set_msg}

-- Writing and counting what is written leave the reader's block pointer alone.
add_capacity-read_block :
    (a : ByteArray) (size : ℕ) (b : ByteArray)
    → add_capacity_if_not_enough a size ≡ ok b
    → b.read_block ≡ a.read_block
unfolding add_capacity_if_not_enough
add_capacity-read_block a size b h =
    (elim (if-cases (leb size 0 || leb size (get_free_size a)) (ok a) grown) [
      | inl (c, e) ↦ ap (λ (d : ByteArray). d.read_block) (sym (ok-injective (sym e ∙ h)))
      | inr (c, e) ↦
          let (based, h1) = require_ok (not (a.base_size == 0)) _ (sym e ∙ h) in
          let (live, h2) = require_ok (all_live a.chain) _ h1 in
          ap (λ (d : ByteArray). d.read_block) (sym (ok-injective h2))
    ])
  where
    grown : Outcome ByteArray
    grown = do
      require (not (a.base_size == 0))
      require (all_live a.chain)
      let count = added_blocks (size - get_free_size a) a.base_size
      ok (record a {
        chain = a.chain ++ replicate count (new_node a.base_size a.fill);
        capacity = a.capacity + count * a.base_size;
      })

write-read_block :
    (a : ByteArray) (buf : List ℕ) (b : ByteArray)
    → write a buf ≡ ok b
    → b.read_block ≡ a.read_block
unfolding write
write-read_block a buf b h = (elim (if-cases (length buf == 0) (ok a) written) [
  | inl (c, e) ↦ ap (λ (d : ByteArray). d.read_block) (sym (ok-injective (sym e ∙ h)))
  | inr (c, e) ↦
      let (d, p, h1) = bind_ok (add_capacity_if_not_enough a (length buf)) _ (sym e ∙ h) in
      let (based, h2) = require_ok (not (d.base_size == 0)) _ h1 in
      let (cur, q, h3) = bind_ok (from d.chain d.write_block) _ h2 in
      let (rest, r, h4) =
        bind_ok
          (write_loop cur (d.write_pos % d.base_size) (d.base_size - d.write_pos % d.base_size) buf)
          _ h3 in
      ap (λ (x : ByteArray). x.read_block) (sym (ok-injective h4))
      ∙ add_capacity-read_block a (length buf) d p
])
  where
    written : Outcome ByteArray
    written = do
      d ← add_capacity_if_not_enough a (length buf)
      require (not (d.base_size == 0))
      cur ← from d.chain d.write_block
      let pos = d.write_pos % d.base_size
      rest ← write_loop cur pos (d.base_size - pos) buf
      ok (record d { chain = before d.chain d.write_block ++ rest })

set_msg-read_block :
    (a : ByteArray) (msg : List ℕ) (b : ByteArray)
    → set_msg a msg ≡ ok b
    → b.read_block ≡ a.read_block
unfolding set_msg has_written
set_msg-read_block a msg b h =
    let (c, p, h1) = bind_ok (write a msg) _ h in
    let (allowed, h2) =
      throw_if_ok (leb (length msg) 0 || ltb (get_free_size c) (length msg)) _ h1 in
    let (block, q, h3) =
      bind_ok
        (advance (suc (length msg)) c.base_size c.chain c.write_pos (c.write_pos + length msg)
          c.write_block)
        _ h2 in
    ap (λ (x : ByteArray). x.read_block) (sym (ok-injective h3)) ∙ write-read_block a msg c p

-- A read through a block pointer that dangles is undefined.
read_next-dangling :
    (a : ByteArray) (n : ℕ)
    → a.read_block ≡ dangling
    → 0 < n
    → n ≤ get_unread_size a
    → read_next a n ≡ fault
unfolding read_next
read_next-dangling a n e ne fits = (elim (Bool-cases (a.base_size == 0)) [
  | inl z ↦ rw (started, enough, z) refl
  | inr z ↦ rw (started, enough, z, ne-== n ne, e) refl
])
  where
    started : ltb a.write_pos a.read_pos ≡ false
    started = ge→ltb a.write_pos a.read_pos (omega arith)

    enough : ltb (get_unread_size a) n ≡ false
    enough = ge→ltb (get_unread_size a) n fits

-- Clear of a sound array leaves nothing to read.
clear-read_block :
    (a b : ByteArray)
    → IsSound a
    → 0 < length a.chain
    → clear a ≡ ok b
    → (b.read_block ≡ after_clear a.read_block)
      × (pending b ≡ [])
      × (a.read_block ≡ at 0 → IsSound b)
unfolding clear after_clear
clear-read_block a b v rooted h =
    let (live, e) = require_ok (all_live a.chain) _ h in
    subst
      (λ (c : ByteArray).
        (c.read_block ≡ after_clear a.read_block)
        × (pending c ≡ [])
        × (a.read_block ≡ at 0 → IsSound c))
      (ok-injective e)
      (
        refl,
        refl,
        λ first. record {
          base_pos = v.base_pos;
          blocks = Blocks-take a.base_size 1 a.chain v.blocks;
          sized = rw one (omega arith);
          read_le = omega arith;
          write_le = omega arith;
          write_behind = omega arith;
          read_behind = at_start first;
        },
      )
  where
    one : length (take 1 a.chain) ≡ 1
    one = omega (arith, length-take 1 a.chain, rooted)

    at_start : a.read_block ≡ at 0 → Behind a.base_size 0 (after_clear a.read_block)
    at_start first = rw first (omega arith)

different : (k : ℕ) → at (suc k) ≢ at 0
different k q = cc

-- Of a sound array with a block that is cleared while its reader stands in its first block, a sound one with nothing
-- unread is left. Where the reader stands in a later block, every read of bytes that setMsg then
-- brings goes through memory that clear has freed.
pub clear-read_next :
    (a b c : ByteArray) (msg : List ℕ) (n : ℕ)
    → IsSound a
    → 0 < length a.chain
    → clear a ≡ ok b
    → set_msg b msg ≡ ok c
    → 0 < n
    → n ≤ get_unread_size c
    → ((a.read_block ≡ at 0) × IsSound b × (pending b ≡ []))
      ⊎ ((a.read_block ≢ at 0) × (read_next c n ≡ fault))
unfolding after_clear
clear-read_next a b c msg n v rooted cleared set ne fits =
    let (block, nothing, sound) = clear-read_block a b v rooted cleared in
    of_reader a.read_block refl block nothing sound
  where
    of_reader :
        (l : Link)
        → a.read_block ≡ l
        → b.read_block ≡ after_clear a.read_block
        → pending b ≡ []
        → (a.read_block ≡ at 0 → IsSound b)
        → ((a.read_block ≡ at 0) × IsSound b × (pending b ≡ []))
          ⊎ ((a.read_block ≢ at 0) × (read_next c n ≡ fault))
    of_reader dangling e block nothing sound =
        absurd (subst (Behind a.base_size a.read_pos) e v.read_behind)
    of_reader (at zero) e block nothing sound = inl (e, sound e, nothing)
    of_reader (at (suc k)) e block nothing sound = inr (
      λ q. different k (sym e ∙ q),
      read_next-dangling c n (set_msg-read_block b msg c set ∙ block ∙ ap after_clear e) ne fits,
    )
