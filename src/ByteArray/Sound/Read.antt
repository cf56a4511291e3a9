-- ===== src/ByteArray/Sound/Read.antt =====
-- ByteArray::read from the read position of a sound array.
use uiconnect.Base.{
  ◌==◌, if◌then◌else◌, ne-==, not-==, ℕ, ◌+◌, ◌-◌, ◌*◌, ◌%◌, ◌≤◌, ◌<◌, min, ◌≡◌, refl, sym, ap, ◌∙◌,
  ◌⊎◌, inl, inr, List, [], ◌∷◌, ◌++◌, length, take, drop, length-append, length-drop, le→leb,
  gt→leb, ge→ltb, take_all, take-append_le, take-append_ge, drop-append_le, drop-drop,
  take-drop-take, length-take, true, arith,
}
use uiconnect.Base.Outcome.{ok, fault}
use uiconnect.ByteArray.{Node, at, ByteArray, load, get_unread_size, get_cur_block_unread_size}
use uiconnect.ByteArray.Read.{read_loop, read_next, to_string}
use uiconnect.ByteArray.Flat.{flat, Blocks, Blocks-drop, length-flat, flat-drop}
use uiconnect.ByteArray.Sound.{IsSound, Behind-at}
use uiconnect.ByteArray.Sound.Write.{place}
use native.Mathlib.Decide.{dec_le, dec_lt}
use native.Mathlib.Nat.{le_refl}

load-ok :
    (node : Node) (pos n : ℕ)
    → node.live ≡ true
    → pos + n ≤ length node.cells
    → load node pos n ≡ ok (take n (drop pos node.cells))
unfolding load
load-ok node pos n live fits = rw (live, le→leb (pos + n) (length node.cells) fits)

load-fault :
    (node : Node) (pos n : ℕ)
    → node.live ≡ true
    → length node.cells < pos + n
    → load node pos n ≡ fault
unfolding load
load-fault node pos n live over = rw (live, gt→leb (pos + n) (length node.cells) over)

-- All of the bytes are in the first block.
read_loop_one :
    (base : ℕ) (chain : List Node) (pos u left : ℕ)
    → Blocks base chain
    → left ≤ u
    → pos + left ≤ base
    → pos + left ≤ length (flat chain)
    → 0 < left
    → read_loop chain pos u left ≡ ok (take left (drop pos (flat chain)))
unfolding read_loop
read_loop_one base [] pos u left v small fits room ne = absurd (omega arith)
read_loop_one base (node ∷ rest) pos u left v small fits room ne =
    let inside : pos + left ≤ length node.cells = omega (arith, v.1) in
    rw (
      le→leb left u small,
      load-ok node pos left v.0 inside,
      drop-append_le pos node.cells (flat rest) (omega arith),
      take-append_le left (drop pos node.cells) (flat rest)
          (omega (arith, length-drop pos node.cells)),
    )

-- From the start of a block the loop takes whole blocks, and the last one in part.
read_loop_whole :
    (base : ℕ) (chain : List Node) (left : ℕ)
    → Blocks base chain
    → left ≤ length (flat chain)
    → 0 < left
    → read_loop chain 0 base left ≡ ok (take left (flat chain))
unfolding read_loop
read_loop_whole base [] left v room ne = absurd (omega arith)
read_loop_whole base (node ∷ rest) left v room ne = elim (dec_le left base) [
  | yes last ↦ rw (
    le→leb left base last,
    load-ok node 0 left v.0 (omega (arith, v.1)),
    take-append_le left node.cells (flat rest) (omega (arith, v.1)),
  )
  | no more ↦
      let e : length node.cells + (left - base) ≡ left = omega (arith, v.1) in
      rw
        (
          gt→leb left base (omega arith),
          load-ok node 0 base v.0 (omega (arith, v.1)),
          read_loop_whole base rest (left - base) v.2
              (omega (arith, length-append node.cells (flat rest), v.1)) (omega arith),
          take_all base node.cells (omega (arith, v.1)),
        )
        (ap ok (
          sym (take-append_ge node.cells (flat rest) (left - base))
          ∙ ap (λ t. take t (node.cells ++ flat rest)) e))
]

-- A piece that does not end within its block is read past the block's end.
read_loop_over :
    (base : ℕ) (chain : List Node) (pos u left : ℕ)
    → Blocks base chain
    → base < pos + min left u
    → read_loop chain pos u left ≡ fault
unfolding read_loop
read_loop_over base [] pos u left v over = refl
read_loop_over base (node ∷ rest) pos u left v over = elim (dec_le left u) [
  | yes last ↦ rw (le→leb left u last, load-fault node pos left v.0 (omega (arith, v.1)))
  | no more ↦ rw (gt→leb left u (omega arith), load-fault node pos u v.0 (omega (arith, v.1)))
]

read_loop-ok :
    (base : ℕ) (chain : List Node) (pos unread size : ℕ)
    → Blocks base chain
    → 0 < size
    → size ≤ unread
    → pos + size ≤ length (flat chain)
    → (pos ≡ 0) ⊎ (pos + size ≤ base)
    → read_loop chain pos (min unread base) size ≡ ok (take size (drop pos (flat chain)))
read_loop-ok base chain pos unread size v h fits room (inr within) =
    read_loop_one base chain pos (min unread base) size v (omega arith) within room h
read_loop-ok base chain pos unread size v h fits room (inl start) = elim (dec_le size base) [
  | yes small ↦
      read_loop_one base chain pos (min unread base) size v (omega arith) (omega arith) room h
  | no large ↦
      let u : min unread base ≡ base = omega arith in
      rw (start, u) (read_loop_whole base chain size v (omega arith) h)
]

pub nil_of_length : (xs : List ℕ) → length xs ≡ 0 → xs ≡ []
nil_of_length [] h = refl
nil_of_length (x ∷ xs) h = absurd (omega arith)

abbrev pub read_place : ByteArray → ℕ
read_place a = place a.base_size a.read_pos a.read_block

-- `read` at the read position, once its checks have passed.
read_checked :
    (a : ByteArray) (size k : ℕ)
    → IsSound a
    → a.read_block ≡ at k
    → 0 < size
    → size ≤ get_unread_size a
    → read_next a size
      ≡ read_loop (drop k a.chain) (a.read_pos % a.base_size) (get_cur_block_unread_size a) size
unfolding read_next
read_checked a size k v e h fits = rw (
  ge→ltb a.write_pos a.read_pos v.read_le,
  ge→ltb (get_unread_size a) size fits,
  not-== a.base_size v.base_pos,
  ne-== size h,
  e,
)

-- The bytes written and not yet read.
abbrev pub pending : ByteArray → List ℕ
pending a = drop a.read_pos (take a.write_pos (flat a.chain))

-- The piece that `read` takes first ends within its block.
abbrev pub IsReadable : ByteArray → ℕ → Type 0
IsReadable a size = (a.read_pos % a.base_size ≡ 0) ⊎ (a.read_pos % a.base_size + size ≤ a.base_size)

-- From a sound array whose read pointer stands at its position, a read of 1 byte to all unread
-- ones returns the next bytes if the position starts a block or they end within its block.
pub read_next_ok :
    (a : ByteArray) (size : ℕ)
    → IsSound a
    → read_place a ≡ a.read_pos
    → 0 < size
    → size ≤ get_unread_size a
    → IsReadable a size
    → read_next a size ≡ ok (take size (pending a))
read_next_ok a size v exact h fits good =
    let (k, e, behind) = Behind-at a.base_size a.read_pos a.read_block v.read_behind in
    let pos = a.read_pos % a.base_size in
    let whole = Blocks-drop a.base_size k a.chain v.blocks in
    let here : k * a.base_size + pos ≡ a.read_pos = rw e at exact in
    let total : length (flat (drop k a.chain)) ≡ length (flat a.chain) - k * a.base_size =
      ap length (flat-drop a.base_size k a.chain v.blocks)
      ∙ length-drop (k * a.base_size) (flat a.chain) in
    let room : pos + size ≤ length (flat (drop k a.chain)) =
      omega (arith, total, length-flat a.base_size a.chain v.blocks, v.sized, v.write_le) in
    let bytes : drop pos (flat (drop k a.chain)) ≡ drop a.read_pos (flat a.chain) =
      ap (drop pos) (flat-drop a.base_size k a.chain v.blocks)
      ∙ drop-drop pos (k * a.base_size) (flat a.chain)
      ∙ ap (λ n. drop n (flat a.chain)) here in
    read_checked a size k v e h fits
    ∙ read_loop-ok a.base_size (drop k a.chain) pos (get_unread_size a) size whole h fits room good
    ∙ ap (λ t. ok (take size t)) bytes
    ∙ ap ok (sym (take-drop-take size a.read_pos a.write_pos (flat a.chain) (omega arith)))

-- Otherwise it reads behind the end of the block.
pub read_next_fault :
    (a : ByteArray) (size : ℕ)
    → IsSound a
    → 0 < size
    → size ≤ get_unread_size a
    → 0 < a.read_pos % a.base_size
    → a.base_size < a.read_pos % a.base_size + size
    → read_next a size ≡ fault
read_next_fault a size v h fits inner over =
    let (k, e, behind) = Behind-at a.base_size a.read_pos a.read_block v.read_behind in
    read_checked a size k v e h fits
    ∙ read_loop_over a.base_size (drop k a.chain) (a.read_pos % a.base_size) _ size
        (Blocks-drop a.base_size k a.chain v.blocks) (omega arith)

pub length-pending : (a : ByteArray) → IsSound a → length (pending a) ≡ get_unread_size a
length-pending a v = omega (
  arith,
  length-drop a.read_pos (take a.write_pos (flat a.chain)),
  length-take a.write_pos (flat a.chain),
  length-flat a.base_size a.chain v.blocks,
  v.sized,
  v.write_le,
)

to_string-if :
    (a : ByteArray)
    → to_string a ≡ (if get_unread_size a == 0 then ok [] else read_next a (get_unread_size a))
unfolding to_string read_next
to_string-if a = refl

-- So `toString` of a sound buffer with an exact read pointer returns all unread bytes, none
-- included, if the read position starts a block or they end within its block.
pub to_string-pending :
    (a : ByteArray)
    → IsSound a
    → read_place a ≡ a.read_pos
    → IsReadable a (get_unread_size a)
    → to_string a ≡ ok (pending a)
to_string-pending a v exact good = to_string-if a ∙ elim (dec_lt 0 (get_unread_size a)) [
  | yes h ↦ rw (ne-== (get_unread_size a) h) (
      read_next_ok a (get_unread_size a) v exact h (le_refl _) good
      ∙ ap ok (take_all (get_unread_size a) (pending a) (omega (arith, length-pending a v))))
  | no h ↦
      let e : get_unread_size a ≡ 0 = omega arith in
      rw e (ap ok (sym (nil_of_length (pending a) (omega (arith, length-pending a v)))))
]
