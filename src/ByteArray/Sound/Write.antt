-- ===== src/ByteArray/Sound/Write.antt =====
-- ByteArray::addCapacityIfNotEnough and ByteArray::write from a sound array.
use uiconnect.Base.{
  ne-==, not-==, ℕ, ◌+◌, ◌-◌, ◌*◌, ◌/◌, ◌%◌, ◌≤◌, ◌<◌, ◌≡◌, refl, sym, ap, ◌∙◌, true, false, inl,
  inr, List, ◌++◌, length, take, drop, replicate, length-append, length-take, length-drop,
  length-replicate, take-append-drop, leb, ◌||◌, if◌then◌else◌, leb→le, Bool-cases, append-nil,
  arith,
}
use uiconnect.Base.Outcome.{ok}
use uiconnect.ByteArray.{Node, Link, at, dangling, ByteArray, new_node, get_free_size, splice}
use uiconnect.ByteArray.Write.{added_blocks, add_capacity_if_not_enough, write}
use uiconnect.ByteArray.Flat.{
  flat, Blocks, flat-append, length-flat, Blocks-append, Blocks-take, Blocks-drop, Blocks-all_live,
  Blocks-new, append-splice,
}
use uiconnect.ByteArray.Sound.{IsSound, Behind-at}
use uiconnect.ByteArray.Sound.Loop.{Written, write_loop-ok}
use native.Mathlib.Nat.{
  div-add-mod, div-add-mod', mod-lt, le-div_iff_mul-le, le_of_mul-le-mul_right,
}

-- the array with m more blocks
abbrev pub extend : ByteArray → ℕ → ByteArray
extend a m = record a {
  chain = a.chain ++ replicate m (new_node a.base_size a.fill);
  capacity = a.capacity + m * a.base_size;
}

abbrev pub with_chain : ByteArray → List Node → ByteArray
with_chain a c = record a { chain = c }

-- the blocks that a write of n bytes adds
abbrev pub needed : ByteArray → ℕ → ℕ
needed a n = if leb n (get_free_size a) then 0 else added_blocks (n - get_free_size a) a.base_size

-- the place in the run of bytes that a pointer and a position stand for
abbrev pub place : ℕ → ℕ → Link → ℕ
place base pos dangling = 0
place base pos (at k) = k * base + pos % base

abbrev pub write_place : ByteArray → ℕ
write_place a = place a.base_size a.write_pos a.write_block

extend_zero : (a : ByteArray) → extend a 0 ≡ a
extend_zero a =
    let e : a.capacity + 0 * a.base_size ≡ a.capacity = omega arith in
    λ i. record a { chain = append-nil a.chain i; capacity = e i }

-- One and a half times the missing bytes, rounded up to blocks, are enough.
pub added_blocks-room : (add base : ℕ) → 0 < base → add ≤ added_blocks add base * base
unfolding added_blocks
added_blocks-room add base h =
    let n = 3 * add + (2 * base - 1) in
    grind (arith, div-add-mod n (2 * base), mod-lt n {m = 2 * base} (omega arith))

pub extend-IsSound : (a : ByteArray) (m : ℕ) → IsSound a → IsSound (extend a m)
extend-IsSound a m v = record {
  base_pos = v.base_pos;
  blocks = Blocks-append a.base_size a.chain _ v.blocks (Blocks-new a.base_size m a.fill);
  sized =
      let e : length (a.chain ++ replicate m (new_node a.base_size a.fill)) ≡ length a.chain + m =
        omega (
          arith,
          length-append a.chain (replicate m (new_node a.base_size a.fill)),
          length-replicate m (new_node a.base_size a.fill),
        ) in
      rw e (omega (arith, v.sized));
  read_le = v.read_le;
  write_le = omega (arith, v.write_le);
  write_behind = v.write_behind;
  read_behind = v.read_behind;
}

or-leb : (n free : ℕ) → leb n free ≡ true → (leb n 0 || leb n free) ≡ true
or-leb n free h = ground arith

or-leb-no : (n free : ℕ) → leb n free ≡ false → (leb n 0 || leb n free) ≡ false
or-leb-no n free h = ground arith

pub add_capacity-ok :
    (a : ByteArray) (n : ℕ)
    → IsSound a
    → (add_capacity_if_not_enough a n ≡ ok (extend a (needed a n)))
      × (n ≤ get_free_size (extend a (needed a n)))
unfolding add_capacity_if_not_enough
add_capacity-ok a n v = elim (Bool-cases (leb n (get_free_size a))) [
  | inl fits ↦
      rw (or-leb n (get_free_size a) fits, fits)
        (ap ok (sym (extend_zero a)), omega (arith, leb→le n (get_free_size a) fits))
  | inr more ↦
      rw
        (
          or-leb-no n (get_free_size a) more,
          more,
          not-== a.base_size v.base_pos,
          Blocks-all_live a.base_size a.chain v.blocks,
        )
        (
          refl,
          omega (arith, v.write_le, added_blocks-room (n - get_free_size a) a.base_size v.base_pos),
        )
]

-- The bytes before the pointer's place in its block, counted from the start of the run.
pub place-le : (k base pos : ℕ) → 0 < base → k * base ≤ pos → k * base + pos % base ≤ pos
place-le k base pos b h =
    let q : k ≤ pos / base = (le-div_iff_mul-le b).1 h in
    let m : k * base ≤ pos / base * base = grind arith in omega (arith, div-add-mod' pos base)

-- What is left of n blocks behind the k-th.
pub blocks_behind :
    (k n base : ℕ)
    → 0 < base
    → k * base ≤ n * base
    → (k ≤ n) × ((n - k) * base + k * base ≡ n * base)
blocks_behind k n base b h =
    let le : k ≤ n = le_of_mul-le-mul_right h b in
    let e : (n - k) + k ≡ n = omega arith in (le, omega (arith, ap (λ (t : ℕ). t * base) e))

-- The bytes from the pointer's block on are enough for what the positions leave free.
tail_room :
    (a : ByteArray) (k n : ℕ)
    → IsSound a
    → k * a.base_size ≤ a.write_pos
    → n ≤ get_free_size a
    → a.write_pos % a.base_size + n ≤ length (flat (drop k a.chain))
tail_room a k n v h fits =
    let total =
      length-flat a.base_size (drop k a.chain) (Blocks-drop a.base_size k a.chain v.blocks) in
    let kept =
      blocks_behind k (length a.chain) a.base_size v.base_pos
        (omega (arith, v.sized, v.write_le)) in
    rw (total, length-drop k a.chain)
      (omega (arith, place-le k a.base_size a.write_pos v.base_pos h, v.sized, v.write_le, kept.1))

-- Putting the nodes before the k-th back in front.
reassemble :
    (base k pos : ℕ) (c rest : List Node) (buf : List ℕ)
    → Blocks base c
    → k ≤ length c
    → Written base (drop k c) pos buf rest
    → Written base c (k * base + pos) buf (take k c ++ rest)
reassemble base k pos c rest buf v h w =
    let cut : length (take k c) ≡ k = omega (arith, length-take k c) in
    let seam : length (flat (take k c)) ≡ k * base =
      length-flat base (take k c) (Blocks-take base k c v) ∙ ap (λ (t : ℕ). t * base) cut in
    let whole : flat (take k c) ++ flat (drop k c) ≡ flat c =
      sym (flat-append (take k c) (drop k c)) ∙ ap flat (take-append-drop k c) in
    (
      Blocks-append base (take k c) rest (Blocks-take base k c v) w.0,
      omega (arith, length-append (take k c) rest, w.1, cut, length-drop k c),
      rw (flat-append (take k c) rest, w.2, append-splice, whole, seam) refl,
    )

-- A pointer at or before a position within the capacity is not past the chain.
pub link_in :
    (a : ByteArray) (k : ℕ) → IsSound a → k * a.base_size ≤ a.capacity → k ≤ length a.chain
link_in a k v h = le_of_mul-le-mul_right (omega (arith, v.sized)) v.base_pos

write_at :
    (a : ByteArray) (buf : List ℕ) (k : ℕ)
    → IsSound a
    → a.write_block ≡ at k
    → k * a.base_size ≤ a.write_pos
    → 0 < length buf
    → (c : List Node) × (write a buf ≡ ok (with_chain (extend a (needed a (length buf))) c))
      × Written a.base_size
          (extend a (needed a (length buf))).chain
          (k * a.base_size + a.write_pos % a.base_size)
          buf
          c
unfolding write
write_at a buf k v e h ne =
    let m = needed a (length buf) in
    let b = extend a m in
    let w = extend-IsSound a m v in
    let grown = add_capacity-ok a (length buf) v in
    let pos = a.write_pos % a.base_size in
    let inside : pos < a.base_size = mod-lt a.write_pos v.base_pos in
    let (rest, returned, (whole, count, bytes)) =
      write_loop-ok a.base_size (drop k b.chain) pos (a.base_size - pos) buf
        (Blocks-drop a.base_size k b.chain w.blocks) (omega arith) ne
        (tail_room b k (length buf) w h grown.1) in
    let done =
      reassemble a.base_size k pos b.chain rest buf w.blocks
        (link_in b k w (omega (arith, h, v.write_le))) (whole, count, bytes) in
    (
      take k b.chain ++ rest,
      rw (ne-== (length buf) ne, grown.0, not-== a.base_size v.base_pos, e, returned) refl,
      done,
    )

-- What `write` leaves: the array with the blocks that it added, whose chain is now `c`.
abbrev pub written : ByteArray → List ℕ → List Node → ByteArray
written a buf c = with_chain (extend a (needed a (length buf))) c

written-IsSound :
    (a : ByteArray) (buf : List ℕ) (pos : ℕ) (c : List Node)
    → IsSound a
    → Written a.base_size (extend a (needed a (length buf))).chain pos buf c
    → IsSound (written a buf c)
written-IsSound a buf pos c v w =
    let grown = extend-IsSound a (needed a (length buf)) v in
    record {
      base_pos = v.base_pos;
      blocks = w.0;
      sized = grown.sized ∙ ap (λ (t : ℕ). t * a.base_size) (sym w.1);
      read_le = v.read_le;
      write_le = grown.write_le;
      write_behind = v.write_behind;
      read_behind = v.read_behind;
    }

-- From a sound array `write` of at least one byte returns: it adds blocks where the free size is
-- short, writes `buf` at the place of the write pointer and changes nothing else. The array stays
-- sound, and its free size holds `buf`.
pub write_lem :
    (a : ByteArray) (buf : List ℕ)
    → IsSound a
    → 0 < length buf
    → (c : List Node) × (write a buf ≡ ok (written a buf c))
      × IsSound (written a buf c)
      × (flat c ≡ splice (flat (extend a (needed a (length buf))).chain) (write_place a) buf)
      × (length buf ≤ get_free_size (written a buf c))
write_lem a buf v ne =
    let (k, e, h) = Behind-at a.base_size a.write_pos a.write_block v.write_behind in
    let (c, returned, w) = write_at a buf k v e h ne in
    (
      c,
      returned,
      written-IsSound a buf (k * a.base_size + a.write_pos % a.base_size) c v w,
      w.2
          ∙ ap
              (λ l.
                splice (flat (extend a (needed a (length buf))).chain)
                  (place a.base_size a.write_pos l) buf)
              (sym e),
      (add_capacity-ok a (length buf) v).1,
    )
