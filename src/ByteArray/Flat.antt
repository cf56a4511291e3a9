-- ===== src/ByteArray/Flat.antt =====
-- The chain as one run of bytes: what the block loops of ByteArray.cpp mean.
use uiconnect.Base.{
  ℕ, zero, suc, ◌+◌, ◌-◌, ◌*◌, ◌≤◌, ◌≡◌, refl, sym, ◌∙◌, true, List, [], ◌∷◌, ◌++◌, length, take,
  drop, replicate, length-append, length-take, length-drop, length-replicate, take-append-drop,
  take-append_le, take-append_ge, drop-append_le, drop-append_ge, drop_all, append_assoc,
  append-nil, arith,
}
use uiconnect.ByteArray.{Node, new_node, splice, all_live}

-- the bytes of the chain, block after block
abbrev pub flat : List Node → List ℕ
flat [] = []
flat (node ∷ rest) = node.cells ++ flat rest

-- no node is freed, and each has `base` bytes
abbrev pub Blocks : ℕ → List Node → Type 0
Blocks base [] = Unit
Blocks base (node ∷ rest) = (node.live ≡ true) × (length node.cells ≡ base) × Blocks base rest

pub flat-append : (xs ys : List Node) → flat (xs ++ ys) ≡ flat xs ++ flat ys
flat-append [] ys = refl
flat-append (x ∷ xs) ys = rw (flat-append xs ys) (sym (append_assoc x.cells (flat xs) (flat ys)))

module _ (base : ℕ) where
  pub length-flat : (xs : List Node) → Blocks base xs → length (flat xs) ≡ length xs * base
  length-flat [] v = omega arith
  length-flat (x ∷ xs) v = grind (arith, length-append x.cells (flat xs), length-flat xs v.2)

  pub Blocks-append : (xs ys : List Node) → Blocks base xs → Blocks base ys → Blocks base (xs ++ ys)
  Blocks-append [] ys v w = w
  Blocks-append (x ∷ xs) ys v w = (v.0, v.1, Blocks-append xs ys v.2 w)

  pub Blocks-take : (n : ℕ) (xs : List Node) → Blocks base xs → Blocks base (take n xs)
  Blocks-take zero xs v = tt
  Blocks-take (suc n) [] v = tt
  Blocks-take (suc n) (x ∷ xs) v = (v.0, v.1, Blocks-take n xs v.2)

  pub Blocks-drop : (n : ℕ) (xs : List Node) → Blocks base xs → Blocks base (drop n xs)
  Blocks-drop zero xs v = v
  Blocks-drop (suc n) [] v = tt
  Blocks-drop (suc n) (x ∷ xs) v = Blocks-drop n xs v.2

  pub Blocks-all_live : (xs : List Node) → Blocks base xs → all_live xs ≡ true
  unfolding all_live
  Blocks-all_live [] v = refl
  Blocks-all_live (x ∷ xs) v = rw (v.0, Blocks-all_live xs v.2)

  pub Blocks-new : (n fill : ℕ) → Blocks base (replicate n (new_node base fill))
  unfolding new_node
  Blocks-new zero fill = tt
  Blocks-new (suc n) fill = (refl, length-replicate base fill, Blocks-new n fill)

  -- Leaving out k blocks leaves out k * base bytes.
  pub flat-drop :
      (k : ℕ) (xs : List Node) → Blocks base xs → flat (drop k xs) ≡ drop (k * base) (flat xs)
  flat-drop zero xs v = let e : 0 * base ≡ 0 = omega arith in rw e refl
  flat-drop (suc k) [] v = sym (drop_all (suc k * base) [] (omega arith))
  flat-drop (suc k) (x ∷ xs) v =
      let e : suc k * base ≡ length x.cells + k * base = grind (arith, v.1) in
      rw e (flat-drop k xs v.2 ∙ sym (drop-append_ge x.cells (flat xs) (k * base)))

-- Overwriting within the first of two lists.
pub splice-append :
    (xs ys buf : List ℕ) (pos : ℕ)
    → pos + length buf ≤ length xs
    → splice xs pos buf ++ ys ≡ splice (xs ++ ys) pos buf
splice-append xs ys buf pos h = rw (
  append_assoc,
  append_assoc,
  take-append_le pos xs ys (omega arith),
  drop-append_le (pos + length buf) xs ys h,
)

-- Overwriting within the second.
pub append-splice :
    (xs ys buf : List ℕ) (pos : ℕ)
    → xs ++ splice ys pos buf ≡ splice (xs ++ ys) (length xs + pos) buf
append-splice xs ys buf pos =
    let e : length xs + pos + length buf ≡ length xs + (pos + length buf) = omega arith in
    rw (e, take-append_ge xs ys pos, drop-append_ge xs ys (pos + length buf))
      (sym (append_assoc xs (take pos ys) (buf ++ drop (pos + length buf) ys)))

-- Overwriting across the seam: the first list to its end, and the second from its start.
pub splice-splice :
    (xs ys buf : List ℕ) (pos k : ℕ)
    → pos + k ≡ length xs
    → k ≤ length buf
    → splice xs pos (take k buf) ++ splice ys 0 (drop k buf) ≡ splice (xs ++ ys) pos buf
splice-splice xs ys buf pos k h fits =
    let done : drop (pos + length (take k buf)) xs ≡ [] =
      drop_all (pos + length (take k buf)) xs (omega (arith, length-take k buf)) in
    let more : 0 + length (drop k buf) ≡ length buf - k = omega (arith, length-drop k buf) in
    let seam : pos + length buf ≡ length xs + (length buf - k) = omega arith in
    let rest = drop (length buf - k) ys in
    rw (
      done,
      more,
      seam,
      take-append_le pos xs ys (omega arith),
      drop-append_ge xs ys (length buf - k),
      append-nil,
      append_assoc,
      ← append_assoc (take k buf) (drop k buf) rest,
      take-append-drop k buf,
    )

pub length-splice :
    (xs buf : List ℕ) (pos : ℕ)
    → pos + length buf ≤ length xs
    → length (splice xs pos buf) ≡ length xs
length-splice xs buf pos h = omega (
  arith,
  length-append (take pos xs) (buf ++ drop (pos + length buf) xs),
  length-append buf (drop (pos + length buf) xs),
  length-take pos xs,
  length-drop (pos + length buf) xs,
)
