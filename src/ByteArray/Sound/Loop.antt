-- ===== src/ByteArray/Sound/Loop.antt =====
-- The loop of ByteArray::write over a chain of whole blocks.
use uiconnect.Base.{
  ℕ, suc, ◌+◌, ◌-◌, ◌≤◌, ◌<◌, ◌≡◌, refl, ap, ◌∙◌, true, false, inl, inr, List, [], ◌∷◌, ◌++◌,
  length, take, drop, length-append, length-take, length-drop, leb, leb→le, le→leb, Bool-cases,
  arith,
}
use uiconnect.Base.Outcome.{ok}
use uiconnect.ByteArray.{Node, splice, store, head_size}
use uiconnect.ByteArray.Write.{write_loop}
use uiconnect.ByteArray.Flat.{flat, Blocks, splice-append, splice-splice, length-splice}

ltb_of_leb : (a b : ℕ) → leb a b ≡ false → b < a
ltb_of_leb a b h = ground arith

pub store-ok :
    (node : Node) (pos : ℕ) (buf : List ℕ)
    → node.live ≡ true
    → pos + length buf ≤ length node.cells
    → store node pos buf ≡ ok (record node { cells = splice node.cells pos buf })
unfolding store
store-ok node pos buf live fits = rw (live, le→leb (pos + length buf) (length node.cells) fits)

pub head_size-ok :
    (base : ℕ) (chain : List Node)
    → Blocks base chain
    → 0 < length (flat chain)
    → head_size chain ≡ ok base
unfolding head_size
head_size-ok base [] v h = absurd (omega arith)
head_size-ok base (node ∷ rest) v h = rw (v.0, v.1)

-- What the loop returns: the same number of whole blocks, with `buf` written from `pos` on.
abbrev pub Written : ℕ → List Node → ℕ → List ℕ → List Node → Type 0
Written base chain pos buf rest =
    Blocks base rest × (length rest ≡ length chain) × (flat rest ≡ splice (flat chain) pos buf)

pub write_loop-ok :
    (base : ℕ) (chain : List Node) (pos free : ℕ) (buf : List ℕ)
    → Blocks base chain
    → pos + free ≡ base
    → 0 < length buf
    → pos + length buf ≤ length (flat chain)
    → (rest : List Node) × (write_loop chain pos free buf ≡ ok rest)
      × Written base chain pos buf rest
unfolding write_loop
write_loop-ok base [] pos free buf v e ne fits = absurd (omega arith)
write_loop-ok base (node ∷ rest) pos free buf v e ne fits =
    elim (Bool-cases (leb (length buf) free)) [
      | inl last ↦
          let small : pos + length buf ≤ length node.cells =
            omega (arith, leb→le (length buf) free last, v.1) in
          (
            record node { cells = splice node.cells pos buf } ∷ rest,
            rw (last, store-ok node pos buf v.0 small),
            (
              (v.0, length-splice node.cells buf pos small ∙ v.1, v.2),
              refl,
              splice-append node.cells (flat rest) buf pos small,
            ),
          )
      | inr more ↦
          let long : free < length buf = ltb_of_leb (length buf) free more in
          let total : length (node.cells ++ flat rest) ≡ base + length (flat rest) =
            omega (arith, length-append node.cells (flat rest), v.1) in
          let cut : length (take free buf) ≡ free = omega (arith, length-take free buf) in
          let left : length (drop free buf) ≡ length buf - free = length-drop free buf in
          let full : pos + length (take free buf) ≤ length node.cells = omega (arith, v.1) in
          let (rest', returned, (whole, count, bytes)) =
            write_loop-ok base rest 0 base (drop free buf) v.2 (omega arith) (omega arith)
              (omega arith) in
          (
            record node { cells = splice node.cells pos (take free buf) } ∷ rest',
            rw (
              more,
              store-ok node pos (take free buf) v.0 full,
              head_size-ok base rest v.2 (omega arith),
              returned,
            ),
            (
              (v.0, length-splice node.cells (take free buf) pos full ∙ v.1, whole),
              ap suc count,
              ap (λ t. splice node.cells pos (take free buf) ++ t) bytes
                  ∙ splice-splice node.cells (flat rest) buf pos free (omega (arith, v.1))
                      (omega arith),
            ),
          )
    ]
