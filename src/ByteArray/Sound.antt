-- ===== src/ByteArray/Sound.antt =====
-- The invariant of ByteArray.cpp that its operations keep, and with which none of them leaves
-- its memory. The block pointers may stand before the block of their position, never behind it.
pub mod Loop
pub mod Write
pub mod Moves
pub mod Read
use uiconnect.Base.{ℕ, suc, ◌-◌, ◌*◌, ◌/◌, ◌≤◌, ◌<◌, ◌≡◌, refl, arith, length, length-replicate}
use uiconnect.ByteArray.{Link, at, dangling, ByteArray, new_node, create}
use uiconnect.ByteArray.Flat.{Blocks}

-- The pointer is to a block at or before the one of the position.
abbrev pub Behind : ℕ → ℕ → Link → Type 0
Behind base pos dangling = ⊥
Behind base pos (at k) = k * base ≤ pos

pub record IsSound (a : ByteArray) : Type 0 where
  pub base_pos : 0 < a.base_size
  pub blocks : Blocks a.base_size a.chain
  pub sized : a.capacity ≡ length a.chain * a.base_size
  pub read_le : a.read_pos ≤ a.write_pos
  pub write_le : a.write_pos ≤ a.capacity
  pub write_behind : Behind a.base_size a.write_pos a.write_block
  pub read_behind : Behind a.base_size a.read_pos a.read_block

pub Behind-at :
    (base pos : ℕ) (l : Link) → Behind base pos l → (k : ℕ) × (l ≡ at k) × (k * base ≤ pos)
Behind-at base pos (at k) h = (k, refl, h)
Behind-at base pos dangling h = absurd h

pub create-IsSound : (base fill : ℕ) → 0 < base → IsSound (create base fill)
unfolding create
create-IsSound base fill h = record {
  base_pos = h;
  blocks = (refl, length-replicate base fill, tt);
  sized = omega arith;
  read_le = omega arith;
  write_le = omega arith;
  write_behind = omega arith;
  read_behind = omega arith;
}
