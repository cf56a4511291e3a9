-- ===== src/ByteArray.antt =====
-- server/library/ByteArray.h and ByteArray.cpp: a byte queue over a chain of equal blocks.
-- The chain from m_root by `next` is a list of nodes; a pointer into it is an index, and the
-- index behind the last node is the null pointer. `fill` is what a byte of `new char[]` happens
-- to hold. The differences m_writePos - m_readPos and m_capacity - m_writePos of `size_t` are
-- plain: no operation lets the positions pass one another.
pub mod Write
pub mod Read
pub mod Moves
pub mod Iov
pub mod Codec
pub mod Flat
pub mod Sound
use uiconnect.Base.{
  ℕ, zero, suc, ◌+◌, ◌-◌, ◌*◌, ◌/◌, ◌%◌, min, Bool, true, false, not, ◌&&◌, ◌||◌, List, [], ◌∷◌,
  ◌++◌, length, take, drop, replicate, ltb, leb, ◌==◌, if◌then◌else◌,
}
use uiconnect.Base.Outcome.{Outcome, ok, fault, ◌>>=◌, ◌>>◌, require}

-- ByteArray::Node; `size` is the length of `cells`, and `live` turns false by `delete`.
pub record Node : Type 0 where
  pub cells : List ℕ
  pub live : Bool

-- A Node*: the k-th node of the chain (null behind the last), or a node that left the chain.
pub data Link : Type 0 where
  at : ℕ → Link
  dangling : Link

pub record ByteArray : Type 0 where
  pub base_size : ℕ
  pub write_pos : ℕ
  pub read_pos : ℕ
  pub capacity : ℕ
  pub endian : ℕ
  pub chain : List Node
  pub write_block : Link
  pub read_block : Link
  pub fill : ℕ

-- Endian.h: LITTLE_ENDIAN and BIG_ENDIAN
abbrev pub little_endian : ℕ
little_endian = 1

abbrev pub big_endian : ℕ
big_endian = 2

-- Node::Node(size_t)
unfoldable pub new_node : ℕ → ℕ → Node
new_node size fill = record { cells = replicate size fill; live = true }

-- ByteArray::ByteArray(size_t)
unfoldable pub create : ℕ → ℕ → ByteArray
unfolding new_node
create base fill = record {
  base_size = base;
  write_pos = 0;
  read_pos = 0;
  capacity = base;
  endian = big_endian;
  chain = new_node base fill ∷ [];
  write_block = at 0;
  read_block = at 0;
  fill = fill;
}

unfoldable pub is_little_endian : ByteArray → Bool
is_little_endian a = a.endian == little_endian

unfoldable pub set_is_little_endian : ByteArray → Bool → ByteArray
set_is_little_endian a val = record a { endian = if val then little_endian else big_endian }

abbrev pub get_free_size : ByteArray → ℕ
get_free_size a = a.capacity - a.write_pos

abbrev pub get_unread_size : ByteArray → ℕ
get_unread_size a = a.write_pos - a.read_pos

abbrev pub get_cur_block_unread_size : ByteArray → ℕ
get_cur_block_unread_size a = min (a.write_pos - a.read_pos) a.base_size

-- memcpy out of a node, from `pos` on
unfoldable pub load : Node → ℕ → ℕ → Outcome (List ℕ)
load node pos n = do
  require (node.live && leb (pos + n) (length node.cells))
  ok (take n (drop pos node.cells))

-- `xs` with `buf` over what stands from `pos` on
abbrev pub splice : List ℕ → ℕ → List ℕ → List ℕ
splice xs pos buf = take pos xs ++ (buf ++ drop (pos + length buf) xs)

-- memcpy into a node, from `pos` on
unfoldable pub store : Node → ℕ → List ℕ → Outcome Node
store node pos buf = do
  require (node.live && leb (pos + length buf) (length node.cells))
  ok (record node { cells = splice node.cells pos buf })

-- `cur->size`
unfoldable pub head_size : List Node → Outcome ℕ
head_size [] = fault
head_size (node ∷ rest) = do require node.live; ok (length node.cells)

unfoldable pub all_live : List Node → Bool
all_live [] = true
all_live (node ∷ rest) = node.live && all_live rest

-- `link->next`, through a node of the chain that is not freed
unfoldable pub next : List Node → Link → Outcome Link
unfolding head_size
next chain dangling = fault
next chain (at k) = do head_size (drop k chain) >>= λ _. ok (at (suc k))

-- the nodes from a pointer on
abbrev pub from : List Node → Link → Outcome (List Node)
from chain dangling = fault
from chain (at k) = ok (drop k chain)

abbrev pub before : List Node → Link → List Node
before chain dangling = []
before chain (at k) = take k chain
