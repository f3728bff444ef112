-- ===== src/Node.antt =====
-- The nodes of src/map.rs as the arena's memory holds them: headers at their offsets, the links of a
-- tower at the addresses behind its header, the bytes of keys and values, and the trailers. A
-- `NodePtr` is its offset: the raw pointer beside it is the arena's base plus that offset.
pub mod Reads
pub mod Align
use Prim.Native.Nat.{bit_and}
use skl.Prelude.{
  ℕ, zero, suc, ◌+◌, ◌-◌, ◌*◌, ◌%◌, ◌^◌, Bool, Option, none, some, [], ◌∷◌, ◌==◌, if◌then◌else◌,
}
use skl.Encoding.{decode_value_pointer, decode_key_size_and_height}
use skl.Compare.{Bytes, Trailer}

-- `struct Node<T>`; `value` is the u64 of `AtomicValuePointer`
pub record Node : Type 0 where
  pub value : ℕ
  pub key_offset : ℕ
  pub key_size_and_height : ℕ

-- `struct Link`
pub record Link : Type 0 where
  pub next_offset : ℕ
  pub prev_offset : ℕ

pub record Memory (T : Type 0) : Type 0 where
  pub node : ℕ → Node
  pub link : ℕ → Link
  pub byte : ℕ → ℕ
  pub trailer : ℕ → T

-- `Node::<T>::SIZE`, `Link::SIZE`: a u64 and two u32, two u32
abbrev pub node_size : ℕ
node_size = 16

abbrev pub link_size : ℕ
link_size = 8

-- the tombstone length, `REMOVE`
abbrev pub remove : ℕ
remove = 2 ^ 32 - 1

-- `NodePtr::NULL` and `is_null`
abbrev pub null : ℕ
null = 0

abbrev pub is_null : ℕ → Bool
is_null p = p == 0

-- one cell of a memory, changed
unfoldable pub update {ℓ} : {V : Type ℓ} → (ℕ → V) → ℕ → V → ℕ → V
update f a v x = if x == a then v else f x

-- the address of `NodePtr::tower`
unfoldable pub tower_offset : ℕ → ℕ → ℕ
tower_offset nd idx = nd + node_size + idx * link_size

-- `(offset + alignment - 1) & !(alignment - 1)` on usize, for an alignment that is a power of two: what
-- the mask clears is the remainder. The arena's aligned pointers and regions are at these addresses.
unfoldable pub align_up : ℕ → ℕ → ℕ
align_up alignment offset = let top = offset + alignment - 1 in top - top % alignment

-- `(current_offset + alignment - 1) & !(alignment - 1)` on u32, where `!(a - 1)` is `2^32 - a`
unfoldable pub align_offset : ℕ → ℕ → ℕ
align_offset alignment current_offset =
    bit_and ((current_offset + alignment - 1) % 2 ^ 32) (2 ^ 32 - alignment)

-- `arena.get_bytes(offset, len)`
unfoldable pub read : (ℕ → ℕ) → ℕ → ℕ → Bytes
read byte offset zero = []
read byte offset (suc len) = byte offset ∷ read byte (offset + 1) len

module _ {T : Type 0} (m : Memory T) where
  unfoldable pub tower : ℕ → ℕ → Link
  unfolding tower_offset
  tower nd idx = m.link (tower_offset nd idx)

  unfoldable pub next_offset : ℕ → ℕ → ℕ
  unfolding tower
  next_offset nd idx = (tower nd idx).next_offset

  unfoldable pub prev_offset : ℕ → ℕ → ℕ
  unfolding tower
  prev_offset nd idx = (tower nd idx).prev_offset

  unfoldable pub get_bytes : ℕ → ℕ → Bytes
  unfolding read
  get_bytes offset len = read m.byte offset len

  unfoldable pub key_size : ℕ → ℕ
  unfolding decode_key_size_and_height
  key_size nd = (decode_key_size_and_height (m.node nd).key_size_and_height).0

  unfoldable pub height : ℕ → ℕ
  unfolding decode_key_size_and_height
  height nd = (decode_key_size_and_height (m.node nd).key_size_and_height).1

  unfoldable pub get_key : ℕ → Bytes
  unfolding get_bytes key_size
  get_key nd = get_bytes (m.node nd).key_offset (key_size nd)

module _ {T : Type 0} ⦃t : Trailer T⦄ (m : Memory T) where
  -- `get_aligned_pointer::<T>` reads at the next aligned address
  unfoldable pub get_trailer_by_offset : ℕ → T
  unfolding align_up
  get_trailer_by_offset offset = m.trailer (align_up t.align_of offset)

  unfoldable pub get_trailer : ℕ → T
  unfolding get_trailer_by_offset decode_value_pointer
  get_trailer nd = get_trailer_by_offset (decode_value_pointer (m.node nd).value).0

  unfoldable pub get_value_by_offset : ℕ → ℕ → Option Bytes
  unfolding get_bytes align_offset
  get_value_by_offset offset len =
      if len == remove
      then none
      else some (get_bytes m (align_offset t.align_of offset + t.size_of) len)

  unfoldable pub get_value : ℕ → Option Bytes
  unfolding get_value_by_offset decode_value_pointer
  get_value nd =
      let (offset, len) = decode_value_pointer (m.node nd).value in get_value_by_offset offset len

  unfoldable pub get_value_and_trailer : ℕ → T × Option Bytes
  unfolding get_bytes align_up decode_value_pointer
  get_value_and_trailer nd =
      let (offset, len) = decode_value_pointer (m.node nd).value in
      let ptr = align_up t.align_of offset in
      let trailer = m.trailer ptr in
      if len == remove then (trailer, none) else (trailer, some (get_bytes m (ptr + t.size_of) len))

  -- the version that the searches compare
  unfoldable pub version : ℕ → ℕ
  unfolding get_trailer
  version nd = t.version (get_trailer nd)
