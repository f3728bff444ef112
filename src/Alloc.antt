-- ===== src/Alloc.antt =====
-- The allocation of nodes in src/map.rs.
pub mod Sizes
pub mod Kept
pub mod Filling
pub mod Stored
pub mod Outcomes
pub mod New
use skl.Prelude.{
  ℕ, ◌+◌, ◌-◌, ◌*◌, ◌%◌, ◌^◌, ◌==◌, ltb, Bool, ◌||◌, Option, none, some, if◌then◌else◌,
}
use skl.Encoding.{encode_value_pointer, encode_key_size_and_height}
use skl.Compare.{Trailer}
use skl.Node.{Node, node_size, link_size, remove, get_bytes}
use skl.Types
use skl.Types.{VacantBuffer, remaining}
use skl.Run.{
  arena, value_too_large, key_too_large, entry_too_large, right, left, ok, err, panicked, M, pure,
  ◌>>=◌, ◌>>◌, on_err,
}
use skl.Arena.{Region, Alloc, Arena}
use skl.Splice.{Pointer, pointer}
use skl.SkipMap.{SkipMap}
use skl.Store.{set_bytes, set_node, set_trailer}

-- What a caller's closure makes of a buffer.
pub data Filled (F : Type 0) : Type 0 where
  filled : VacantBuffer → Filled F
  refused : F → VacantBuffer → Filled F
  aborted : Filled F

-- `Node::<T>::ALIGN`, that of a u64
abbrev pub node_align : ℕ
node_align = 8

-- `struct Deallocator`
pub record Deallocator : Type 0 where
  pub node : Option Pointer
  pub key : Option Pointer
  pub value : Option Pointer

module _ {A T E : Type 0} (ar : Arena A E) where
  unfoldable pub dealloc : (offset size : ℕ) → SkipMap A T → Bool × SkipMap A T
  dealloc offset size s =
      let (done, a) = ar.dealloc offset size s.arena in (done, record s { arena = a })

  abbrev pub dealloc_pointer : Option Pointer → SkipMap A T → SkipMap A T
  dealloc_pointer none s = s
  dealloc_pointer (some p) s = (dealloc p.offset p.size s).1

  -- `Deallocator::dealloc`
  unfoldable pub dealloc_all : Deallocator → SkipMap A T → SkipMap A T
  unfolding dealloc
  dealloc_all d s = dealloc_pointer d.value (dealloc_pointer d.key (dealloc_pointer d.node s))

  unfoldable pub release : Region → SkipMap A T → SkipMap A T
  release r s = record s { arena = ar.release r s.arena }

module _ {A T E F : Type 0} where
  abbrev pub modify : (SkipMap A T → SkipMap A T) → M (SkipMap A T) F E (Unit {0})
  modify f s = ok tt (f s)

  -- an allocation, its error carried over by `map::Error::from`
  unfoldable pub allocate : (A → Alloc A E) → M (SkipMap A T) F E Region
  allocate f s = elim (f s.arena) [
    | Alloc.allocated r a ↦ ok r (record s { arena = a })
    | Alloc.refused e a ↦ err (right (arena e)) (record s { arena = a })
  ]

  unfoldable pub check_node_size : (height key_size value_size : ℕ) → M (SkipMap A T) F E (Unit {0})
  check_node_size height key_size value_size s =
      let size = if value_size == remove then 0 else value_size in
      let entry_size = size + key_size + (node_size + height * link_size) in
      if ltb height 1 || ltb s.opts.max_height height
      then panicked
      else if ltb s.opts.max_key_size key_size
      then err (right (key_too_large key_size)) s
      else if ltb s.opts.max_value_size size
      then err (right (value_too_large size)) s
      else if ltb (2 ^ 32 - 1) entry_size
      then err (right (entry_too_large entry_size)) s
      else ok tt s

module _ {A T E F : Type 0} (ar : Arena A E) where
  -- The part that `fill_vacant_key` and `fill_vacant_value` share: `buffer` is what the closure
  -- fills, `whole` the segment that is given back when it fails.
  unfoldable pub fill_vacant :
      (whole buffer : Pointer) → (VacantBuffer → Filled F) → M (SkipMap A T) F E (ℕ × Pointer)
  unfolding dealloc remaining set_bytes get_bytes
  fill_vacant whole buffer f s =
      let bytes = get_bytes s.mem buffer.offset buffer.size in
      elim (f (Types.new buffer.size buffer.offset bytes)) [
        | aborted ↦ panicked
        | refused e b ↦
            err (left e) (dealloc ar whole.offset whole.size (set_bytes buffer.offset b.value s)).1
        | filled b ↦
            let s' = set_bytes buffer.offset b.value s in
            if remaining b == 0
            then ok (b.len, whole) s'
            else let (done, s'') = dealloc ar (buffer.offset + b.len) (remaining b) s' in
              if done
              then ok (b.len, pointer whole.offset (whole.size - remaining b)) s''
              else ok (b.len, whole) s''
      ]

  unfoldable pub fill_vacant_key :
      (size offset : ℕ) → (VacantBuffer → Filled F) → M (SkipMap A T) F E (ℕ × Pointer)
  unfolding fill_vacant
  fill_vacant_key size offset f = fill_vacant (pointer offset size) (pointer offset size) f

  unfoldable pub fill_vacant_value :
      (offset size value_size value_offset : ℕ)
      → (VacantBuffer → Filled F)
      → M (SkipMap A T) F E (ℕ × Pointer)
  unfolding fill_vacant
  fill_vacant_value offset size value_size value_offset f =
      fill_vacant (pointer offset size) (pointer value_offset value_size) f

-- the header of a new node
abbrev pub header : (value_offset value_size key_offset key_size height : ℕ) → Node
header value_offset value_size key_offset key_size height = record {
  value = encode_value_pointer value_offset value_size;
  key_offset = key_offset;
  key_size_and_height = encode_key_size_and_height key_size height;
}

-- what each of the four allocations returns
abbrev pub Allocated : Type 0
Allocated = ℕ × Deallocator

abbrev pub deallocator : Region → Option Pointer → Pointer → Deallocator
deallocator node key value = record {
  node = some (pointer node.offset node.capacity);
  key = key;
  value = some value;
}

module _ {A T E F : Type 0} ⦃t : Trailer T⦄ (ar : Arena A E) where
  abbrev pub alloc_node : ℕ → M (SkipMap A T) F E Region
  alloc_node height =
      allocate (ar.alloc_aligned_bytes node_size node_align (height * link_size % 2 ^ 32))

  abbrev pub alloc_value : ℕ → M (SkipMap A T) F E Region
  alloc_value value_size = allocate (ar.alloc_aligned_bytes t.size_of t.align_of value_size)

  unfoldable pub allocate_entry_node :
      (height : ℕ)
      → T
      → (key_size : ℕ) → (VacantBuffer → Filled F)
      → (value_size : ℕ) → (VacantBuffer → Filled F)
      → M (SkipMap A T) F E Allocated
  unfolding check_node_size allocate release set_trailer set_node fill_vacant_key fill_vacant_value
  allocate_entry_node height trailer key_size kf value_size vf = do
    check_node_size height key_size value_size
    node ← alloc_node height
    on_err (release ar node) (do
      key ← allocate (ar.alloc_bytes key_size)
      value ← on_err (release ar key) (alloc_value value_size)
      modify (set_trailer value.offset trailer)
      modify (set_node node.offset (header value.offset value_size key.offset key.capacity height))
      key_info ← on_err (release ar value) (fill_vacant_key ar key.capacity key.offset kf)
      value_info ←
          fill_vacant_value ar value.offset value.capacity value_size (value.offset + t.size_of) vf
      pure (node.offset, deallocator node (some key_info.1) value_info.1))

  unfoldable pub allocate_node :
      (height : ℕ) → T → (key_offset key_size value_size : ℕ) → M (SkipMap A T) F E Allocated
  unfolding check_node_size allocate release set_trailer set_node
  allocate_node height trailer key_offset key_size value_size = do
    check_node_size height key_size value_size
    node ← alloc_node height
    on_err (release ar node) (do
      trailer_ref ← allocate (ar.alloc t.size_of t.align_of)
      modify (set_trailer trailer_ref.offset trailer)
      modify
          (set_node node.offset (header trailer_ref.offset value_size key_offset key_size height))
      pure (node.offset, deallocator node none (pointer trailer_ref.offset t.size_of)))

  unfoldable pub allocate_key_node :
      (height : ℕ)
      → T
      → (key_size : ℕ) → (VacantBuffer → Filled F)
      → (value_size : ℕ) → M (SkipMap A T) F E Allocated
  unfolding check_node_size allocate release set_trailer set_node fill_vacant_key
  allocate_key_node height trailer key_size kf value_size = do
    check_node_size height key_size value_size
    node ← alloc_node height
    on_err (release ar node) (do
      key ← allocate (ar.alloc_bytes key_size)
      trailer_ref ← on_err (release ar key) (allocate (ar.alloc t.size_of t.align_of))
      modify (set_trailer trailer_ref.offset trailer)
      modify (
          set_node node.offset
            (header trailer_ref.offset value_size key.offset key.capacity height))
      key_info ← on_err (release ar trailer_ref) (fill_vacant_key ar key.capacity key.offset kf)
      pure (node.offset, deallocator node (some key_info.1) (pointer trailer_ref.offset t.size_of)))

  unfoldable pub allocate_value_node :
      (height : ℕ)
      → T
      → (key_size key_offset value_size : ℕ) → (VacantBuffer → Filled F)
      → M (SkipMap A T) F E Allocated
  unfolding check_node_size allocate release set_trailer set_node fill_vacant_value
  allocate_value_node height trailer key_size key_offset value_size vf = do
    check_node_size height key_size value_size
    node ← alloc_node height
    on_err (release ar node) (do
      value ← alloc_value value_size
      modify (set_trailer value.offset trailer)
      modify (set_node node.offset (header value.offset value_size key_offset key_size height))
      value_info ←
          fill_vacant_value ar value.offset value.capacity value_size (value.offset + t.size_of) vf
      pure (node.offset, deallocator node none value_info.1))
