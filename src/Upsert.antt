-- ===== src/Upsert.antt =====
-- `upsert` of src/map.rs, with the parts of `Node` that they call. Where another thread
-- can come between a read and an exchange of a node's value, the word that it stores is the argument
-- `meanwhile`.
pub mod Remove
pub mod Readers
pub mod Owned
use skl.Prelude.{ℕ, ◌+◌, ◌%◌, ◌^◌, ◌==◌, Bool, true, false, Option, none, some, if◌then◌else◌}
use skl.Encoding.{decode_value_pointer, encode_value_pointer}
use skl.Compare.{Trailer}
use skl.Node.{remove, get_bytes, get_key, get_trailer_by_offset, get_value_by_offset}
use skl.Types
use skl.Types.{VacantBuffer, Key, is_remove, as_ref, remaining}
use skl.Entry.{VersionedEntryRef, is_removed}
use skl.Run.{left, ok, err, panicked, M, pure, ◌>>=◌, ◌>>◌}
use skl.Arena.{Arena}
use skl.SkipMap.{SkipMap}
use skl.Store.{set_bytes, set_node, set_trailer, swap_value}
use skl.Alloc.{Filled, filled, refused, aborted, dealloc, release, alloc_value}

-- `UpdateOk`: `Either::Left`, and the two sides of `Either::Right`
pub data UpdateOk (T : Type 0) : Type 0 where
  old : Option (VersionedEntryRef T) → UpdateOk T
  exchanged : VersionedEntryRef T → UpdateOk T
  current : VersionedEntryRef T → UpdateOk T

module _ {A T E : Type 0} (ar : Arena A E) where
  -- `Key::on_fail`
  unfoldable pub on_fail : Key → SkipMap A T → SkipMap A T
  unfolding dealloc
  on_fail (Key.vacant b) s = (dealloc ar b.offset (b.cap % 2 ^ 32) s).1
  on_fail (Key.remove_vacant b) s = (dealloc ar b.offset (b.cap % 2 ^ 32) s).1
  on_fail _ s = s

module _ {T : Type 0} where
  abbrev pub unless_removed : VersionedEntryRef T → UpdateOk T
  unless_removed e = old (if is_removed e then none else some e)

module _ {A T : Type 0} where
  -- `AtomicValuePointer::compare_remove`: the word that the exchange met, and whether it was made
  unfoldable pub compare_remove :
      (meanwhile : Option ℕ) (nd : ℕ) → SkipMap A T → (Bool × ℕ) × SkipMap A T
  unfolding set_node decode_value_pointer encode_value_pointer
  compare_remove meanwhile nd s =
      let before = (s.mem.node nd).value in
      let s' : SkipMap A T = elim meanwhile [
        | none ↦ s
        | some w ↦ set_node nd (record (s.mem.node nd) { value = w }) s
      ] in
      let met = (s'.mem.node nd).value in
      let new = encode_value_pointer (decode_value_pointer before).0 remove in
      if met == before
      then ((true, met), set_node nd (record (s'.mem.node nd) { value = new }) s')
      else ((false, met), s')

module _ {A T E F : Type 0} ⦃t : Trailer T⦄ (ar : Arena A E) where
  -- `Node::set_value`
  unfoldable pub set_value :
      (nd : ℕ) → T → (value_size : ℕ) → (VacantBuffer → Filled F) → M (SkipMap A T) F E (Unit {0})
  unfolding dealloc release set_bytes set_trailer swap_value remaining get_bytes
  set_value nd trailer value_size f = do
    bytes ← alloc_value ar value_size
    let value_offset = bytes.offset + t.size_of
    λ s. elim (f (Types.new value_size value_offset (get_bytes s.mem value_offset value_size))) [
      | aborted ↦ panicked
      | refused e b ↦ err (left e) (release ar bytes (set_bytes value_offset b.value s))
      | filled b ↦
          let s₁ = set_bytes value_offset b.value s in
          let (kept, s₂) =
            if remaining b == 0
            then (true, s₁)
            else dealloc ar (value_offset + b.len) (remaining b) s₁ in
          let s₃ = set_trailer bytes.offset trailer s₂ in
          let s₄ =
            if kept
            then s₃
            else record s₃ { arena = ar.increase_discarded (remaining b) s₃.arena } in
          ok tt (swap_value nd bytes.offset value_size s₄)
    ]

  unfoldable pub upsert :
      (meanwhile : Option ℕ)
      → VersionedEntryRef T
      → (nd : ℕ) → Key
      → T
      → (value_size : ℕ) → (VacantBuffer → Filled F)
      → M (SkipMap A T) F E (UpdateOk T)
  unfolding set_value compare_remove is_remove is_removed get_key get_trailer_by_offset
      get_value_by_offset decode_value_pointer
  upsert meanwhile before nd key trailer value_size f =
      if is_remove key
      then (λ s.
          let node_key = get_key s.mem nd in
          let ((done, met), s') = compare_remove meanwhile nd s in
          if done
          then ok (old none) s'
          else let (offset, len) = decode_value_pointer met in
            ok
              (current (record {
                key = node_key;
                trailer = get_trailer_by_offset s'.mem offset;
                value = get_value_by_offset s'.mem offset len;
                ptr = nd;
              }))
              s')
      else do set_value nd trailer value_size f; pure (unless_removed before)
