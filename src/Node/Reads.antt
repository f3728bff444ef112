-- ===== src/Node/Reads.antt =====
-- The readers of a node agree with one another.
use skl.Prelude.{
  ℕ, refl, ◌+◌, ◌^◌, ◌≤◌, ◌≡◌, sym, ◌∙◌, Option, none, some, arith, ◌==◌, if◌then◌else◌,
}
use skl.Encoding.{decode_value_pointer}
use skl.Compare.{Bytes, Trailer}
use skl.Node.{
  Memory, remove, align_up, align_offset, get_bytes, get_trailer, get_value, get_value_by_offset,
  get_value_and_trailer, version,
}
use skl.Node.Align.{align_offset_lem}

module _ {T : Type 0} ⦃t : Trailer T⦄ (m : Memory T) where
  -- the value behind a trailer at its aligned address
  unfoldable pub value_behind : (offset len : ℕ) → Option Bytes
  unfolding get_bytes align_up
  value_behind offset len =
      if len == remove
      then none
      else some (get_bytes m (align_up t.align_of offset + t.size_of) len)

  -- the value that the readers of entries get
  unfoldable pub read_value : ℕ → Option Bytes
  unfolding value_behind decode_value_pointer
  read_value nd =
      let (offset, len) = decode_value_pointer (m.node nd).value in value_behind offset len

module _ {T : Type 0} ⦃t : Trailer T⦄ (m : Memory T) (nd : ℕ) where
  -- One read of both gives the trailer of a separate read, and the value behind it.
  pub get_value_and_trailer_parts :
      ((get_value_and_trailer m nd).0 ≡ get_trailer m nd)
      × ((get_value_and_trailer m nd).1 ≡ read_value m nd)
  unfolding get_value_and_trailer read_value get_trailer
  get_value_and_trailer_parts = (ground arith, ground arith)

  pub version-get_value_and_trailer : t.version (get_value_and_trailer m nd).0 ≡ version m nd
  unfolding version
  version-get_value_and_trailer = rw get_value_and_trailer_parts.0

module _ {T : Type 0} ⦃t : Trailer T⦄ (m : Memory T) (k d : ℕ) (power : t.align_of ≡ 2 ^ k)
    (within : k + d ≡ 32) where
  pub get_value_by_offset_lem :
      (offset len : ℕ)
      → offset + t.align_of ≤ 2 ^ 32
      → get_value_by_offset m offset len ≡ value_behind m offset len
  unfolding get_value_by_offset value_behind
  get_value_by_offset_lem offset len room =
      let same : align_offset t.align_of offset ≡ align_up t.align_of offset =
        rw power (align_offset_lem k d offset within (omega (arith, power, room))) in
      rw same refl

  -- Let the trailer's alignment be a power of two of at most 32 bits, and the word of the node hold an
  -- offset whose next aligned address is below 2^32. Then the value that `get_value` reads at the offset
  -- that it masks on u32 is the one that `get_value_and_trailer` reads behind the arena's aligned
  -- pointer, a tombstone included, and the trailer is the one that `get_trailer` reads.
  pub get_value_and_trailer_lem :
      (nd : ℕ)
      → (decode_value_pointer (m.node nd).value).0 + t.align_of ≤ 2 ^ 32
      → get_value_and_trailer m nd ≡ (get_trailer m nd, get_value m nd)
  unfolding get_value read_value
  get_value_and_trailer_lem nd room =
      let word = decode_value_pointer (m.node nd).value in
      let parts = get_value_and_trailer_parts m nd in
      let value = parts.1 ∙ sym (get_value_by_offset_lem word.0 word.1 room) in
      λ i. (parts.0 i, value i)
