-- ===== src/Store.antt =====
-- The writes of src/map.rs to the arena's memory, as changes of a map.
pub mod Reads
use skl.Prelude.{ℕ, ◌+◌, ◌==◌, Bool, true, false, [], ◌∷◌, if◌then◌else◌}
use skl.Encoding.{encode_value_pointer}
use skl.Compare.{Bytes}
use skl.Node.{Node, Link, update, tower_offset}
use skl.SkipMap.{SkipMap}

-- the bytes from an offset on, overwritten
unfoldable pub write_bytes : (ℕ → ℕ) → ℕ → Bytes → ℕ → ℕ
unfolding update
write_bytes byte offset [] = byte
write_bytes byte offset (b ∷ bs) = update (write_bytes byte (offset + 1) bs) offset b

module _ {A T : Type 0} where
  unfoldable pub set_bytes : ℕ → Bytes → SkipMap A T → SkipMap A T
  unfolding write_bytes
  set_bytes offset bs s = record s {
    mem = record (s.mem) { byte = write_bytes s.mem.byte offset bs };
  }

  unfoldable pub set_node : ℕ → Node → SkipMap A T → SkipMap A T
  unfolding update
  set_node nd n s = record s { mem = record (s.mem) { node = update s.mem.node nd n } }

  -- `trailer_ptr.write(trailer)`
  unfoldable pub set_trailer : ℕ → T → SkipMap A T → SkipMap A T
  unfolding update
  set_trailer offset trailer s = record s {
    mem = record (s.mem) { trailer = update s.mem.trailer offset trailer };
  }

  unfoldable pub set_link : ℕ → ℕ → Link → SkipMap A T → SkipMap A T
  unfolding update tower_offset
  set_link nd idx l s = record s {
    mem = record (s.mem) { link = update s.mem.link (tower_offset nd idx) l };
  }

  unfoldable pub write_tower : (nd idx prev_offset next_offset : ℕ) → SkipMap A T → SkipMap A T
  unfolding set_link
  write_tower nd idx prev_offset next_offset s =
      set_link nd idx (record { next_offset = next_offset; prev_offset = prev_offset }) s

  -- `cas_next_offset` and `cas_prev_offset`: whether the exchange was made, and the map
  unfoldable pub cas_next_offset : (nd idx current new : ℕ) → SkipMap A T → Bool × SkipMap A T
  unfolding set_link
  cas_next_offset nd idx current new s =
      let l = s.mem.link (tower_offset nd idx) in
      if l.next_offset == current
      then (true, set_link nd idx (record l { next_offset = new }) s)
      else (false, s)

  unfoldable pub cas_prev_offset : (nd idx current new : ℕ) → SkipMap A T → Bool × SkipMap A T
  unfolding set_link
  cas_prev_offset nd idx current new s =
      let l = s.mem.link (tower_offset nd idx) in
      if l.prev_offset == current
      then (true, set_link nd idx (record l { prev_offset = new }) s)
      else (false, s)

  -- the word of a node's `AtomicValuePointer`, replaced
  unfoldable pub swap_value : (nd offset len : ℕ) → SkipMap A T → SkipMap A T
  unfolding set_node encode_value_pointer
  swap_value nd offset len s =
      set_node nd (record (s.mem.node nd) { value = encode_value_pointer offset len }) s
