-- ===== src/Alloc/Sizes.antt =====
-- Which entries check_node_size of src/map.rs lets through.
use skl.Prelude.{ℕ, ◌+◌, ◌*◌, ◌^◌, ◌≤◌, ◌<◌, ◌≡◌, ◌⊎◌, arith, ◌==◌, if◌then◌else◌}
use skl.Node.{remove, node_size, link_size}
use skl.Run.{ok, err, right, key_too_large, value_too_large, entry_too_large}
use skl.SkipMap.{SkipMap}
use skl.Alloc.{check_node_size}

-- what a value takes up, a tombstone nothing
abbrev pub stored_size : ℕ → ℕ
stored_size value_size = if value_size == remove then 0 else value_size

abbrev pub entry_size : (height key_size value_size : ℕ) → ℕ
entry_size height key_size value_size =
    stored_size value_size + key_size + (node_size + height * link_size)

module _ {A T F E : Type 0} (height key_size value_size : ℕ) (s : SkipMap A T)
    (height_pos : 1 ≤ height) (height_le : height ≤ s.opts.max_height) where
  -- For a height from 1 to the map's, the check passes exactly when the key and the value are within
  -- the options and the whole entry is below 2^32 bytes; otherwise it answers with the first limit
  -- that is passed, of the key's, the value's and the entry's, and the size. The map stays as it is.
  pub check_node_size_lem :
      ((check_node_size {E = E} {F = F} height key_size value_size s ≡ ok tt s)
        × (key_size ≤ s.opts.max_key_size)
        × (stored_size value_size ≤ s.opts.max_value_size)
        × (entry_size height key_size value_size < 2 ^ 32))
      ⊎ ((check_node_size {E = E} {F = F} height key_size value_size s
            ≡ err (right (key_too_large key_size)) s)
          × (s.opts.max_key_size < key_size))
      ⊎ ((check_node_size {E = E} {F = F} height key_size value_size s
            ≡ err (right (value_too_large (stored_size value_size))) s)
          × (key_size ≤ s.opts.max_key_size)
          × (s.opts.max_value_size < stored_size value_size))
      ⊎ ((check_node_size {E = E} {F = F} height key_size value_size s
            ≡ err (right (entry_too_large (entry_size height key_size value_size))) s)
          × (key_size ≤ s.opts.max_key_size)
          × (stored_size value_size ≤ s.opts.max_value_size)
          × (2 ^ 32 ≤ entry_size height key_size value_size))
  unfolding check_node_size
  check_node_size_lem = ground arith
