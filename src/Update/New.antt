-- ===== src/Update/New.antt =====
-- What `new_node` of src/map.rs leaves, for a key given by its bytes and for one that is shared.
use skl.Prelude.{ℕ, ◌%◌, ◌≤◌, ◌<◌, ◌^◌, ◌≡◌, refl, ap, Bool, some, length, arith}
use skl.Node.{remove, get_bytes}
use skl.Compare.{Bytes, Trailer}
use skl.Spec.{Item}
use skl.Types.{VacantBuffer, Key}
use skl.Height.{random_height}
use skl.Height.Bounds.{random_height-IsHeight}
use skl.Meta.{raise_height}
use skl.Run.{Failure, M, pure, ◌>>◌}
use skl.Run.Ends.{Ends, Ends-and_then}
use skl.Arena.{Arena}
use skl.Arena.Laws.{NoneFreed, IsArena}
use skl.SkipMap.{SkipMap}
use skl.Alloc.{Filled, Allocated, Deallocator, modify, allocate_entry_node, allocate_value_node}
use skl.Alloc.Kept.{IsKept, Occupied}
use skl.Alloc.Filling.{Fills, copy_key-Fills}
use skl.Alloc.Stored.{IsStored}
use skl.Alloc.New.{allocate_entry_node-Ends, allocate_value_node-Ends}
use skl.Update.{new_node, copy_key}

-- the height of a new node
abbrev pub tall : {A T : Type 0} → (probabilities : ℕ → ℕ) (rnd : ℕ) → SkipMap A T → ℕ
tall probabilities rnd s = random_height probabilities rnd s.opts.max_height

pub height_bounds :
    {A T : Type 0} (probabilities : ℕ → ℕ) (rnd : ℕ) (s : SkipMap A T)
    → 1 ≤ s.opts.max_height
    → (1 ≤ tall probabilities rnd s) × (tall probabilities rnd s ≤ s.opts.max_height)
height_bounds probabilities rnd s max_pos =
    let is = random_height-IsHeight probabilities rnd s.opts.max_height in
    (is.at_least, grind (arith, is.at_most))

module _ {A T : Type 0} ⦃t : Trailer T⦄ (free : A → ℕ → Bool) (s : SkipMap A T) where
  -- the map with the new node stored, and its height raised to that of the node
  abbrev pub IsMade : (h : ℕ) → Item → ℕ × ℕ × Deallocator → SkipMap A T → Type 0
  IsMade h e n s' =
      (n.1 ≡ h)
      × (s'.meta ≡ raise_height h s.meta)
      × IsStored (free s.arena) (free s'.arena) s (record s' { meta = s.meta }) n.0 h e

  abbrev pub IsUntouched : {F E : Type 0} → Failure F E → SkipMap A T → Type 0
  IsUntouched e s' = IsKept (free s.arena) s s' × NoneFreed free s.arena s'.arena

module _ {A T E F : Type 0} ⦃t : Trailer T⦄ (free : A → ℕ → Bool) (ar : Arena A E)
    (laws : IsArena free ar) (single : t.size_of ≡ 0 → (a b : T) → a ≡ b) (probabilities : ℕ → ℕ)
    (rnd : ℕ) (s : SkipMap A T) (max_pos : 1 ≤ s.opts.max_height) (max_lt : s.opts.max_height < 32)
    (trailer : T) (key value : Bytes) (key_lt : length key < 2 ^ 27)
    (value_lt : length value < remove) (f : VacantBuffer → Filled F) (fills : Fills f value) where
  abbrev h : ℕ
  h = tall probabilities rnd s

  tall_bounds : (1 ≤ h) × (h ≤ s.opts.max_height)
  tall_bounds = height_bounds probabilities rnd s max_pos

  abbrev new_item : Item
  new_item = record { key = key; version = t.version trailer; value = some value }

  abbrev NodeStored : Allocated → SkipMap A T → Type 0
  NodeStored n s' = IsStored (free s.arena) (free s'.arena) s s' n.0 h new_item

  made :
      (n : Allocated) (s' : SkipMap A T)
      → NodeStored n s'
      → IsMade free s h new_item (n.0, h, n.1) (record s' { meta = raise_height h s'.meta })
  made n s' st = (
    refl,
    ap (λ (x : SkipMap A T). raise_height h x.meta) st.kept.rest,
    record {
      kept = record {
        rest = ap (λ (x : SkipMap A T). record x { meta = s.meta }) st.kept.rest;
        node_kept = st.kept.node_kept;
        byte_kept = st.kept.byte_kept;
        trailer_kept = st.kept.trailer_kept;
      };
      was_free = st.was_free;
      still_free = st.still_free;
      outside = st.outside;
      is_item = st.is_item;
      used = st.used;
    },
  )

  abbrev then_raise : Allocated → M (SkipMap A T) F E (ℕ × ℕ × Deallocator)
  then_raise n = do modify (λ s'. record s' { meta = raise_height h s'.meta }); pure (n.0, h, n.1)

  -- The key is copied into the arena.
  pub new_node-occupied :
      Ends
        (IsMade free s h new_item)
        (IsUntouched free s)
        (new_node ar probabilities rnd (Key.occupied key) trailer (length value) f s)
  unfolding new_node
  new_node-occupied =
      let small : length key % 2 ^ 32 ≡ length key = omega arith in
      rw small (
        Ends-and_then NodeStored (IsUntouched free s) (IsMade free s h new_item)
          (allocate_entry_node ar h trailer (length key) (copy_key key) (length value) f s)
          then_raise
          (allocate_entry_node-Ends free ar laws single s h tall_bounds.0 tall_bounds.1
            (omega (arith, tall_bounds)) trailer key value key_lt value_lt f fills (copy_key key)
            (copy_key-Fills key))
          made)

  -- The key is shared with an entry that the map uses.
  pub new_node-pointer :
      (key_at : ℕ)
      → Occupied (free s.arena) key_at (length key)
      → get_bytes s.mem key_at (length key) ≡ key
      → Ends (IsMade free s h new_item) (IsUntouched free s) (
          new_node ar probabilities rnd
            (Key.pointer key_at (length key))
            trailer
            (length value)
            f
            s)
  unfolding new_node
  new_node-pointer key_at key_used is_key =
      Ends-and_then NodeStored (IsUntouched free s) (IsMade free s h new_item)
        (allocate_value_node ar h trailer (length key) key_at (length value) f s) then_raise
        (allocate_value_node-Ends free ar laws single s h tall_bounds.0 tall_bounds.1
          (omega (arith, tall_bounds)) trailer key value key_lt value_lt f fills key_at key_used
          is_key)
        made
