-- ===== src/Api.antt =====
-- The operations of src/map/api.rs that change a map, its counters, and its bounds. `F` is the error
-- type of the caller's closures; `f` stands for the closure with which a value is written.
pub mod Accessors
pub mod Insertion
pub mod Counters
pub mod Series
pub mod Calls
pub mod Fresh
use skl.Prelude.{ℕ, ◌%◌, ◌^◌, ◌==◌, Bool, true, false, Option, none, some, length, if◌then◌else◌}
use mathlib.Core.Option
use skl.Compare.{Bytes, Trailer, Bound, unbounded, Range}
use skl.Node.{get_bytes}
use skl.Types
use skl.Types.{VacantBuffer, Key}
use skl.Entry.{VersionedEntryRef, is_removed}
use skl.Run.{arena, left, right, ok, err, panicked, M, pure, ◌>>=◌}
use skl.Arena.{Arena}
use skl.Splice.{inserter}
use skl.SkipMap.{SkipMap}
use skl.Store.{set_bytes}
use skl.Alloc.{Filled, filled, refused, aborted, dealloc, allocate}
use skl.Upsert.{UpdateOk, old, exchanged, current}
use skl.Update.{update}
use skl.Iter.{AllVersionsIter, over, seek_upper_bound, seek_lower_bound}

-- `buf.write(value)`, whose error the closures of `insert` and `get_or_insert` drop
unfoldable pub copy : {F : Type 0} → Bytes → VacantBuffer → Filled F
unfolding Types.write
copy value b = filled (Types.write value b).1

-- `noop`
unfoldable pub noop : {F : Type 0} → VacantBuffer → Filled F
noop b = filled b

module _ {T : Type 0} where
  abbrev pub unless_gone : VersionedEntryRef T → Option (VersionedEntryRef T)
  unless_gone e = if is_removed e then none else some e

  -- what `compare_remove` makes of an update's answer
  unfoldable pub removed : UpdateOk T → Option (VersionedEntryRef T)
  unfolding is_removed
  removed (old e) = none
  removed (exchanged e) = unless_gone e
  removed (current e) = unless_gone e

module _ {A T E F : Type 0} where
  -- `expect_left`, and `unreachable!` on the other side
  unfoldable pub expect_left : UpdateOk T → M (SkipMap A T) F E (Option (VersionedEntryRef T))
  unfolding is_removed
  expect_left (old none) = pure none
  expect_left (old (some e)) = pure (unless_gone e)
  expect_left (exchanged e) = λ _. panicked
  expect_left (current e) = λ _. panicked

module _ {A T E F : Type 0} (ar : Arena A E) where
  unfoldable pub guarded : {B : Type 0} → M (SkipMap A T) F E B → M (SkipMap A T) F E B
  guarded m s = if ar.read_only s.arena then err (right (arena ar.read_only_error)) s else m s

  unfoldable pub fetch_vacant_key :
      (key_size : ℕ) → (VacantBuffer → Filled F) → M (SkipMap A T) F E VacantBuffer
  unfolding allocate dealloc set_bytes get_bytes
  fetch_vacant_key key_size key = do
    r ← allocate (ar.alloc_bytes key_size)
    λ s.
        elim (key
          (Types.new r.capacity (r.offset % 2 ^ 32) (get_bytes s.mem r.offset r.capacity))) [
            | aborted ↦ panicked
            | refused e b ↦
                err (left e)
                  (dealloc ar (r.offset % 2 ^ 32) (r.capacity % 2 ^ 32)
                    (set_bytes r.offset b.value s)).1
            | filled b ↦ ok b (set_bytes r.offset b.value s)
          ]

module _ {A T E F : Type 0} ⦃t : Trailer T⦄ (ar : Arena A E) (fuel : ℕ) (meanwhile : Option ℕ)
    (probabilities : ℕ → ℕ) (rnd : ℕ) where
  -- `update`, with a new inserter
  abbrev pub update_with :
      (trailer : T)
      → Key
      → (value_size : ℕ) → (VacantBuffer → Filled F)
      → Bool
      → M (SkipMap A T) F E (UpdateOk T)
  update_with trailer key value_size f upserts = do
    r ← update ar fuel meanwhile probabilities rnd trailer value_size f upserts key inserter
    pure r.0

  unfoldable pub insert :
      T → (key value : Bytes) → M (SkipMap A T) F E (Option (VersionedEntryRef T))
  unfolding guarded update copy expect_left
  insert trailer key value = guarded ar (do
    r ← update_with trailer (Key.occupied key) (length value % 2 ^ 32) (copy value) true
    expect_left r)

  unfoldable pub get_or_insert :
      T → (key value : Bytes) → M (SkipMap A T) F E (Option (VersionedEntryRef T))
  unfolding guarded update copy expect_left
  get_or_insert trailer key value = guarded ar (do
    r ← update_with trailer (Key.occupied key) (length value % 2 ^ 32) (copy value) false
    expect_left r)

  unfoldable pub insert_with_value :
      T
      → Bytes
      → (value_size : ℕ) → (VacantBuffer → Filled F)
      → M (SkipMap A T) F E (Option (VersionedEntryRef T))
  unfolding guarded update expect_left
  insert_with_value trailer key value_size f =
      guarded ar (do r ← update_with trailer (Key.occupied key) value_size f true; expect_left r)

  unfoldable pub get_or_insert_with_value :
      T
      → Bytes
      → (value_size : ℕ) → (VacantBuffer → Filled F)
      → M (SkipMap A T) F E (Option (VersionedEntryRef T))
  unfolding guarded update expect_left
  get_or_insert_with_value trailer key value_size f =
      guarded ar (do r ← update_with trailer (Key.occupied key) value_size f false; expect_left r)

  unfoldable pub insert_with :
      T
      → (key_size : ℕ) → (VacantBuffer → Filled F)
      → (val_size : ℕ) → (VacantBuffer → Filled F)
      → M (SkipMap A T) F E (Option (VersionedEntryRef T))
  unfolding fetch_vacant_key update expect_left
  insert_with trailer key_size key val_size val = do
    vk ← fetch_vacant_key ar key_size key
    r ← update_with trailer (Key.vacant vk) val_size val true
    expect_left r

  unfoldable pub get_or_insert_with :
      T
      → (key_size : ℕ) → (VacantBuffer → Filled F)
      → (val_size : ℕ) → (VacantBuffer → Filled F)
      → M (SkipMap A T) F E (Option (VersionedEntryRef T))
  unfolding fetch_vacant_key update expect_left
  get_or_insert_with trailer key_size key val_size val = do
    vk ← fetch_vacant_key ar key_size key
    r ← update_with trailer (Key.vacant vk) val_size val false
    expect_left r

  -- The method of the map, not the exchange on a node that it comes down to.
  unfoldable pub compare_remove_key : T → Bytes → M (SkipMap A T) F E (Option (VersionedEntryRef T))
  unfolding update noop removed
  compare_remove_key trailer key = do
    r ← update_with trailer (Key.remove key) 0 noop true
    pure (removed r)

  unfoldable pub get_or_remove : T → Bytes → M (SkipMap A T) F E (Option (VersionedEntryRef T))
  unfolding update noop expect_left
  get_or_remove trailer key = do
    r ← update_with trailer (Key.remove key) 0 noop false
    expect_left r

  unfoldable pub get_or_remove_with :
      T
      → (key_size : ℕ) → (VacantBuffer → Filled F)
      → M (SkipMap A T) F E (Option (VersionedEntryRef T))
  unfolding fetch_vacant_key update noop expect_left
  get_or_remove_with trailer key_size key = do
    vk ← fetch_vacant_key ar key_size key
    r ← update_with trailer (Key.remove_vacant vk) 0 noop false
    expect_left r

module _ {A T : Type 0} (s : SkipMap A T) where
  unfoldable pub len : ℕ
  len = s.meta.len

  unfoldable pub is_empty : Bool
  unfolding len
  is_empty = len == 0

  unfoldable pub full_range : Range
  full_range = record { start_bound = unbounded; end_bound = unbounded }

module _ {A T : Type 0} ⦃t : Trailer T⦄ (s : SkipMap A T) (fuel v : ℕ) where
  unfoldable pub iter : AllVersionsIter A T
  unfolding over full_range
  iter = over v s (full_range s) false

  unfoldable pub iter_all_versions : AllVersionsIter A T
  unfolding over full_range
  iter_all_versions = over v s (full_range s) true

  unfoldable pub range : Range → AllVersionsIter A T
  unfolding over
  range r = over v s r false

  unfoldable pub range_all_versions : Range → AllVersionsIter A T
  unfolding over
  range_all_versions r = over v s r true

  unfoldable pub upper_bound : Bound → Option (Option (VersionedEntryRef T))
  unfolding iter seek_upper_bound
  upper_bound b = Option.map (λ r. r.0) (seek_upper_bound fuel b iter)

  unfoldable pub lower_bound : Bound → Option (Option (VersionedEntryRef T))
  unfolding iter seek_lower_bound
  lower_bound b = Option.map (λ r. r.0) (seek_lower_bound fuel b iter)

  unfoldable pub first : Option (Option (VersionedEntryRef T))
  unfolding lower_bound
  first = lower_bound unbounded

  unfoldable pub last : Option (Option (VersionedEntryRef T))
  unfolding upper_bound
  last = upper_bound unbounded
