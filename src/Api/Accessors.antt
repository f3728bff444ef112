-- ===== src/Api/Accessors.antt =====
-- The accessors of src/map/api.rs that pass on a field of the map, its counters or its arena.
use skl.Prelude.{ℕ}
use skl.Compare.{Comparator}
use skl.Arena.{Arena}
use skl.SkipMap.{SkipMap}

module _ {A T : Type 0} (s : SkipMap A T) where
  unfoldable pub allocator : A
  allocator = s.arena

  unfoldable pub data_offset : ℕ
  data_offset = s.data_offset

  unfoldable pub magic_version : ℕ
  magic_version = s.meta.magic_version

  unfoldable pub height : ℕ
  height = s.meta.height

  unfoldable pub max_version : ℕ
  max_version = s.meta.max_version

  unfoldable pub min_version : ℕ
  min_version = s.meta.min_version

  unfoldable pub comparator : Comparator
  comparator = s.cmp

module _ {A T E : Type 0} (ar : Arena A E) (s : SkipMap A T) where
  unfoldable pub version : ℕ
  version = ar.magic_version s.arena

  unfoldable pub remaining : ℕ
  remaining = ar.remaining s.arena

  unfoldable pub allocated : ℕ
  allocated = ar.allocated s.arena

  unfoldable pub capacity : ℕ
  capacity = ar.capacity s.arena

  unfoldable pub refs : ℕ
  refs = ar.refs s.arena

  unfoldable pub discarded : ℕ
  discarded = ar.discarded s.arena
