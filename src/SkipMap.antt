-- ===== src/SkipMap.antt =====
-- `struct SkipMap` of src/map.rs, and its steps along a level. The arena's own state is the
-- allocator's, a type that the map does not look into; what the arena's bytes hold is `mem`. A map
-- that two handles share is one value here, since they share the arena and the counters.
pub mod Shape
pub mod Invariant
pub mod Find
pub mod Seek
pub mod Get
pub mod Contents
use skl.Prelude.{ℕ, ◌==◌, ◌||◌, Bool, Ordering, if◌then◌else◌}
use skl.Compare.{Comparator, Bytes, Trailer}
use skl.Compare.Laws.{entry_order}
use skl.Node.{Memory, null, is_null, next_offset, prev_offset, get_key, version}
use skl.Meta.{Meta}
use skl.Options.{Options}

pub record SkipMap (A T : Type 0) : Type 0 where
  pub arena : A
  pub mem : Memory T
  pub meta : Meta
  pub head : ℕ
  pub tail : ℕ
  pub data_offset : ℕ
  pub opts : Options
  pub cmp : Comparator

module _ {A T : Type 0} (s : SkipMap A T) where
  unfoldable pub get_next : ℕ → ℕ → ℕ
  unfolding next_offset
  get_next nd height = if is_null nd then null else next_offset s.mem nd height

  unfoldable pub get_prev : ℕ → ℕ → ℕ
  unfolding prev_offset
  get_prev nd height = if is_null nd then null else prev_offset s.mem nd height

  -- `nd.is_null() || nd.ptr == self.tail.ptr`, and the same for the head
  abbrev pub at_tail : ℕ → Bool
  at_tail nd = is_null nd || (nd == s.tail)

  abbrev pub at_head : ℕ → Bool
  at_head nd = is_null nd || (nd == s.head)

module _ {A T : Type 0} ⦃t : Trailer T⦄ (s : SkipMap A T) where
  -- the key and the version of a node
  unfoldable pub entry : ℕ → Bytes × ℕ
  unfolding get_key version
  entry nd = (get_key s.mem nd, version s.mem nd)

  -- `compare(key, next_key).then_with(|| next_version.cmp(&version))`
  unfoldable pub order : ℕ → Bytes → ℕ → Ordering
  unfolding entry_order entry
  order v key nd = entry_order s.cmp (key, v) (entry nd)
