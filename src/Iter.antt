-- ===== src/Iter.antt =====
-- src/map/iterator: `AllVersionsIter`, and `Iter`, which is an `AllVersionsIter` that was made with
-- `all_versions` off. The outer option of a result is `none` when the fuel is used up, or when the
-- walk reads the node behind the null pointer, which the code does not guard against.
pub mod Listing
pub mod Present
use skl.Prelude.{
  ℕ, zero, suc, ltb, not, Bool, true, false, ◌&&◌, ◌||◌, Option, none, some, if◌then◌else◌, eq, lt,
  gt,
}
use skl.Compare.{
  Bytes, Trailer, Bound, included, excluded, unbounded, Range, cmp_bytes, is_lt, is_le,
}
use skl.Node.{is_null, get_key, get_value_and_trailer}
use skl.Entry.{VersionedEntryRef, from_node}
use skl.SkipMap.{SkipMap, get_next, get_prev, at_tail, at_head}
use skl.SkipMap.Seek.{above, below, at_or_above, at_or_below, first_in, last_in}

-- `struct AllVersionsIter`
pub record AllVersionsIter (A T : Type 0) : Type 0 where
  pub map : SkipMap A T
  pub nd : ℕ
  pub version : ℕ
  pub range : Range
  pub all_versions : Bool
  pub last : Option (VersionedEntryRef T)

-- An operation on an iterator, its answer beside the iterator it leaves.
abbrev pub Step : (A T B : Type 0) → Type 0
Step A T B = Option (Option B × AllVersionsIter A T)

-- the two tests on a range's ends with which the seeks stop
unfoldable pub beyond_end : Bound → Bytes → Bool
beyond_end (included b) k = is_lt (cmp_bytes b k)
beyond_end (excluded b) k = is_le (cmp_bytes b k)
beyond_end unbounded k = false

unfoldable pub before_start : Bound → Bytes → Bool
before_start (included b) k = is_lt (cmp_bytes k b)
before_start (excluded b) k = is_le (cmp_bytes k b)
before_start unbounded k = false

module _ {A T : Type 0} ⦃t : Trailer T⦄ where
  -- `AllVersionsIter::range`; `AllVersionsIter::new` is the one over the full range
  unfoldable pub over : ℕ → SkipMap A T → Range → Bool → AllVersionsIter A T
  over v s r all_versions = record {
    map = s;
    nd = s.head;
    version = v;
    range = r;
    all_versions = all_versions;
    last = none;
  }

  -- `trailer.version() > self.version`, or a removed entry where only present ones are listed
  unfoldable pub hidden : AllVersionsIter A T → Bool
  unfolding get_value_and_trailer
  hidden it =
      let (trailer, value) = get_value_and_trailer it.map.mem it.nd in
      ltb it.version (t.version trailer)
      || (not it.all_versions && elim value [ none ↦ true | some _ ↦ false ])

  -- The key is that of the entry listed last, where one entry is listed for each key.
  unfoldable pub repeated : AllVersionsIter A T → Bool
  unfolding get_key
  repeated it = not it.all_versions && elim it.last [
    | none ↦ false
    | some e ↦ elim (it.map.cmp.cmp e.key (get_key it.map.mem it.nd)) [
      | eq ↦ true
      | lt ↦ false
      | gt ↦ false
    ]
  ]

  unfoldable pub within : AllVersionsIter A T → Bool
  unfolding get_key
  within it = it.map.cmp.contains it.range (get_key it.map.mem it.nd)

  abbrev pub here : AllVersionsIter A T → VersionedEntryRef T
  here it = from_node it.map.mem it.nd

  -- an entry found, which becomes the last one
  abbrev pub yielded : VersionedEntryRef T → AllVersionsIter A T → Step A T (VersionedEntryRef T)
  yielded e it = some (some e, record it { last = some e })

  abbrev pub forth : AllVersionsIter A T → AllVersionsIter A T
  forth it = record it { nd = get_next it.map it.nd 0 }

  abbrev pub back : AllVersionsIter A T → AllVersionsIter A T
  back it = record it { nd = get_prev it.map it.nd 0 }

  unfoldable pub next_in : ℕ → AllVersionsIter A T → Step A T (VersionedEntryRef T)
  next_in zero it = none
  next_in (suc fuel) it =
      let moved = forth it in
      let again = next_in fuel moved in
      if at_tail it.map moved.nd
      then some (none, moved)
      else if hidden moved || repeated moved
      then again
      else if within moved
      then yielded (here moved) moved
      else again

  unfoldable pub prev : ℕ → AllVersionsIter A T → Step A T (VersionedEntryRef T)
  prev zero it = none
  prev (suc fuel) it =
      let moved = back it in
      let again = prev fuel moved in
      if at_head it.map moved.nd
      then some (none, moved)
      else if hidden moved || repeated moved
      then again
      else if within moved
      then yielded (here moved) moved
      else again

  -- the loop of `seek_ge` and `seek_gt`
  unfoldable pub seek_up : ℕ → AllVersionsIter A T → Step A T ℕ
  unfolding get_key
  seek_up zero it = none
  seek_up (suc fuel) it =
      let again = seek_up fuel (forth it) in
      if is_null it.nd
      then none
      else if within it
      then some (some it.nd, it)
      else if beyond_end it.range.end_bound (get_key it.map.mem it.nd)
      then some (none, it)
      else again

  -- the loop of `seek_le` and `seek_lt`
  unfoldable pub seek_down : ℕ → AllVersionsIter A T → Step A T ℕ
  unfolding get_key
  seek_down zero it = none
  seek_down (suc fuel) it =
      let again = seek_down fuel (back it) in
      if is_null it.nd
      then none
      else if within it
      then some (some it.nd, it)
      else if before_start it.range.start_bound (get_key it.map.mem it.nd)
      then some (none, it)
      else again

  -- what a seek does with the bound of the map; `?` leaves the iterator where it is
  unfoldable pub from_bound :
      (AllVersionsIter A T → Step A T ℕ) → Option (Option ℕ) → AllVersionsIter A T → Step A T ℕ
  from_bound seek none it = none
  from_bound seek (some none) it = some (none, it)
  from_bound seek (some (some nd)) it = seek (record it { nd = nd })

  abbrev pub unless_tail : (AllVersionsIter A T → Step A T ℕ) → AllVersionsIter A T → Step A T ℕ
  unless_tail seek it = if at_tail it.map it.nd then some (none, it) else seek it

  module _ (fuel : ℕ) (key : Bytes) (it : AllVersionsIter A T) where
    unfoldable pub seek_ge : Step A T ℕ
    seek_ge = from_bound (unless_tail (seek_up fuel)) (at_or_above it.map fuel it.version key) it

    unfoldable pub seek_gt : Step A T ℕ
    seek_gt = from_bound (unless_tail (seek_up fuel)) (above it.map fuel it.version key) it

    unfoldable pub seek_le : Step A T ℕ
    seek_le = from_bound (seek_down fuel) (at_or_below it.map fuel it.version key) it

    unfoldable pub seek_lt : Step A T ℕ
    seek_lt = from_bound (seek_down fuel) (below it.map fuel it.version key) it

  unfoldable pub first_loop : ℕ → AllVersionsIter A T → Step A T (VersionedEntryRef T)
  first_loop zero it = none
  first_loop (suc fuel) it =
      let again = first_loop fuel (forth it) in
      if at_tail it.map it.nd
      then some (none, it)
      else if hidden it
      then again
      else if within it
      then yielded (here it) it
      else again

  -- `last` does not record the entry that it returns.
  unfoldable pub last_loop : ℕ → AllVersionsIter A T → Step A T (VersionedEntryRef T)
  last_loop zero it = none
  last_loop (suc fuel) it =
      let again = last_loop fuel (back it) in
      if at_head it.map it.nd
      then some (none, it)
      else if hidden it
      then again
      else if within it
      then some (some (here it), it)
      else again

  abbrev start_at :
      (AllVersionsIter A T → Step A T (VersionedEntryRef T))
      → Option (Option ℕ)
      → AllVersionsIter A T
      → Step A T (VersionedEntryRef T)
  start_at loop none it = none
  start_at loop (some none) it = some (none, it)
  start_at loop (some (some nd)) it = loop (record it { nd = nd })

  unfoldable pub first : ℕ → AllVersionsIter A T → Step A T (VersionedEntryRef T)
  first fuel it = start_at (first_loop fuel) (first_in it.map fuel it.version) it

  unfoldable pub last : ℕ → AllVersionsIter A T → Step A T (VersionedEntryRef T)
  last fuel it = start_at (last_loop fuel) (last_in it.map fuel it.version) it

  abbrev found_entry : Step A T ℕ → Step A T (VersionedEntryRef T)
  found_entry none = none
  found_entry (some (none, it)) = some (none, it)
  found_entry (some (some n, it)) = yielded (from_node it.map.mem n) it

  module _ (fuel : ℕ) where
    unfoldable pub seek_upper_bound : Bound → AllVersionsIter A T → Step A T (VersionedEntryRef T)
    seek_upper_bound (included key) it = found_entry (seek_le fuel key it)
    seek_upper_bound (excluded key) it = found_entry (seek_lt fuel key it)
    seek_upper_bound unbounded it = last fuel it

    unfoldable pub seek_lower_bound : Bound → AllVersionsIter A T → Step A T (VersionedEntryRef T)
    seek_lower_bound (included key) it = found_entry (seek_ge fuel key it)
    seek_lower_bound (excluded key) it = found_entry (seek_gt fuel key it)
    seek_lower_bound unbounded it = first fuel it
