-- ===== src/Iter/Present.antt =====
-- `Iter` of src/map/iterator/iter.rs: an `AllVersionsIter` that was made with `all_versions` off, its
-- entries handed out as present ones, whether or not they have a value.
use mathlib.Core.Option
use skl.Prelude.{ℕ, false, Option, none, some}
use skl.Compare.{Trailer, Bound, unbounded, Range}
use skl.Entry.{VersionedEntryRef}
use skl.Entry.Owned.{EntryRef}
use skl.SkipMap.{SkipMap}
use skl.Iter.{AllVersionsIter, Step, over, next_in, prev, seek_upper_bound, seek_lower_bound}

-- `struct Iter`
pub record Iter (A T : Type 0) : Type 0 where
  pub inner : AllVersionsIter A T

abbrev pub entry_ref : {T : Type 0} → VersionedEntryRef T → EntryRef T
entry_ref e = record { inner = e }

module _ {A T : Type 0} where
  -- `.map(EntryRef)` on the answer of an operation of the inner iterator
  abbrev pub handed : Step A T (VersionedEntryRef T) → Option (Option (EntryRef T) × Iter A T)
  handed none = none
  handed (some (e, it)) = some (Option.map entry_ref e, record { inner = it })

  unfoldable pub entry : Iter A T → Option (EntryRef T)
  entry it = Option.map entry_ref it.inner.last

  unfoldable pub bounds : Iter A T → Range
  bounds it = it.inner.range

module _ {A T : Type 0} ⦃t : Trailer T⦄ where
  unfoldable pub range : ℕ → SkipMap A T → Range → Iter A T
  unfolding over
  range v s r = record { inner = over v s r false }

  unfoldable pub new : ℕ → SkipMap A T → Iter A T
  unfolding over
  new v s = record {
    inner = over v s (record { start_bound = unbounded; end_bound = unbounded }) false;
  }

  module _ (fuel : ℕ) where
    unfoldable pub iter_seek_upper_bound :
        Bound → Iter A T → Option (Option (EntryRef T) × Iter A T)
    unfolding seek_upper_bound
    iter_seek_upper_bound b it = handed (seek_upper_bound fuel b it.inner)

    unfoldable pub iter_seek_lower_bound :
        Bound → Iter A T → Option (Option (EntryRef T) × Iter A T)
    unfolding seek_lower_bound
    iter_seek_lower_bound b it = handed (seek_lower_bound fuel b it.inner)

    unfoldable pub next : Iter A T → Option (Option (EntryRef T) × Iter A T)
    unfolding next_in
    next it = handed (next_in fuel it.inner)

    unfoldable pub next_back : Iter A T → Option (Option (EntryRef T) × Iter A T)
    unfolding prev
    next_back it = handed (prev fuel it.inner)

    -- `Iterator::last`, which asks the inner one for its upper bound
    unfoldable pub iter_last : Iter A T → Option (Option (EntryRef T) × Iter A T)
    unfolding seek_upper_bound
    iter_last it = handed (seek_upper_bound fuel unbounded it.inner)
