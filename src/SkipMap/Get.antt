-- ===== src/SkipMap/Get.antt =====
-- `get` and `contains_key` of src/map/api.rs.
pub mod Newest
use skl.Prelude.{ℕ, ltb, Bool, true, false, Option, none, some, if◌then◌else◌, eq, lt, gt}
use mathlib.Core.Option
use skl.Compare.{Bytes, Trailer}
use skl.Node.{get_key, get_value_and_trailer}
use skl.Entry.{VersionedEntryRef}
use skl.SkipMap.{SkipMap}
use skl.SkipMap.Find.{find_near}

module _ {A T : Type 0} ⦃t : Trailer T⦄ (s : SkipMap A T) where
  -- `EntryRef` of a node whose value is there
  unfoldable pub present : ℕ → Option (VersionedEntryRef T)
  unfolding get_key get_value_and_trailer
  present n =
      Option.map
        (λ val. record {
          key = get_key s.mem n;
          trailer = (get_value_and_trailer s.mem n).0;
          value = some val;
          ptr = n;
        })
        (get_value_and_trailer s.mem n).1

module _ {A T : Type 0} ⦃t : Trailer T⦄ (s : SkipMap A T) (v : ℕ) (key : Bytes) where
  unfoldable pub get_found : Option ℕ × Bool → Option (VersionedEntryRef T)
  get_found (none, found) = none
  get_found (some n, found) =
      if found then present s n else elim (s.cmp.cmp key (get_key s.mem n)) [
        | eq ↦ if ltb v (t.version (get_value_and_trailer s.mem n).0) then none else present s n
        | lt ↦ none
        | gt ↦ none
      ]

module _ {A T : Type 0} ⦃t : Trailer T⦄ (s : SkipMap A T) (fuel v : ℕ) (key : Bytes) where
  unfoldable pub get : Option (Option (VersionedEntryRef T))
  get = Option.map (get_found s v key) (find_near s v key false true fuel)

  unfoldable pub contains_key : Option Bool
  contains_key = Option.map (λ e. elim e [ none ↦ false | some _ ↦ true ]) get
