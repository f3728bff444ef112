-- ===== src/Tests/Map/Search.antt =====
-- The splice search and the iterator on the map of two versions.
use mathlib.Core.Option
use skl.Prelude.{
  ℕ, zero, suc, ◌<◌, ◌≡◌, ◌⊎◌, refl, true, false, none, some, [], ◌∷◌, eq, arith, length,
}
use skl.Compare.{Bytes, u64_trailer, unbounded, ascend, cmp_bytes, range_contains}
use skl.Node.{
  get_key, key_size, height, version, get_bytes, read, get_trailer, get_trailer_by_offset, align_up,
}
use skl.Encoding.{decode_value_pointer, decode_key_size_and_height}
use skl.Compare.Laws.{entry_order}
use skl.SkipMap.{get_next, order, entry}
use skl.SkipMap.Shape.{Chain}
use skl.Splice.{inserter, find_splice_for_level, find_splice, shared_key}
use skl.Splice.Bracket.{bracket}
use skl.Splice.Level.{hit, seen, find_splice_for_level-bracket, shared_key_lem}
use skl.Splice.Search.{around, find_splice-bracket, find_splice-above}
use skl.Iter.{AllVersionsIter}
use skl.Iter.Listing.{collect, shown, visible, collect-visible}
use skl.Tests.Map.{two_versions, lists, two_versions-IsSkipList, node_at}

abbrev later : Bytes
later = 98 ∷ []

linked_below : (k : ℕ) → k < 2 → Chain (λ p. get_next two_versions p k) 96 8 (lists k)
unfolding two_versions
linked_below k h = two_versions-IsSkipList.chain k h

find_splice_for_level-bracket_example :
    Option.map seen (find_splice_for_level ⦃t = u64_trailer⦄ two_versions 1 later 3 0 8)
    ≡ some (
      hit (order ⦃t = u64_trailer⦄ two_versions 1 later) (40 ∷ 72 ∷ []),
      bracket (order ⦃t = u64_trailer⦄ two_versions 1 later) 96 8 (40 ∷ 72 ∷ []),
    )
unfolding two_versions
find_splice_for_level-bracket_example =
    find_splice_for_level-bracket ⦃t = u64_trailer⦄ two_versions 1 later 3 0 8 (40 ∷ 72 ∷ [])
      (linked_below 0 (omega arith)) (omega arith)

shared_key_lem_example :
    ((cmp_bytes (97 ∷ []) (get_key two_versions.mem 40) ≡ eq)
      × (shared_key ⦃t = u64_trailer⦄ two_versions 3 (97 ∷ []) 40
          ≡ some (record {
            offset = (two_versions.mem.node 40).key_offset;
            size = key_size two_versions.mem 40;
            height = some (height two_versions.mem 40);
          })))
    ⊎ (shared_key ⦃t = u64_trailer⦄ two_versions 3 (97 ∷ []) 40 ≡ none)
unfolding two_versions
shared_key_lem_example = shared_key_lem ⦃t = u64_trailer⦄ two_versions 3 (97 ∷ []) 40 refl

missed : (k : ℕ) → k < 2 → hit (order ⦃t = u64_trailer⦄ two_versions 1 later) (lists k) ≡ false
unfolding hit order entry entry_order ascend get_key version get_bytes read key_size get_trailer
    get_trailer_by_offset align_up cmp_bytes decode_value_pointer decode_key_size_and_height
    two_versions node_at
missed zero h = refl
missed (suc k) h = refl

short : (k : ℕ) → k < 2 → length (lists k) < 3
short zero h = omega arith
short (suc k) h = omega arith

find_splice-bracket_example :
    Option.map
      (around ⦃t = u64_trailer⦄ two_versions 1 later 1)
      (find_splice ⦃t = u64_trailer⦄ two_versions 1 later 3 inserter true)
    ≡ some (false, bracket (order ⦃t = u64_trailer⦄ two_versions 1 later) 96 8 (40 ∷ []))
unfolding two_versions
find_splice-bracket_example =
    find_splice-bracket ⦃t = u64_trailer⦄ two_versions 1 later 3 1 lists (omega arith) (omega arith)
      linked_below missed short

find_splice-above_example :
    Option.map
      (around ⦃t = u64_trailer⦄ two_versions 1 later 5)
      (find_splice ⦃t = u64_trailer⦄ two_versions 1 later 3 inserter true)
    ≡ some (false, (0, 0))
unfolding two_versions
find_splice-above_example =
    find_splice-above ⦃t = u64_trailer⦄ two_versions 1 later 3 5 lists (omega arith) (omega arith)
      (omega arith) linked_below missed short

abbrev at_one : AllVersionsIter (Unit {0}) ℕ
at_one = record {
  map = two_versions;
  nd = 8;
  version = 1;
  range = record { start_bound = unbounded; end_bound = unbounded };
  all_versions = true;
  last = none;
}

-- A reader at version 1 is given the older entry only.
listed_at_one : visible ⦃t = u64_trailer⦄ two_versions 1 (at_one.range) (40 ∷ 72 ∷ []) ≡ 72 ∷ []
unfolding visible shown ascend range_contains get_key version get_bytes read key_size get_trailer
    get_trailer_by_offset align_up cmp_bytes decode_value_pointer decode_key_size_and_height
    two_versions node_at
listed_at_one = refl

collect-visible_example :
    collect ⦃t = u64_trailer⦄ 3 3 at_one
    ≡ some (visible ⦃t = u64_trailer⦄ two_versions 1 (at_one.range) (40 ∷ 72 ∷ []))
unfolding two_versions
collect-visible_example =
    collect-visible ⦃t = u64_trailer⦄ 3 3 at_one (40 ∷ 72 ∷ []) refl (linked_below 0 (omega arith))
      (omega arith) (omega arith)
