-- ===== src/Tests/Map/Insertion.antt =====
-- A node of one level at 128, with the empty key at version 0, linked into the map of two versions.
use skl.Prelude.{
  ℕ, zero, suc, ◌<◌, ◌≡◌, ◌≢◌, ◌⊎◌, ◌∷◌, inl, inr, refl, true, false, none, some, [], eq, arith,
  ◌==◌, if◌then◌else◌,
}
use skl.Encoding.{decode_value_pointer, decode_key_size_and_height}
use skl.Compare.{u64_trailer, ascend, cmp_bytes}
use skl.Compare.Laws.{entry_order}
use skl.Node.{
  get_key, key_size, version, get_bytes, read, get_trailer, get_trailer_by_offset, align_up,
  tower_offset, next_offset, prev_offset,
}
use skl.Types.{Key}
use skl.Run.{ok}
use skl.Arena.{Arena, Alloc}
use skl.Alloc.{filled}
use skl.Splice.{Splice}
use skl.Splice.Bracket.{bracket}
use skl.SkipMap.{order, entry}
use skl.SkipMap.Shape.{All}
use skl.SkipMap.Invariant.{IsSkipList}
use skl.Update.{Linking, linked, link_level, link_levels}
use skl.Update.Link.{Nodes, spliced, link_level-spliced}
use skl.Race.{ready, finished}
use skl.Race.Single.{solo, thread_at, link_level-solo}
use skl.Update.Levels.{IsSound, IsNew}
use skl.Update.Loop.{relinked, IsSplice}
use skl.Update.Sorted.{with_node}
use skl.SkipMap.Get.{get, present}
use skl.Update.Insertion.{link_levels-IsSkipList}
use skl.Update.Lookup.{link_levels-get}
use skl.Update.Contents.{link_levels-lookup}
use skl.Spec.{lookup}
use skl.SkipMap.Contents.{item, contents, value_of}
use mathlib.Core.Option
use skl.Tests.Map.{two_versions, lists, two_versions-IsSkipList, node_at}

abbrev pub no_arena : Arena (Unit {0}) (Unit {0})
no_arena = record {
  read_only = λ _. false;
  read_only_error = tt;
  alloc_bytes = λ _ a. Alloc.refused tt a;
  alloc_aligned_bytes = λ _ _ _ a. Alloc.refused tt a;
  alloc = λ _ _ a. Alloc.refused tt a;
  dealloc = λ _ _ a. (false, a);
  release = λ _ a. a;
  increase_discarded = λ _ a. a;
  data_offset = λ _. 0;
  capacity = λ _. 0;
  allocated = λ _. 0;
  clear = λ a. (none, a);
  magic_version = λ _. 0;
  remaining = λ _. 0;
  refs = λ _. 1;
  discarded = λ _. 0;
}

abbrev pub heights : ℕ → ℕ
heights p = if p == 128 then 1 else if p == 72 then 1 else 2

abbrev pub Known : ℕ → Type 0
Known p = (p ≡ 8) ⊎ (p ≡ 40) ⊎ (p ≡ 72) ⊎ (p ≡ 96) ⊎ (p ≡ 128)

pub nodes : Nodes heights Known
nodes = record { apart = λ p q m n e. grind (arith, m, n, e) }

pub sound : (k : ℕ) → k < 2 → IsSound heights Known 128 8 96 k (lists k)
sound zero h = record {
  nodes_known = (inl refl, (inr (inl refl), (inr (inr (inl refl)), tt)));
  tall = (omega arith, (omega arith, (omega arith, tt)));
  ne_null = (omega arith, (omega arith, (omega arith, tt)));
  tail_known = inr (inr (inr (inl refl)));
  tail_ne_null = omega arith;
  tail_tall = omega arith;
  distinct = ((omega arith, (omega arith, tt)), ((omega arith, tt), (tt, tt)));
  before_tail = (omega arith, (omega arith, (omega arith, tt)));
}
sound (suc zero) h = record {
  nodes_known = (inl refl, (inr (inl refl), tt));
  tall = (omega arith, (omega arith, tt));
  ne_null = (omega arith, (omega arith, tt));
  tail_known = inr (inr (inr (inl refl)));
  tail_ne_null = omega arith;
  tail_tall = omega arith;
  distinct = ((omega arith, tt), (tt, tt));
  before_tail = (omega arith, (omega arith, tt));
}
sound (suc (suc k)) h = absurd (omega arith)

new : (k : ℕ) → k < 1 → IsNew heights Known 128 8 96 k (lists k)
new zero h = record {
  known = inr (inr (inr (inr refl)));
  tall = omega arith;
  ne_null = omega arith;
  ne_tail = omega arith;
  absent = (omega arith, (omega arith, (omega arith, tt)));
}
new (suc k) h = absurd (omega arith)

abbrev linking : Linking
linking = record {
  k = Key.occupied [];
  deallocator = record { node = none; key = none; value = none };
  invalid_data_splice = false;
}

abbrev neighbours : ℕ → Splice
neighbours _ = record { prev = 8; next = 40 }

entry_of_node : entry ⦃t = u64_trailer⦄ two_versions 128 ≡ ([], 0)
unfolding entry get_key version get_bytes read key_size get_trailer get_trailer_by_offset align_up
    decode_value_pointer decode_key_size_and_height two_versions node_at
entry_of_node = refl

absent : All (λ q. order ⦃t = u64_trailer⦄ two_versions 0 [] q ≢ eq) (lists 0)
unfolding order entry entry_order ascend get_key version get_bytes read key_size get_trailer
    get_trailer_by_offset align_up cmp_bytes decode_value_pointer decode_key_size_and_height
    two_versions node_at
absent = (λ e. cc, (λ e. cc, tt))

splices :
    (k : ℕ)
    → k < 1
    → IsSplice (order ⦃t = u64_trailer⦄ two_versions 0 []) 8 96 (lists k) (neighbours k)
unfolding bracket order entry entry_order ascend get_key version get_bytes read key_size get_trailer
    get_trailer_by_offset align_up cmp_bytes decode_value_pointer decode_key_size_and_height
    two_versions node_at
splices zero h = inl (refl, refl)
splices (suc k) h = absurd (omega arith)

link_levels-IsSkipList_example :
    (link_levels {F = Unit {0}} ⦃t = u64_trailer⦄ no_arena 1 none 0 0 filled true 128 neighbours 1 0
        linking two_versions
      ≡ ok
          (linked linking)
          (relinked (order ⦃t = u64_trailer⦄ two_versions 0 []) 128 lists 1 0 two_versions))
    × IsSkipList ⦃t = u64_trailer⦄
        (relinked (order ⦃t = u64_trailer⦄ two_versions 0 []) 128 lists 1 0 two_versions)
        (with_node (order ⦃t = u64_trailer⦄ two_versions 0 []) 128 1 lists)
unfolding two_versions
link_levels-IsSkipList_example =
    link_levels-IsSkipList ⦃t = u64_trailer⦄ no_arena 0 none 0 0 filled true two_versions 0 []
      heights Known nodes 128 1 lists neighbours linking two_versions-IsSkipList (omega arith)
      (omega arith) entry_of_node absent sound new splices

link_levels-get_example :
    (link_levels {F = Unit {0}} ⦃t = u64_trailer⦄ no_arena 1 none 0 0 filled true 128 neighbours 1 0
        linking two_versions
      ≡ ok
          (linked linking)
          (relinked (order ⦃t = u64_trailer⦄ two_versions 0 []) 128 lists 1 0 two_versions))
    × (get ⦃t = u64_trailer⦄
          (relinked (order ⦃t = u64_trailer⦄ two_versions 0 []) 128 lists 1 0 two_versions)
          5
          0
          []
        ≡ some (
            present ⦃t = u64_trailer⦄
              (relinked (order ⦃t = u64_trailer⦄ two_versions 0 []) 128 lists 1 0 two_versions)
              128))
unfolding two_versions
link_levels-get_example =
    link_levels-get ⦃t = u64_trailer⦄ no_arena 0 none 0 0 filled true two_versions 0 [] heights
      Known nodes 128 1 lists neighbours linking 5 two_versions-IsSkipList (omega arith)
      (omega arith) entry_of_node absent sound new splices (omega arith)

-- a reader of another key, at version 1
link_levels-lookup_example :
    (link_levels {F = Unit {0}} ⦃t = u64_trailer⦄ no_arena 1 none 0 0 filled true 128 neighbours 1 0
        linking two_versions
      ≡ ok
          (linked linking)
          (relinked (order ⦃t = u64_trailer⦄ two_versions 0 []) 128 lists 1 0 two_versions))
    × (Option.map (value_of ⦃t = u64_trailer⦄ two_versions 1 (97 ∷ [])) (
          get ⦃t = u64_trailer⦄
            (relinked (order ⦃t = u64_trailer⦄ two_versions 0 []) 128 lists 1 0 two_versions)
            5
            1
            (97 ∷ []))
        ≡ some (
            lookup ascend 1 (97 ∷ []) (
              item ⦃t = u64_trailer⦄ two_versions 128
              ∷ contents ⦃t = u64_trailer⦄ two_versions (lists 0))))
unfolding two_versions
link_levels-lookup_example =
    link_levels-lookup ⦃t = u64_trailer⦄ no_arena 0 none 0 0 filled true two_versions 0 [] heights
      Known nodes 128 1 lists neighbours linking 1 (97 ∷ []) 5 two_versions-IsSkipList (omega arith)
      (omega arith) entry_of_node absent sound new splices (omega arith)

spliced_once :
    link_level {F = Unit {0}} ⦃t = u64_trailer⦄ no_arena 1 none 0 0 filled true 128 1 0 8 40 linking
      two_versions
    ≡ ok (linked linking) (spliced 128 0 8 40 two_versions)
unfolding two_versions tower_offset next_offset prev_offset
spliced_once =
    link_level-spliced {F = Unit {0}} ⦃t = u64_trailer⦄ no_arena 1 none 0 0 filled true 128 0 8 40
      linking two_versions 0 (omega arith) (omega arith) (omega arith) refl refl

link_level-solo_example :
    (k : ℕ) × (solo ⦃t = u64_trailer⦄ no_arena 0 k
        (thread_at ⦃t = u64_trailer⦄ 0 128 linking (ready 8 40), two_versions)
      ≡ (thread_at ⦃t = u64_trailer⦄ 0 128 linking finished, spliced 128 0 8 40 two_versions))
link_level-solo_example =
    link_level-solo {F = Unit {0}} ⦃t = u64_trailer⦄ no_arena 1 none 0 0 filled true 128 0 1 8 40
      linking linking two_versions (spliced 128 0 8 40 two_versions) spliced_once
