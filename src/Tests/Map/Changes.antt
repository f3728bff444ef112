-- ===== src/Tests/Map/Changes.antt =====
-- Removals, size checks and the construction on concrete maps.
use skl.Prelude.{ℕ, ◌<◌, ◌≤◌, ◌≡◌, ◌⊎◌, ◌^◌, refl, true, none, some, [], ◌∷◌, arith}
use skl.Compare.{u64_trailer, ascend}
use skl.Compare.Laws.{ascend-IsOrder}
use skl.Node.{get_value, get_trailer}
use skl.Run.{ok, err, right, key_too_large, value_too_large, entry_too_large}
use skl.Meta
use skl.SkipMap.{SkipMap}
use skl.SkipMap.Invariant.{IsSkipList}
use skl.Upsert.{compare_remove}
use skl.Upsert.Readers.{erased, compare_remove-lookup}
use skl.Spec.{lookup}
use skl.SkipMap.Get.{get}
use skl.SkipMap.Contents.{value_of}
use mathlib.Core.Option
use skl.Upsert.Remove.{compare_remove-removed}
use skl.Alloc.{check_node_size}
use skl.Alloc.Sizes.{stored_size, entry_size, check_node_size_lem}
use skl.Create.{link_ends}
use skl.Create.Empty.{link_ends-IsSkipList}
use skl.Tests.Map.{two_versions, two_versions-IsSkipList, lists, node_at}

compare_remove-removed_example :
    ((compare_remove none 40 two_versions).0 ≡ (true, (two_versions.mem.node 40).value))
    × (get_value ⦃t = u64_trailer⦄ (compare_remove none 40 two_versions).1.mem 40 ≡ none)
    × (get_trailer ⦃t = u64_trailer⦄ (compare_remove none 40 two_versions).1.mem 40
        ≡ get_trailer ⦃t = u64_trailer⦄ two_versions.mem 40)
    × ((compare_remove none 40 two_versions).1.mem.node 72 ≡ two_versions.mem.node 72)
unfolding two_versions node_at
compare_remove-removed_example =
    compare_remove-removed ⦃t = u64_trailer⦄ 40 200 1 two_versions refl (omega arith) (omega arith)
      72 (omega arith)

check_node_size_lem_example :
    ((check_node_size {E = Unit {0}} {F = Unit {0}} 2 9 5 two_versions ≡ ok tt two_versions)
      × (9 ≤ two_versions.opts.max_key_size)
      × (stored_size 5 ≤ two_versions.opts.max_value_size)
      × (entry_size 2 9 5 < 2 ^ 32))
    ⊎ ((check_node_size {E = Unit {0}} {F = Unit {0}} 2 9 5 two_versions
          ≡ err (right (key_too_large 9)) two_versions)
        × (two_versions.opts.max_key_size < 9))
    ⊎ ((check_node_size {E = Unit {0}} {F = Unit {0}} 2 9 5 two_versions
          ≡ err (right (value_too_large (stored_size 5))) two_versions)
        × (9 ≤ two_versions.opts.max_key_size)
        × (two_versions.opts.max_value_size < stored_size 5))
    ⊎ ((check_node_size {E = Unit {0}} {F = Unit {0}} 2 9 5 two_versions
          ≡ err (right (entry_too_large (entry_size 2 9 5))) two_versions)
        × (9 ≤ two_versions.opts.max_key_size)
        × (stored_size 5 ≤ two_versions.opts.max_value_size)
        × (2 ^ 32 ≤ entry_size 2 9 5))
unfolding two_versions
check_node_size_lem_example =
    check_node_size_lem {F = Unit {0}} {E = Unit {0}} 2 9 5 two_versions (omega arith) (omega arith)

abbrev fresh : SkipMap (Unit {0}) ℕ
unfolding two_versions Meta.new
fresh = record two_versions { meta = Meta.new 0 }

link_ends-IsSkipList_example :
    IsSkipList ⦃t = u64_trailer⦄
      (record (link_ends 2 0 8 96 fresh) { head = 8; tail = 96 })
      (λ _. [])
unfolding fresh two_versions Meta.new
link_ends-IsSkipList_example =
    link_ends-IsSkipList ⦃t = u64_trailer⦄ fresh 8 96 (omega arith) (omega arith) (omega arith)
      ascend-IsOrder refl (omega arith) (omega arith)

-- a reader at version 3, for whom the key is gone
compare_remove-lookup_example :
    ((compare_remove none 40 two_versions).0.0 ≡ true)
    × IsSkipList ⦃t = u64_trailer⦄ (compare_remove none 40 two_versions).1 lists
    × (Option.map
          (value_of ⦃t = u64_trailer⦄ two_versions 3 (97 ∷ []))
          (get ⦃t = u64_trailer⦄ (compare_remove none 40 two_versions).1 4 3 (97 ∷ []))
        ≡ some
            (lookup ascend 3 (97 ∷ []) (erased ⦃t = u64_trailer⦄ two_versions 40 (40 ∷ 72 ∷ []))))
unfolding two_versions node_at
compare_remove-lookup_example =
    compare_remove-lookup ⦃t = u64_trailer⦄ 40 200 1 two_versions refl (omega arith) (omega arith) 3
      (97 ∷ []) 4 two_versions-IsSkipList (omega arith)
