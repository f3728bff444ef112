-- ===== src/Tests/Map/Allocation.antt =====
-- An arena that hands its memory out from the front, and an insertion into the map of two versions.
use mathlib.Core.Option
use Prim.Native.Nat.{max, min}
use skl.Prelude.{
  ℕ, ◌+◌, ◌-◌, ◌%◌, ◌^◌, ◌≡◌, ◌≢◌, inr, refl, Bool, false, ◌&&◌, ◌==◌, leb, if◌then◌else◌, none,
  some, [], ◌∷◌, eq, arith, List,
}
use skl.Compare.{u64_trailer, ascend, cmp_bytes}
use skl.Compare.Laws.{cmp_bytes-eq, entry_order}
use skl.Encoding.{
  encode_value_pointer, encode_key_size_and_height, decode_value_pointer,
  decode_key_size_and_height,
}
use skl.Node.{
  align_up, next_offset, prev_offset, tower, get_value_and_trailer, get_key, key_size, version,
  get_bytes, read, get_trailer, get_trailer_by_offset,
}
use skl.Arena.{Arena, Alloc}
use skl.Arena.Laws.{IsArena}
use skl.Alloc.Kept.{IsUsed}
use skl.SkipMap.{SkipMap, order, entry, get_next}
use skl.SkipMap.Shape.{All}
use skl.Update.Layout.{IsLayout, IsSound-for}
use skl.Run.{ok}
use skl.Run.Ends.{Ends}
use skl.Spec.{lookup}
use skl.SkipMap.Get.{get}
use skl.SkipMap.Contents.{contents, value_of}
use skl.SkipMap.Invariant.{IsSkipList}
use skl.Update.Layout.{WithNode, raised}
use skl.Update.Sorted.{with_node}
use skl.Update.New.{tall}
use skl.Api.{insert, copy, expect_left}
use skl.Options
use skl.Entry.{from_node, to_owned, borrow}
use skl.Types
use skl.Meta.{raise_height, update_min_version, update_max_version, increase_len}
use skl.Height.{random_height}
use skl.Types.{as_ref}
use skl.SkipMap.Find.{find_near}
use skl.SkipMap.Get.{get_found, present}
use skl.Splice.{find_splice, inserter, splice_levels, find_splice_for_level, set_splice, shared_key}
use skl.Store.{
  set_trailer, set_node, set_bytes, write_bytes, write_tower, cas_next_offset, cas_prev_offset,
  set_link,
}
use skl.Alloc.{
  allocate_entry_node, check_node_size, allocate, fill_vacant_key, fill_vacant_value, fill_vacant,
}
use skl.Update.{
  update, insert_new, new_node, stored_key, copy_key, link_levels, link_level, help, keep_splices,
}
use skl.Api.Insertion.{insert-lookup, insert-IsSkipList}
use skl.Api.Counters.{insert-counters}
use skl.Alloc.Filling.{copy-Fills}
use skl.Upsert.{set_value}
use skl.Upsert.Owned.{set_value-borrow}
use skl.Tests.Map.{two_versions_in, two_versions_in-IsSkipList, lists, node_at}
use skl.Tests.Map.Insertion.{heights, Known, nodes, sound}

-- its state is the first free offset
abbrev pub bump : Arena ℕ (Unit {0})
bump = record {
  read_only = λ _. false;
  read_only_error = tt;
  alloc_bytes = λ n a.
      if leb (a + n) 4096
      then Alloc.allocated (record { offset = a; capacity = n }) (a + n)
      else Alloc.refused tt a;
  alloc_aligned_bytes = λ size align extra a.
      let o = align_up align a in
      if leb a o && (align_up align o == o) && leb (o + (size + extra)) 4096
      then Alloc.allocated (record { offset = o; capacity = size + extra }) (o + (size + extra))
      else Alloc.refused tt a;
  alloc = λ size align a.
      let o = align_up align a in
      if leb a o && leb (o + size) 4096
      then Alloc.allocated (record { offset = o; capacity = size }) (o + size)
      else Alloc.refused tt a;
  dealloc = λ _ _ a. (false, a);
  release = λ _ a. a;
  increase_discarded = λ _ a. a;
  data_offset = λ _. 0;
  capacity = λ _. 4096;
  allocated = λ a. a;
  clear = λ a. (none, a);
  magic_version = λ _. 0;
  remaining = λ a. 4096 - a;
  refs = λ _. 1;
  discarded = λ _. 0;
}

abbrev pub unused : ℕ → ℕ → Bool
unused a x = leb a x

pub bump-IsArena : IsArena unused bump
bump-IsArena = record {
  bytes = λ n a r a' h. (
    record {
      was_free = λ x lo hi. ground (arith, h);
      still_free = λ x f. ground (arith, h, f);
      not_twice = λ x f. ground (arith, h, f);
      offset_lt = ground (arith, h);
    },
    ground (arith, h),
  );
  aligned = λ size align extra a r a' h. (
    record {
      was_free = λ x lo hi. ground (arith, h);
      still_free = λ x f. ground (arith, h, f);
      not_twice = λ x f. ground (arith, h, f);
      offset_lt = ground (arith, h);
    },
    ground (arith, h),
  );
  value = λ size align a r a' h. record {
    was_free = λ x lo hi. ground (arith, h);
    still_free = λ x f. ground (arith, h, f);
    not_twice = λ x f. ground (arith, h, f);
    offset_lt = ground (arith, h);
  };
  bytes_refused = λ n a e a' h x f. ground (arith, h, f);
  aligned_refused = λ size align extra a e a' h x f. ground (arith, h, f);
  bytes_released = λ n a r a' a'' h still x f. ground (arith, h, f, still x f);
  aligned_released = λ size align extra a r a' a'' h still x f. ground (arith, h, f, still x f);
}

abbrev start : SkipMap ℕ ℕ
start = two_versions_in 512

used : All (IsUsed ⦃t = u64_trailer⦄ (unused 512) start.mem) (lists 0)
unfolding align_up key_size decode_value_pointer decode_key_size_and_height two_versions_in node_at
used = (
  record {
    node_used = refl;
    trailer_used = inr refl;
    key_used = λ x lo hi. ground arith;
    value_used = λ ne x lo hi. ground arith;
  },
  (
    record {
      node_used = refl;
      trailer_used = inr refl;
      key_used = λ x lo hi. ground arith;
      value_used = λ ne x lo hi. ground arith;
    },
    tt,
  ),
)

layout : IsLayout ⦃t = u64_trailer⦄ (unused start.arena) heights Known start lists
unfolding two_versions_in
layout = record {
  nodes = nodes;
  held = λ p n x lo hi. grind (arith, n, lo, hi);
  null_held = refl;
  sound = λ k l. IsSound-for 128 0 (sound k l);
  used = used;
}

-- the key [98], which the map does not hold
not_there : All (λ q. order ⦃t = u64_trailer⦄ start 5 (98 ∷ []) q ≢ eq) (lists 0)
unfolding order entry entry_order ascend get_key version get_bytes read key_size get_trailer
    get_trailer_by_offset align_up cmp_bytes decode_value_pointer decode_key_size_and_height
    two_versions_in node_at
not_there = (λ e. cc, (λ e. cc, tt))

exact : (a b : List ℕ) → start.cmp.cmp a b ≡ eq → a ≡ b
unfolding two_versions_in ascend
exact a b e = cmp_bytes-eq a b e

insert-lookup_example :
    Ends
      (λ r s'.
        (r ≡ none)
        × (Option.map
              (value_of ⦃t = u64_trailer⦄ start 6 (98 ∷ []))
              (get ⦃t = u64_trailer⦄ s' 5 6 (98 ∷ []))
            ≡ some (
                lookup start.cmp 6 (98 ∷ []) (
                  record { key = 98 ∷ []; version = 5; value = some (1 ∷ 2 ∷ []) }
                  ∷ contents ⦃t = u64_trailer⦄ start (lists 0)))))
      (λ e s'.
        Option.map
          (value_of ⦃t = u64_trailer⦄ start 6 (98 ∷ []))
          (get ⦃t = u64_trailer⦄ s' 5 6 (98 ∷ []))
        ≡ some (lookup start.cmp 6 (98 ∷ []) (contents ⦃t = u64_trailer⦄ start (lists 0))))
      (insert {F = Unit {0}} ⦃t = u64_trailer⦄ bump 3 none
        (λ _. 0)
        1
        5
        (98 ∷ [])
        (1 ∷ 2 ∷ [])
        start)
unfolding two_versions_in
insert-lookup_example =
    insert-lookup (Unit {0}) ⦃t = u64_trailer⦄ unused bump bump-IsArena (λ z. absurd (omega arith))
      2 none (λ _. 0) 1 5 (98 ∷ []) (1 ∷ 2 ∷ []) (omega arith) (omega arith) start exact heights
      Known lists (two_versions_in-IsSkipList 512) layout not_there (omega arith) 6 (98 ∷ []) 5
      (omega arith)

insert-IsSkipList_example :
    Ends
      (λ r s'.
        (nd : ℕ) × IsSkipList ⦃t = u64_trailer⦄ s'
          (with_node (order ⦃t = u64_trailer⦄ start 5 (98 ∷ [])) nd (tall (λ _. 0) 1 start) lists)
        × IsLayout ⦃t = u64_trailer⦄
            (unused s'.arena)
            (raised nd (tall (λ _. 0) 1 start) heights)
            (WithNode nd Known)
            s'
            (with_node
              (order ⦃t = u64_trailer⦄ start 5 (98 ∷ []))
              nd
              (tall (λ _. 0) 1 start)
              lists))
      (λ e s'.
        IsSkipList ⦃t = u64_trailer⦄ s' lists
        × IsLayout ⦃t = u64_trailer⦄ (unused s'.arena) heights Known s' lists)
      (insert {F = Unit {0}} ⦃t = u64_trailer⦄ bump 3 none
        (λ _. 0)
        1
        5
        (98 ∷ [])
        (1 ∷ 2 ∷ [])
        start)
unfolding two_versions_in
insert-IsSkipList_example =
    insert-IsSkipList (Unit {0}) ⦃t = u64_trailer⦄ unused bump bump-IsArena
      (λ z. absurd (omega arith)) 2 none (λ _. 0) 1 5 (98 ∷ []) (1 ∷ 2 ∷ []) (omega arith)
      (omega arith) start exact heights Known lists (two_versions_in-IsSkipList 512) layout
      not_there (omega arith)

-- The insertion succeeds.
insert_at_five :
    elim (insert {F = Unit {0}} ⦃t = u64_trailer⦄ bump 3 none
      (λ _. 0)
      1
      5
      (98 ∷ [])
      (1 ∷ 2 ∷ [])
      start) [ ok r s ↦ get ⦃t = u64_trailer⦄ s 5 6 (98 ∷ []) | _ ↦ none ]
    ≡ some (some (record { key = 98 ∷ []; trailer = 5; value = some (1 ∷ 2 ∷ []); ptr = 512 }))
unfolding insert update find_splice inserter splice_levels find_splice_for_level set_splice
    shared_key get_next order entry entry_order ascend cmp_bytes as_ref node_at insert_new new_node
    stored_key allocate_entry_node check_node_size allocate set_trailer set_node set_bytes
    write_bytes fill_vacant_key fill_vacant_value fill_vacant random_height copy_key copy
    link_levels link_level help write_tower cas_next_offset cas_prev_offset next_offset prev_offset
    tower set_link read get_key key_size version get_bytes get_trailer get_trailer_by_offset
    align_up decode_value_pointer decode_key_size_and_height encode_value_pointer
    encode_key_size_and_height raise_height expect_left keep_splices get get_found present find_near
    from_node get_value_and_trailer two_versions_in Options.new Types.new update_min_version
    update_max_version increase_len
insert_at_five = refl

insert-counters_example :
    Ends
      (λ r s'.
        (s'.meta.len ≡ (start.meta.len + 1) % 2 ^ 32)
        × (s'.meta.max_version ≡ max start.meta.max_version 5)
        × (s'.meta.min_version ≡ min start.meta.min_version 5)
        × (s'.meta.height ≡ max start.meta.height (tall (λ _. 0) 1 start)))
      (λ e s'. s'.meta ≡ start.meta)
      (insert {F = Unit {0}} ⦃t = u64_trailer⦄ bump 3 none
        (λ _. 0)
        1
        5
        (98 ∷ [])
        (1 ∷ 2 ∷ [])
        start)
unfolding two_versions_in
insert-counters_example =
    insert-counters (Unit {0}) ⦃t = u64_trailer⦄ unused bump bump-IsArena
      (λ z. absurd (omega arith)) 2 none (λ _. 0) 1 5 (98 ∷ []) (1 ∷ 2 ∷ []) (omega arith)
      (omega arith) start exact heights Known lists (two_versions_in-IsSkipList 512) layout
      not_there (omega arith)

set_value-borrow_example :
    Ends
      (λ _ s'.
        (get_trailer ⦃t = u64_trailer⦄ s'.mem 72 ≡ 9)
        × (borrow ⦃t = u64_trailer⦄ s'.mem (to_owned (from_node ⦃t = u64_trailer⦄ start.mem 72))
            ≡ record (from_node ⦃t = u64_trailer⦄ start.mem 72) { value = some (1 ∷ 2 ∷ []) }))
      (λ e s'. s'.mem ≡ start.mem)
      (set_value {F = Unit {0}} ⦃t = u64_trailer⦄ bump 72 9 2 (copy (1 ∷ 2 ∷ [])) start)
unfolding two_versions_in
set_value-borrow_example =
    set_value-borrow (Unit {0}) ⦃t = u64_trailer⦄ unused bump bump-IsArena 3 29 refl refl 72 9
      (1 ∷ 2 ∷ []) (copy (1 ∷ 2 ∷ [])) start (omega arith) (copy-Fills (1 ∷ 2 ∷ []))
      used.1.0.key_used
