-- ===== src/Tests/Map.antt =====
-- A map of two levels: the head at 8, the versions 2 and 1 of the key [97] at 40 and 72, the tail at
-- 96. The newer entry has a tower of two levels.
mod Search
mod Changes
mod Seek
mod Insertion
mod Racing
mod Allocation
mod Fresh
use skl.Prelude.{
  ◌^◌, ◌≤◌, ◌+◌, ℕ, zero, suc, ◌<◌, ◌≡◌, refl, inl, true, false, some, [], ◌∷◌, List, arith, ◌==◌,
  if◌then◌else◌,
}
use skl.Encoding.{
  encode_value_pointer, encode_key_size_and_height, decode_value_pointer,
  decode_key_size_and_height,
}
use skl.Compare.{u64_trailer, ascend, cmp_bytes}
use skl.Compare.Laws.{ascend-IsOrder, entry_order}
use skl.Node.{
  get_value_and_trailer, get_value, Node, Link, Memory, tower, tower_offset, next_offset,
  prev_offset, get_bytes, read, key_size, get_key, get_trailer, get_trailer_by_offset, align_up,
  version,
}
use skl.Node.Reads.{get_value_and_trailer_lem}
use skl.Options
use skl.SkipMap.{SkipMap, get_next, get_prev, entry, order}
use skl.SkipMap.Shape.{Chain, Sub}
use skl.SkipMap.Invariant.{IsSkipList, Back}
use skl.SkipMap.Find.{find_near}
use skl.SkipMap.Find.Near.{base_scan, find_near-scan}
use skl.SkipMap.Get.{present, get_found, get}
use skl.SkipMap.Get.Newest.{newest, get-newest}
use skl.Spec.{lookup}
use skl.SkipMap.Contents.{contents, value_of, get-lookup}
use mathlib.Core.Option

abbrev node_at : ℕ → Node
unfolding encode_value_pointer encode_key_size_and_height
node_at p =
    if p == 40
    then record {
      value = encode_value_pointer 200 1;
      key_offset = 300;
      key_size_and_height = encode_key_size_and_height 1 2;
    }
    else if p == 72
    then record {
      value = encode_value_pointer 216 1;
      key_offset = 300;
      key_size_and_height = encode_key_size_and_height 1 1;
    }
    else record { value = 0; key_offset = 0; key_size_and_height = 0 }

abbrev link_of : ℕ → ℕ → Link
link_of next prev = record { next_offset = next; prev_offset = prev }

abbrev link_at : ℕ → Link
link_at a =
    if a == 24
    then link_of 40 0
    else if a == 32
    then link_of 40 0
    else if a == 56
    then link_of 72 8
    else if a == 64
    then link_of 96 8
    else if a == 88
    then link_of 96 40
    else if a == 112
    then link_of 0 72
    else if a == 120
    then link_of 0 40
    else link_of 0 0

abbrev byte_at : ℕ → ℕ
byte_at a = if a == 300 then 97 else if a == 208 then 7 else if a == 224 then 5 else 0

abbrev memory : Memory ℕ
memory = record {
  node = node_at;
  link = link_at;
  byte = byte_at;
  trailer = λ a. if a == 200 then 2 else if a == 216 then 1 else 0;
}

abbrev two_versions_in : {A : Type 0} → A → SkipMap A ℕ
unfolding Options.new
two_versions_in a = record {
  arena = a;
  mem = memory;
  meta = record {
    max_version = 2;
    min_version = 0;
    len = 2;
    magic_version = 0;
    height = 2;
    reserved_byte = 0;
  };
  head = 8;
  tail = 96;
  data_offset = 128;
  opts = record (Options.new) { max_height = 2 };
  cmp = ascend;
}

abbrev two_versions : SkipMap (Unit {0}) ℕ
unfolding two_versions_in
two_versions = two_versions_in tt

abbrev lists : ℕ → List ℕ
lists zero = 40 ∷ 72 ∷ []
lists (suc i) = 40 ∷ []

two_versions_in-IsSkipList :
    {A : Type 0} (a : A) → IsSkipList ⦃t = u64_trailer⦄ (two_versions_in a) lists
unfolding get_next get_prev next_offset prev_offset tower tower_offset entry entry_order ascend
    get_key version get_bytes read key_size get_trailer get_trailer_by_offset align_up cmp_bytes
    decode_value_pointer decode_key_size_and_height two_versions_in node_at
two_versions_in-IsSkipList a = record {
  head_ne_null = omega arith;
  tail_ne_null = omega arith;
  head_ne_tail = omega arith;
  ordered = ascend-IsOrder;
  height_pos = omega arith;
  height_le = omega arith;
  max_height_lt = omega arith;
  chain = chained;
  back = backwards;
  nested = below;
  unused = λ i a b. absurd (omega arith);
  apart = (omega arith, (omega arith, tt));
  sorted = ((refl, tt), (tt, tt));
}
  where
    chained : (i : ℕ) → i < 2 → Chain (λ p. get_next (two_versions_in a) p i) 96 8 (lists i)
    chained zero h = (refl, omega arith, omega arith, (refl, omega arith, omega arith, refl))
    chained (suc zero) h = (refl, omega arith, omega arith, refl)
    chained (suc (suc i)) h = absurd (omega arith)

    backwards : (i : ℕ) → i < 2 → Back (λ p. get_prev (two_versions_in a) p i) 96 8 (lists i)
    backwards zero h = (refl, (refl, refl))
    backwards (suc zero) h = (refl, refl)
    backwards (suc (suc i)) h = absurd (omega arith)

    below : (i : ℕ) → suc i < 2 → Sub (lists (suc i)) (lists i)
    below zero h = inl (refl, tt)
    below (suc i) h = absurd (omega arith)

two_versions-IsSkipList : IsSkipList ⦃t = u64_trailer⦄ two_versions lists
unfolding two_versions two_versions_in
two_versions-IsSkipList = two_versions_in-IsSkipList tt

-- A read at version 1 passes the newer entry by.
get_at_one :
    get ⦃t = u64_trailer⦄ two_versions 4 1 (97 ∷ [])
    ≡ some (some (record { key = 97 ∷ []; trailer = 1; value = some (5 ∷ []); ptr = 72 }))
unfolding get get_found present find_near get_next order two_versions ascend node_at
get_at_one = refl

get-newest_example :
    get ⦃t = u64_trailer⦄ two_versions 4 1 (97 ∷ [])
    ≡ some (present ⦃t = u64_trailer⦄ two_versions 72)
unfolding newest two_versions present ascend node_at version
get-newest_example =
    get-newest ⦃t = u64_trailer⦄ two_versions 1 (97 ∷ []) 4 two_versions-IsSkipList (omega arith)

find_near-scan_example :
    find_near ⦃t = u64_trailer⦄ two_versions 1 (97 ∷ []) true false 4
    ≡ some (base_scan ⦃t = u64_trailer⦄ two_versions 1 (97 ∷ []) true false 8 (40 ∷ 72 ∷ []))
unfolding two_versions
find_near-scan_example =
    find_near-scan ⦃t = u64_trailer⦄ two_versions 1 (97 ∷ []) true false 4 two_versions-IsSkipList
      (omega arith)

room : (decode_value_pointer (memory.node 72).value).0 + 8 ≤ 2 ^ 32
unfolding node_at decode_value_pointer
room = omega arith

get_value_and_trailer_lem_example :
    get_value_and_trailer ⦃t = u64_trailer⦄ memory 72
    ≡ (get_trailer ⦃t = u64_trailer⦄ memory 72, get_value ⦃t = u64_trailer⦄ memory 72)
get_value_and_trailer_lem_example =
    get_value_and_trailer_lem ⦃t = u64_trailer⦄ memory 3 29 refl refl 72 room

get-lookup_example :
    Option.map
      (value_of ⦃t = u64_trailer⦄ two_versions 1 (97 ∷ []))
      (get ⦃t = u64_trailer⦄ two_versions 4 1 (97 ∷ []))
    ≡ some (lookup ascend 1 (97 ∷ []) (contents ⦃t = u64_trailer⦄ two_versions (40 ∷ 72 ∷ [])))
unfolding two_versions
get-lookup_example =
    get-lookup ⦃t = u64_trailer⦄ two_versions 1 (97 ∷ []) 4 two_versions-IsSkipList (omega arith)
