-- ===== src/Tests/Map/Seek.antt =====
-- Runs of the bounds on maps of two keys, [97] at 40 and [98] at 72, with one version each.
use skl.Prelude.{ℕ, ◌≡◌, refl, none, some, [], ◌∷◌, ◌==◌, if◌then◌else◌}
use skl.Encoding.{
  encode_value_pointer, encode_key_size_and_height, decode_value_pointer,
  decode_key_size_and_height,
}
use skl.Compare.{u64_trailer, ascend, cmp_bytes}
use skl.Compare.Laws.{entry_order}
use skl.Node.{
  get_key, key_size, version, get_bytes, read, get_trailer, get_trailer_by_offset, align_up, tower,
  tower_offset, next_offset, prev_offset,
}
use skl.SkipMap.{SkipMap, get_next, get_prev, order, entry}
use skl.SkipMap.Find.{find_near, near_loop}
use skl.SkipMap.Seek.{
  at_or_above, below, towards_next, towards_prev, find_next_max_version, find_prev_max_version,
  next_max_loop, prev_max_loop,
}
use skl.Tests.Map.{two_versions, node_at, memory}

-- the version of [97], then that of [98]
abbrev two_keys : ℕ → ℕ → SkipMap (Unit {0}) ℕ
unfolding two_versions encode_value_pointer encode_key_size_and_height node_at
two_keys a b = record two_versions {
  mem = record memory {
    node = λ p.
        if p == 72
        then record {
          value = encode_value_pointer 216 1;
          key_offset = 301;
          key_size_and_height = encode_key_size_and_height 1 1;
        }
        else node_at p;
    byte = λ x. if x == 300 then 97 else if x == 301 then 98 else 0;
    trailer = λ x. if x == 200 then a else if x == 216 then b else 0;
  };
}

-- At version 1 the entry of [97], which has version 2, is returned.
ge_newer : at_or_above ⦃t = u64_trailer⦄ (two_keys 2 1) 5 1 (97 ∷ []) ≡ some (some 40)
unfolding at_or_above towards_next find_next_max_version next_max_loop find_near near_loop get_next
    next_offset tower tower_offset order entry entry_order ascend get_key version get_bytes read
    key_size get_trailer get_trailer_by_offset align_up cmp_bytes decode_value_pointer
    decode_key_size_and_height two_versions node_at two_keys
ge_newer = refl

-- At version 1 nothing is returned, though [97] has version 1.
lt_missed : below ⦃t = u64_trailer⦄ (two_keys 1 2) 5 1 (99 ∷ []) ≡ some none
unfolding below towards_prev find_prev_max_version prev_max_loop find_near near_loop get_next
    get_prev next_offset prev_offset tower tower_offset order entry entry_order ascend get_key
    version get_bytes read key_size get_trailer get_trailer_by_offset align_up cmp_bytes
    decode_value_pointer decode_key_size_and_height two_versions node_at two_keys
lt_missed = refl
