-- ===== src/Tests/Links.antt =====
-- A node of one level at 80, linked between the head at 8 and the tail at 160 of an empty map.
use skl.Prelude.{
  ℕ, zero, suc, ◌<◌, ◌≡◌, ◌⊎◌, inl, inr, refl, true, false, none, [], ◌∷◌, List, gt, Ordering,
  arith, ◌==◌, if◌then◌else◌,
}
use skl.Compare.{u64_trailer, ascend}
use skl.Node.{Link, next_offset, prev_offset, tower, tower_offset}
use skl.Meta
use skl.Options
use skl.Types.{Key}
use skl.Run.{ok}
use skl.Arena.{Arena, Alloc}
use skl.Alloc.{filled}
use skl.Splice.{Splice}
use skl.Splice.Bracket.{insert_at}
use skl.SkipMap.{SkipMap, get_next, get_prev}
use skl.Update.{Linking, linked, link_levels}
use skl.Update.Link.{Nodes}
use skl.Update.Levels.{IsLevel, IsSound}
use skl.Update.Loop.{relinked, IsReady, IsSplice}
use skl.Update.Result.{link_levels-insert_at, link_levels-other}

abbrev no_arena : Arena (Unit {0}) (Unit {0})
no_arena = record {
  read_only = λ _. false;
  read_only_error = tt;
  alloc_bytes = λ _ a. Alloc.refused tt a;
  alloc_aligned_bytes = λ _ _ _ a. Alloc.refused tt a;
  alloc = λ _ _ a. Alloc.refused tt a;
  dealloc = λ _ _ a. (false, a);
  release = λ _ a. a;
  increase_discarded = λ _ a. a;
  data_offset = λ _. 0;
  capacity = λ _. 0;
  allocated = λ _. 0;
  clear = λ a. (none, a);
  magic_version = λ _. 0;
  remaining = λ _. 0;
  refs = λ _. 1;
  discarded = λ _. 0;
}

abbrev link_at : ℕ → Link
link_at a =
    if a == 24
    then record { next_offset = 160; prev_offset = 0 }
    else if a == 32
    then record { next_offset = 160; prev_offset = 0 }
    else if a == 176
    then record { next_offset = 0; prev_offset = 8 }
    else if a == 184
    then record { next_offset = 0; prev_offset = 8 }
    else record { next_offset = 0; prev_offset = 0 }

abbrev empty_map : SkipMap (Unit {0}) ℕ
unfolding Options.new Meta.new
empty_map = record {
  arena = tt;
  mem = record {
    node = λ _. record { value = 0; key_offset = 0; key_size_and_height = 0 };
    link = link_at;
    byte = λ _. 0;
    trailer = λ _. 0;
  };
  meta = Meta.new 0;
  head = 8;
  tail = 160;
  data_offset = 200;
  opts = record (Options.new) { max_height = 2 };
  cmp = ascend;
}

abbrev compare : ℕ → Ordering
compare _ = gt

abbrev heights : ℕ → ℕ
heights p = if p == 80 then 1 else 2

abbrev Known : ℕ → Type 0
Known p = (p ≡ 8) ⊎ (p ≡ 80) ⊎ (p ≡ 160)

nodes : Nodes heights Known
nodes = record { apart = λ p q m n e. grind (arith, m, n, e) }

abbrev none_there : ℕ → List ℕ
none_there _ = []

sound : (k : ℕ) → k < 1 → IsSound heights Known 80 8 160 k []
sound k h = record {
  nodes_known = (inl refl, tt);
  tall = (omega arith, tt);
  ne_null = (omega arith, tt);
  tail_known = inr (inr refl);
  tail_ne_null = omega arith;
  tail_tall = omega arith;
  distinct = (tt, tt);
  before_tail = (omega arith, tt);
}

ready : IsReady compare heights Known nodes 80 1 none_there 8 160
ready = record {
  sound = sound;
  new = λ k h. record {
    known = inr (inl refl);
    tall = omega arith;
    ne_null = omega arith;
    ne_tail = omega arith;
    absent = (omega arith, tt);
  };
}

upper-IsSound : IsSound heights Known 80 8 160 1 []
upper-IsSound = record {
  nodes_known = (inl refl, tt);
  tall = (omega arith, tt);
  ne_null = (omega arith, tt);
  tail_known = inr (inr refl);
  tail_ne_null = omega arith;
  tail_tall = omega arith;
  distinct = (tt, tt);
  before_tail = (omega arith, tt);
}

abbrev no_splices : ℕ → Splice
no_splices _ = record { prev = 0; next = 0 }

empty_splices : (k : ℕ) → k < 1 → IsSplice compare 8 160 (none_there k) (no_splices k)
empty_splices k h = inr (refl, refl, refl)

upper-IsLevel : IsLevel empty_map 1 []
unfolding get_next get_prev next_offset prev_offset tower tower_offset empty_map
upper-IsLevel = record { chain = refl; back = refl }

level : IsLevel empty_map 0 []
unfolding get_next get_prev next_offset prev_offset tower tower_offset empty_map
level = record { chain = refl; back = refl }

each_level : (k : ℕ) → k < 1 → IsLevel empty_map k []
each_level zero h = level
each_level (suc k) h = absurd (omega arith)

abbrev linking : Linking
linking = record {
  k = Key.occupied (97 ∷ []);
  deallocator = record { node = none; key = none; value = none };
  invalid_data_splice = false;
}

-- The node has a tower of one level on a map of two.
link_levels-insert_at_example :
    (link_levels {F = Unit {0}} ⦃t = u64_trailer⦄ no_arena 1 none 5 0 filled true 80 no_splices 1 0
        linking empty_map
      ≡ ok (linked linking) (relinked compare 80 none_there 1 0 empty_map))
    × IsLevel (relinked compare 80 none_there 1 0 empty_map) 0 (insert_at compare 80 [])
unfolding empty_map
link_levels-insert_at_example =
    link_levels-insert_at ⦃t = u64_trailer⦄ no_arena 0 none 5 0 filled true compare heights Known
      nodes 80 1 none_there no_splices linking empty_map ready empty_splices each_level 0
      (omega arith)

link_levels-other_example :
    (link_levels {F = Unit {0}} ⦃t = u64_trailer⦄ no_arena 1 none 5 0 filled true 80 no_splices 1 0
        linking empty_map
      ≡ ok (linked linking) (relinked compare 80 none_there 1 0 empty_map))
    × IsLevel (relinked compare 80 none_there 1 0 empty_map) 1 []
unfolding empty_map
link_levels-other_example =
    link_levels-other ⦃t = u64_trailer⦄ no_arena 0 none 5 0 filled true compare heights Known nodes
      80 1 none_there no_splices linking empty_map ready empty_splices each_level 1 [] (omega arith)
      upper-IsSound upper-IsLevel
