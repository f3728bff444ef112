-- ===== src/Tests/Map/Racing.antt =====
-- Two threads that link nodes at 128 and 160 on the base level of the map of two versions, from the
-- same splice.
use skl.Prelude.{
  ℕ, ◌+◌, length, zero, suc, ◌<◌, ◌≡◌, ◌≢◌, ◌⊎◌, ◌↔◌, ◌∷◌, inl, inr, refl, false, none, [], arith,
  List, ◌==◌, if◌then◌else◌,
}
use skl.Compare.{u64_trailer, ascend, cmp_bytes}
use skl.Node.{
  get_key, version, get_bytes, read, key_size, get_trailer, get_trailer_by_offset, align_up,
  next_offset, prev_offset,
}
use skl.Types.{Key, as_ref}
use skl.SkipMap.Shape.{All, Chain}
use skl.SkipMap.Invariant.{Back, Sorted}
use skl.Splice.Bracket.{Distinct}
use skl.Race.{ready, relinking, finished, Thread, System, step, turn, run, Reach, start, run-Reach}
use skl.Race.Level.{Member}
use skl.Race.Moves.{next_of, prev_of}
use skl.Race.Alone.{Ends}
use skl.Race.Entries.{Places}
use skl.Race.Ordered.{IsOrdered}
use skl.Race.Outcome.{linked_in_order}
use skl.Encoding.{
  encode_value_pointer, encode_key_size_and_height, decode_value_pointer,
  decode_key_size_and_height,
}
use skl.Compare.Laws.{ascend-IsOrder, entry_order}
use skl.SkipMap.{SkipMap, entry}
use skl.Race.Termination.{alone-Ends}
use skl.Race.Safety.{HasLinked, OfThread, IsStart, linked_once, linked_back}
use skl.Store.{set_node}
use skl.Upsert.{on_fail}
use skl.Tests.Map.{two_versions, node_at}
use skl.Tests.Map.Insertion.{no_arena}

abbrev own : ℕ → ℕ
own w = if w == 0 then 128 else 160

abbrev thread : ℕ → Thread
thread w = record {
  nd = own w;
  version = if w == 0 then 4 else 3;
  g = record {
    k = Key.occupied (97 ∷ []);
    deallocator = record { node = none; key = none; value = none };
    invalid_data_splice = false;
  };
  pc = ready 8 40;
}

-- The two nodes hold the versions 4 and 3 of the key [97].
abbrev with_nodes : SkipMap (Unit {0}) ℕ
unfolding encode_value_pointer encode_key_size_and_height
with_nodes = record (two_versions) {
  mem = record (two_versions.mem) {
    node = λ p.
        if p == 128
        then record {
          value = encode_value_pointer 232 1;
          key_offset = 300;
          key_size_and_height = encode_key_size_and_height 1 1;
        }
        else if p == 160
        then record {
          value = encode_value_pointer 248 1;
          key_offset = 300;
          key_size_and_height = encode_key_size_and_height 1 1;
        }
        else node_at p;
    trailer = λ a.
        if a == 232
        then 4
        else if a == 248
        then 3
        else if a == 200
        then 2
        else if a == 216
        then 1
        else 0;
  };
}

abbrev racing : System (Unit {0}) ℕ
racing = record { map = with_nodes; thread = thread }

starts : IsStart 2 own 0 8 96 racing (40 ∷ 72 ∷ [])
unfolding two_versions with_nodes next_offset prev_offset
starts = record {
  setup = record {
    apart = λ v w a b e. ground arith;
    ne_null = λ w lt. ground arith;
    head_ne_null = omega arith;
    head_ne_tail = omega arith;
  };
  head_eq = refl;
  tail_eq = refl;
  chain = (refl, omega arith, omega arith, (refl, omega arith, omega arith, refl));
  back = (refl, (refl, refl));
  distinct = ((omega arith, (omega arith, tt)), ((omega arith, tt), (tt, tt)));
  owners = λ w lt. refl;
  fresh = λ w lt. record { absent = λ m. ground arith; ne_tail = ground arith };
  prev = λ _. 8;
  next = λ _. 40;
  at_ready = λ w lt. refl;
  span = λ w lt. record { prev_in = inl refl; next_in = inr (inr (inl refl)) };
}

in_order : IsOrdered ⦃t = u64_trailer⦄ 2 8 96 racing (40 ∷ 72 ∷ [])
unfolding two_versions with_nodes entry entry_order ascend get_key version get_bytes read key_size
    get_trailer get_trailer_by_offset align_up cmp_bytes decode_value_pointer
    decode_key_size_and_height node_at as_ref
in_order = record {
  ordered = ascend-IsOrder;
  words = λ q. ground arith;
  sorted = ((refl, tt), (tt, tt));
  places = placed;
}
  where
    placed : (w : ℕ) → w < 2 → Places ⦃t = u64_trailer⦄ 8 96 with_nodes (thread w) (thread w).pc
    placed zero lt = (refl, inl refl, inr refl)
    placed (suc zero) lt = (refl, inl refl, inr refl)
    placed (suc (suc w)) lt = absurd (omega (arith, lt))

-- Both write their towers, the first links its node, and the second fails and searches again.
abbrev order_of_turns : List ℕ
order_of_turns = 0 ∷ 1 ∷ 0 ∷ 1 ∷ 0 ∷ 1 ∷ 1 ∷ 1 ∷ 1 ∷ 0 ∷ 1 ∷ 1 ∷ 1 ∷ 1 ∷ 1 ∷ 1 ∷ []

abbrev raced : System (Unit {0}) ℕ
raced = run ⦃t = u64_trailer⦄ no_arena 0 2 order_of_turns racing

in_range : All (λ w. w < 2) order_of_turns
in_range = ground arith

reached : Reach ⦃t = u64_trailer⦄ no_arena 0 2 racing raced
reached = run-Reach ⦃t = u64_trailer⦄ no_arena 0 2 order_of_turns racing in_range start

first_done : (raced.thread 0).pc ≡ finished
unfolding run turn step two_versions with_nodes ascend node_at set_node on_fail
first_done = refl

second_done : (raced.thread 1).pc ≡ finished
unfolding run turn step two_versions with_nodes ascend node_at set_node on_fail
second_done = refl

both_linked :
    (next_of 0 raced.map 8 ≡ 128)
    × (next_of 0 raced.map 128 ≡ 160)
    × (next_of 0 raced.map 160 ≡ 40)
    × (prev_of 0 raced.map 40 ≡ 160)
unfolding run turn step two_versions with_nodes ascend node_at set_node on_fail next_offset
    prev_offset
both_linked = (refl, refl, refl, refl)

at_rest : (w y z : ℕ) → w < 2 → (raced.thread w).pc ≢ relinking y z
at_rest zero y z lt e = ground (arith, first_done, e)
at_rest (suc zero) y z lt e = ground (arith, second_done, e)
at_rest (suc (suc w)) y z lt e = omega arith

linked_once_example :
    (qs : List ℕ) × Chain (next_of 0 raced.map) 96 8 qs
    × Distinct (8 ∷ qs)
    × ((q : ℕ) → Member q (40 ∷ 72 ∷ []) → Member q qs)
    × ((q : ℕ) → Member q qs → Member q (40 ∷ 72 ∷ []) ⊎ OfThread 2 own q)
    × ((w : ℕ) → w < 2 → HasLinked (raced.thread w).pc ↔ Member (own w) (8 ∷ qs))
linked_once_example =
    linked_once ⦃t = u64_trailer⦄ no_arena 2 own 0 8 96 racing raced (40 ∷ 72 ∷ []) starts reached

linked_back_example :
    (qs : List ℕ) × Chain (next_of 0 raced.map) 96 8 qs × Back (prev_of 0 raced.map) 96 8 qs
linked_back_example =
    linked_back ⦃t = u64_trailer⦄ no_arena 2 own 0 8 96 racing raced (40 ∷ 72 ∷ []) starts reached
      at_rest

-- The first thread has linked its node, and the second has yet to notice.
abbrev half_way : List ℕ
half_way = 0 ∷ 1 ∷ 0 ∷ 1 ∷ 0 ∷ []

half_way_in_range : All (λ w. w < 2) half_way
half_way_in_range = ground arith

alone-Ends_example :
    (qs : List ℕ) × Chain
      (next_of 0 (run ⦃t = u64_trailer⦄ no_arena 0 2 half_way racing).map)
      96
      8
      qs
    × Ends ⦃t = u64_trailer⦄ no_arena 0 2 1
        (length qs + 12)
        (run ⦃t = u64_trailer⦄ no_arena 0 2 half_way racing)
alone-Ends_example =
    alone-Ends ⦃t = u64_trailer⦄ no_arena 2 own 0 8 96 1 (omega arith) racing
      (run ⦃t = u64_trailer⦄ no_arena 0 2 half_way racing) (40 ∷ 72 ∷ []) starts
      (run-Reach ⦃t = u64_trailer⦄ no_arena 0 2 half_way racing half_way_in_range start)

linked_in_order_example :
    (qs : List ℕ) × Chain (next_of 0 raced.map) 96 8 qs
    × Sorted ⦃t = u64_trailer⦄ raced.map qs
    × ((q : ℕ) → Member q (40 ∷ 72 ∷ []) → Member q qs)
    × ((w : ℕ) → w < 2 → HasLinked (raced.thread w).pc → Member (own w) (8 ∷ qs))
linked_in_order_example =
    linked_in_order ⦃t = u64_trailer⦄ no_arena 2 own 0 8 96 racing raced (40 ∷ 72 ∷ []) starts
      in_order reached
