-- ===== src/Splice/Level.antt =====
-- What find_splice_for_level of src/map.rs finds on a level, and which key it offers to share.
use mathlib.Core.Option
use skl.Prelude.{
  ℕ, zero, suc, ◌<◌, ◌≡◌, ◌⊎◌, ap, Bool, true, false, none, some, List, [], ◌∷◌, Ordering, lt, eq,
  gt, arith, length,
}
use skl.Compare.{Bytes, Trailer, ascend, cmp_bytes}
use skl.Compare.Prefix.{not-gt_of_starts_with}
use skl.Node.{get_key, key_size, height}
use skl.SkipMap.{SkipMap, get_next, order}
use skl.SkipMap.Shape.{Chain}
use skl.Splice.{FindResult, find_splice_for_level, shared_key}
use skl.Splice.Bracket.{bracket}

-- whether the target is at a node of the list, by a look at the nodes that are not behind it
unfoldable pub hit : (ℕ → Ordering) → List ℕ → Bool
hit c [] = false
hit c (p ∷ ps) = elim (c p) [ gt ↦ hit c ps | eq ↦ true | lt ↦ false ]

-- what the callers of a level's search read of its result
abbrev pub seen : FindResult → Bool × (ℕ × ℕ)
seen fr = (fr.found, (fr.splice.prev, fr.splice.next))

module _ {A T : Type 0} ⦃t : Trailer T⦄ (s : SkipMap A T) (v : ℕ) (key : Bytes) where
  -- On a level whose links run from `x` through the list to the tail, with fuel for the list,
  -- `find_splice_for_level` returns the nodes around the place of the key and version, and it says
  -- whether the one behind is an entry of just these.
  pub find_splice_for_level-bracket :
      (fuel i x : ℕ) (ps : List ℕ)
      → Chain (λ p. get_next s p i) s.tail x ps
      → length ps < fuel
      → Option.map seen (find_splice_for_level s v key fuel i x)
        ≡ some (hit (order s v key) ps, bracket (order s v key) s.tail x ps)
  unfolding find_splice_for_level hit bracket
  find_splice_for_level-bracket zero i x ps c h = absurd (omega arith)
  find_splice_for_level-bracket (suc fuel) i x [] c h = ground arith
  find_splice_for_level-bracket (suc fuel) i x (p ∷ ps) c h =
      ground (arith, find_splice_for_level-bracket fuel i p ps c.3 (omega arith))

  -- With the comparator of the slices' order a new entry shares the key of the next node only where
  -- the two keys are equal: the search by a common beginning offers none.
  pub shared_key_lem :
      (next : ℕ)
      → s.cmp ≡ ascend
      → ((cmp_bytes key (get_key s.mem next) ≡ eq)
          × (shared_key s v key next
              ≡ some (record {
                offset = (s.mem.node next).key_offset;
                size = key_size s.mem next;
                height = some (height s.mem next);
              })))
        ⊎ (shared_key s v key next ≡ none)
  unfolding shared_key ascend
  shared_key_lem next h =
      ground (arith, ap (λ c. c.cmp) h, not-gt_of_starts_with key (get_key s.mem next))
