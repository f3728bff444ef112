-- ===== src/Update/Result.antt =====
-- What `update` leaves on the levels of a map when it links a node that is nowhere in them yet.
use skl.Prelude.{ℕ, suc, ◌≤◌, ◌<◌, ◌≡◌, inr, Bool, Option, List, Ordering, arith}
use skl.Compare.{Trailer}
use skl.Types.{VacantBuffer}
use skl.Run.{ok}
use skl.Arena.{Arena}
use skl.Alloc.{Filled}
use skl.Splice.{Splice}
use skl.Splice.Bracket.{insert_at}
use skl.SkipMap.{SkipMap}
use skl.Update.{Linking, linked, link_levels}
use skl.Update.Link.{Nodes}
use skl.Update.Levels.{IsLevel, IsSound}
use skl.Update.Loop.{
  relinked, IsReady, IsSplice, link_levels-relinked, relinked-insert_at, relinked-other,
}

module _ {A T E F : Type 0} ⦃t : Trailer T⦄ (ar : Arena A E) (fuel : ℕ) (meanwhile : Option ℕ)
    (trailer : T) (value_size : ℕ) (f : VacantBuffer → Filled F) (upserts : Bool) (c : ℕ → Ordering)
    (height : ℕ → ℕ) (N : ℕ → Type 0) (nodes : Nodes height N) (nd h : ℕ) (levels : ℕ → List ℕ)
    (spl : ℕ → Splice) (g : Linking) (s : SkipMap A T)
    (ready : IsReady c height N nodes nd h levels s.head s.tail)
    (splices : (k : ℕ) → k < h → IsSplice c s.head s.tail (levels k) (spl k))
    (known : (k : ℕ) → k < h → IsLevel s k (levels k)) where
  -- Let the nodes of the arena not overlap, the levels below the height `h` of a new node be linked
  -- both ways, and the splices be the neighbours of its place on them. Then the loop over the levels
  -- succeeds with one round on each, and each level `j` below `h` is linked both ways through its old
  -- nodes with the new one in its place.
  pub link_levels-insert_at :
      (j : ℕ)
      → j < h
      → (link_levels ar (suc fuel) meanwhile trailer value_size f upserts nd spl h 0 g s
          ≡ ok (linked g) (relinked c nd levels h 0 s))
        × IsLevel (relinked c nd levels h 0 s) j (insert_at c nd (levels j))
  link_levels-insert_at j b = (
    link_levels-relinked ar fuel meanwhile trailer value_size f upserts c height N nodes nd h levels
        spl g h 0 s ready (omega arith) splices (λ k l e. known k e),
    relinked-insert_at c height N nodes nd h levels h 0 j s ready (omega arith) (omega arith)
        (omega arith) (known j b),
  )

  -- Under the conditions of `link_levels-insert_at` the loop succeeds in the same way, and a level `j`
  -- from `h` up that is linked both ways through `ps` stays so.
  pub link_levels-other :
      (j : ℕ) (ps : List ℕ)
      → h ≤ j
      → IsSound height N nd s.head s.tail j ps
      → IsLevel s j ps
      → (link_levels ar (suc fuel) meanwhile trailer value_size f upserts nd spl h 0 g s
          ≡ ok (linked g) (relinked c nd levels h 0 s))
        × IsLevel (relinked c nd levels h 0 s) j ps
  link_levels-other j ps b sound l = (
    link_levels-relinked ar fuel meanwhile trailer value_size f upserts c height N nodes nd h levels
        spl g h 0 s ready (omega arith) splices (λ k l e. known k e),
    relinked-other c height N nodes nd h levels h 0 j ps s ready (omega arith) (inr (omega arith))
        sound l,
  )
