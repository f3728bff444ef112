-- ===== src/Update/Insertion.antt =====
-- The linking of a new entry keeps a map well formed.
use skl.Prelude.{ℕ, suc, ◌≤◌, ◌<◌, ◌≡◌, ◌≢◌, Bool, Option, List, eq, arith}
use skl.Compare.{Bytes, Trailer}
use skl.Types.{VacantBuffer}
use skl.Run.{ok}
use skl.Arena.{Arena}
use skl.Alloc.{Filled}
use skl.Splice.{Splice}
use skl.SkipMap.{SkipMap, entry, order}
use skl.SkipMap.Shape.{All}
use skl.SkipMap.Invariant.{IsSkipList}
use skl.Update.{Linking, linked, link_levels}
use skl.Update.Link.{Nodes}
use skl.Update.Levels.{IsSound, IsNew}
use skl.Update.Loop.{relinked, IsSplice, link_levels-relinked}
use skl.Update.Sorted.{with_node, relinked-IsSkipList}

module _ {A T E F : Type 0} ⦃t : Trailer T⦄ (ar : Arena A E) (fuel : ℕ) (meanwhile : Option ℕ)
    (trailer : T) (value_size : ℕ) (f : VacantBuffer → Filled F) (upserts : Bool) (s : SkipMap A T)
    (v : ℕ) (key : Bytes) (height : ℕ → ℕ) (N : ℕ → Type 0) (nodes : Nodes height N) (nd h : ℕ)
    (levels : ℕ → List ℕ) (spl : ℕ → Splice) (g : Linking) where
  -- Let a map be well formed, with a node `nd` in its arena that holds `key` and `v` and is not linked,
  -- whose tower of `h` levels is at most the map's height; let the map hold no entry of `key` and `v`,
  -- the nodes not overlap, and the splices be the neighbours of the node's place. Then the loop of
  -- `update` over the levels succeeds, and it leaves a well-formed map, whose levels below `h` are the
  -- old ones with the node in its place and whose other levels are the old ones.
  pub link_levels-IsSkipList :
      IsSkipList s levels
      → 0 < h
      → h ≤ s.meta.height
      → entry s nd ≡ (key, v)
      → All (λ q. order s v key q ≢ eq) (levels 0)
      → ((k : ℕ) → k < s.opts.max_height → IsSound height N nd s.head s.tail k (levels k))
      → ((k : ℕ) → k < h → IsNew height N nd s.head s.tail k (levels k))
      → ((k : ℕ) → k < h → IsSplice (order s v key) s.head s.tail (levels k) (spl k))
      → (link_levels ar (suc fuel) meanwhile trailer value_size f upserts nd spl h 0 g s
          ≡ ok (linked g) (relinked (order s v key) nd levels h 0 s))
        × IsSkipList
            (relinked (order s v key) nd levels h 0 s)
            (with_node (order s v key) nd h levels)
  link_levels-IsSkipList is h_pos h_le is_entry absent sound new splices = (
    link_levels-relinked ar fuel meanwhile trailer value_size f upserts (order s v key) height N
        nodes nd h levels spl g h 0 s
        (record { sound = λ k l. sound k (omega (arith, is.height_le)); new = new }) (omega arith)
        splices
        (λ k l e. record {
          chain = is.chain k (omega (arith, is.height_le));
          back = is.back k (omega (arith, is.height_le));
        }),
    relinked-IsSkipList s v key height N nodes nd h levels is h_pos h_le is_entry absent sound new,
  )
