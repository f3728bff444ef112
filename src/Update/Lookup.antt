-- ===== src/Update/Lookup.antt =====
-- A reader finds the entry that has been linked in.
use skl.Prelude.{
  ℕ, suc, ◌+◌, ◌≤◌, ◌<◌, ◌≡◌, ◌≢◌, refl, ap, ◌∙◌, Option, none, some, List, [], ◌∷◌, eq, arith,
  length, ltb, true, Bool,
}
use skl.Compare.{Bytes, Trailer}
use skl.Compare.Laws.{IsOrder, entry_order}
use skl.Node.{Link, get_key, version, get_bytes, key_size, get_trailer, get_trailer_by_offset}
use skl.SkipMap.{SkipMap, entry, order}
use skl.SkipMap.Shape.{All}
use skl.SkipMap.Invariant.{IsSkipList}
use skl.SkipMap.Get.{get, present}
use skl.SkipMap.Get.Newest.{newest, get-newest}
use skl.Splice.Bracket.{insert_at, length-insert_at}
use skl.Types.{VacantBuffer}
use skl.Run.{ok}
use skl.Arena.{Arena}
use skl.Alloc.{Filled}
use skl.Splice.{Splice}
use skl.Update.{Linking, linked, link_levels}
use skl.Update.Insertion.{link_levels-IsSkipList}
use skl.Update.Link.{Nodes}
use skl.Update.Levels.{IsSound, IsNew}
use skl.Update.Loop.{relinked, relinked_rest, IsSplice}
use skl.Update.Sorted.{with_node, relinked-IsSkipList}

module _ {A T : Type 0} ⦃t : Trailer T⦄ (s : SkipMap A T) (v : ℕ) (key : Bytes) (nd : ℕ)
    (o : IsOrder s.cmp.cmp) (is_entry : entry s nd ≡ (key, v)) where
  -- In its place the new entry is the first of its key that its version sees.
  newest-insert_at : (ps : List ℕ) → newest s v key (insert_at (order s v key) nd ps) ≡ some nd
  unfolding newest insert_at order entry entry_order
  newest-insert_at [] =
      ground (arith, ap (λ e. e.0) is_entry, ap (λ e. e.1) is_entry, o.flip key key)
  newest-insert_at (p ∷ ps) =
      ground
        (arith, newest-insert_at ps, ap (λ e. e.0) is_entry, ap (λ e. e.1) is_entry, o.flip key key)

newest-links :
    {A T : Type 0} ⦃t : Trailer T⦄ (s : SkipMap A T) (v : ℕ) (key : Bytes) (link : ℕ → Link)
    (ps : List ℕ)
    → newest (record s { mem = record (s.mem) { link = link } }) v key ps ≡ newest s v key ps
unfolding newest get_key version get_bytes key_size get_trailer get_trailer_by_offset
newest-links s v key link [] = refl
newest-links s v key link (p ∷ ps) = ground (arith, newest-links s v key link ps)

module _ {A T : Type 0} ⦃t : Trailer T⦄ (s : SkipMap A T) (v : ℕ) (key : Bytes) (height : ℕ → ℕ)
    (N : ℕ → Type 0) (nodes : Nodes height N) (nd h : ℕ) (levels : ℕ → List ℕ) where
  -- The `get` of a linked entry.
  get-relinked :
      (fuel : ℕ)
      → IsSkipList s levels
      → 0 < h
      → h ≤ s.meta.height
      → entry s nd ≡ (key, v)
      → All (λ q. order s v key q ≢ eq) (levels 0)
      → ((k : ℕ) → k < s.opts.max_height → IsSound height N nd s.head s.tail k (levels k))
      → ((k : ℕ) → k < h → IsNew height N nd s.head s.tail k (levels k))
      → s.meta.height + length (levels 0) < fuel
      → get (relinked (order s v key) nd levels h 0 s) fuel v key
        ≡ some (present (relinked (order s v key) nd levels h 0 s) nd)
  get-relinked fuel is h_pos h_le is_entry absent sound new b =
      let c = order s v key in
      let s' = relinked c nd levels h 0 s in
      let rest : s' ≡ record s { mem = record (s.mem) { link = s'.mem.link } } =
        relinked_rest c nd levels h 0 s in
      let low : ltb 0 h ≡ true = ground arith in
      let base : with_node c nd h levels 0 ≡ insert_at c nd (levels 0) = rw low refl in
      let kept : s'.meta.height ≡ s.meta.height = ap (λ (x : SkipMap A T). x.meta.height) rest in
      let longer : length (with_node c nd h levels 0) ≡ length (levels 0) + 1 =
        ap length base ∙ length-insert_at c nd (levels 0) in
      let found : newest s' v key (with_node c nd h levels 0) ≡ some nd =
        ap (newest s' v key) base
        ∙ ap (λ (x : SkipMap A T). newest x v key (insert_at c nd (levels 0))) rest
        ∙ newest-links s v key (s'.mem.link) (insert_at c nd (levels 0))
        ∙ newest-insert_at s v key nd is.ordered is_entry (levels 0) in
      get-newest s' v key fuel
        (relinked-IsSkipList s v key height N nodes nd h levels is h_pos h_le is_entry absent sound
          new)
        (omega (arith, kept, longer, b))
      ∙ ap (λ r. some (elim r [ none ↦ none | some p ↦ present s' p ])) found

module _ {A T E F : Type 0} ⦃t : Trailer T⦄ (ar : Arena A E) (fuel : ℕ) (meanwhile : Option ℕ)
    (trailer : T) (value_size : ℕ) (f : VacantBuffer → Filled F) (upserts : Bool) (s : SkipMap A T)
    (v : ℕ) (key : Bytes) (height : ℕ → ℕ) (N : ℕ → Type 0) (nodes : Nodes height N) (nd h : ℕ)
    (levels : ℕ → List ℕ) (spl : ℕ → Splice) (g : Linking) where
  -- Under the conditions of `link_levels-IsSkipList`, with fuel for one entry more than the map has,
  -- the loop of `update` over the levels succeeds, and in the map that it leaves a `get` of the key at
  -- the version of the new entry returns that entry's value, or nothing if it is a tombstone.
  pub link_levels-get :
      (reads : ℕ)
      → IsSkipList s levels
      → 0 < h
      → h ≤ s.meta.height
      → entry s nd ≡ (key, v)
      → All (λ q. order s v key q ≢ eq) (levels 0)
      → ((k : ℕ) → k < s.opts.max_height → IsSound height N nd s.head s.tail k (levels k))
      → ((k : ℕ) → k < h → IsNew height N nd s.head s.tail k (levels k))
      → ((k : ℕ) → k < h → IsSplice (order s v key) s.head s.tail (levels k) (spl k))
      → s.meta.height + length (levels 0) < reads
      → (link_levels ar (suc fuel) meanwhile trailer value_size f upserts nd spl h 0 g s
          ≡ ok (linked g) (relinked (order s v key) nd levels h 0 s))
        × (get (relinked (order s v key) nd levels h 0 s) reads v key
            ≡ some (present (relinked (order s v key) nd levels h 0 s) nd))
  link_levels-get reads is h_pos h_le is_entry absent sound new splices b = (
    (link_levels-IsSkipList ar fuel meanwhile trailer value_size f upserts s v key height N nodes nd
        h levels spl g is h_pos h_le is_entry absent sound new splices).0,
    get-relinked s v key height N nodes nd h levels reads is h_pos h_le is_entry absent sound new b,
  )
