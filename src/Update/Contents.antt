-- ===== src/Update/Contents.antt =====
-- What every reader gets after a new entry has been linked in: the lookup in the old entries with the
-- new one.
use mathlib.Core.Option
use skl.Prelude.{
  ℕ, suc, ◌+◌, ◌≤◌, ◌<◌, ◌≡◌, ◌≢◌, refl, ap, ◌∙◌, Option, none, some, List, [], ◌∷◌, eq, arith,
  length, ltb, true, Bool, Bool-cases, inl, inr,
}
use skl.Compare.{Bytes, Comparator, Trailer}
use skl.Compare.Laws.{IsOrder, entry_order}
use skl.Node.{Link, get_key, version, get_bytes, key_size, get_trailer, get_trailer_by_offset}
use skl.Node.Reads.{value_behind, read_value}
use skl.Spec.{Item, readable, newer, latest, lookup}
use skl.SkipMap.{SkipMap, entry, order}
use skl.SkipMap.Shape.{All}
use skl.SkipMap.Invariant.{IsSkipList}
use skl.SkipMap.Get.{get}
use skl.SkipMap.Contents.{item, contents, value_of, get-lookup}
use skl.Splice.Bracket.{gt-cases, insert_at, insert_at_pass, insert_at_stop, length-insert_at}
use skl.Types.{VacantBuffer}
use skl.Run.{ok}
use skl.Arena.{Arena}
use skl.Alloc.{Filled}
use skl.Splice.{Splice}
use skl.Update.{Linking, linked, link_levels}
use skl.Update.Insertion.{link_levels-IsSkipList}
use skl.Update.Link.{Nodes}
use skl.Update.Levels.{IsSound, IsNew}
use skl.Update.Loop.{relinked, relinked_rest, IsSplice}
use skl.Update.Sorted.{with_node, relinked-IsSkipList}

newer-swap :
    (e f : Item) (o : Option Item)
    → e.version ≢ f.version
    → newer e (some (newer f o)) ≡ newer f (some (newer e o))
newer-swap e f none h = ground (arith, h)
newer-swap e f (some r) h = ground (arith, h)

module _ (c : Comparator) (v : ℕ) (key : Bytes) where
  -- The order of entries that differ in their version does not matter to a lookup.
  latest-swap :
      (e f : Item) (es : List Item)
      → (readable c v key e ≡ true → readable c v key f ≡ true → e.version ≢ f.version)
      → latest c v key (e ∷ f ∷ es) ≡ latest c v key (f ∷ e ∷ es)
  unfolding latest
  latest-swap e f es h = elim (Bool-cases (readable c v key e)) [
    | inl a ↦ elim (Bool-cases (readable c v key f)) [
      | inl b ↦ rw (a, b) (ap some (newer-swap e f (latest c v key es) (h a b)))
      | inr b ↦ rw (a, b) refl
    ]
    | inr a ↦ rw a refl
  ]

  pub latest-cons :
      (e : Item) (es fs : List Item)
      → latest c v key es ≡ latest c v key fs
      → latest c v key (e ∷ es) ≡ latest c v key (e ∷ fs)
  unfolding latest
  latest-cons e es fs h = rw h refl

module _ {A T : Type 0} ⦃t : Trailer T⦄ (s : SkipMap A T) (v : ℕ) (key : Bytes) (nd : ℕ)
    (o : IsOrder s.cmp.cmp) (is_entry : entry s nd ≡ (key, v)) where
  differs :
      (v' : ℕ) (key' : Bytes) (p : ℕ)
      → order s v key p ≢ eq
      → readable s.cmp v' key' (item s p) ≡ true
      → readable s.cmp v' key' (item s nd) ≡ true
      → version s.mem p ≢ version s.mem nd
  unfolding order entry entry_order
  differs v' key' p n a b e =
      let same_key : get_key s.mem nd ≡ key = ap (λ x. x.0) is_entry in
      let same_version : version s.mem nd ≡ v = ap (λ x. x.1) is_entry in
      n (
        ground (
          arith,
          e,
          a,
          b,
          same_key,
          same_version,
          o.eq_left key' key (get_key s.mem p),
          o.eq_left key' (get_key s.mem p) key,
          o.eq_left key' key key,
          o.eq_left key key' (get_key s.mem p),
          o.flip key' key,
          o.flip key' (get_key s.mem p),
        ))

  pub latest-insert_at :
      (v' : ℕ) (key' : Bytes) (ps : List ℕ)
      → All (λ q. order s v key q ≢ eq) ps
      → latest s.cmp v' key' (contents s (insert_at (order s v key) nd ps))
        ≡ latest s.cmp v' key' (item s nd ∷ contents s ps)
  unfolding contents insert_at
  latest-insert_at v' key' [] a = refl
  latest-insert_at v' key' (p ∷ ps) a = elim (gt-cases (order s v key p)) [
    | inl pass ↦ rw (insert_at_pass (order s v key) 0 nd 0 p ps pass) (
        latest-cons s.cmp v' key' (item s p) (contents s (insert_at (order s v key) nd ps))
          (item s nd ∷ contents s ps) (latest-insert_at v' key' ps a.1)
        ∙ latest-swap s.cmp v' key' (item s p) (item s nd) (contents s ps) (differs v' key' p a.0))
    | inr stop ↦ rw (insert_at_stop (order s v key) 0 nd 0 p ps stop) refl
  ]

contents-links :
    {A T : Type 0} ⦃t : Trailer T⦄ (s : SkipMap A T) (link : ℕ → Link) (ps : List ℕ)
    → contents (record s { mem = record (s.mem) { link = link } }) ps ≡ contents s ps
unfolding contents get_key version get_bytes key_size get_trailer get_trailer_by_offset read_value
    value_behind
contents-links s link [] = refl
contents-links s link (p ∷ ps) = ap (λ l. item s p ∷ l) (contents-links s link ps)

module _ {A T : Type 0} ⦃t : Trailer T⦄ (s : SkipMap A T) (v : ℕ) (key : Bytes) (height : ℕ → ℕ)
    (N : ℕ → Type 0) (nodes : Nodes height N) (nd h : ℕ) (levels : ℕ → List ℕ)
    (is : IsSkipList s levels) (h_pos : 0 < h) (h_le : h ≤ s.meta.height)
    (is_entry : entry s nd ≡ (key, v)) (absent : All (λ q. order s v key q ≢ eq) (levels 0))
    (sound : (k : ℕ) → k < s.opts.max_height → IsSound height N nd s.head s.tail k (levels k))
    (new : (k : ℕ) → k < h → IsNew height N nd s.head s.tail k (levels k)) where
  -- What a reader gets of the map with the node linked in.
  pub lookup-relinked :
      (v' : ℕ) (key' : Bytes) (reads : ℕ)
      → s.meta.height + length (levels 0) < reads
      → Option.map
          (value_of s v' key')
          (get (relinked (order s v key) nd levels h 0 s) reads v' key')
        ≡ some (lookup s.cmp v' key' (item s nd ∷ contents s (levels 0)))
  unfolding lookup
  lookup-relinked v' key' reads b =
      let c = order s v key in
      let s' = relinked c nd levels h 0 s in
      let rest : s' ≡ record s { mem = record (s.mem) { link = s'.mem.link } } =
        relinked_rest c nd levels h 0 s in
      let low : ltb 0 h ≡ true = ground arith in
      let base : with_node c nd h levels 0 ≡ insert_at c nd (levels 0) = rw low refl in
      let kept : s'.meta.height ≡ s.meta.height = ap (λ (x : SkipMap A T). x.meta.height) rest in
      let longer : length (with_node c nd h levels 0) ≡ length (levels 0) + 1 =
        ap length base ∙ length-insert_at c nd (levels 0) in
      let entries : contents s' (with_node c nd h levels 0)
          ≡ contents s (insert_at c nd (levels 0)) =
        ap (contents s') base
        ∙ ap (λ (x : SkipMap A T). contents x (insert_at c nd (levels 0))) rest
        ∙ contents-links s (s'.mem.link) (insert_at c nd (levels 0)) in
      let same_cmp : s'.cmp ≡ s.cmp = ap (λ (x : SkipMap A T). x.cmp) rest in
      let found : latest s'.cmp v' key' (contents s' (with_node c nd h levels 0))
          ≡ latest s.cmp v' key' (item s nd ∷ contents s (levels 0)) =
        ap (latest s'.cmp v' key') entries
        ∙ ap (λ (x : Comparator). latest x v' key' (contents s (insert_at c nd (levels 0))))
            same_cmp
        ∙ latest-insert_at s v key nd is.ordered is_entry v' key' (levels 0) absent in
      get-lookup s' v' key' reads
        (relinked-IsSkipList s v key height N nodes nd h levels is h_pos h_le is_entry absent sound
          new)
        (omega (arith, kept, longer, b))
      ∙ ap
          (λ (r : Option Item).
            some (elim r as (λ _. Option Bytes) [ none ↦ none | some e ↦ e.value ]))
          found

module _ {A T E F : Type 0} ⦃t : Trailer T⦄ (ar : Arena A E) (fuel : ℕ) (meanwhile : Option ℕ)
    (trailer : T) (value_size : ℕ) (f : VacantBuffer → Filled F) (upserts : Bool) (s : SkipMap A T)
    (v : ℕ) (key : Bytes) (height : ℕ → ℕ) (N : ℕ → Type 0) (nodes : Nodes height N) (nd h : ℕ)
    (levels : ℕ → List ℕ) (spl : ℕ → Splice) (g : Linking) where
  -- Linking refines the insertion into a collection of entries. Under the conditions of
  -- `link_levels-IsSkipList`, with fuel for one entry more than the map has, the loop of `update` over
  -- the levels succeeds, and every reader, of whichever key and version, gets of the map that it leaves
  -- what the lookup gives in the old entries with the new one beside them.
  pub link_levels-lookup :
      (v' : ℕ) (key' : Bytes) (reads : ℕ)
      → IsSkipList s levels
      → 0 < h
      → h ≤ s.meta.height
      → entry s nd ≡ (key, v)
      → All (λ q. order s v key q ≢ eq) (levels 0)
      → ((k : ℕ) → k < s.opts.max_height → IsSound height N nd s.head s.tail k (levels k))
      → ((k : ℕ) → k < h → IsNew height N nd s.head s.tail k (levels k))
      → ((k : ℕ) → k < h → IsSplice (order s v key) s.head s.tail (levels k) (spl k))
      → s.meta.height + length (levels 0) < reads
      → (link_levels ar (suc fuel) meanwhile trailer value_size f upserts nd spl h 0 g s
          ≡ ok (linked g) (relinked (order s v key) nd levels h 0 s))
        × (Option.map
              (value_of s v' key')
              (get (relinked (order s v key) nd levels h 0 s) reads v' key')
            ≡ some (lookup s.cmp v' key' (item s nd ∷ contents s (levels 0))))
  link_levels-lookup v' key' reads is h_pos h_le is_entry absent sound new splices b = (
    (link_levels-IsSkipList ar fuel meanwhile trailer value_size f upserts s v key height N nodes nd
        h levels spl g is h_pos h_le is_entry absent sound new splices).0,
    lookup-relinked s v key height N nodes nd h levels is h_pos h_le is_entry absent sound new v'
        key' reads b,
  )
