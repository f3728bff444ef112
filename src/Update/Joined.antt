-- ===== src/Update/Joined.antt =====
-- A new node that has been stored in free memory, linked into the map: the map is well formed and
-- laid out as before, and it has one entry more.
use mathlib.Core.Option
use mathlib.Core.Path.{fun_ext}
use skl.Prelude.{
  ℕ, zero, suc, ◌+◌, ◌≤◌, ◌<◌, ◌≡◌, ◌≢◌, inl, inr, refl, sym, ap, ◌∙◌, subst, Bool, Option, some,
  List, ◌∷◌, Ordering, eq, arith, length, ltb, true, Bool-cases,
}
use skl.Compare.{Bytes, Trailer}
use skl.Node.{Memory, key_size}
use skl.Spec.{Item, lookup}
use skl.Meta.{Meta, raise_height}
use skl.Meta.Bounds.{raise_height-max}
use skl.Types.{VacantBuffer}
use skl.Run.{ok}
use skl.Arena.{Arena}
use skl.Alloc.{Filled}
use skl.Alloc.Kept.{IsUsed, IsUsed-kept, item-kept}
use skl.Race.Level.{Member-All}
use skl.Alloc.Stored.{IsStored}
use skl.Splice.{Splice}
use skl.Splice.Bracket.{All-imp, All-zip, All-Sub, insert_at, All-insert_at, length-insert_at}
use skl.SkipMap.{SkipMap, entry, order}
use skl.SkipMap.Shape.{All}
use skl.SkipMap.Invariant.{IsSkipList}
use skl.SkipMap.Get.{get}
use skl.SkipMap.Contents.{item, contents, value_of, get-lookup}
use skl.Update.{Linking, linked, link_levels}
use skl.Update.Link.{Nodes}
use skl.Update.Levels.{IsSound, IsNew, insert_at-IsSound}
use skl.Update.Loop.{relinked, relinked_rest, IsSplice}
use skl.Update.Sorted.{with_node, relinked-IsSkipList}
use skl.Update.Insertion.{link_levels-IsSkipList}
use skl.Update.Contents.{lookup-relinked}
use skl.Update.Layout.{
  IsLayout, IsSound-for, WithNode, raised, WithNode-Nodes, WithNode-IsSound, WithNode-IsNew,
  WithNode-held,
}
use skl.Update.Renewed.{
  IsGrown, item-links, renewed, bracket-same, insert_at-same, contents-same, orders_same,
  renewed-IsSkipList, counters-IsSkipList,
}

pub All-level :
    {A T : Type 0} ⦃t : Trailer T⦄ {s : SkipMap A T} {levels : ℕ → List ℕ} (P : ℕ → Type 0)
    → IsSkipList s levels
    → All P (levels 0)
    → (k : ℕ) → k < s.opts.max_height
    → All P (levels k)
All-level P is a zero l = a
All-level {levels} P is a (suc k) l =
    All-Sub P (levels (suc k)) (levels k) (is.nested k l) (All-level P is a k (omega arith))

module _ {A T : Type 0} ⦃t : Trailer T⦄ (free : A → ℕ → Bool) (s : SkipMap A T) (v : ℕ)
    (key : Bytes) (height : ℕ → ℕ) (N : ℕ → Type 0) (levels : ℕ → List ℕ) (is : IsSkipList s levels)
    (lay : IsLayout (free s.arena) height N s levels)
    (absent : All (λ q. order s v key q ≢ eq) (levels 0)) (a : A) (m : Memory T) (nd h : ℕ)
    (value : Option Bytes) (h_pos : 1 ≤ h) (h_le : h ≤ s.opts.max_height)
    (st : IsStored
      (free s.arena)
      (free a)
      s
      (record (renewed s (raise_height h s.meta) a m) { meta = s.meta })
      nd
      h
      (record { key = key; version = v; value = value })) where
  abbrev pub with_entry : SkipMap A T
  with_entry = renewed s (raise_height h s.meta) a m

  abbrev new_item : Item
  new_item = record { key = key; version = v; value = value }

  same : All (λ p. item with_entry p ≡ item s p) (levels 0)
  same =
      All-imp (IsUsed (free s.arena) s.mem) (λ p. item with_entry p ≡ item s p) (levels 0)
        (λ p u. item-kept (free s.arena) st.kept p u) lay.used

  is' : IsSkipList with_entry levels
  is' =
      renewed-IsSkipList s (raise_height h s.meta) a m is (grind (arith, raise_height-max h s.meta))
        (grind (arith, raise_height-max h s.meta, is.height_le, h_le)) same

  abbrev pub place : ℕ → Ordering
  place = order with_entry v key

  is_entry : entry with_entry nd ≡ (key, v)
  unfolding entry
  is_entry = ap (λ (i : Item). (i.key, i.version)) st.is_item

  absent' : All (λ q. place q ≢ eq) (levels 0)
  absent' =
      All-imp (λ q. (place q ≡ order s v key q) × (order s v key q ≢ eq)) (λ q. place q ≢ eq)
        (levels 0) (λ q b e. b.1 (sym b.0 ∙ e))
        (All-zip (λ q. place q ≡ order s v key q) (λ q. order s v key q ≢ eq) (levels 0)
          (orders_same s (raise_height h s.meta) a m (levels 0) same v key) absent)

  nodes' : Nodes (raised nd h height) (WithNode nd N)
  nodes' = WithNode-Nodes (free s.arena) height N nd h lay.nodes lay.held st.was_free

  sound' :
      (k : ℕ)
      → k < s.opts.max_height
      → IsSound (raised nd h height) (WithNode nd N) nd s.head s.tail k (levels k)
  sound' k l =
      WithNode-IsSound (free s.arena) height N nd h lay.nodes lay.held st.was_free (lay.sound k l)

  new' : (k : ℕ) → k < h → IsNew (raised nd h height) (WithNode nd N) nd s.head s.tail k (levels k)
  new' k l =
      WithNode-IsNew (free s.arena) height N nd h lay.nodes lay.held st.was_free
        (lay.sound k (omega (arith, h_le))) l lay.null_held

  tall_enough : h ≤ with_entry.meta.height
  tall_enough = grind (arith, raise_height-max h s.meta)

  splices' :
      (spl : ℕ → Splice)
      → ((k : ℕ) → k < h → IsSplice (order s v key) s.head s.tail (levels k) (spl k))
      → (k : ℕ) → k < h
      → IsSplice place s.head s.tail (levels k) (spl k)
  splices' spl found k l =
      let at = bracket-same (order s v key) place s.tail s.head (levels k) (
        All-level (λ q. place q ≡ order s v key q) is
          (orders_same s (raise_height h s.meta) a m (levels 0) same v key) k
          (omega (arith, h_le))) in
      elim (found k l) [
        | inl e ↦ inl (e.0 ∙ sym (ap (λ b. b.0) at), e.1 ∙ sym (ap (λ b. b.1) at))
        | inr e ↦ inr e
      ]

  abbrev pub with_links : SkipMap A T
  with_links = relinked place nd levels h 0 with_entry

  -- The levels are linked.
  pub link_levels-joined :
      {E F : Type 0} (ar : Arena A E) (fuel : ℕ) (meanwhile : Option ℕ) (trailer : T)
      (value_size : ℕ) (f : VacantBuffer → Filled F) (upserts : Bool) (spl : ℕ → Splice)
      (g : Linking)
      → ((k : ℕ) → k < h → IsSplice (order s v key) s.head s.tail (levels k) (spl k))
      → link_levels ar (suc fuel) meanwhile trailer value_size f upserts nd spl h 0 g with_entry
        ≡ ok (linked g) with_links
  link_levels-joined ar fuel meanwhile trailer value_size f upserts spl g found =
      (link_levels-IsSkipList ar fuel meanwhile trailer value_size f upserts with_entry v key
        (raised nd h height) (WithNode nd N) nodes' nd h levels spl g is' (omega arith) tall_enough
        is_entry absent' sound' new' (splices' spl found)).0

  with_links-IsSkipList : IsSkipList with_links (with_node place nd h levels)
  with_links-IsSkipList =
      relinked-IsSkipList with_entry v key (raised nd h height) (WithNode nd N) nodes' nd h levels
        is' (omega arith) tall_enough is_entry absent' sound' new'

  rest :
      with_links
      ≡ record with_entry { mem = record (with_entry.mem) { link = with_links.mem.link } }
  rest = relinked_rest place nd levels h 0 with_entry

  pub kept_height : with_links.meta.height ≡ with_entry.meta.height
  kept_height = ap (λ (x : SkipMap A T). x.meta.height) rest

  pub kept_meta : with_links.meta ≡ raise_height h s.meta
  kept_meta = ap (λ (x : SkipMap A T). x.meta) rest

  pub kept_arena : with_links.arena ≡ a
  kept_arena = ap (λ (x : SkipMap A T). x.arena) rest

  base : with_node place nd h levels 0 ≡ insert_at place nd (levels 0)
  base = let low : ltb 0 h ≡ true = ground arith in rw low refl

  -- The place is that of the map as it was.
  pub with_node-same : with_node place nd h levels ≡ with_node (order s v key) nd h levels
  with_node-same = fun_ext same_level
    where
      same_level : (k : ℕ) → with_node place nd h levels k ≡ with_node (order s v key) nd h levels k
      same_level k = elim (Bool-cases (ltb k h)) [
        | inl low ↦ rw low (
            insert_at-same (order s v key) place nd (levels k) (
              All-level (λ q. place q ≡ order s v key q) is
                (orders_same s (raise_height h s.meta) a m (levels 0) same v key) k
                (let below : k < h = ground arith in omega (arith, h_le, below))))
        | inr high ↦ rw high refl
      ]

  -- The counters may change, but for the height.
  module _ (counters : Meta) (same_height : counters.height ≡ with_entry.meta.height) where
    abbrev pub finished : SkipMap A T
    finished = record with_links { meta = counters }

    pub finished-IsSkipList : IsSkipList finished (with_node place nd h levels)
    finished-IsSkipList =
        counters-IsSkipList with_links counters with_links-IsSkipList
          (same_height ∙ sym kept_height)

    -- What readers get of the finished map.
    pub finished-lookup :
        (v' : ℕ) (key' : Bytes) (reads : ℕ)
        → s.opts.max_height + length (levels 0) < reads
        → Option.map (value_of s v' key') (get finished reads v' key')
          ≡ some (lookup s.cmp v' key' (new_item ∷ contents s (levels 0)))
    finished-lookup v' key' reads b =
        let fits : with_entry.meta.height + length (levels 0) < reads =
          omega (arith, is'.height_le, b) in
        let longer : length (with_node place nd h levels 0) ≡ length (levels 0) + 1 =
          ap length base ∙ length-insert_at place nd (levels 0) in
        let linked_in =
          lookup-relinked with_entry v key (raised nd h height) (WithNode nd N) nodes' nd h levels
            is' (omega arith) tall_enough is_entry absent' sound' new' v' key' reads fits in
        let listed =
          get-lookup with_links v' key' reads with_links-IsSkipList
            (omega (arith, kept_height, longer, fits)) in
        let entries : contents finished (with_node place nd h levels 0)
            ≡ contents with_links (with_node place nd h levels 0) =
          contents-same with_links finished (with_node place nd h levels 0) (
            Member-All (λ p. item finished p ≡ item with_links p) (with_node place nd h levels 0)
              (λ p _. refl)) in
        let items : (item with_entry nd ∷ contents with_entry (levels 0))
            ≡ (new_item ∷ contents s (levels 0)) =
          ground (arith, st.is_item, contents-same s with_entry (levels 0) same) in
        get-lookup finished v' key' reads finished-IsSkipList
          (omega (arith, same_height, longer, fits))
        ∙ ap (λ es. some (lookup with_links.cmp v' key' es)) entries
        ∙ sym listed
        ∙ linked_in
        ∙ ap (λ es. some (lookup s.cmp v' key' es)) items

    pub finished-IsGrown : IsGrown s finished (levels 0) nd new_item
    finished-IsGrown = record {
      cmp_kept = ap (λ (x : SkipMap A T). x.cmp) rest;
      opts_kept = ap (λ (x : SkipMap A T). x.opts) rest;
      is_item = as_before nd ∙ st.is_item;
      items_kept =
          All-imp (λ p. item with_entry p ≡ item s p) (λ p. item finished p ≡ item s p) (levels 0)
            (λ p e. as_before p ∙ e) same;
    }
      where
        as_before : (p : ℕ) → item finished p ≡ item with_entry p
        as_before p =
            ap (λ (x : SkipMap A T). item x p) rest ∙ item-links with_entry (with_links.mem.link) p

    -- The finished map is laid out as before, with the new node among its nodes.
    pub finished-IsLayout :
        IsLayout
          (free a)
          (raised nd h height)
          (WithNode nd N)
          finished
          (with_node place nd h levels)
    unfolding key_size
    finished-IsLayout = record {
      nodes = nodes';
      held =
          WithNode-held (free s.arena) height N nd h lay.nodes lay.held st.was_free (free a)
            st.still_free st.outside;
      null_held = elim (Bool-cases (free a 0)) [
        | inl f ↦ cc (st.still_free 0 f, lay.null_held)
        | inr n ↦ n
      ];
      sound = λ k l.
          (subst
            (λ (x : SkipMap A T).
              IsSound (raised nd h height) (WithNode nd N) 0 x.head x.tail k
                (with_node place nd h levels k))
            (sym rest)
            (IsSound-for nd 0
              (sound_level k (subst (λ (x : SkipMap A T). k < x.opts.max_height) rest l))));
      used =
          subst (λ (x : SkipMap A T). All (IsUsed (free a) x.mem) (with_node place nd h levels 0))
            (sym rest) (subst (All (IsUsed (free a) linked_mem)) (sym base) all_used);
    }
      where
        linked_mem : Memory T
        linked_mem = record (with_entry.mem) { link = with_links.mem.link }

        sound_level :
            (k : ℕ)
            → k < s.opts.max_height
            → IsSound
                (raised nd h height)
                (WithNode nd N)
                nd
                s.head
                s.tail
                k
                (with_node place nd h levels k)
        sound_level k l = elim (Bool-cases (ltb k h)) [
          | inl low ↦
              let below : k < h = ground arith in
              rw low (
                insert_at-IsSound (raised nd h height) (WithNode nd N) nodes' nd place (sound' k l)
                  (new' k below))
          | inr high ↦ rw high (sound' k l)
        ]

        relink : (p : ℕ) → IsUsed (free a) with_entry.mem p → IsUsed (free a) linked_mem p
        relink p u = record {
          node_used = u.node_used;
          trailer_used = u.trailer_used;
          key_used = u.key_used;
          value_used = u.value_used;
        }

        all_used : All (IsUsed (free a) linked_mem) (insert_at place nd (levels 0))
        all_used =
            All-insert_at place (IsUsed (free a) linked_mem) nd (levels 0) (relink nd st.used) (
              All-imp (IsUsed (free s.arena) s.mem) (IsUsed (free a) linked_mem) (levels 0)
                (λ p u. relink p (IsUsed-kept (free s.arena) st.kept p u (free a) st.still_free))
                lay.used)
