-- ===== src/Update/Inserted.antt =====
-- `update` of src/map.rs from its search to its answer, for an entry that the map does not hold yet.
use mathlib.Core.Option
use skl.Prelude.{
  ℕ, suc, ◌+◌, ◌≤◌, ◌<◌, ◌^◌, ◌≡◌, ◌≢◌, refl, sym, ap, ◌∙◌, subst, Bool, true, false, Option, some,
  none, List, ◌∷◌, eq, arith, length,
}
use skl.Compare.{Bytes, Trailer}
use skl.Node.{Memory, get_bytes, remove}
use skl.Spec.{Item, lookup}
use skl.Meta.{Meta, increase_len, update_max_version, update_min_version, raise_height}
use skl.Types.{VacantBuffer, Key, as_ref, is_remove}
use skl.Run.{Run, Failure, ok, err, panicked, out_of_fuel}
use skl.Run.Ends.{Ends}
use skl.Arena.{Arena}
use skl.Arena.Laws.{IsArena, NoneFreed}
use skl.Alloc.{Filled, Deallocator}
use skl.Alloc.Kept.{IsKept, IsUsed, Occupied, item-kept}
use skl.Alloc.Filling.{Fills}
use skl.Alloc.Stored.{IsStored}
use skl.Splice.{Pointer, Inserter, inserter, find_splice, Found}
use skl.Splice.Shared.{Offers, find_splice-Offers}
use skl.SkipMap.{SkipMap, order}
use skl.SkipMap.Shape.{All}
use skl.Splice.Bracket.{All-imp}
use skl.SkipMap.Invariant.{IsSkipList}
use skl.SkipMap.Get.{get}
use skl.SkipMap.Contents.{item, contents, value_of}
use skl.Upsert.{UpdateOk, on_fail}
use skl.Update.{
  update, insert_new, new_node, stored_key, keep_splices, Linking, linked, link_levels,
}
use skl.Update.Loop.{IsSplice}
use skl.Update.New.{tall, height_bounds, IsMade, IsUntouched, new_node-occupied, new_node-pointer}
use skl.Update.Layout.{IsLayout, WithNode, raised}
use skl.Update.Sorted.{with_node}
use skl.Update.Renewed.{renewed, IsGrown, IsStill}
use skl.Update.Unchanged.{unchanged-IsSkipList, unchanged-lookup, unchanged-IsLayout}
use skl.Update.Joined.{
  All-level, with_links, with_node-same, kept_height, kept_arena, kept_meta, link_levels-joined,
  finished-IsGrown, finished-lookup, finished-IsSkipList, finished-IsLayout,
}
use skl.Update.Absent.{find_splice-absent, chains}

-- The counters after an insertion.
abbrev pub counted : ℕ → Meta → Meta
counted v m = update_min_version v (update_max_version v (increase_len m))

counted-height : (v : ℕ) (m : Meta) → (counted v m).height ≡ m.height
unfolding update_min_version update_max_version increase_len
counted-height v m = refl

module _ {A T E F : Type 0} ⦃t : Trailer T⦄ (ar : Arena A E) (fuel : ℕ) (meanwhile : Option ℕ)
    (probabilities : ℕ → ℕ) (rnd : ℕ) (trailer : T) (value_size : ℕ) (f : VacantBuffer → Filled F)
    (upserts : Bool) (key : Key) (fk : Option Pointer) (ins : Inserter) (s : SkipMap A T) where
  abbrev run : Run (SkipMap A T) F E (UpdateOk T × Inserter)
  run = insert_new ar fuel meanwhile probabilities rnd trailer value_size f upserts key fk ins s

  insert_new-linked :
      {nd h : ℕ} {d : Deallocator} {s₁ s₂ : SkipMap A T}
      → new_node ar probabilities rnd (stored_key fk key) trailer value_size f s ≡ ok (nd, h, d) s₁
      → let g : Linking = record {
        k = stored_key fk key;
        deallocator = d;
        invalid_data_splice = false;
      } in
        link_levels ar fuel meanwhile trailer value_size f upserts nd ins.spl h 0 g s₁
          ≡ ok (linked g) s₂
        → run
          ≡ ok
              (UpdateOk.old none, keep_splices nd h false ins)
              (record s₂ { meta = counted (t.version trailer) s₂.meta })
  unfolding insert_new
  insert_new-linked n l = ground arith

  insert_new-failed :
      {e : Failure F E} {s₁ : SkipMap A T}
      → new_node ar probabilities rnd (stored_key fk key) trailer value_size f s ≡ err e s₁
      → run ≡ err e (on_fail ar (stored_key fk key) s₁)
  unfolding insert_new
  insert_new-failed n = ground arith

update-absent :
    {A T E F : Type 0} ⦃t : Trailer T⦄ (ar : Arena A E) (fuel : ℕ) (meanwhile : Option ℕ)
    (probabilities : ℕ → ℕ) (rnd : ℕ) (trailer : T) (value_size : ℕ) (f : VacantBuffer → Filled F)
    (upserts : Bool) (key : Bytes) (s : SkipMap A T) (r : Found s (t.version trailer) key)
    → find_splice s (t.version trailer) key fuel inserter true ≡ some r
    → r.0 ≡ false
    → update ar fuel meanwhile probabilities rnd trailer value_size f upserts
        (Key.occupied key)
        inserter
        s
      ≡ insert_new ar fuel meanwhile probabilities rnd trailer value_size f upserts
          (Key.occupied key)
          r.1
          r.3
          s
unfolding update as_ref
update-absent ar fuel meanwhile probabilities rnd trailer value_size f upserts key s r e miss =
    ground arith

module _ {A T : Type 0} ⦃t : Trailer T⦄ (free : A → ℕ → Bool) (s : SkipMap A T) (height : ℕ → ℕ)
    (N : ℕ → Type 0) (levels : ℕ → List ℕ) (v' : ℕ) (key' : Bytes) (reads : ℕ) where
  -- what a reader gets of a map
  abbrev pub Reads : SkipMap A T → List Item → Type 0
  Reads s' items =
      Option.map (value_of s v' key') (get s' reads v' key') ≡ some (lookup s.cmp v' key' items)

  -- The new entry is in the map, in a node of that height.
  abbrev pub HasEntry : (h : ℕ) → Item → SkipMap A T → Type 0
  HasEntry h e s' =
      Reads s' (e ∷ contents s (levels 0))
      × ((nd : ℕ) × IsSkipList s' (with_node (order s e.version e.key) nd h levels)
          × IsLayout (free s'.arena) (raised nd h height) (WithNode nd N) s'
              (with_node (order s e.version e.key) nd h levels)
          × IsGrown s s' (levels 0) nd e
          × (s'.meta ≡ counted e.version (raise_height h s.meta)))

  -- The map is as it was.
  abbrev pub IsSame : SkipMap A T → Type 0
  IsSame s' =
      Reads s' (contents s (levels 0))
      × IsSkipList s' levels
      × IsLayout (free s'.arena) height N s' levels
      × IsStill s s' (levels 0)

  -- So it is where only free memory has been written.
  pub untouched-IsSame :
      IsSkipList s levels
      → IsLayout (free s.arena) height N s levels
      → s.opts.max_height + length (levels 0) < reads
      → (s' : SkipMap A T) → IsKept (free s.arena) s s'
      → NoneFreed free s.arena s'.arena
      → IsSame s'
  untouched-IsSame is lay enough s' k n = (
    unchanged-lookup free s s' height N levels is lay k v' key' reads enough,
    unchanged-IsSkipList free s s' height N levels is lay k,
    unchanged-IsLayout free s s' height N levels is lay k n,
    record {
      cmp_kept = ap (λ (x : SkipMap A T). x.cmp) k.rest;
      opts_kept = ap (λ (x : SkipMap A T). x.opts) k.rest;
      meta_kept = ap (λ (x : SkipMap A T). x.meta) k.rest;
      items_kept =
          All-imp (IsUsed (free s.arena) s.mem) (λ p. item s' p ≡ item s p) (levels 0)
            (λ p u. item-kept (free s.arena) k p u) lay.used;
    },
  )

module _ {A T E F : Type 0} ⦃t : Trailer T⦄ (free : A → ℕ → Bool) (ar : Arena A E)
    (laws : IsArena free ar) (single : t.size_of ≡ 0 → (a b : T) → a ≡ b) (fuel : ℕ)
    (meanwhile : Option ℕ) (probabilities : ℕ → ℕ) (rnd : ℕ) (trailer : T) (key value : Bytes)
    (key_lt : length key < 2 ^ 27) (value_lt : length value < remove) (f : VacantBuffer → Filled F)
    (fills : Fills f value) (upserts : Bool) (s : SkipMap A T)
    (exact : (a b : Bytes) → s.cmp.cmp a b ≡ eq → a ≡ b) (height : ℕ → ℕ) (N : ℕ → Type 0)
    (levels : ℕ → List ℕ) (is : IsSkipList s levels)
    (lay : IsLayout (free s.arena) height N s levels)
    (absent : All (λ q. order s (t.version trailer) key q ≢ eq) (levels 0))
    (enough : length (levels 0) ≤ fuel) where
  abbrev v : ℕ
  v = t.version trailer

  abbrev h : ℕ
  h = tall probabilities rnd s

  abbrev new_item : Item
  new_item = record { key = key; version = v; value = some value }

  max_pos : 1 ≤ s.opts.max_height
  max_pos = omega (arith, is.height_pos, is.height_le)

  tall_bounds : (1 ≤ h) × (h ≤ s.opts.max_height)
  tall_bounds = height_bounds probabilities rnd s max_pos

  stored_key-IsMade :
      (fk : Option Pointer)
      → Offers (free s.arena) s.mem key fk
      → Ends (IsMade free s h new_item) (IsUntouched free s) (
          new_node {E = E} ar probabilities rnd
            (stored_key fk (Key.occupied key))
            trailer
            (length value)
            f
            s)
  unfolding stored_key is_remove
  stored_key-IsMade none o =
      new_node-occupied free ar laws single probabilities rnd s max_pos is.max_height_lt trailer key
        value key_lt value_lt f fills
  stored_key-IsMade (some p) o =
      subst
        (λ n. Ends (IsMade free s h new_item) (IsUntouched free s) (
          new_node {E = E} ar probabilities rnd (Key.pointer p.offset n) trailer (length value) f
            s))
        (sym o.sized)
        (new_node-pointer free ar laws single probabilities rnd s max_pos is.max_height_lt trailer
          key value key_lt value_lt f fills p.offset
          (subst (Occupied (free s.arena) p.offset) o.sized o.in_use)
          (subst (λ n. get_bytes s.mem p.offset n ≡ key) o.sized o.reads))

  -- Nothing of the key has to be given back.
  on_fail_nothing :
      (fk : Option Pointer) (s' : SkipMap A T)
      → on_fail ar (stored_key fk (Key.occupied key)) s' ≡ s'
  unfolding stored_key is_remove on_fail
  on_fail_nothing none s' = refl
  on_fail_nothing (some p) s' = refl

  abbrev levels' : ℕ → ℕ → List ℕ
  levels' nd = with_node (order s v key) nd h levels

  module _ (v' : ℕ) (key' : Bytes) (reads : ℕ)
      (reads_enough : s.opts.max_height + length (levels 0) < reads) where
    abbrev Inserted : UpdateOk T × Inserter → SkipMap A T → Type 0
    Inserted r s' =
        (r.0 ≡ UpdateOk.old none) × HasEntry free s height N levels v' key' reads h new_item s'

    abbrev Refused : Failure F E → SkipMap A T → Type 0
    Refused e s' = IsSame free s height N levels v' key' reads s'

    module _ (fk : Option Pointer) (ins : Inserter)
        (splices : (k : ℕ)
          → k < s.opts.max_height
          → IsSplice (order s v key) s.head s.tail (levels k) (ins.spl k)) where
      abbrev answer : Run (SkipMap A T) F E (UpdateOk T × Inserter)
      answer =
          insert_new ar (suc fuel) meanwhile probabilities rnd trailer (length value) f upserts
            (Key.occupied key) fk ins s

      abbrev node_run : Run (SkipMap A T) F E (ℕ × ℕ × Deallocator)
      node_run =
          new_node ar probabilities rnd (stored_key fk (Key.occupied key)) trailer (length value) f
            s

      module _ (a : A) (m : Memory T) (nd : ℕ) (d : Deallocator)
          (st : IsStored
            (free s.arena)
            (free a)
            s
            (record (renewed s (raise_height h s.meta) a m) { meta = s.meta })
            nd
            h
            new_item) where
        abbrev linked_in : SkipMap A T
        linked_in =
            with_links free s v key height N levels is lay absent a m nd h (some value)
              tall_bounds.0 tall_bounds.1 st

        abbrev done : SkipMap A T
        done = record linked_in { meta = counted v linked_in.meta }

        same_height : (counted v linked_in.meta).height ≡ (raise_height h s.meta).height
        same_height =
            counted-height v linked_in.meta
            ∙ kept_height free s v key height N levels is lay absent a m nd h (some value)
                tall_bounds.0 tall_bounds.1 st

        -- With the node stored it is linked in.
        stored-Inserted :
            node_run ≡ ok (nd, h, d) (renewed s (raise_height h s.meta) a m)
            → Ends Inserted Refused answer
        stored-Inserted e =
            let g : Linking = record {
              k = stored_key fk (Key.occupied key);
              deallocator = d;
              invalid_data_splice = false;
            } in
            let same_place =
              with_node-same free s v key height N levels is lay absent a m nd h (some value)
                tall_bounds.0 tall_bounds.1 st in
            subst (Ends Inserted Refused)
              (sym (
                insert_new-linked ar (suc fuel) meanwhile probabilities rnd trailer (length value) f
                  upserts (Key.occupied key) fk ins s e
                  (link_levels-joined free s v key height N levels is lay absent a m nd h
                    (some value) tall_bounds.0 tall_bounds.1 st ar fuel meanwhile trailer
                    (length value) f upserts ins.spl g
                    (λ k l. splices k (omega (arith, tall_bounds.1))))))
              (
                refl,
                (
                  finished-lookup free s v key height N levels is lay absent a m nd h (some value)
                      tall_bounds.0 tall_bounds.1 st (counted v linked_in.meta) same_height v' key'
                      reads reads_enough,
                  (
                    nd,
                    subst (IsSkipList done) same_place (
                        finished-IsSkipList free s v key height N levels is lay absent a m nd h
                          (some value) tall_bounds.0 tall_bounds.1 st (counted v linked_in.meta)
                          same_height),
                    subst
                        (λ x.
                          IsLayout (free x) (raised nd h height) (WithNode nd N) done (levels' nd))
                        (sym (
                          kept_arena free s v key height N levels is lay absent a m nd h
                            (some value) tall_bounds.0 tall_bounds.1 st))
                        (subst (IsLayout (free a) (raised nd h height) (WithNode nd N) done)
                          same_place
                          (finished-IsLayout free s v key height N levels is lay absent a m nd h
                            (some value) tall_bounds.0 tall_bounds.1 st (counted v linked_in.meta)
                            same_height)),
                    finished-IsGrown free s v key height N levels is lay absent a m nd h
                        (some value) tall_bounds.0 tall_bounds.1 st (counted v linked_in.meta)
                        same_height,
                    ap (counted v) (
                        kept_meta free s v key height N levels is lay absent a m nd h (some value)
                          tall_bounds.0 tall_bounds.1 st),
                  ),
                ),
              )

      node-Inserted :
          (r : Run (SkipMap A T) F E (ℕ × ℕ × Deallocator))
          → node_run ≡ r
          → Ends (IsMade free s h new_item) (IsUntouched free s) r
          → Ends Inserted Refused answer
      node-Inserted (ok (nd, h', d) s₁) e p =
          let same : s₁ ≡ renewed s (raise_height h s.meta) s₁.arena s₁.mem =
            ap (λ (x : SkipMap A T). record x { meta = s₁.meta }) p.2.kept.rest
            ∙ ap (λ c. renewed s c s₁.arena s₁.mem) p.1 in
          stored-Inserted s₁.arena s₁.mem nd d
            (subst
              (λ (x : SkipMap A T).
                IsStored (free s.arena) (free s₁.arena) s (record x { meta = s.meta }) nd h
                  new_item)
              same p.2)
            (e ∙ ap (λ z. ok (nd, z, d) s₁) p.0 ∙ ap (λ x. ok (nd, h, d) x) same)
      node-Inserted (err x s₁) e u =
          subst (Ends Inserted Refused)
            (sym (
              insert_new-failed ar (suc fuel) meanwhile probabilities rnd trailer (length value) f
                upserts (Key.occupied key) fk ins s e))
            (subst (Refused x) (sym (on_fail_nothing fk s₁)) (
              untouched-IsSame free s height N levels v' key' reads is lay reads_enough s₁ u.0 u.1))
      node-Inserted panicked e p = elim p [ ]
      node-Inserted out_of_fuel e p = elim p [ ]

    -- `update` of an entry that is new ends with the entry in the map, or with an error and the map as it
    -- was.
    pub update-Ends : Ends Inserted Refused (
        update ar
          (suc fuel)
          meanwhile
          probabilities
          rnd
          trailer
          (length value)
          f
          upserts
          (Key.occupied key)
          inserter
          s)
    update-Ends =
        let (r, e, miss, splices) =
          find_splice-absent s v key levels is absent (suc fuel) (omega arith) in
        let offers =
          find_splice-Offers (free s.arena) s v key exact (omega arith) (suc fuel) levels
            (chains s v key levels is absent (suc fuel) (omega arith))
            (λ k l.
              All-level (IsUsed (free s.arena) s.mem) is lay.used k (omega (arith, is.height_le)))
            r is.height_pos e in
        subst (Ends Inserted Refused)
          (sym (
            update-absent ar (suc fuel) meanwhile probabilities rnd trailer (length value) f upserts
              key s r e miss))
          (node-Inserted r.1 r.3 splices _ refl (stored_key-IsMade r.1 offers))
