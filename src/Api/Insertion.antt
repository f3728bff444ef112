-- ===== src/Api/Insertion.antt =====
-- `insert` of src/map/api.rs, from the call to what every reader gets, whatever the arena answers.
use mathlib.Core.Option
use skl.Prelude.{
  ℕ, suc, ◌+◌, ◌%◌, ◌≤◌, ◌<◌, ◌^◌, ◌≡◌, ◌≢◌, refl, sym, subst, Bool, true, false, Option, some,
  none, List, ◌∷◌, eq, arith, length, Bool-cases, inl, inr,
}
use skl.Compare.{Bytes, Trailer}
use skl.Node.{remove}
use skl.Spec.{lookup}
use skl.Types.{Key}
use skl.Entry.{VersionedEntryRef}
use skl.Run.{Run, Failure, right, arena, ok, err, panicked, out_of_fuel, M, and_then}
use skl.Run.Ends.{Ends, Ends-and_then, Ends-imp}
use skl.Arena.{Arena}
use skl.Arena.Laws.{IsArena}
use skl.Alloc.Kept.{IsKept-arena}
use skl.Alloc.Filling.{copy-Fills}
use skl.Splice.{Inserter, inserter}
use skl.SkipMap.{SkipMap, order}
use skl.SkipMap.Shape.{All}
use skl.SkipMap.Invariant.{IsSkipList}
use skl.SkipMap.Get.{get}
use skl.SkipMap.Contents.{contents, value_of}
use skl.Upsert.{UpdateOk}
use skl.Update.{update}
use skl.Update.New.{tall}
use skl.Update.Layout.{IsLayout, WithNode, raised}
use skl.Update.Sorted.{with_node}
use skl.Update.Inserted.{update-Ends, HasEntry, IsSame, untouched-IsSame}
use skl.Api.{copy, insert, expect_left}

-- The caller does not keep the inserter.
without_inserter :
    {S F E B C D : Type 0} (r : Run S F E (B × C)) (k : B → M S F E D)
    → and_then (and_then r (λ x. ok x.0)) k ≡ and_then r (λ x. k x.0)
without_inserter (ok b s) k = refl
without_inserter (err e s) k = refl
without_inserter panicked k = refl
without_inserter out_of_fuel k = refl

module _ {A T E F : Type 0} ⦃t : Trailer T⦄ (ar : Arena A E) (fuel : ℕ) (meanwhile : Option ℕ)
    (probabilities : ℕ → ℕ) (rnd : ℕ) (trailer : T) (key value : Bytes) (s : SkipMap A T) where
  insert_read_only :
      ar.read_only s.arena ≡ true
      → insert {F = F} ar fuel meanwhile probabilities rnd trailer key value s
        ≡ err (right (arena ar.read_only_error)) s
  unfolding insert
  insert_read_only h = ground arith

  insert_open :
      ar.read_only s.arena ≡ false
      → length value % 2 ^ 32 ≡ length value
      → insert {F = F} ar fuel meanwhile probabilities rnd trailer key value s
        ≡ and_then
            (update ar fuel meanwhile probabilities rnd trailer
              (length value)
              (copy value)
              true
              (Key.occupied key)
              inserter
              s)
            (λ r. expect_left r.0)
  unfolding insert
  insert_open h small =
      let kept =
        without_inserter
          (update ar fuel meanwhile probabilities rnd trailer (length value) (copy value) true
            (Key.occupied key) inserter s)
          expect_left in
      rw (h, small) kept

module _ {A T : Type 0} ⦃t : Trailer T⦄ (free : A → ℕ → Bool) (probabilities : ℕ → ℕ) (rnd : ℕ)
    (trailer : T) (key value : Bytes) (s : SkipMap A T) (height : ℕ → ℕ) (N : ℕ → Type 0)
    (levels : ℕ → List ℕ) (v' : ℕ) (key' : Bytes) (reads : ℕ) where
  -- The call has put the entry into the map.
  abbrev pub Result : Option (VersionedEntryRef T) → SkipMap A T → Type 0
  Result r s' =
      (r ≡ none)
      × HasEntry free s height N levels v' key' reads (tall probabilities rnd s)
          (record { key = key; version = t.version trailer; value = some value }) s'

  -- The call has failed.
  abbrev pub Same : {F E : Type 0} → Failure F E → SkipMap A T → Type 0
  Same e s' = IsSame free s height N levels v' key' reads s'

module _ {A T E : Type 0} (F : Type 0) ⦃t : Trailer T⦄ (free : A → ℕ → Bool) (ar : Arena A E)
    (laws : IsArena free ar) (single : t.size_of ≡ 0 → (a b : T) → a ≡ b) (fuel : ℕ)
    (meanwhile : Option ℕ) (probabilities : ℕ → ℕ) (rnd : ℕ) (trailer : T) (key value : Bytes)
    (key_lt : length key < 2 ^ 27) (value_lt : length value < remove) (s : SkipMap A T)
    (exact : (a b : Bytes) → s.cmp.cmp a b ≡ eq → a ≡ b) (height : ℕ → ℕ) (N : ℕ → Type 0)
    (levels : ℕ → List ℕ) (is : IsSkipList s levels)
    (lay : IsLayout (free s.arena) height N s levels)
    (absent : All (λ q. order s (t.version trailer) key q ≢ eq) (levels 0))
    (enough : length (levels 0) ≤ fuel) where
  -- the answer of the call, with the entry in the map, or an error, with the map as it was
  pub insert-Ends :
      (v' : ℕ) (key' : Bytes) (reads : ℕ)
      → s.opts.max_height + length (levels 0) < reads
      → Ends
          (Result free probabilities rnd trailer key value s height N levels v' key' reads)
          (Same free probabilities rnd trailer key value s height N levels v' key' reads {F = F}
            {E = E})
          (insert {F = F} ar (suc fuel) meanwhile probabilities rnd trailer key value s)
  insert-Ends v' key' reads b = elim (Bool-cases (ar.read_only s.arena)) [
    | inl fixed ↦
        subst Done
          (sym
            (insert_read_only ar (suc fuel) meanwhile probabilities rnd trailer key value s fixed))
          (untouched-IsSame free s height N levels v' key' reads is lay b s
            (IsKept-arena (free s.arena) s s.arena) (λ x f. f))
    | inr writes ↦
        let small : length value % 2 ^ 32 ≡ length value = omega arith in
        subst Done
          (sym (
            insert_open ar (suc fuel) meanwhile probabilities rnd trailer key value s writes small))
          (Ends-and_then Answer
            (Same free probabilities rnd trailer key value s height N levels v' key' reads {F = F}
              {E = E})
            (Result free probabilities rnd trailer key value s height N levels v' key' reads)
            (update ar (suc fuel) meanwhile probabilities rnd trailer (length value) (copy value)
              true (Key.occupied key) inserter s)
            (λ r. expect_left r.0)
            (update-Ends free ar laws single fuel meanwhile probabilities rnd trailer key value
              key_lt value_lt (copy value) (copy-Fills value) true s exact height N levels is lay
              absent enough v' key' reads b)
            (λ r s' h. answered r s' h))
  ]
    where
      Has : SkipMap A T → Type 0
      Has s' =
          HasEntry free s height N levels v' key' reads (tall probabilities rnd s)
            (record { key = key; version = t.version trailer; value = some value }) s'

      Answer : UpdateOk T × Inserter → SkipMap A T → Type 0
      Answer r s' = (r.0 ≡ UpdateOk.old none) × Has s'

      Done : Run (SkipMap A T) F E (Option (VersionedEntryRef T)) → Type 0
      Done r =
          Ends (Result free probabilities rnd trailer key value s height N levels v' key' reads)
            (Same free probabilities rnd trailer key value s height N levels v' key' reads {F = F}
              {E = E})
            r

      answered :
          (r : UpdateOk T × Inserter) (s' : SkipMap A T) → Answer r s' → Done (expect_left r.0 s')
      answered r s' h =
          subst (λ o. Done (expect_left o s')) (sym h.0) (unfold expect_left in (refl, h.1))

module _ {A T E : Type 0} (F : Type 0) ⦃t : Trailer T⦄ (free : A → ℕ → Bool) (ar : Arena A E)
    (laws : IsArena free ar) (single : t.size_of ≡ 0 → (a b : T) → a ≡ b) (fuel : ℕ)
    (meanwhile : Option ℕ) (probabilities : ℕ → ℕ) (rnd : ℕ) (trailer : T) (key value : Bytes)
    (key_lt : length key < 2 ^ 27) (value_lt : length value < remove) (s : SkipMap A T)
    (exact : (a b : Bytes) → s.cmp.cmp a b ≡ eq → a ≡ b) (height : ℕ → ℕ) (N : ℕ → Type 0)
    (levels : ℕ → List ℕ) (is : IsSkipList s levels)
    (lay : IsLayout (free s.arena) height N s levels)
    (absent : All (λ q. order s (t.version trailer) key q ≢ eq) (levels 0))
    (enough : length (levels 0) ≤ fuel) where
  -- Let the arena hand out only free memory, the map be well formed with its nodes and entries in memory
  -- that is not free, its comparator take only equal keys for equal, the key be shorter than 2^27 bytes
  -- and the value shorter than 2^32 - 1, and the map hold no entry of the key and the version. Then, with
  -- fuel for its entries, `insert` ends: with no old entry, and then every reader, of whichever key and
  -- version, gets what the lookup gives in the old entries with the new one beside them; or with an error,
  -- and then every reader gets what it got before. It does not panic.
  pub insert-lookup :
      (v' : ℕ) (key' : Bytes) (reads : ℕ)
      → s.opts.max_height + length (levels 0) < reads
      → Ends
          (λ r s'.
            (r ≡ none)
            × (Option.map (value_of s v' key') (get s' reads v' key')
                ≡ some (
                    lookup s.cmp v' key' (
                      record { key = key; version = t.version trailer; value = some value }
                      ∷ contents s (levels 0)))))
          (λ e s'.
            Option.map (value_of s v' key') (get s' reads v' key')
            ≡ some (lookup s.cmp v' key' (contents s (levels 0))))
          (insert {F = F} ar (suc fuel) meanwhile probabilities rnd trailer key value s)
  insert-lookup v' key' reads b =
      Ends-imp (Result free probabilities rnd trailer key value s height N levels v' key' reads)
        (Same free probabilities rnd trailer key value s height N levels v' key' reads)
        (λ r s'.
          (r ≡ none)
          × (Option.map (value_of s v' key') (get s' reads v' key')
              ≡ some (
                  lookup s.cmp v' key' (
                    record { key = key; version = t.version trailer; value = some value }
                    ∷ contents s (levels 0)))))
        (λ e s'.
          Option.map (value_of s v' key') (get s' reads v' key')
          ≡ some (lookup s.cmp v' key' (contents s (levels 0))))
        (insert {F = F} ar (suc fuel) meanwhile probabilities rnd trailer key value s)
        (insert-Ends F free ar laws single fuel meanwhile probabilities rnd trailer key value key_lt
          value_lt s exact height N levels is lay absent enough v' key' reads b)
        (λ r s' h. (h.0, h.1.0)) (λ e s' h. h.0)

  -- Under the conditions of `insert-lookup` the map is again well formed, with its nodes and entries in
  -- memory that is not free: after a success with one node more, whose tower has the height that
  -- `random_height` gives and which stands in its place on the levels below it, after an error with the
  -- levels as they were.
  pub insert-IsSkipList :
      Ends
        (λ r s'.
          (nd : ℕ) × IsSkipList s'
            (with_node (order s (t.version trailer) key) nd (tall probabilities rnd s) levels)
          × IsLayout
              (free s'.arena)
              (raised nd (tall probabilities rnd s) height)
              (WithNode nd N)
              s'
              (with_node (order s (t.version trailer) key) nd (tall probabilities rnd s) levels))
        (λ e s'. IsSkipList s' levels × IsLayout (free s'.arena) height N s' levels)
        (insert {F = F} ar (suc fuel) meanwhile probabilities rnd trailer key value s)
  insert-IsSkipList =
      Ends-imp
        (Result free probabilities rnd trailer key value s height N levels 0 key
          (s.opts.max_height + length (levels 0) + 1))
        (Same free probabilities rnd trailer key value s height N levels 0 key
          (s.opts.max_height + length (levels 0) + 1))
        (λ r s'.
          (nd : ℕ) × IsSkipList s'
            (with_node (order s (t.version trailer) key) nd (tall probabilities rnd s) levels)
          × IsLayout (free s'.arena) (raised nd (tall probabilities rnd s) height) (WithNode nd N)
              s' (with_node (order s (t.version trailer) key) nd (tall probabilities rnd s) levels))
        (λ e s'. IsSkipList s' levels × IsLayout (free s'.arena) height N s' levels)
        (insert {F = F} ar (suc fuel) meanwhile probabilities rnd trailer key value s)
        (insert-Ends F free ar laws single fuel meanwhile probabilities rnd trailer key value key_lt
          value_lt s exact height N levels is lay absent enough 0 key
          (s.opts.max_height + length (levels 0) + 1) (omega arith))
        (λ r s' h. (h.1.1.0, h.1.1.1, h.1.1.2)) (λ e s' h. (h.1, h.2))
