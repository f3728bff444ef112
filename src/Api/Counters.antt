-- ===== src/Api/Counters.antt =====
-- The counters of the map over `insert` of src/map/api.rs.
use Prim.Native.Nat.{max, min}
use skl.Prelude.{
  ℕ, suc, ◌+◌, ◌%◌, ◌≤◌, ◌<◌, ◌^◌, ◌≡◌, ◌≢◌, refl, sym, subst, Bool, Option, List, eq, arith,
  length,
}
use skl.Compare.{Bytes, Trailer}
use skl.Node.{remove}
use skl.Meta.{Meta, increase_len, update_max_version, update_min_version, raise_height}
use skl.Meta.Bounds.{update_max_version-max, update_min_version-min, raise_height-max}
use skl.Run.Ends.{Ends, Ends-imp}
use skl.Arena.{Arena}
use skl.Arena.Laws.{IsArena}
use skl.SkipMap.{SkipMap, order}
use skl.SkipMap.Shape.{All}
use skl.SkipMap.Invariant.{IsSkipList}
use skl.Update.Inserted.{counted}
use skl.Update.New.{tall}
use skl.Update.Layout.{IsLayout}
use skl.Api.{insert}
use skl.Api.Insertion.{insert-Ends}

-- Every counter after an insertion of that version and height.
abbrev IsCounted : (v h : ℕ) → Meta → Meta → Type 0
IsCounted v h m m' =
    (m'.len ≡ (m.len + 1) % 2 ^ 32)
    × (m'.max_version ≡ max m.max_version v)
    × (m'.min_version ≡ min m.min_version v)
    × (m'.height ≡ max m.height h)

counted-IsCounted : (v h : ℕ) (m : Meta) → IsCounted v h m (counted v (raise_height h m))
unfolding update_min_version update_max_version increase_len raise_height
counted-IsCounted v h m =
    let raised = increase_len (raise_height h m) in
    (
      refl,
      update_max_version-max v raised,
      update_min_version-min v (update_max_version v raised),
      raise_height-max h m,
    )

module _ {A T E : Type 0} (F : Type 0) ⦃t : Trailer T⦄ (free : A → ℕ → Bool) (ar : Arena A E)
    (laws : IsArena free ar) (single : t.size_of ≡ 0 → (a b : T) → a ≡ b) (fuel : ℕ)
    (meanwhile : Option ℕ) (probabilities : ℕ → ℕ) (rnd : ℕ) (trailer : T) (key value : Bytes)
    (key_lt : length key < 2 ^ 27) (value_lt : length value < remove) (s : SkipMap A T)
    (exact : (a b : Bytes) → s.cmp.cmp a b ≡ eq → a ≡ b) (height : ℕ → ℕ) (N : ℕ → Type 0)
    (levels : ℕ → List ℕ) (is : IsSkipList s levels)
    (lay : IsLayout (free s.arena) height N s levels)
    (absent : All (λ q. order s (t.version trailer) key q ≢ eq) (levels 0))
    (enough : length (levels 0) ≤ fuel) where
  -- Under the conditions of `insert-lookup`, `insert` ends, and after a success the length is one more
  -- on 32 bits, the greatest version is the greater of the old one and the entry's, the least version
  -- is the lesser of the old one and the entry's, so that it stays at 0 where it was 0, and the height is
  -- the greater of the old one and that of the new tower. After an error all counters are as they were.
  pub insert-counters :
      Ends
        (λ r s'.
          (s'.meta.len ≡ (s.meta.len + 1) % 2 ^ 32)
          × (s'.meta.max_version ≡ max s.meta.max_version (t.version trailer))
          × (s'.meta.min_version ≡ min s.meta.min_version (t.version trailer))
          × (s'.meta.height ≡ max s.meta.height (tall probabilities rnd s)))
        (λ e s'. s'.meta ≡ s.meta)
        (insert {F = F} ar (suc fuel) meanwhile probabilities rnd trailer key value s)
  insert-counters =
      Ends-imp _ _ (λ r s'. IsCounted (t.version trailer) (tall probabilities rnd s) s.meta s'.meta)
        (λ e s'. s'.meta ≡ s.meta)
        (insert {F = F} ar (suc fuel) meanwhile probabilities rnd trailer key value s)
        (insert-Ends F free ar laws single fuel meanwhile probabilities rnd trailer key value key_lt
          value_lt s exact height N levels is lay absent enough 0 key
          (s.opts.max_height + length (levels 0) + 1) (omega arith))
        (λ r s' h.
          subst (IsCounted (t.version trailer) (tall probabilities rnd s) s.meta) (sym h.1.1.4)
            (counted-IsCounted (t.version trailer) (tall probabilities rnd s) s.meta))
        (λ e s' h. h.3.meta_kept)
