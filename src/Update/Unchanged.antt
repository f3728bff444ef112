-- ===== src/Update/Unchanged.antt =====
-- A map in which only free memory has been written: it is well formed and laid out as before, and its
-- readers get the same.
use mathlib.Core.Option
use skl.Prelude.{
  ℕ, ◌+◌, ◌<◌, ◌≡◌, sym, ap, ◌∙◌, subst, Bool, false, some, List, arith, length, Bool-cases, inl,
  inr,
}
use skl.Compare.{Bytes, Trailer}
use skl.Spec.{lookup}
use skl.Arena.Laws.{NoneFreed}
use skl.Alloc.Kept.{IsKept, IsUsed, IsUsed-kept, item-kept}
use skl.Splice.Bracket.{All-imp}
use skl.SkipMap.{SkipMap}
use skl.SkipMap.Shape.{All}
use skl.SkipMap.Invariant.{IsSkipList}
use skl.SkipMap.Get.{get}
use skl.SkipMap.Contents.{item, contents, value_of, get-lookup}
use skl.Update.Levels.{IsSound}
use skl.Update.Layout.{IsLayout}
use skl.Update.Renewed.{contents-same, renewed-IsSkipList}

module _ {A T : Type 0} ⦃t : Trailer T⦄ (free : A → ℕ → Bool) (s s' : SkipMap A T) (height : ℕ → ℕ)
    (N : ℕ → Type 0) (levels : ℕ → List ℕ) (is : IsSkipList s levels)
    (lay : IsLayout (free s.arena) height N s levels) (k : IsKept (free s.arena) s s') where
  same : All (λ p. item s' p ≡ item s p) (levels 0)
  same =
      All-imp (IsUsed (free s.arena) s.mem) (λ p. item s' p ≡ item s p) (levels 0)
        (λ p u. item-kept (free s.arena) k p u) lay.used

  pub unchanged-IsSkipList : IsSkipList s' levels
  unchanged-IsSkipList =
      subst (λ x. IsSkipList x levels) (sym k.rest)
        (renewed-IsSkipList s s.meta s'.arena s'.mem is (omega arith) is.height_le
          (subst (λ x. All (λ p. item x p ≡ item s p) (levels 0)) k.rest same))

  pub unchanged-lookup :
      (v' : ℕ) (key' : Bytes) (reads : ℕ)
      → s.opts.max_height + length (levels 0) < reads
      → Option.map (value_of s v' key') (get s' reads v' key')
        ≡ some (lookup s.cmp v' key' (contents s (levels 0)))
  unchanged-lookup v' key' reads b =
      get-lookup s' v' key' reads unchanged-IsSkipList
        (omega (arith, b, is.height_le, ap (λ (x : SkipMap A T). x.meta.height) k.rest))
      ∙ ap (λ es. some (lookup s'.cmp v' key' es)) (contents-same s s' (levels 0) same)
      ∙ ap (λ (x : SkipMap A T). some (lookup x.cmp v' key' (contents s (levels 0)))) k.rest

  pub unchanged-IsLayout :
      NoneFreed free s.arena s'.arena → IsLayout (free s'.arena) height N s' levels
  unchanged-IsLayout none_freed = record {
    nodes = lay.nodes;
    held = λ p n x lo hi. still_held x (lay.held p n x lo hi);
    null_held = still_held 0 lay.null_held;
    sound =
        subst
          (λ (x : SkipMap A T).
            (i : ℕ) → i < x.opts.max_height → IsSound height N 0 x.head x.tail i (levels i))
          (sym k.rest) lay.sound;
    used =
        All-imp (IsUsed (free s.arena) s.mem) (IsUsed (free s'.arena) s'.mem) (levels 0)
          (λ p u. IsUsed-kept (free s.arena) k p u (free s'.arena) none_freed) lay.used;
  }
    where
      still_held : (x : ℕ) → free s.arena x ≡ false → free s'.arena x ≡ false
      still_held x h = elim (Bool-cases (free s'.arena x)) [
        | inl f ↦ cc (none_freed x f)
        | inr n ↦ n
      ]
