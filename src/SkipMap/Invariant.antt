-- ===== src/SkipMap/Invariant.antt =====
-- When a map is well formed, over the nodes that its levels run through.
use skl.Prelude.{ℕ, zero, suc, ◌≤◌, ◌<◌, ◌≡◌, ◌≢◌, refl, List, [], ◌∷◌, lt, gt, arith}
use skl.Compare.{Bytes, Trailer}
use skl.Compare.Laws.{IsOrder, entry_order, entry_order-IsOrder}
use skl.SkipMap.{SkipMap, get_next, get_prev, entry, order}
use skl.SkipMap.Shape.{All, Sub, Monotone, Chain, View}

-- From `x` on each node of the list points back to the one before it, and `tail` to the last.
abbrev pub Back : (ℕ → ℕ) → ℕ → ℕ → List ℕ → Type 0
Back prev tail x [] = prev tail ≡ x
Back prev tail x (p ∷ ps) = (prev p ≡ x) × Back prev tail p ps

module _ {A T : Type 0} ⦃t : Trailer T⦄ (s : SkipMap A T) where
  -- Keys ascend, and the versions of one key descend.
  abbrev pub Sorted : List ℕ → Type 0
  Sorted [] = Unit
  Sorted (p ∷ ps) = All (λ q. entry_order s.cmp (entry s p) (entry s q) ≡ lt) ps × Sorted ps

  pub record IsSkipList (levels : ℕ → List ℕ) : Type 0 where
    pub head_ne_null : s.head ≢ 0
    pub tail_ne_null : s.tail ≢ 0
    pub head_ne_tail : s.head ≢ s.tail
    pub ordered : IsOrder s.cmp.cmp
    pub height_pos : 0 < s.meta.height
    pub height_le : s.meta.height ≤ s.opts.max_height
    pub max_height_lt : s.opts.max_height < 32
    pub chain :
        (i : ℕ) → i < s.opts.max_height → Chain (λ p. get_next s p i) s.tail s.head (levels i)
    pub back : (i : ℕ) → i < s.opts.max_height → Back (λ p. get_prev s p i) s.tail s.head (levels i)
    pub nested : (i : ℕ) → suc i < s.opts.max_height → Sub (levels (suc i)) (levels i)
    pub unused : (i : ℕ) → s.meta.height ≤ i → i < s.opts.max_height → levels i ≡ []
    pub apart : All (λ p. p ≢ s.head) (levels 0)
    pub sorted : Sorted (levels 0)

  -- The target behind or at a later node is behind an earlier one.
  order-gt :
      (v : ℕ) (key : Bytes) (p q : ℕ)
      → IsOrder s.cmp.cmp
      → entry_order s.cmp (entry s p) (entry s q) ≡ lt
      → order s v key q ≢ lt
      → order s v key p ≡ gt
  unfolding order
  order-gt v key p q o h n =
      let e = entry_order-IsOrder s.cmp o in
      let a : Bytes × ℕ = (key, v) in
      ground (
        arith,
        e.flip a (entry s q),
        e.flip a (entry s p),
        e.flip (entry s p) a,
        e.flip (entry s p) (entry s q),
        e.lt_trans (entry s p) (entry s q) a,
        e.eq_left a (entry s q) (entry s p),
      )

  pub Sorted-Monotone :
      (v : ℕ) (key : Bytes) (ps : List ℕ)
      → IsOrder s.cmp.cmp
      → Sorted ps
      → Monotone (order s v key) ps
  Sorted-Monotone v key [] o h = tt
  Sorted-Monotone v key (p ∷ ps) o h = (behind ps h.0, Sorted-Monotone v key ps o h.1)
    where
      behind :
          (qs : List ℕ)
          → All (λ q. entry_order s.cmp (entry s p) (entry s q) ≡ lt) qs
          → All (λ q. order s v key q ≢ lt → order s v key p ≡ gt) qs
      behind [] a = tt
      behind (q ∷ qs) a = (order-gt v key p q o a.0, behind qs a.1)

module _ {A T : Type 0} ⦃t : Trailer T⦄ {s : SkipMap A T} {levels : ℕ → List ℕ}
    (is : IsSkipList s levels) where
  pub View-levels :
      (i : ℕ) → i < s.opts.max_height → View (get_next s) s.tail i s.head (levels i) (levels 0)
  View-levels zero h = (is.chain 0 h, refl)
  View-levels (suc i) h =
      (is.chain (suc i) h, (levels i, is.nested i h, View-levels i (omega arith)))
