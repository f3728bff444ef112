-- ===== src/SkipMap/Find/Near.antt =====
-- `find_near` is the plain scan of the base level.
use skl.Prelude.{
  ℕ, zero, suc, ◌+◌, ◌-◌, ◌≤◌, ◌<◌, ◌≡◌, refl, ap, Bool, Option, some, List, [], ◌∷◌, arith, length,
}
use skl.Compare.{Bytes, Trailer}
use skl.SkipMap.{SkipMap, get_next, order}
use skl.SkipMap.Shape.{length-After, View, View-move, Monotone, Monotone-After}
use skl.SkipMap.Invariant.{IsSkipList, View-levels, Sorted-Monotone}
use skl.SkipMap.Find.{near_loop, find_near}
use skl.SkipMap.Find.Scan.{scan, scan-After, scan_hit, scan_beyond}

module _ {A T : Type 0} ⦃t : Trailer T⦄ (s : SkipMap A T) (v : ℕ) (key : Bytes)
    (less allow_equal : Bool) where
  abbrev pub base_scan : ℕ → List ℕ → Option ℕ × Bool
  base_scan = scan (order s v key) (λ p. get_next s p 0) s.head less allow_equal

  -- From a node whose view is known the search finds what the scan finds behind that node.
  near_loop-scan :
      (fuel level x : ℕ) (xs ys : List ℕ)
      → View (get_next s) s.tail level x xs ys
      → Monotone (order s v key) ys
      → level + length ys < fuel
      → near_loop s v key less allow_equal fuel x level ≡ some (base_scan x ys)
  unfolding near_loop scan
  near_loop-scan zero level x xs ys w m h = absurd (omega arith)
  near_loop-scan (suc f) zero x [] ys (c, e) m h = rw (← e) (ground arith)
  near_loop-scan (suc f) zero x (p ∷ ps) ys (c, e) m h =
      let m' = rw (← e) at m in
      let h' : 0 + length ps < f = omega (arith, ap length e) in
      rw (← e) (ground (arith, near_loop-scan f zero p ps ps (c.3, refl) m'.1 h'))
  near_loop-scan (suc f) (suc i) x [] ys (c, (zs, k, w)) m h =
      ground (arith, near_loop-scan f i x zs ys w m (omega arith))
  near_loop-scan (suc f) (suc i) x (p ∷ ps) ys w m h =
      let (c, (zs, k, down)) = w in
      let (rs, b, right) = View-move (get_next s) s.tail (suc i) x p ps ys w in
      ground (
        arith,
        near_loop-scan f i x zs ys down m (omega arith),
        near_loop-scan f (suc i) p ps rs right (Monotone-After _ p rs ys m b)
            (omega (arith, length-After p rs ys b)),
        scan-After (order s v key) (λ p. get_next s p 0) s.head less allow_equal x p rs ys m b,
        scan_hit (order s v key) (λ p. get_next s p 0) s.head less allow_equal x p rs ys m b,
        scan_beyond (order s v key) (λ p. get_next s p 0) s.head less allow_equal x p rs ys m b,
      )

  -- On a well-formed map with fuel for its nodes and levels, `find_near` returns what a scan of the
  -- whole base level finds.
  pub find_near-scan :
      {levels : ℕ → List ℕ} (fuel : ℕ)
      → IsSkipList s levels
      → s.meta.height + length (levels 0) ≤ fuel
      → find_near s v key less allow_equal fuel ≡ some (base_scan s.head (levels 0))
  unfolding find_near
  find_near-scan {levels} fuel is h =
      let top : ℕ = s.meta.height - 1 in
      let bound = is.height_pos in
      near_loop-scan fuel top s.head (levels top) (levels 0)
        (View-levels is top (omega (arith, is.height_le, is.height_pos)))
        (Sorted-Monotone s v key (levels 0) is.ordered is.sorted) (omega (arith, is.height_pos))
