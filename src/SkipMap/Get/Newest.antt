-- ===== src/SkipMap/Get/Newest.antt =====
-- `get` returns the newest version of the key that the reader may see, unless it is a tombstone.
use skl.Prelude.{
  ℕ, ◌+◌, ◌≤◌, ◌≡◌, refl, ap, true, false, Option, none, some, List, [], ◌∷◌, lt, eq, gt, leb,
  arith, length, if◌then◌else◌,
}
use skl.Compare.{Bytes, Trailer}
use skl.Compare.Laws.{IsOrder, entry_order}
use skl.Node.{get_key, version}
use skl.Node.Reads.{version-get_value_and_trailer}
use skl.SkipMap.{SkipMap, entry, order}
use skl.SkipMap.Shape.{All}
use skl.SkipMap.Invariant.{IsSkipList, Sorted}
use skl.SkipMap.Find.Scan.{scan}
use skl.SkipMap.Find.Near.{base_scan, find_near-scan}
use skl.SkipMap.Get.{present, get_found, get}

module _ {A T : Type 0} ⦃t : Trailer T⦄ (s : SkipMap A T) (v : ℕ) (key : Bytes) where
  -- The first node of the key whose version is at most `v`, by a look at every node.
  unfoldable pub newest : List ℕ → Option ℕ
  newest [] = none
  newest (p ∷ ps) = elim (s.cmp.cmp key (get_key s.mem p)) [
    | eq ↦ if leb (version s.mem p) v then some p else newest ps
    | lt ↦ newest ps
    | gt ↦ newest ps
  ]

  newest_below :
      (p : ℕ) (ps : List ℕ)
      → IsOrder s.cmp.cmp
      → s.cmp.cmp key (get_key s.mem p) ≡ lt
      → All (λ q. entry_order s.cmp (entry s p) (entry s q) ≡ lt) ps
      → newest ps ≡ none
  unfolding newest entry_order entry
  newest_below p [] o h a = refl
  newest_below p (q ∷ qs) o h a = ground (
    arith,
    newest_below p qs o h a.1,
    o.lt_trans key (get_key s.mem p) (get_key s.mem q),
    o.eq_left (get_key s.mem p) (get_key s.mem q) key,
    o.flip (get_key s.mem p) key,
    o.flip (get_key s.mem q) key,
  )

  get_found-newest :
      (x : ℕ) (ps : List ℕ)
      → IsOrder s.cmp.cmp
      → Sorted s ps
      → get_found s v key (base_scan s v key false true x ps)
        ≡ elim (newest ps) [ none ↦ none | some p ↦ present s p ]
  unfolding newest scan get_found order entry entry_order
  get_found-newest x [] o h = refl
  get_found-newest x (p ∷ ps) o h = ground (
    arith,
    get_found-newest p ps o h.1,
    newest_below p ps o,
    version-get_value_and_trailer s.mem p,
  )

  -- With fuel for the nodes and levels of a well-formed map, `get` at a version returns the value of
  -- the newest entry of the key whose version is at most that one, and nothing where there is no such
  -- entry or where that entry is a tombstone.
  pub get-newest :
      {levels : ℕ → List ℕ} (fuel : ℕ)
      → IsSkipList s levels
      → s.meta.height + length (levels 0) ≤ fuel
      → get s fuel v key ≡ some (elim (newest (levels 0)) [ none ↦ none | some p ↦ present s p ])
  unfolding get
  get-newest {levels} fuel is h =
      rw (find_near-scan s v key false true fuel is h)
        (ap some (get_found-newest s.head (levels 0) is.ordered is.sorted))
