-- ===== src/Splice/Search.antt =====
-- What find_splice of src/map.rs puts into a new inserter.
use mathlib.Core.Option
use skl.Prelude.{
  ℕ, zero, suc, ◌≤◌, ◌<◌, ◌≡◌, ◌≢◌, refl, ◌∙◌, Bool, true, false, Option, none, some, List, [], ◌∷◌,
  arith, length, ltb, if◌then◌else◌, ap,
}
use native.Mathlib.Decide.{ℕ_discrete}
use skl.Compare.{Bytes, Trailer}
use skl.SkipMap.{SkipMap, get_next, order}
use skl.SkipMap.Shape.{Chain, All}
use skl.Splice.{
  FindResult, Inserter, inserter, Pointer, set_splice, find_splice_for_level, Found, splice_levels,
  find_splice, first_of_two,
}
use skl.Splice.Bracket.{bracket, bracket-next}
use skl.Splice.Level.{hit, seen, find_splice_for_level-bracket}

module _ {A T : Type 0} ⦃t : Trailer T⦄ (s : SkipMap A T) (v : ℕ) (key : Bytes) where
  -- what is read back of a level from a search's result
  abbrev pub around : ℕ → Found s v key → Bool × (ℕ × ℕ)
  around i (found, found_key, ptr, ins) = (found, ((ins.spl i).prev, (ins.spl i).next))

  Chain-ne_null :
      (next : ℕ → ℕ) (tail x : ℕ) (ps : List ℕ) → Chain next tail x ps → All (λ p. p ≢ 0) ps
  Chain-ne_null next tail x [] c = tt
  Chain-ne_null next tail x (p ∷ ps) c = (c.1, Chain-ne_null next tail p ps c.3)

  found_seen :
      (r : Option FindResult) (x : Bool × (ℕ × ℕ))
      → Option.map seen r ≡ some x
      → (fr : FindResult) × (r ≡ some fr) × (seen fr ≡ x)
  found_seen none x h = cc
  found_seen (some fr) x h = (fr, refl, cc)

  splice_levels_step :
      (fuel lvl start p n : ℕ) (found : Bool) (fk : Option Pointer) (ins : Inserter)
      (fr : FindResult)
      → find_splice_for_level s v key fuel lvl start ≡ some fr
      → fr.found ≡ false
      → fr.splice.prev ≡ p
      → fr.splice.next ≡ n
      → n ≢ 0
      → splice_levels s v key fuel start true (suc lvl) found fk ins
        ≡ splice_levels s v key fuel start true lvl false
            (first_of_two s v key fk fr.found_key)
            (set_splice ins lvl (record { prev = p; next = n }))
  unfolding splice_levels
  splice_levels_step fuel lvl start p n found fk ins fr e missed before behind ne = ground arith

  module _ (fuel : ℕ) (levels : ℕ → List ℕ) (tail_ne_null : s.tail ≢ 0) where
    splice_levels-bracket :
        (i rounds : ℕ) (found_key : Option Pointer) (ins : Inserter)
        → ((k : ℕ) → k < rounds → Chain (λ p. get_next s p k) s.tail s.head (levels k))
        → ((k : ℕ) → k < rounds → hit (order s v key) (levels k) ≡ false)
        → ((k : ℕ) → k < rounds → length (levels k) < fuel)
        → Option.map (around i) (splice_levels s v key fuel s.head true rounds false found_key ins)
          ≡ some (
            false,
            (if ltb i rounds
                then bracket (order s v key) s.tail s.head (levels i)
                else ((ins.spl i).prev, (ins.spl i).next)),
          )
    unfolding splice_levels set_splice
    splice_levels-bracket i zero fk ins c n b = ground arith
    splice_levels-bracket i (suc lvl) fk ins c n b =
        let at = bracket (order s v key) s.tail s.head (levels lvl) in
        let here : Chain (λ p. get_next s p lvl) s.tail s.head (levels lvl) = c lvl (omega arith) in
        let (fr, e, z) =
          found_seen (find_splice_for_level s v key fuel lvl s.head)
            (hit (order s v key) (levels lvl), at)
            (find_splice_for_level-bracket s v key fuel lvl s.head (levels lvl) here
              (b lvl (omega arith))) in
        let missed : fr.found ≡ false = ap (λ r. r.0) z ∙ n lvl (omega arith) in
        let before : fr.splice.prev ≡ at.0 = ap (λ r. r.1.0) z in
        let behind : fr.splice.next ≡ at.1 = ap (λ r. r.1.1) z in
        let at_ne : at.1 ≢ 0 =
          bracket-next (order s v key) s.tail (λ p. p ≢ 0) s.head (levels lvl)
            (Chain-ne_null (λ p. get_next s p lvl) s.tail s.head (levels lvl) here) tail_ne_null in
        let rest =
          splice_levels-bracket i lvl (first_of_two s v key fk fr.found_key)
            (set_splice ins lvl (record { prev = at.0; next = at.1 })) (λ k h. c k (omega arith))
            (λ k h. n k (omega arith)) (λ k h. b k (omega arith)) in
        ap (Option.map (around i)) (
          splice_levels_step fuel lvl s.head at.0 at.1 false fk ins fr e missed before behind at_ne)
        ∙ rest
        ∙ ap (λ x. some (false, x))
            (elim (ℕ_discrete i lvl) [
              | yes same ↦ rw same (ground arith)
              | no other ↦ ground arith
            ])

  -- Let the levels of a map be linked from the head to the tail, none of them hold an entry of the key
  -- and version, and the fuel be more than each level's nodes. Then `find_splice` with a new inserter
  -- finds nothing, and on each level `i` below the map's height the inserter holds the nodes around the
  -- place of the key and version.
  pub find_splice-bracket :
      (fuel i : ℕ) (levels : ℕ → List ℕ)
      → s.tail ≢ 0
      → i < s.meta.height
      → ((k : ℕ) → k < s.meta.height → Chain (λ p. get_next s p k) s.tail s.head (levels k))
      → ((k : ℕ) → k < s.meta.height → hit (order s v key) (levels k) ≡ false)
      → ((k : ℕ) → k < s.meta.height → length (levels k) < fuel)
      → Option.map (around i) (find_splice s v key fuel inserter true)
        ≡ some (false, bracket (order s v key) s.tail s.head (levels i))
  unfolding find_splice inserter
  find_splice-bracket fuel i levels ne h c n b = ground (
    arith,
    splice_levels-bracket fuel levels ne i s.meta.height none
        (record { spl = inserter.spl; height = s.meta.height }) c n b,
  )

  -- Under the same conditions the inserter holds nothing on the levels from the map's height up.
  pub find_splice-above :
      (fuel i : ℕ) (levels : ℕ → List ℕ)
      → s.tail ≢ 0
      → 0 < s.meta.height
      → s.meta.height ≤ i
      → ((k : ℕ) → k < s.meta.height → Chain (λ p. get_next s p k) s.tail s.head (levels k))
      → ((k : ℕ) → k < s.meta.height → hit (order s v key) (levels k) ≡ false)
      → ((k : ℕ) → k < s.meta.height → length (levels k) < fuel)
      → Option.map (around i) (find_splice s v key fuel inserter true) ≡ some (false, (0, 0))
  unfolding find_splice inserter
  find_splice-above fuel i levels ne p h c n b = ground (
    arith,
    splice_levels-bracket fuel levels ne i s.meta.height none
        (record { spl = inserter.spl; height = s.meta.height }) c n b,
  )
