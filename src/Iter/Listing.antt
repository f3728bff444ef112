-- ===== src/Iter/Listing.antt =====
-- What an iterator over all versions lists when it is run to its end.
use mathlib.Core.Option
use skl.Prelude.{
  ℕ, zero, suc, ◌<◌, ◌≡◌, ◌≢◌, ◌⊎◌, inl, inr, refl, ◌∙◌, ap, sym, Bool, true, false, ◌&&◌, Option,
  none, some, List, [], ◌∷◌, arith, length, leb, if◌then◌else◌, Bool-cases,
}
use skl.Compare.{Trailer, Range}
use skl.Node.{get_key, version}
use skl.Node.Reads.{version-get_value_and_trailer}
use skl.Entry.{VersionedEntryRef, from_node}
use skl.SkipMap.{SkipMap, get_next}
use skl.SkipMap.Shape.{Chain}
use skl.Iter.{AllVersionsIter, next_in, hidden, repeated, within}

module _ {A T : Type 0} ⦃t : Trailer T⦄ where
  -- the calls of `next` up to the first that returns nothing, as `collect` makes them
  unfoldable pub collect : (fuel rounds : ℕ) → AllVersionsIter A T → Option (List ℕ)
  collect fuel zero it = none
  collect fuel (suc rounds) it = elim (next_in fuel it) [
    | none ↦ none
    | some (e, it') ↦
        let rest = collect fuel rounds it' in
        elim e [ none ↦ some [] | some e ↦ Option.map (λ l. e.ptr ∷ l) rest ]
  ]

  -- whether a reader at the version sees the node, in the range
  unfoldable pub shown : SkipMap A T → ℕ → Range → ℕ → Bool
  shown s v r p = leb (version s.mem p) v && s.cmp.contains r (get_key s.mem p)

  unfoldable pub visible : SkipMap A T → ℕ → Range → List ℕ → List ℕ
  visible s v r [] = []
  visible s v r (p ∷ ps) = if shown s v r p then p ∷ visible s v r ps else visible s v r ps

  module _ (fuel : ℕ) (it : AllVersionsIter A T) (p : ℕ) (all : it.all_versions ≡ true)
      (here : get_next it.map it.nd 0 ≡ p) (ne_null : p ≢ 0) (ne_tail : p ≢ it.map.tail) where
    next_in_yields :
        shown it.map it.version it.range p ≡ true
        → next_in (suc fuel) it
          ≡ some (
            some (from_node it.map.mem p),
            record it { nd = p; last = some (from_node it.map.mem p) },
          )
    unfolding next_in shown hidden repeated within
    next_in_yields h =
        ground (arith, version-get_value_and_trailer it.map.mem (get_next it.map it.nd 0))

    next_in_passes :
        shown it.map it.version it.range p ≡ false
        → next_in (suc fuel) it ≡ next_in fuel (record it { nd = p })
    unfolding next_in shown hidden repeated within
    next_in_passes h =
        ground (arith, version-get_value_and_trailer it.map.mem (get_next it.map it.nd 0))

  -- How one call of `next` ends, from a node that the list follows.
  abbrev pub NextOutcome : ℕ → AllVersionsIter A T → List ℕ → Type 0
  NextOutcome fuel it ps =
      ((it' : AllVersionsIter A T) × (visible it.map it.version it.range ps ≡ [])
        × (next_in fuel it ≡ some (none, it')))
      ⊎ ((p : ℕ) × (rest : List ℕ) × (visible it.map it.version it.range ps
            ≡ p ∷ visible it.map it.version it.range rest)
          × (length rest < length ps)
          × Chain (λ q. get_next it.map q 0) it.map.tail p rest
          × (next_in fuel it
              ≡ some (
                some (from_node it.map.mem p),
                record it { nd = p; last = some (from_node it.map.mem p) },
              )))

  next_in_ends :
      (fuel : ℕ) (it : AllVersionsIter A T)
      → get_next it.map it.nd 0 ≡ it.map.tail
      → next_in (suc fuel) it ≡ some (none, record it { nd = get_next it.map it.nd 0 })
  unfolding next_in
  next_in_ends fuel it h = ground arith

  next_in-NextOutcome :
      (fuel : ℕ) (it : AllVersionsIter A T) (ps : List ℕ)
      → it.all_versions ≡ true
      → Chain (λ q. get_next it.map q 0) it.map.tail it.nd ps
      → length ps < fuel
      → NextOutcome fuel it ps
  unfolding visible
  next_in-NextOutcome zero it ps all c h = absurd (omega arith)
  next_in-NextOutcome (suc fuel) it [] all c h =
      inl (record it { nd = get_next it.map it.nd 0 }, refl, next_in_ends fuel it c)
  next_in-NextOutcome (suc fuel) it (p ∷ ps) all c h =
      elim (Bool-cases (shown it.map it.version it.range p)) [
        | inl sees ↦
            inr
              (p, ps, ground arith, omega arith, c.3, next_in_yields fuel it p all c.0 c.1 c.2 sees)
        | inr misses ↦
            let pass = next_in_passes fuel it p all c.0 c.1 c.2 misses in
            let skip : visible it.map it.version it.range (p ∷ ps)
                ≡ visible it.map it.version it.range ps =
              ground arith in
            elim (next_in-NextOutcome fuel (record it { nd = p }) ps all c.3 (omega arith)) [
              | inl r ↦ inl (r.0, skip ∙ r.1, pass ∙ r.2)
              | inr r ↦ inr (r.0, r.1, skip ∙ r.2, omega (arith, r.3), r.4, pass ∙ r.5)
            ]
      ]

  collect_step :
      (fuel rounds : ℕ) (it it' : AllVersionsIter A T) (e : VersionedEntryRef T)
      → next_in fuel it ≡ some (some e, it')
      → collect fuel (suc rounds) it ≡ Option.map (λ l. e.ptr ∷ l) (collect fuel rounds it')
  unfolding collect
  collect_step fuel rounds it it' e h = ground arith

  -- From a node that the base level's links lead on from through the list to the tail, and with fuel
  -- and rounds for that list, an iterator over all versions that is run to its end lists exactly those
  -- nodes of the list, in its order, that are in its range and whose version is at most its own.
  pub collect-visible :
      (fuel rounds : ℕ) (it : AllVersionsIter A T) (ps : List ℕ)
      → it.all_versions ≡ true
      → Chain (λ q. get_next it.map q 0) it.map.tail it.nd ps
      → length ps < fuel
      → length ps < rounds
      → collect fuel rounds it ≡ some (visible it.map it.version it.range ps)
  unfolding collect from_node
  collect-visible fuel zero it ps all c h k = absurd (omega arith)
  collect-visible fuel (suc rounds) it ps all c h k =
      elim (next_in-NextOutcome fuel it ps all c h) [
        | inl r ↦ ground (arith, r.1, r.2)
        | inr r ↦
            let rest =
              collect-visible fuel rounds
                (record it { nd = r.0; last = some (from_node it.map.mem r.0) }) r.1 all r.4
                (omega (arith, r.3)) (omega (arith, r.3)) in
            collect_step fuel rounds it
              (record it { nd = r.0; last = some (from_node it.map.mem r.0) })
              (from_node it.map.mem r.0) r.5
            ∙ ap (Option.map (λ l. r.0 ∷ l)) rest
            ∙ ap some (sym r.2)
      ]
