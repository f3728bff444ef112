-- ===== src/Update/Absent.antt =====
-- What the search of `update` in src/map.rs finds for an entry that the map does not hold yet.
use mathlib.Core.Option
use skl.Prelude.{
  ℕ, zero, suc, ◌≤◌, ◌<◌, ◌≡◌, ◌≢◌, inl, inr, refl, sym, ap, ◌∙◌, true, false, Option, some, none,
  List, [], ◌∷◌, Ordering, eq, arith, length, Bool-cases, ltb,
}
use skl.Compare.{Bytes, Trailer}
use skl.Splice.{inserter, find_splice, Found}
use skl.Splice.Level.{hit}
use skl.Splice.Search.{around, find_splice-bracket, find_splice-above}
use skl.SkipMap.{SkipMap, get_next, order}
use skl.SkipMap.Shape.{All, Chain, Sub}
use skl.SkipMap.Invariant.{IsSkipList}
use skl.Update.Loop.{IsSplice}
use skl.Update.Joined.{All-level}

map-some :
    {A B : Type 0} (f : A → B) (o : Option A) (b : B)
    → Option.map f o ≡ some b
    → (a : A) × (o ≡ some a) × (f a ≡ b)
map-some f none b h = cc
map-some f (some a) b h = (a, refl, cc)

length-Sub : (ps qs : List ℕ) → Sub ps qs → length ps ≤ length qs
length-Sub [] qs s = omega arith
length-Sub (p ∷ ps) [] s = elim s [ ]
length-Sub (p ∷ ps) (q ∷ qs) (inl s) = omega (arith, length-Sub ps qs s.1)
length-Sub (p ∷ ps) (q ∷ qs) (inr s) = omega (arith, length-Sub (p ∷ ps) qs s)

hit_none : (c : ℕ → Ordering) (ps : List ℕ) → All (λ p. c p ≢ eq) ps → hit c ps ≡ false
unfolding hit
hit_none c [] a = refl
hit_none c (p ∷ ps) a = ground (arith, a.0, hit_none c ps a.1)

module _ {A T : Type 0} ⦃t : Trailer T⦄ (s : SkipMap A T) (v : ℕ) (key : Bytes)
    (levels : ℕ → List ℕ) (is : IsSkipList s levels)
    (absent : All (λ q. order s v key q ≢ eq) (levels 0)) (fuel : ℕ)
    (enough : length (levels 0) < fuel) where
  shorter : (k : ℕ) → k < s.opts.max_height → length (levels k) ≤ length (levels 0)
  shorter zero l = omega arith
  shorter (suc k) l =
      omega (arith, shorter k (omega arith), length-Sub (levels (suc k)) (levels k) (is.nested k l))

  misses : (k : ℕ) → k < s.meta.height → hit (order s v key) (levels k) ≡ false
  misses k l =
      hit_none (order s v key) (levels k)
        (All-level (λ q. order s v key q ≢ eq) is absent k (omega (arith, is.height_le)))

  pub chains : (k : ℕ) → k < s.meta.height → Chain (λ p. get_next s p k) s.tail s.head (levels k)
  chains k l = is.chain k (omega (arith, is.height_le))

  short : (k : ℕ) → k < s.meta.height → length (levels k) < fuel
  short k l = omega (arith, shorter k (omega (arith, is.height_le)))

  -- The search finds no entry, and its splices are those of the place of the new one.
  pub find_splice-absent :
      (r : Found s v key) × (find_splice s v key fuel inserter true ≡ some r)
      × (r.0 ≡ false)
      × ((k : ℕ)
          → k < s.opts.max_height
          → IsSplice (order s v key) s.head s.tail (levels k) (r.3.spl k))
  find_splice-absent =
      let (r, e, base) = map-some (around s v key 0) _ _ (
        find_splice-bracket s v key fuel 0 levels is.tail_ne_null is.height_pos chains misses
          short) in
      (r, e, ap (λ x. x.0) base, at_level r e)
    where
      at_level :
          (r : Found s v key)
          → find_splice s v key fuel inserter true ≡ some r
          → (k : ℕ) → k < s.opts.max_height
          → IsSplice (order s v key) s.head s.tail (levels k) (r.3.spl k)
      at_level r e k l = elim (Bool-cases (ltb k s.meta.height)) [
        | inl low ↦
            let below : k < s.meta.height = ground arith in
            let at =
              ap (Option.map (around s v key k)) (sym e)
              ∙ find_splice-bracket s v key fuel k levels is.tail_ne_null below chains misses
                  short in
            inl (ground (arith, at), ground (arith, at))
        | inr high ↦
            let above : s.meta.height ≤ k = ground arith in
            let at =
              ap (Option.map (around s v key k)) (sym e)
              ∙ find_splice-above s v key fuel k levels is.tail_ne_null is.height_pos above chains
                  misses short in
            inr (ground (arith, at), ground (arith, at), is.unused k above l)
      ]
