-- ===== src/Race/Termination.antt =====
-- The loop of `update` on a level comes to its end when a thread is left to run alone.
use skl.Prelude.{
  ℕ, suc, ◌+◌, ◌<◌, ◌≡◌, ◌≢◌, inl, inr, refl, sym, subst, ◌∙◌, List, ◌∷◌, arith, length,
}
use skl.Compare.{Trailer}
use skl.Arena.{Arena}
use skl.SkipMap.Shape.{Chain}
use skl.Race.{
  Pc, ready, written, swapping, relinking, checking, helping, searching, found, panicked, finished,
  System, Reach, run,
}
use skl.Race.Facts.{IsFresh, Holds}
use skl.Race.Level.{Member, Member-All, Chain-from, Chain-ne_null}
use skl.Race.Moves.{next_of, prev_of}
use skl.Race.Invariant.{IsSetup, IsRace}
use skl.Race.Safety.{IsStart, Reach-IsRace}
use skl.Race.Alone.{
  HasEnded, Ends, weaken, from_helping, from_checking, from_written, from_ready, from_relinking,
}
use skl.Race.Walk.{IsWalk, IsWalk-kept, swap_any, from_searching}

module _ {A T E : Type 0} ⦃t : Trailer T⦄ (ar : Arena A E) (n : ℕ) (own : ℕ → ℕ) (i head tail w : ℕ)
    (below : w < n) where
  module _ (setup : IsSetup n own head tail) (c : System A T) (ps : List ℕ)
      (is : IsRace n own i head tail c ps) where
    walk :
        (p : ℕ)
        → IsFresh (λ q. Member q (head ∷ ps)) tail (own w)
        → Member p (head ∷ ps)
        → IsWalk ar i n w p (length ps) c
    walk p f m =
        let (rs, ch, le, sub) = Chain-from (next_of i c.map) tail head p ps is.chain m in
        record {
          rest = rs;
          chain = rw (is.tail_eq) ch;
          ne_own =
              Member-All (λ r. r ≢ (c.thread w).nd) (p ∷ rs)
                (λ r k e.
                  f.absent (subst (λ q. Member q (head ∷ ps)) (e ∙ is.owners w below) (sub r k)));
          ne_null = not_null m;
          short = le;
        }
      where
        not_null : Member p (head ∷ ps) → p ≢ 0
        not_null (inl e) = rw e setup.head_ne_null
        not_null (inr k) = Chain-ne_null (next_of i c.map) tail head p ps is.chain k

    by_pc :
        (pc : Pc)
        → (c.thread w).pc ≡ pc
        → Holds (λ q. Member q (head ∷ ps)) tail (next_of i c.map) (prev_of i c.map) (own w) pc
        → Ends ar i n w (length ps + 12) c
    unfolding run
    by_pc (ready p q) e h = weaken ar i n w (length ps + 8 + 4) (length ps + 12) c (omega arith) (
        from_ready ar i n w p q (length ps + 8) (IsWalk ar i n w p (length ps))
          (IsWalk-kept ar i n w p (length ps)) (swap_any ar i n w p q (length ps)) c
          (walk p h.0 h.1.prev_in) e)
    by_pc (written p q) e h = weaken ar i n w (length ps + 8 + 3) (length ps + 12) c (omega arith) (
        from_written ar i n w p q (length ps + 8) (IsWalk ar i n w p (length ps))
          (IsWalk-kept ar i n w p (length ps)) (swap_any ar i n w p q (length ps)) c
          (walk p h.fresh h.span.prev_in) e)
    by_pc (checking p q r) e h =
        weaken ar i n w (length ps + 8 + 2) (length ps + 12) c (omega arith) (
          from_checking ar i n w p q (length ps + 8) (IsWalk ar i n w p (length ps))
            (IsWalk-kept ar i n w p (length ps)) (swap_any ar i n w p q (length ps)) r c
            (walk p h.0.fresh h.0.span.prev_in) e)
    by_pc (helping p q r) e h =
        weaken ar i n w (suc (length ps + 8)) (length ps + 12) c (omega arith) (
          from_helping ar i n w p q (length ps + 8) (IsWalk ar i n w p (length ps))
            (IsWalk-kept ar i n w p (length ps)) (swap_any ar i n w p q (length ps)) r c
            (walk p h.0.fresh h.0.span.prev_in) e)
    by_pc (swapping p q) e h =
        weaken ar i n w (length ps + 8) (length ps + 12) c (omega arith)
          (swap_any ar i n w p q (length ps) c (walk p h.0.fresh h.0.span.prev_in) e)
    by_pc (relinking p q) e h =
        weaken ar i n w 1 (length ps + 12) c (omega arith) (from_relinking ar i n w p q c e)
    by_pc (searching x) e h =
        weaken ar i n w (length ps + 7) (length ps + 12) c (omega arith)
          (from_searching ar i n w (length ps) x c (walk x h.0 h.1) e)
    by_pc (found x) e h = (0, omega arith, subst HasEnded (sym e) tt)
    by_pc (panicked x) e h = (0, omega arith, subst HasEnded (sym e) tt)
    by_pc finished e h = (0, omega arith, subst HasEnded (sym e) tt)

  -- No thread can keep another one from its end. Under the conditions of `linked_once`, whatever the
  -- threads have done so far, and whatever is left half done, a thread that is then left to take its
  -- steps alone links its node or finds its entry in the map, for which the code panics on a level
  -- above the base, after at most twelve steps and one for each node of the level.
  pub alone-Ends :
      (c d : System A T) (ps : List ℕ)
      → IsStart n own i head tail c ps
      → Reach ar i n c d
      → (qs : List ℕ) × Chain (next_of i d.map) tail head qs × Ends ar i n w (length qs + 12) d
  alone-Ends c d ps h r =
      let (qs, is, more, only) = Reach-IsRace ar n own i head tail c d ps h r in
      (qs, is.chain, by_pc h.setup d qs is (d.thread w).pc refl (is.holds w below))
