-- ===== src/Race/Outcome.antt =====
-- What a race leaves to the readers of the level: its nodes in the order of their entries.
use skl.Prelude.{ℕ, ◌<◌, List, ◌∷◌}
use skl.Compare.{Trailer}
use skl.Arena.{Arena}
use skl.SkipMap.Shape.{Chain}
use skl.SkipMap.Invariant.{Sorted}
use skl.Race.{System, Step, pick, Reach, start, later}
use skl.Race.Level.{Member}
use skl.Race.Moves.{next_of}
use skl.Race.Invariant.{IsRace}
use skl.Race.Turn.{turn-IsRace}
use skl.Race.Safety.{HasLinked, IsStart, IsStart-IsRace, linked-Member}
use skl.Race.Ordered.{IsOrdered, turn-IsOrdered}

module _ {A T E : Type 0} ⦃t : Trailer T⦄ (ar : Arena A E) (n : ℕ) (own : ℕ → ℕ)
    (i head tail : ℕ) where
  abbrev Found : List ℕ → System A T → Type 0
  Found ps d =
      (qs : List ℕ) × IsRace n own i head tail d qs
      × IsOrdered n head tail d qs
      × ((q : ℕ) → Member q ps → Member q qs)

  Reach-IsOrdered :
      (c d : System A T) (ps : List ℕ)
      → IsStart n own i head tail c ps
      → IsOrdered n head tail c ps
      → Reach ar i n c d
      → Found ps d
  Reach-IsOrdered c d ps h od start = (ps, IsStart-IsRace n own i head tail c ps h, od, λ q m. m)
  Reach-IsOrdered c d ps h od (later r st) = by_step (Reach-IsOrdered c _ ps h od r) st
    where
      by_step : {b e : System A T} → Found ps b → Step ar i n b e → Found ps e
      by_step {b} (qs, is, od', more) (pick w lt) =
          let (rs, is', more', _, how) = turn-IsRace ar n own i head tail h.setup b qs is w lt in
          (
            rs,
            is',
            turn-IsOrdered ar n own i head tail h.setup b qs is od' w lt rs how,
            λ q m. more' q (more q m),
          )

  -- Threads that race leave the level in order. Under the conditions of `linked_once`, let the level's
  -- entries ascend strictly at the start, the comparator be a total preorder, each header's word of key
  -- size and height be a u32, each thread's node hold the entry that the thread looks for, and the
  -- splices be around the places of these entries. Then in every state that is reached, in whichever
  -- order the threads take their steps and whatever keys they share, the links forward lead from the
  -- head to the tail through nodes whose entries ascend strictly, among them those of the start and the
  -- node of each thread that has made its exchange.
  pub linked_in_order :
      (c d : System A T) (ps : List ℕ)
      → IsStart n own i head tail c ps
      → IsOrdered n head tail c ps
      → Reach ar i n c d
      → (qs : List ℕ) × Chain (next_of i d.map) tail head qs
        × Sorted d.map qs
        × ((q : ℕ) → Member q ps → Member q qs)
        × ((w : ℕ) → w < n → HasLinked (d.thread w).pc → Member (own w) (head ∷ qs))
  linked_in_order c d ps h od r =
      let (qs, is, od', more) = Reach-IsOrdered c d ps h od r in
      (
        qs,
        is.chain,
        od'.sorted,
        more,
        λ w lt l. linked-Member ar n own i head tail d qs w (d.thread w).pc (is.holds w lt) l,
      )
