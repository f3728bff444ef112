-- ===== src/Race/Rebuild.antt =====
-- The invariant of a race after a step, from what the step does to the links and to its own thread.
use native.Mathlib.Decide.{ℕ_discrete}
use skl.Prelude.{ℕ, ◌<◌, ◌≡◌, ◌≢◌, ◌⊎◌, ap, ◌∙◌, List, ◌∷◌, arith}
use skl.Node.{update}
use skl.SkipMap.{SkipMap}
use skl.SkipMap.Shape.{Chain}
use skl.Splice.Bracket.{Distinct}
use skl.Race.{relinking, Thread, System}
use skl.Race.Facts.{Holds, Change, Holds-Change}
use skl.Race.Level.{Member}
use skl.Race.Moves.{next_of, prev_of}
use skl.Race.Invariant.{IsSetup, IsPending, IsRace}

pub update-own : {V : Type 0} (f : ℕ → V) (w : ℕ) (a : V) → update f w a w ≡ a
unfolding update
update-own f w a = ground arith

pub update-other : {V : Type 0} (f : ℕ → V) (w v : ℕ) (a : V) → v ≢ w → update f w a v ≡ f v
unfolding update
update-other f w v a ne = ground arith

module _ {A T : Type 0} (n : ℕ) (own : ℕ → ℕ) (i head tail : ℕ) (setup : IsSetup n own head tail)
    (c : System A T) (ps : List ℕ) (is : IsRace n own i head tail c ps) (w : ℕ)
    (below : w < n) where
  abbrev pub moved : Thread → SkipMap A T → System A T
  moved th s = record { map = s; thread = update c.thread w th }

  pub IsPending-moved :
      (th : Thread) (s : SkipMap A T) (x y z : ℕ)
      → (c.thread w).pc ≢ relinking y z
      → IsPending n own i head tail c x y z
      → IsPending n own i head tail (moved th s) x y z
  IsPending-moved th s x y z ne p = record {
    thread = p.thread;
    thread_lt = p.thread_lt;
    owner = p.owner;
    at_relinking =
        ap (λ (t : Thread). t.pc)
          (update-other c.thread w p.thread th (λ e. ne (rw (← e) p.at_relinking)))
        ∙ p.at_relinking;
  }

  pub rebuild :
      (th : Thread) (s : SkipMap A T) (qs : List ℕ)
      → s.head ≡ c.map.head
      → s.tail ≡ c.map.tail
      → th.nd ≡ (c.thread w).nd
      → Chain (next_of i s) tail head qs
      → Distinct (head ∷ qs)
      → Change
          (λ q. Member q (head ∷ ps))
          (λ q. Member q (head ∷ qs))
          tail
          (next_of i c.map)
          (prev_of i c.map)
          (next_of i s)
          (prev_of i s)
          (own w)
      → Holds (λ q. Member q (head ∷ qs)) tail (next_of i s) (prev_of i s) (own w) th.pc
      → ((x : ℕ)
          → Member x (head ∷ qs)
          → (prev_of i s (next_of i s x) ≡ x)
            ⊎ IsPending n own i head tail
                (moved th s)
                x
                (prev_of i s (next_of i s x))
                (next_of i s x))
      → IsRace n own i head tail (moved th s) qs
  rebuild th s qs eh et en ch d change mine back = record {
    head_eq = eh ∙ is.head_eq;
    tail_eq = et ∙ is.tail_eq;
    chain = ch;
    distinct = d;
    owners = λ v lt. elim (ℕ_discrete v w) [
      | yes e ↦ rw (e, update-own c.thread w th) (en ∙ is.owners w below)
      | no e ↦ rw (update-other c.thread w v th e) (is.owners v lt)
    ];
    holds = λ v lt. elim (ℕ_discrete v w) [
      | yes e ↦ rw (e, update-own c.thread w th) mine
      | no e ↦ rw (update-other c.thread w v th e) (
          Holds-Change change (own v) (c.thread v).pc (λ k. e (setup.apart v w lt below k))
            (is.holds v lt))
    ];
    back = back;
  }
