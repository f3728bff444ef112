-- ===== src/Race/Invariant.antt =====
-- What holds of a level and of the threads that link their nodes on it, in every order of their steps.

use skl.Prelude.{ℕ, ◌<◌, ◌≡◌, ◌≢◌, ◌⊎◌, List, ◌∷◌}
use skl.SkipMap.Shape.{Chain}
use skl.Splice.Bracket.{Distinct}
use skl.Race.{relinking, System}
use skl.Race.Facts.{Holds}
use skl.Race.Level.{Member}
use skl.Race.Moves.{next_of, prev_of}

-- The nodes of the threads, and the ends of the level.
pub record IsSetup (n : ℕ) (own : ℕ → ℕ) (head tail : ℕ) : Type 0 where
  pub apart : (v w : ℕ) → v < n → w < n → own v ≡ own w → v ≡ w
  pub ne_null : (w : ℕ) → w < n → own w ≢ 0
  pub head_ne_null : head ≢ 0
  pub head_ne_tail : head ≢ tail

module _ {A T : Type 0} (n : ℕ) (own : ℕ → ℕ) (i head tail : ℕ) where
  -- A thread is between its two exchanges, and is about to put the link back from `z` right, which shows
  -- `y` still.
  pub record IsPending (c : System A T) (x y z : ℕ) : Type 0 where
    pub thread : ℕ
    pub thread_lt : thread < n
    pub owner : own thread ≡ x
    pub at_relinking : (c.thread thread).pc ≡ relinking y z

  pub record IsRace (c : System A T) (ps : List ℕ) : Type 0 where
    pub head_eq : c.map.head ≡ head
    pub tail_eq : c.map.tail ≡ tail
    pub chain : Chain (next_of i c.map) tail head ps
    pub distinct : Distinct (head ∷ ps)
    pub owners : (w : ℕ) → w < n → (c.thread w).nd ≡ own w
    pub holds :
        (w : ℕ)
        → w < n
        → Holds
            (λ q. Member q (head ∷ ps))
            tail
            (next_of i c.map)
            (prev_of i c.map)
            (own w)
            (c.thread w).pc
    -- each link back is right, or the thread that must change it has yet to do so
    pub back :
        (x : ℕ)
        → Member x (head ∷ ps)
        → (prev_of i c.map (next_of i c.map x) ≡ x)
          ⊎ IsPending c x (prev_of i c.map (next_of i c.map x)) (next_of i c.map x)
