-- ===== src/Race/Safety.antt =====
-- What threads that link their nodes on one level leave of it, whatever the order of their steps.
use skl.Prelude.{ℕ, ◌<◌, ◌≡◌, ◌≢◌, ◌⊎◌, ◌↔◌, inl, inr, refl, sym, subst, List, [], ◌∷◌}
use skl.Compare.{Trailer}
use skl.Arena.{Arena}
use skl.SkipMap.Shape.{Chain}
use skl.SkipMap.Invariant.{Back}
use skl.Splice.Bracket.{Distinct}
use skl.Race.{
  Pc, ready, written, swapping, relinking, checking, helping, searching, found, panicked, finished,
  System, Step, pick, Reach, start, later,
}
use skl.Race.Facts.{IsFresh, IsSpan, Holds}
use skl.Race.Level.{Member}
use skl.Race.Moves.{next_of, prev_of}
use skl.Race.Invariant.{IsSetup, IsRace}
use skl.Race.Turn.{turn-IsRace}

-- The thread has made its exchange of the link forward.
abbrev pub HasLinked : Pc → Type 0
HasLinked (relinking p q) = Unit
HasLinked finished = Unit
HasLinked _ = ⊥

-- the node of some thread
abbrev pub OfThread : (n : ℕ) (own : ℕ → ℕ) → ℕ → Type 0
OfThread n own q = (w : ℕ) × (w < n) × (q ≡ own w)

-- Links both ways, as a list and node by node.
module _ (next prev : ℕ → ℕ) (tail : ℕ) where
  Back-Member :
      (x a : ℕ) (ps : List ℕ)
      → Chain next tail x ps
      → Back prev tail x ps
      → Member a (x ∷ ps)
      → prev (next a) ≡ a
  Back-Member x a [] c b (inl e) = rw (e, c) b
  Back-Member x a [] c b (inr m) = elim m [ ]
  Back-Member x a (p ∷ ps) c b (inl e) = rw (e, c.0) (b.0)
  Back-Member x a (p ∷ ps) c b (inr m) = Back-Member p a ps c.3 b.1 m

  Member-Back :
      (x : ℕ) (ps : List ℕ)
      → Chain next tail x ps
      → ((a : ℕ) → Member a (x ∷ ps) → prev (next a) ≡ a)
      → Back prev tail x ps
  Member-Back x [] c f = subst (λ r. prev r ≡ x) c (f x (inl refl))
  Member-Back x (p ∷ ps) c f =
      (subst (λ r. prev r ≡ x) c.0 (f x (inl refl)), Member-Back p ps c.3 (λ a m. f a (inr m)))

module _ {A T : Type 0} (n : ℕ) (own : ℕ → ℕ) (i head tail : ℕ) where
  -- A level that is linked both ways, and threads that have found splices on it and written nothing yet.
  pub record IsStart (c : System A T) (ps : List ℕ) : Type 0 where
    pub setup : IsSetup n own head tail
    pub head_eq : c.map.head ≡ head
    pub tail_eq : c.map.tail ≡ tail
    pub chain : Chain (next_of i c.map) tail head ps
    pub back : Back (prev_of i c.map) tail head ps
    pub distinct : Distinct (head ∷ ps)
    pub owners : (w : ℕ) → w < n → (c.thread w).nd ≡ own w
    pub fresh : (w : ℕ) → w < n → IsFresh (λ q. Member q (head ∷ ps)) tail (own w)
    pub prev : ℕ → ℕ
    pub next : ℕ → ℕ
    pub at_ready : (w : ℕ) → w < n → (c.thread w).pc ≡ ready (prev w) (next w)
    pub span : (w : ℕ) → w < n → IsSpan (λ q. Member q (head ∷ ps)) tail (prev w) (next w)

  pub IsStart-IsRace : (c : System A T) (ps : List ℕ) → IsStart c ps → IsRace n own i head tail c ps
  IsStart-IsRace c ps h = record {
    head_eq = h.head_eq;
    tail_eq = h.tail_eq;
    chain = h.chain;
    distinct = h.distinct;
    owners = h.owners;
    holds = λ w lt.
        subst (Holds (λ q. Member q (head ∷ ps)) tail (next_of i c.map) (prev_of i c.map) (own w))
          (sym (h.at_ready w lt)) (h.fresh w lt, h.span w lt);
    back = λ x m.
        inl (Back-Member (next_of i c.map) (prev_of i c.map) tail head x ps h.chain h.back m);
  }

module _ {A T E : Type 0} ⦃t : Trailer T⦄ (ar : Arena A E) (n : ℕ) (own : ℕ → ℕ)
    (i head tail : ℕ) where
  abbrev Found : List ℕ → System A T → Type 0
  Found ps d =
      (qs : List ℕ) × IsRace n own i head tail d qs
      × ((q : ℕ) → Member q ps → Member q qs)
      × ((q : ℕ) → Member q qs → Member q ps ⊎ OfThread n own q)

  pub Reach-IsRace :
      (c d : System A T) (ps : List ℕ)
      → IsStart n own i head tail c ps
      → Reach ar i n c d
      → Found ps d
  Reach-IsRace c d ps h start =
      (ps, IsStart-IsRace n own i head tail c ps h, λ q m. m, λ q m. inl m)
  Reach-IsRace c d ps h (later r st) = by_step (Reach-IsRace c _ ps h r) st
    where
      by_step : {b e : System A T} → Found ps b → Step ar i n b e → Found ps e
      by_step {b} (qs, is, more, only) (pick w lt) =
          let (rs, is', more', only', _) = turn-IsRace ar n own i head tail h.setup b qs is w lt in
          (
            rs,
            is',
            λ q m. more' q (more q m),
            λ q m. elim (only' q m) [ inl k ↦ only q k | inr k ↦ inr (w, lt, k) ],
          )

  pub linked-Member :
      (d : System A T) (qs : List ℕ) (w : ℕ) (pc : Pc)
      → Holds (λ q. Member q (head ∷ qs)) tail (next_of i d.map) (prev_of i d.map) (own w) pc
      → HasLinked pc
      → Member (own w) (head ∷ qs)
  linked-Member d qs w (relinking p q) h l = h.0
  linked-Member d qs w finished h l = h
  linked-Member d qs w (ready p q) h l = absurd l
  linked-Member d qs w (written p q) h l = absurd l
  linked-Member d qs w (swapping p q) h l = absurd l
  linked-Member d qs w (checking p q r) h l = absurd l
  linked-Member d qs w (helping p q r) h l = absurd l
  linked-Member d qs w (searching p) h l = absurd l
  linked-Member d qs w (found p) h l = absurd l
  linked-Member d qs w (panicked p) h l = absurd l

  Member-linked :
      (d : System A T) (qs : List ℕ) (w : ℕ) (pc : Pc)
      → Holds (λ q. Member q (head ∷ qs)) tail (next_of i d.map) (prev_of i d.map) (own w) pc
      → Member (own w) (head ∷ qs)
      → HasLinked pc
  Member-linked d qs w (relinking p q) h m = tt
  Member-linked d qs w finished h m = tt
  Member-linked d qs w (ready p q) h m = absurd (h.0.absent m)
  Member-linked d qs w (written p q) h m = absurd (h.fresh.absent m)
  Member-linked d qs w (swapping p q) h m = absurd (h.0.fresh.absent m)
  Member-linked d qs w (checking p q r) h m = absurd (h.0.fresh.absent m)
  Member-linked d qs w (helping p q r) h m = absurd (h.0.fresh.absent m)
  Member-linked d qs w (searching p) h m = absurd (h.0.absent m)
  Member-linked d qs w (found p) h m = absurd (h.absent m)
  Member-linked d qs w (panicked p) h m = absurd (h.absent m)

  -- No insertion is lost. Let `n` threads with nodes of their own, none of which is linked yet, start
  -- from splices on a level that is linked both ways. In every state that they reach, in whichever order
  -- they take their steps, the links forward lead from the head to the tail through a list of nodes
  -- without repetitions, in which are all the nodes that were linked at the start, the node of a thread
  -- just where the thread has made its exchange, and no other node.
  pub linked_once :
      (c d : System A T) (ps : List ℕ)
      → IsStart n own i head tail c ps
      → Reach ar i n c d
      → (qs : List ℕ) × Chain (next_of i d.map) tail head qs
        × Distinct (head ∷ qs)
        × ((q : ℕ) → Member q ps → Member q qs)
        × ((q : ℕ) → Member q qs → Member q ps ⊎ OfThread n own q)
        × ((w : ℕ) → w < n → HasLinked (d.thread w).pc ↔ Member (own w) (head ∷ qs))
  linked_once c d ps h r =
      let (qs, is, more, only) = Reach-IsRace c d ps h r in
      (
        qs,
        is.chain,
        is.distinct,
        more,
        only,
        λ w lt. (
          (λ l. linked-Member d qs w (d.thread w).pc (is.holds w lt) l),
          (λ m. Member-linked d qs w (d.thread w).pc (is.holds w lt) m),
        ),
      )

  -- The help of the other threads puts every link back right. Under the conditions of `linked_once`, in
  -- each state that is reached in which no thread is between its two exchanges, the level is linked both
  -- ways: from the tail the links back lead through the same nodes to the head.
  pub linked_back :
      (c d : System A T) (ps : List ℕ)
      → IsStart n own i head tail c ps
      → Reach ar i n c d
      → ((w y z : ℕ) → w < n → (d.thread w).pc ≢ relinking y z)
      → (qs : List ℕ) × Chain (next_of i d.map) tail head qs × Back (prev_of i d.map) tail head qs
  linked_back c d ps h r quiet =
      let (qs, is, more, only) = Reach-IsRace c d ps h r in
      (
        qs,
        is.chain,
        Member-Back (next_of i d.map) (prev_of i d.map) tail head qs is.chain (λ x m.
            elim (is.back x m) [
              | inl e ↦ e
              | inr p ↦ absurd (quiet p.thread _ _ p.thread_lt p.at_relinking)
            ]),
      )
