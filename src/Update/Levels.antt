-- ===== src/Update/Levels.antt =====
-- The linking of a new node, level by level.
use skl.Prelude.{ℕ, ◌<◌, ◌≡◌, ◌≢◌, ◌⊎◌, inl, inr, sym, ◌∙◌, List, ◌∷◌, Ordering, arith}
use skl.Node.{next_offset, prev_offset, tower_offset}
use skl.SkipMap.{SkipMap, get_next, get_prev}
use skl.SkipMap.Shape.{All, Chain}
use skl.SkipMap.Invariant.{Back}
use skl.Splice.Bracket.{
  Distinct, All-imp, All-zip, bracket, bracket-prev, bracket-ne, bracket-next, Chain-bracket,
  Back-bracket, insert_at, All-insert_at, Distinct-insert_at, Chain-frame, Back-frame,
}
use skl.Splice.Bracket.Links.{Chain-insert_at, Back-insert_at}
use skl.Update.Link.{
  Nodes, slot-ne, spliced, spliced-prev, spliced-next, spliced-node, next-spliced, prev-spliced,
}

-- One level of a map: its list is linked both ways.
pub record IsLevel {A T : Type 0} (s : SkipMap A T) (i : ℕ) (ps : List ℕ) : Type 0 where
  pub chain : Chain (λ p. get_next s p i) s.tail s.head ps
  pub back : Back (λ p. get_prev s p i) s.tail s.head ps

module _ {A T : Type 0} (s : SkipMap A T) (q j : ℕ) (h : q ≢ 0) where
  get_next_lem : get_next s q j ≡ next_offset s.mem q j
  unfolding get_next
  get_next_lem = ground arith

  get_prev_lem : get_prev s q j ≡ prev_offset s.mem q j
  unfolding get_prev
  get_prev_lem = ground arith

module _ (height : ℕ → ℕ) (N : ℕ → Type 0) (nd : ℕ) where
  -- What one splice needs of the level it works on.
  pub record IsPlace (i prev next : ℕ) : Type 0 where
    pub node : N nd
    pub prev_node : N prev
    pub next_node : N next
    pub node_tall : i < height nd
    pub prev_tall : i < height prev
    pub next_tall : i < height next
    pub prev_ne : nd ≢ prev
    pub next_ne : nd ≢ next
    pub ends_ne : prev ≢ next

  -- What a level needs for its lists to be read and written: its nodes have slots on it, and no node
  -- stands there twice.
  pub record IsSound (head tail i : ℕ) (ps : List ℕ) : Type 0 where
    pub nodes_known : All N (head ∷ ps)
    pub tall : All (λ p. i < height p) (head ∷ ps)
    pub ne_null : All (λ p. p ≢ 0) (head ∷ ps)
    pub tail_known : N tail
    pub tail_ne_null : tail ≢ 0
    pub tail_tall : i < height tail
    pub distinct : Distinct (head ∷ ps)
    pub before_tail : All (λ p. p ≢ tail) (head ∷ ps)

  -- The new node is known, has a slot on the level, and stands nowhere on it yet.
  pub record IsNew (head tail i : ℕ) (ps : List ℕ) : Type 0 where
    pub known : N nd
    pub tall : i < height nd
    pub ne_null : nd ≢ 0
    pub ne_tail : nd ≢ tail
    pub absent : All (λ p. nd ≢ p) (head ∷ ps)

module _ (height : ℕ → ℕ) (N : ℕ → Type 0) (nodes : Nodes height N) (nd : ℕ) where
  module _ {i prev next : ℕ} (at : IsPlace height N nd i prev next) where
    pub node-prev : tower_offset nd i ≢ tower_offset prev i
    node-prev =
        slot-ne nodes nd prev i i at.node at.prev_node at.node_tall at.prev_tall (inl at.prev_ne)

    pub node-next : tower_offset nd i ≢ tower_offset next i
    node-next =
        slot-ne nodes nd next i i at.node at.next_node at.node_tall at.next_tall (inl at.next_ne)

    pub prev-next : tower_offset prev i ≢ tower_offset next i
    prev-next =
        slot-ne nodes prev next i i at.prev_node at.next_node at.prev_tall at.next_tall
          (inl at.ends_ne)

  module _ (c : ℕ → Ordering) {head tail i : ℕ} {ps : List ℕ}
      (sound : IsSound height N nd head tail i ps) (new : IsNew height N nd head tail i ps) where
    pub bracket-IsPlace :
        IsPlace height N nd i (bracket c tail head ps).0 (bracket c tail head ps).1
    bracket-IsPlace = record {
      node = new.known;
      prev_node = bracket-prev c tail N head ps sound.nodes_known;
      next_node = bracket-next c tail N head ps sound.nodes_known.1 sound.tail_known;
      node_tall = new.tall;
      prev_tall = bracket-prev c tail (λ p. i < height p) head ps sound.tall;
      next_tall = bracket-next c tail (λ p. i < height p) head ps sound.tall.1 sound.tail_tall;
      prev_ne = bracket-prev c tail (λ p. nd ≢ p) head ps new.absent;
      next_ne = bracket-next c tail (λ p. nd ≢ p) head ps new.absent.1 new.ne_tail;
      ends_ne = bracket-ne c tail head ps sound.distinct sound.before_tail;
    }

    -- With the node on it the level still is what it must be.
    pub insert_at-IsSound : IsSound height N nd head tail i (insert_at c nd ps)
    insert_at-IsSound = record {
      nodes_known = (sound.nodes_known.0, All-insert_at c N nd ps new.known sound.nodes_known.1);
      tall = (sound.tall.0, All-insert_at c (λ p. i < height p) nd ps new.tall sound.tall.1);
      ne_null = (sound.ne_null.0, All-insert_at c (λ p. p ≢ 0) nd ps new.ne_null sound.ne_null.1);
      tail_known = sound.tail_known;
      tail_ne_null = sound.tail_ne_null;
      tail_tall = sound.tail_tall;
      distinct = (
        All-insert_at c (λ q. q ≢ head) nd ps new.absent.0 sound.distinct.0,
        Distinct-insert_at c nd ps new.absent.1 sound.distinct.1,
      );
      before_tail = (
        sound.before_tail.0,
        All-insert_at c (λ p. p ≢ tail) nd ps new.ne_tail sound.before_tail.1,
      );
    }

module _ {A T : Type 0} (height : ℕ → ℕ) (N : ℕ → Type 0) (nodes : Nodes height N) (nd : ℕ) where
  module _ (s : SkipMap A T) {i prev next : ℕ} (at : IsPlace height N nd i prev next) where
    -- A slot that is neither the new node's nor its neighbour's reads as before.
    get_next-spliced :
        (q j : ℕ)
        → N q
        → j < height q
        → (q ≢ nd) ⊎ (j ≢ i)
        → (q ≢ prev) ⊎ (j ≢ i)
        → get_next (spliced nd i prev next s) q j ≡ get_next s q j
    unfolding get_next
    get_next-spliced q j n h a b = rw (
        next-spliced s nd i prev next q j (slot-ne nodes q nd j i n at.node h at.node_tall a)
          (slot-ne nodes q prev j i n at.prev_node h at.prev_tall b))

    get_prev-spliced :
        (q j : ℕ)
        → N q
        → j < height q
        → (q ≢ nd) ⊎ (j ≢ i)
        → (q ≢ next) ⊎ (j ≢ i)
        → get_prev (spliced nd i prev next s) q j ≡ get_prev s q j
    unfolding get_prev
    get_prev-spliced q j n h a b = rw (
        prev-spliced s nd i prev next q j (prev-next height N nodes nd at)
          (slot-ne nodes q nd j i n at.node h at.node_tall a)
          (slot-ne nodes q next j i n at.next_node h at.next_tall b))

  module _ (c : ℕ → Ordering) {s : SkipMap A T} {i : ℕ} {ps : List ℕ}
      (sound : IsSound height N nd s.head s.tail i ps)
      (new : IsNew height N nd s.head s.tail i ps) where
    -- The links between which the node goes are as the search found them.
    pub bracket-linked :
        IsLevel s i ps
        → let (prev, next) = bracket c s.tail s.head ps in
          (next_offset s.mem prev i ≡ next) × (prev_offset s.mem next i ≡ prev)
    bracket-linked l =
        let (prev, next) = bracket c s.tail s.head ps in
        let prev_ne = bracket-prev c s.tail (λ p. p ≢ 0) s.head ps sound.ne_null in
        let next_ne =
          bracket-next c s.tail (λ p. p ≢ 0) s.head ps sound.ne_null.1 sound.tail_ne_null in
        (
          sym (get_next_lem s prev i prev_ne)
              ∙ Chain-bracket c s.tail (λ p. get_next s p i) s.head ps l.chain,
          sym (get_prev_lem s next i next_ne)
              ∙ Back-bracket c s.tail (λ p. get_prev s p i) s.head ps l.back,
        )

    -- The spliced level holds the new node in its place.
    pub IsLevel-spliced :
        IsLevel s i ps
        → let (prev, next) = bracket c s.tail s.head ps in
          IsLevel (spliced nd i prev next s) i (insert_at c nd ps)
    unfolding spliced
    IsLevel-spliced l =
        let (prev, next) = bracket c s.tail s.head ps in
        let at = bracket-IsPlace height N nodes nd c sound new in
        let s' = spliced nd i prev next s in
        let prev_ne = bracket-prev c s.tail (λ p. p ≢ 0) s.head ps sound.ne_null in
        let next_ne =
          bracket-next c s.tail (λ p. p ≢ 0) s.head ps sound.ne_null.1 sound.tail_ne_null in
        let node =
          spliced-node s nd i prev next (node-prev height N nodes nd at)
            (node-next height N nodes nd at) in
        let facts = All-zip N (λ p. i < height p) (s.head ∷ ps) sound.nodes_known sound.tall in
        let all =
          All-zip (λ p. N p × (i < height p)) (λ p. nd ≢ p) (s.head ∷ ps) facts new.absent in
        record {
          chain =
              Chain-insert_at c s.tail nd (λ p. get_next s p i) (λ p. get_next s' p i) s.head ps
                l.chain sound.distinct new.ne_null new.ne_tail
                (get_next_lem s' prev i prev_ne
                  ∙ spliced-prev s nd i prev next (prev-next height N nodes nd at))
                (get_next_lem s' nd i new.ne_null ∙ node.0)
                (All-imp (λ q. (N q × (i < height q)) × (nd ≢ q))
                  (λ q. q ≢ prev → get_next s' q i ≡ get_next s q i) (s.head ∷ ps)
                  (λ q h e. get_next-spliced s at q i h.0.0 h.0.1 (inl (λ z. h.1 (sym z))) (inl e))
                  all);
          back =
              Back-insert_at c s.tail nd (λ p. get_prev s p i) (λ p. get_prev s' p i) s.head ps
                l.back sound.distinct.1 sound.before_tail.1
                (get_prev_lem s' nd i new.ne_null ∙ node.1)
                (get_prev_lem s' next i next_ne ∙ spliced-next s nd i prev next)
                (All-imp (λ q. (N q × (i < height q)) × (nd ≢ q))
                  (λ q. q ≢ next → get_prev s' q i ≡ get_prev s q i) ps
                  (λ q h e. get_prev-spliced s at q i h.0.0 h.0.1 (inl (λ z. h.1 (sym z))) (inl e))
                  all.1)
                (λ e.
                  get_prev-spliced s at s.tail i sound.tail_known sound.tail_tall
                    (inl (λ z. new.ne_tail (sym z))) (inl (λ z. e (sym z))));
        }

  -- The other levels stay as they are.
  pub IsLevel-other :
      {s : SkipMap A T} {i j prev next : ℕ} {ps : List ℕ}
      → IsPlace height N nd i prev next
      → IsSound height N nd s.head s.tail j ps
      → j ≢ i
      → IsLevel s j ps
      → IsLevel (spliced nd i prev next s) j ps
  unfolding spliced
  IsLevel-other {s} {i} {j} {prev} {next} {ps} at sound ne l =
      let s' = spliced nd i prev next s in
      let facts = All-zip N (λ p. j < height p) (s.head ∷ ps) sound.nodes_known sound.tall in
      record {
        chain =
            Chain-frame (λ p. get_next s p j) (λ p. get_next s' p j) s.tail s.head ps l.chain
              (All-imp (λ q. N q × (j < height q)) (λ q. get_next s' q j ≡ get_next s q j)
                (s.head ∷ ps) (λ q h. get_next-spliced s at q j h.0 h.1 (inr ne) (inr ne)) facts);
        back =
            Back-frame (λ p. get_prev s p j) (λ p. get_prev s' p j) s.tail s.head ps l.back
              (All-imp (λ q. N q × (j < height q)) (λ q. get_prev s' q j ≡ get_prev s q j) ps
                (λ q h. get_prev-spliced s at q j h.0 h.1 (inr ne) (inr ne)) facts.1)
              (get_prev-spliced s at s.tail j sound.tail_known sound.tail_tall (inr ne) (inr ne));
      }
