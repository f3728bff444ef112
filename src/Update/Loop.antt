-- ===== src/Update/Loop.antt =====
-- The whole linking: `link_levels` puts the node into each of its levels, and the other levels and
-- all that is not a link stay as they are.
use skl.Prelude.{
  ℕ, zero, suc, ◌+◌, ◌≤◌, ◌<◌, ◌≡◌, ◌≢◌, ◌⊎◌, inl, inr, refl, sym, subst, Bool, Option, List, [],
  Ordering, arith,
}
use native.Mathlib.Decide.{ℕ_discrete}
use skl.Compare.{Trailer}
use skl.Types.{VacantBuffer}
use skl.Run.{ok}
use skl.Arena.{Arena}
use skl.Alloc.{Filled}
use skl.Splice.{Splice}
use skl.SkipMap.{SkipMap}
use skl.Splice.Bracket.{bracket, bracket-prev, insert_at}
use skl.Update.{Linking, linked, link_level, link_levels}
use skl.Update.Link.{Nodes, spliced, link_level-spliced}
use skl.Update.Levels.{
  IsLevel, IsPlace, IsSound, IsNew, bracket-IsPlace, bracket-linked, IsLevel-spliced, IsLevel-other,
  node-prev, node-next, prev-next, insert_at-IsSound,
}

module _ {A T : Type 0} (c : ℕ → Ordering) (nd : ℕ) (levels : ℕ → List ℕ) where
  -- the map with the node spliced into the levels from `i` on
  unfoldable pub relinked : (rounds i : ℕ) → SkipMap A T → SkipMap A T
  relinked zero i s = s
  relinked (suc rounds) i s =
      let (prev, next) = bracket c s.tail s.head (levels i) in
      relinked rounds (i + 1) (spliced nd i prev next s)

  -- Only links have changed.
  pub relinked_rest :
      (rounds i : ℕ) (s : SkipMap A T)
      → relinked rounds i s
        ≡ record s { mem = record (s.mem) { link = (relinked rounds i s).mem.link } }
  unfolding relinked spliced
  relinked_rest zero i s = refl
  relinked_rest (suc rounds) i s = relinked_rest rounds (i + 1) _

module _ (c : ℕ → Ordering) (height : ℕ → ℕ) (N : ℕ → Type 0) (nodes : Nodes height N) (nd h : ℕ)
    (levels : ℕ → List ℕ) where
  -- The levels below `h` can take the node up.
  pub record IsReady (head tail : ℕ) : Type 0 where
    pub sound : (k : ℕ) → k < h → IsSound height N nd head tail k (levels k)
    pub new : (k : ℕ) → k < h → IsNew height N nd head tail k (levels k)

  place :
      {head tail : ℕ} (k : ℕ)
      → IsReady head tail
      → k < h
      → IsPlace height N nd k (bracket c tail head (levels k)).0 (bracket c tail head (levels k)).1
  place k r b = bracket-IsPlace height N nodes nd c (r.sound k b) (r.new k b)

module _ {A T : Type 0} (c : ℕ → Ordering) (height : ℕ → ℕ) (N : ℕ → Type 0)
    (nodes : Nodes height N) (nd h : ℕ) (levels : ℕ → List ℕ) where
  -- A level outside of those that are worked on keeps its list.
  pub relinked-other :
      (rounds i j : ℕ) (ps : List ℕ) (s : SkipMap A T)
      → IsReady c height N nodes nd h levels s.head s.tail
      → i + rounds ≤ h
      → (j < i) ⊎ (i + rounds ≤ j)
      → IsSound height N nd s.head s.tail j ps
      → IsLevel s j ps
      → IsLevel (relinked c nd levels rounds i s) j ps
  unfolding relinked spliced
  relinked-other zero i j ps s r b o k l = l
  relinked-other (suc rounds) i j ps s r b o k l =
      relinked-other rounds (i + 1) j ps _ (record { sound = r.sound; new = r.new }) (omega arith)
        (elim o [ inl a ↦ inl (omega arith) | inr a ↦ inr (omega arith) ])
        (record {
          nodes_known = k.nodes_known;
          tall = k.tall;
          ne_null = k.ne_null;
          tail_known = k.tail_known;
          tail_ne_null = k.tail_ne_null;
          tail_tall = k.tail_tall;
          distinct = k.distinct;
          before_tail = k.before_tail;
        })
        (IsLevel-other height N nodes nd (place c height N nodes nd h levels i r (omega arith)) k
          (elim o [ inl a ↦ (λ e. absurd (omega arith)) | inr a ↦ (λ e. absurd (omega arith)) ]) l)

  -- A level that is worked on holds the node in its place.
  pub relinked-insert_at :
      (rounds i j : ℕ) (s : SkipMap A T)
      → IsReady c height N nodes nd h levels s.head s.tail
      → i + rounds ≤ h
      → i ≤ j
      → j < i + rounds
      → IsLevel s j (levels j)
      → IsLevel (relinked c nd levels rounds i s) j (insert_at c nd (levels j))
  unfolding relinked spliced
  relinked-insert_at zero i j s r b lo hi l = absurd (omega arith)
  relinked-insert_at (suc rounds) i j s r b lo hi l =
      let (prev, next) = bracket c s.tail s.head (levels i) in
      let r' : IsReady c height N nodes nd h levels s.head s.tail = record {
        sound = r.sound;
        new = r.new;
      } in
      let at = place c height N nodes nd h levels i r (omega arith) in
      elim (ℕ_discrete i j) [
        | yes e ↦
            let here : IsLevel s i (levels i) = subst (λ k. IsLevel s k (levels k)) (sym e) l in
            subst
              (λ k.
                IsLevel (relinked c nd levels rounds (i + 1) (spliced nd i prev next s)) k
                  (insert_at c nd (levels k)))
              e
              (relinked-other rounds (i + 1) i (insert_at c nd (levels i))
                (spliced nd i prev next s) r' (omega arith) (inl (omega arith))
                (insert_at-IsSound height N nodes nd c (r.sound i (omega arith))
                  (r.new i (omega arith)))
                (IsLevel-spliced height N nodes nd c (r.sound i (omega arith))
                  (r.new i (omega arith)) here))
        | no ne ↦
            relinked-insert_at rounds (i + 1) j (spliced nd i prev next s) r' (omega arith)
              (omega arith) (omega arith)
              (IsLevel-other height N nodes nd at (r.sound j (omega arith)) (λ e. ne (sym e)) l)
      ]

-- What the search has put into the inserter for a level: the node's neighbours, or nothing where the
-- level is above the map's height, and then the level is empty.
abbrev pub IsSplice : (ℕ → Ordering) → ℕ → ℕ → List ℕ → Splice → Type 0
IsSplice c head tail ps spl =
    ((spl.prev ≡ (bracket c tail head ps).0) × (spl.next ≡ (bracket c tail head ps).1))
    ⊎ ((spl.prev ≡ 0) × (spl.next ≡ 0) × (ps ≡ []))

module _ {A T E F : Type 0} ⦃t : Trailer T⦄ (ar : Arena A E) (fuel : ℕ) (meanwhile : Option ℕ)
    (trailer : T) (value_size : ℕ) (f : VacantBuffer → Filled F) (upserts : Bool) (c : ℕ → Ordering)
    (height : ℕ → ℕ) (N : ℕ → Type 0) (nodes : Nodes height N) (nd h : ℕ) (levels : ℕ → List ℕ)
    (spl : ℕ → Splice) (g : Linking) where
  link_levels_step :
      (rounds i : ℕ) (s : SkipMap A T)
      → IsSplice c s.head s.tail (levels i) (spl i)
      → let (prev, next) = bracket c s.tail s.head (levels i) in
        prev ≢ 0
        → link_level ar
            (suc fuel)
            meanwhile
            trailer
            value_size
            f
            upserts
            nd
            (suc fuel)
            i
            prev
            next
            g
            s
          ≡ ok (linked g) (spliced nd i prev next s)
        → link_levels ar
            (suc fuel)
            meanwhile
            trailer
            value_size
            f
            upserts
            nd
            spl
            rounds
            (i + 1)
            g
            (spliced nd i prev next s)
          ≡ ok (linked g) (relinked c nd levels rounds (i + 1) (spliced nd i prev next s))
        → link_levels ar (suc fuel) meanwhile trailer value_size f upserts nd spl (suc rounds) i g s
          ≡ ok (linked g) (relinked c nd levels (suc rounds) i s)
  unfolding link_levels relinked
  link_levels_step rounds i s (inl e) ne one rest = ground arith
  link_levels_step rounds i s (inr e) ne one rest =
      let b : bracket c s.tail s.head (levels i) ≡ (s.head, s.tail) =
        rw (e.2) (unfold bracket in refl) in
      ground (arith, b)

  -- With the splices of the search `link_levels` succeeds on every level, in one round each.
  pub link_levels-relinked :
      (rounds i : ℕ) (s : SkipMap A T)
      → IsReady c height N nodes nd h levels s.head s.tail
      → i + rounds ≤ h
      → ((k : ℕ) → k < h → IsSplice c s.head s.tail (levels k) (spl k))
      → ((k : ℕ) → i ≤ k → k < h → IsLevel s k (levels k))
      → link_levels ar (suc fuel) meanwhile trailer value_size f upserts nd spl rounds i g s
        ≡ ok (linked g) (relinked c nd levels rounds i s)
  unfolding link_levels relinked spliced
  link_levels-relinked zero i s r b p l = refl
  link_levels-relinked (suc rounds) i s r b p l =
      let (prev, next) = bracket c s.tail s.head (levels i) in
      let here : i < h = omega arith in
      let at = place c height N nodes nd h levels i r here in
      let known = r.sound i here in
      let linked_now =
        bracket-linked height N nodes nd c known (r.new i here) (l i (omega arith) here) in
      let one =
        link_level-spliced ar (suc fuel) meanwhile trailer value_size f upserts nd i prev next g s
          fuel (node-prev height N nodes nd at) (node-next height N nodes nd at)
          (prev-next height N nodes nd at) linked_now.0 linked_now.1 in
      let rest =
        link_levels-relinked rounds (i + 1) (spliced nd i prev next s)
          (record { sound = r.sound; new = r.new }) (omega arith) p
          (λ k a e.
            IsLevel-other height N nodes nd at (r.sound k e) (λ z. absurd (omega arith))
              (l k (omega arith) e)) in
      let prev_ne : prev ≢ 0 = bracket-prev c s.tail (λ p. p ≢ 0) s.head (levels i) known.ne_null in
      link_levels_step rounds i s (p i here) prev_ne one rest
