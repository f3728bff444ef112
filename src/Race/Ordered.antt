-- ===== src/Race/Ordered.antt =====
-- A level stays in the order of its entries, whatever the order of the threads' steps.
use native.Mathlib.Decide.{ℕ_discrete}
use skl.Prelude.{ℕ, ◌<◌, ◌≡◌, ◌⊎◌, inl, inr, refl, sym, subst, ◌∙◌, List, ◌∷◌, lt, arith}
use skl.Compare.{Trailer, Comparator}
use skl.Compare.Laws.{IsOrder, entry_order, entry_order-IsOrder}
use skl.Arena.{Arena}
use skl.SkipMap.{SkipMap, entry}
use skl.SkipMap.Invariant.{Sorted}
use skl.Race.{
  Pc, ready, written, swapping, relinking, checking, helping, searching, found, panicked, finished,
  Thread, System, step, turn, Step, pick, Reach, start, later,
}
use skl.Race.Facts.{IsTarget, Holds}
use skl.Race.Level.{Member, Member-All, put}
use skl.Race.Moves.{next_of, prev_of}
use skl.Race.Invariant.{IsSetup, IsRace}
use skl.Race.Rebuild.{update-own, update-other}
use skl.Race.Turn.{IsLinking, get_next-linked, target-In}
use skl.Race.Entries.{KeepsEntries, Everywhere, Mentions, Places, Places-kept, Sorted-kept, against}
use skl.Race.Sharing.{HasWords}
use skl.Race.Sorted.{IsLess, Sorted-put}
use skl.Race.Order.{Kept, IsKept, step-IsKept, swapping_kept}

Holds-Mentions :
    (In K : ℕ → Type 0) (head tail : ℕ) (next prev : ℕ → ℕ) (nd : ℕ) (pc : Pc)
    → ((q : ℕ) → In q → K q)
    → Holds In tail next prev nd pc
    → Mentions K head tail pc
Holds-Mentions In K head tail next prev nd pc f h = by_pc pc h
  where
    end : (q : ℕ) → IsTarget In tail q → (q ≡ tail) ⊎ K q
    end q (inl e) = inl e
    end q (inr m) = inr (f q m)

    by_pc : (pc : Pc) → Holds In tail next prev nd pc → Mentions K head tail pc
    by_pc (ready p q) h = (inr (f p h.1.prev_in), end q h.1.next_in)
    by_pc (written p q) h = (inr (f p h.span.prev_in), end q h.span.next_in)
    by_pc (checking p q r) h = (inr (f p h.0.span.prev_in), end q h.0.span.next_in)
    by_pc (helping p q r) h = (inr (f p h.0.span.prev_in), end q h.0.span.next_in)
    by_pc (swapping p q) h = (inr (f p h.0.span.prev_in), end q h.0.span.next_in)
    by_pc (searching x) h = inr (f x h.1)
    by_pc (relinking p q) h = tt
    by_pc (found x) h = tt
    by_pc (panicked x) h = tt
    by_pc finished h = tt

-- The entries of a level ascend, and each thread that has not made its exchange yet has a splice around
-- the place of the entry that its node holds.
pub record IsOrdered {A T : Type 0} ⦃t : Trailer T⦄ (n head tail : ℕ) (c : System A T) (ps : List ℕ)
    : Type 0 where
  pub ordered : IsOrder c.map.cmp.cmp
  pub words : HasWords c.map
  pub sorted : Sorted c.map ps
  pub places : (w : ℕ) → w < n → Places head tail c.map (c.thread w) (c.thread w).pc

module _ {A T E : Type 0} ⦃t : Trailer T⦄ (ar : Arena A E) (n : ℕ) (own : ℕ → ℕ) (i head tail : ℕ)
    (setup : IsSetup n own head tail) (c : System A T) (ps : List ℕ)
    (is : IsRace n own i head tail c ps) (od : IsOrdered n head tail c ps) (w : ℕ)
    (below : w < n) where
  abbrev th : Thread
  th = c.thread w

  abbrev In : ℕ → Type 0
  In q = Member q (head ∷ ps)

  abbrev after : Thread × SkipMap A T
  after = step ar i th.pc th c.map

  kept : IsKept ar i head tail c.map th In od.ordered od.words is.tail_eq after
  kept =
      step-IsKept ar i head tail c.map th In od.ordered od.words is.tail_eq (next_of i c.map)
        (prev_of i c.map) th.pc
        (λ x h. (
          get_next-linked ar n own i head tail setup c ps is w below x h,
          target-In ar n own i head tail setup c ps is w below x h,
        ))
        (subst (λ m. Holds In tail (next_of i c.map) (prev_of i c.map) m th.pc)
          (sym (is.owners w below)) (is.holds w below))
        refl (od.places w below)

  -- The place of the thread's node between those of its splice.
  between :
      (p q : ℕ)
      → Places head tail c.map th (swapping p q)
      → ((p ≡ head) ⊎ (entry_order c.map.cmp (entry c.map p) (entry c.map th.nd) ≡ lt))
        × ((q ≡ tail) ⊎ (entry_order c.map.cmp (entry c.map th.nd) (entry c.map q) ≡ lt))
  between p q h =
      let e = entry_order-IsOrder c.map.cmp od.ordered in
      let a = skl.Race.Entries.target head tail c.map th in
      (
        elim h.1 [
          | inl k ↦ inl k
          | inr k ↦ inr (
              ground (
                arith,
                h.0,
                k,
                e.eq_left a (entry c.map th.nd) (entry c.map p),
                e.flip (entry c.map th.nd) (entry c.map p),
              ))
        ],
        elim h.2 [
          | inl k ↦ inl k
          | inr k ↦ inr (ground (arith, h.0, k, e.eq_left a (entry c.map th.nd) (entry c.map q)))
        ],
      )

  Sorted-after :
      (qs : List ℕ) → ((qs ≡ ps) ⊎ IsLinking n own i head tail c ps w qs) → Sorted after.1 qs
  Sorted-after qs (inl e) = subst (Sorted after.1) (sym e) (
      Sorted-kept c.map after.1 ps kept.entries.cmp_same
        (Member-All (λ q. entry after.1 q ≡ entry c.map q) ps
          (λ q m. kept.entries.entry_same q (inl (inr m))))
        od.sorted)
  Sorted-after qs (inr l) =
      let p = l.prev in
      let pl : Places head tail c.map th (swapping p l.next) =
        subst (Places head tail c.map th) l.at_swapping (od.places w below) in
      let ho =
        subst (Holds In tail (next_of i c.map) (prev_of i c.map) (own w)) l.at_swapping
          (is.holds w below) in
      let b = between p l.next pl in
      let ke : KeepsEntries Everywhere c.map after.1 =
        subst (λ pc. KeepsEntries Everywhere c.map (step ar i pc th c.map).1) (sym l.at_swapping)
          (swapping_kept ar i head tail c.map th In od.ordered od.words is.tail_eq p l.next) in
      let here : Sorted c.map (put p th.nd head ps) =
        Sorted-put c.map od.ordered (next_of i c.map) tail p th.nd head ps is.chain
          ho.0.span.prev_in b.0
          (subst (λ r. (r ≡ tail) ⊎ IsLess c.map od.ordered (next_of i c.map) tail p th.nd th.nd r)
            (sym l.next_eq) b.1)
          od.sorted in
      subst (Sorted after.1) (sym l.put_eq) (
        subst (λ m. Sorted after.1 (put p m head ps)) (is.owners w below)
          (Sorted-kept c.map after.1 (put p th.nd head ps) ke.cmp_same
            (Member-All (λ q. entry after.1 q ≡ entry c.map q) (put p th.nd head ps)
              (λ q _. ke.entry_same q tt))
            here))

  pub turn-IsOrdered :
      (qs : List ℕ)
      → ((qs ≡ ps) ⊎ IsLinking n own i head tail c ps w qs)
      → IsOrdered n head tail (turn ar i n w c) qs
  unfolding turn
  turn-IsOrdered qs how = record {
    ordered = subst (λ (x : Comparator). IsOrder x.cmp) (sym kept.entries.cmp_same) od.ordered;
    words = kept.has_words;
    sorted = Sorted-after qs how;
    places = λ v lt. elim (ℕ_discrete v w) [
      | yes e ↦ rw (e, update-own c.thread w after.0) kept.places
      | no e ↦ rw (update-other c.thread w v after.0 e) (
          Places-kept (Kept ar i head tail c.map th In od.ordered od.words is.tail_eq) head tail
            c.map after.1 kept.entries (c.thread v) (c.thread v).pc
            (inr (λ k. e (setup.apart v w lt below (sym (is.owners v lt) ∙ k ∙ is.owners w below))))
            (Holds-Mentions In (Kept ar i head tail c.map th In od.ordered od.words is.tail_eq) head
              tail (next_of i c.map) (prev_of i c.map) (own v) (c.thread v).pc (λ q m. inl m)
              (is.holds v lt))
            (od.places v lt))
    ];
  }
