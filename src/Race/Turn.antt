-- ===== src/Race/Turn.antt =====
-- Every turn of a thread keeps the invariant of a race, and the nodes that are linked.
use native.Mathlib.Decide.{ℕ_discrete}
use skl.Prelude.{
  suc, zero, ℕ, ◌<◌, ◌≡◌, ◌≢◌, ◌⊎◌, inl, inr, refl, sym, subst, ◌∙◌, List, ◌∷◌, arith, ◌==◌,
  Bool-cases, if◌then◌else◌,
}
use skl.Compare.{Trailer}
use skl.Arena.{Arena}
use skl.Node.{next_offset}
use skl.SkipMap.{SkipMap, get_next}
use skl.Store.{write_tower, cas_next_offset, cas_prev_offset}
use skl.Race.{
  met, Pc, ready, written, swapping, relinking, checking, helping, searching, found, panicked,
  finished, Thread, at, System, look, step, turn,
}
use skl.Race.Facts.{IsFresh, IsSpan, IsWritten, IsSeen, IsPast, Holds, IsTarget}
use skl.Race.Changes.{IsTarget-ne}
use skl.Race.Level.{
  Member, Chain-target, Chain-ne_null, Chain-injective, put, put-Member, Member-put,
}
use skl.Race.Moves.{
  next_of, prev_of, AfterLook, look-AfterLook, cas_next_offset-won, cas_next_offset-lost,
  cas_prev_offset-next, cas_prev_offset-other, cas_prev_offset-here,
}
use skl.Race.Invariant.{IsSetup, IsRace}
use skl.Race.Rebuild.{moved}
use skl.Race.Steps.{quiet-IsRace, write-IsRace, link-IsRace, back-IsRace}

-- The thread makes its exchange of the link forward.
pub record IsLinking {A T : Type 0} (n : ℕ) (own : ℕ → ℕ) (i head tail : ℕ) (c : System A T)
    (ps : List ℕ) (w : ℕ) (qs : List ℕ) : Type 0 where
  pub prev : ℕ
  pub next : ℕ
  pub at_swapping : (c.thread w).pc ≡ swapping prev next
  pub next_eq : next_of i c.map prev ≡ next
  pub put_eq : qs ≡ put prev (own w) head ps

module _ {A T E : Type 0} ⦃t : Trailer T⦄ (ar : Arena A E) (n : ℕ) (own : ℕ → ℕ) (i head tail : ℕ)
    (setup : IsSetup n own head tail) (c : System A T) (ps : List ℕ)
    (is : IsRace n own i head tail c ps) (w : ℕ) (below : w < n) where
  abbrev th : Thread
  th = c.thread w

  abbrev In : ℕ → Type 0
  In q = Member q (head ∷ ps)

  abbrev next : ℕ → ℕ
  next = next_of i c.map

  abbrev prev : ℕ → ℕ
  prev = prev_of i c.map

  abbrev Kept : Thread × SkipMap A T → Type 0
  Kept r =
      (qs : List ℕ) × IsRace n own i head tail
        (moved n own i head tail setup c ps is w below r.0 r.1) qs
      × ((q : ℕ) → Member q ps → Member q qs)
      × ((q : ℕ) → Member q qs → Member q ps ⊎ (q ≡ own w))
      × ((qs ≡ ps) ⊎ IsLinking n own i head tail c ps w qs)

  quiet :
      (pc : Pc)
      → ((y z : ℕ) → th.pc ≢ relinking y z)
      → Holds In tail next prev (own w) pc
      → Kept (at pc th, c.map)
  quiet pc q h = (
    ps,
    quiet-IsRace n own i head tail setup c ps is w below (at pc th) c.map refl refl refl refl q h,
    λ r m. m,
    λ r m. inl m,
    inl refl,
  )

  -- The link back from the node behind a linked one shows a linked node.
  prev-In : (p : ℕ) → In p → In (prev (next p))
  prev-In p h = elim (is.back p h) [
    | inl e ↦ subst In (sym e) h
    | inr k ↦
        (subst (Holds In tail next prev (own k.thread)) k.at_relinking
          (is.holds k.thread k.thread_lt)).1.prev_in
  ]

  -- After the test of the link back from `q`.
  read_back :
      (p q : ℕ)
      → ((y z : ℕ) → th.pc ≢ relinking y z)
      → IsWritten In tail next prev (own w) p q
      → prev q ≢ p
      → IsSeen In tail next prev p q (prev q)
  read_back p q quiet h ne = record {
    seen_ne = ne;
    seen_in = λ e. subst (λ r. In (prev r)) e (prev-In p h.span.prev_in);
    near = λ _. inr refl;
  }

  -- Where `q` is still behind `p`, another node that the link back shows does not lead to `q`.
  read_forward :
      (p q seen : ℕ)
      → IsSpan In tail p q
      → IsSeen In tail next prev p q seen
      → next p ≡ q
      → IsPast In tail next prev p q seen
  read_forward p q seen sp h e = record {
    old_in = h.seen_in e;
    ahead = λ k. h.seen_ne (
        Chain-injective next tail head seen p ps is.chain is.distinct (h.seen_in e) sp.prev_in
          (k ∙ sym e));
    pending = λ _. e;
  }

  helped :
      (p q seen : ℕ)
      → IsWritten In tail next prev (own w) p q
      → IsSeen In tail next prev p q seen
      → IsPast In tail next prev p q seen
      → Holds In tail
          (next_of i (cas_prev_offset q i seen p c.map).1)
          (prev_of i (cas_prev_offset q i seen p c.map).1)
          (own w)
          (swapping p q)
  helped p q seen wr se pa =
      let s = (cas_prev_offset q i seen p c.map).1 in
      let forward = cas_prev_offset-next i seen q p c.map in
      (
        record {
          fresh = wr.fresh;
          span = wr.span;
          own_next = forward (own w) ∙ wr.own_next;
          own_prev =
              cas_prev_offset-other i seen q p c.map (own w)
                (λ k. IsTarget-ne q (own w) wr.fresh wr.span.next_in (sym k))
              ∙ wr.own_prev;
        },
        λ e.
            ground
              (arith, e, forward p, se.near, se.seen_ne, cas_prev_offset-here i seen q p c.map),
      )

  still : ((y z : ℕ) → th.pc ≢ relinking y z) → Kept (th, c.map)
  still q = (
    ps,
    quiet-IsRace n own i head tail setup c ps is w below th c.map refl refl refl refl q
        (is.holds w below),
    λ r m. m,
    λ r m. inl m,
    inl refl,
  )

  pub get_next-linked : (x : ℕ) → In x → get_next c.map x i ≡ next x
  unfolding get_next next_offset
  get_next-linked x (inl k) = ground (arith, k, setup.head_ne_null)
  get_next-linked x (inr m) = ground (arith, Chain-ne_null next tail head x ps is.chain m)

  pub target-In : (x : ℕ) → In x → IsTarget In tail (next x)
  target-In x h = elim (Chain-target next tail head x ps is.chain h) [
    | inl e ↦ inl e
    | inr k ↦ inr (inr k)
  ]

  met-Holds : (l y : ℕ) → IsFresh In tail (own w) → Holds In tail next prev (own w) (met l y)
  met-Holds zero y h = h
  met-Holds (suc l) y h = h

  -- After a round of the search.
  looked :
      (x : ℕ)
      → ((y z : ℕ) → th.pc ≢ relinking y z)
      → IsFresh In tail (own w) × In x
      → (r : Thread × SkipMap A T) → AfterLook ar i x (next x) th c.map r
      → Kept r
  looked x quiet h r (links, same, at_pc) = (
    ps,
    quiet-IsRace n own i head tail setup c ps is w below r.0 r.1 links.0 links.1 links.2 same quiet
        (elim at_pc [
          | inl k ↦
              subst (Holds In tail next prev (own w)) (sym k)
                (h.0, record { prev_in = h.1; next_in = target-In x h.1 })
          | inr k ↦ elim k [
            | inl k ↦ subst (Holds In tail next prev (own w)) (sym k.0) (
              h.0,
              elim (target-In x h.1) [ inl e ↦ absurd (k.1 (e ∙ sym is.tail_eq)) | inr m ↦ m ],
            )
            | inr k ↦ subst (Holds In tail next prev (own w)) (sym k) (met-Holds i (next x) h.0)
          ]
        ]),
    λ q m. m,
    λ q m. inl m,
    inl refl,
  )

  by_pc : (pc : Pc) → th.pc ≡ pc → Holds In tail next prev (own w) pc → Kept (step ar i pc th c.map)
  unfolding step
  by_pc (ready p q) e h =
      subst (λ m. Kept (at (written p q) th, write_tower m i p q c.map)) (sym (is.owners w below))
        (
          ps,
          write-IsRace n own i head tail setup c ps is w below p q (λ y z k. cc) h.0 h.1,
          λ r m. m,
          λ r m. inl m,
          inl refl,
        )
  by_pc (written p q) e h = elim (Bool-cases (prev q == p)) [
    | inl k ↦ rw k (quiet (swapping p q) (λ y z k. cc) (h, λ _. ground (arith, k)))
    | inr k ↦ rw k (
        quiet (checking p q (prev q)) (λ y z k. cc)
          (h, read_back p q (λ y z k. cc) h (ground (arith, k))))
  ]
  by_pc (checking p q seen) e h = elim (Bool-cases (next p == q)) [
    | inl k ↦ rw k (
        quiet (helping p q seen) (λ y z k. cc)
          (h.0, h.1, read_forward p q seen h.0.span h.1 (ground (arith, k))))
    | inr k ↦ rw k (quiet (swapping p q) (λ y z k. cc) (h.0, λ j. absurd (ground (arith, j, k))))
  ]
  by_pc (helping p q seen) e h = (
    ps,
    back-IsRace n own i head tail setup c ps is w below (at (swapping p q) th) seen p q refl
        h.0.span.prev_in h.0.span.next_in h.2.pending (λ y z k. (cc, cc))
        (helped p q seen h.0 h.1 h.2),
    λ r m. m,
    λ r m. inl m,
    inl refl,
  )
  by_pc (swapping p q) e h = elim (ℕ_discrete (next p) q) [
    | yes k ↦
        subst
          (λ m. Kept (
            let (won, s') = cas_next_offset p i q m c.map in
            if won then (at (relinking p q) th, s') else (at (searching p) th, s')))
          (sym (is.owners w below))
          (rw ((cas_next_offset-won i p q (own w) c.map k).0) (
            put p (own w) head ps,
            link-IsRace n own i head tail setup c ps is w below p q (λ y z k. cc) h.0 (h.1 k) k,
            λ r m. Member-put p (own w) r head ps m,
            λ r m. elim (put-Member p (own w) r head ps m) [ inl k ↦ inr k | inr k ↦ inl k ],
            inr (record { prev = p; next = q; at_swapping = e; next_eq = k; put_eq = refl }),
          ))
    | no k ↦
        rw (cas_next_offset-lost i p q th.nd c.map k)
          (quiet (searching p) (λ y z k. cc) (h.0.fresh, h.0.span.prev_in))
  ]
  by_pc (relinking p q) e h =
      subst (λ m. Kept (at finished th, (cas_prev_offset q i p m c.map).1))
        (sym (is.owners w below))
        (
          ps,
          back-IsRace n own i head tail setup c ps is w below (at finished th) p (own w) q refl h.0
              h.1.next_in h.3.pending (λ y z k. (cc, cc)) h.0,
          λ r m. m,
          λ r m. inl m,
          inl refl,
        )
  by_pc (searching x) e h =
      subst (λ m. Kept (look ar i x m th c.map)) (sym (get_next-linked x h.1))
        (looked x (λ y z k. cc) h (look ar i x (next x) th c.map)
          (look-AfterLook ar i x (next x) th c.map))
  by_pc (found x) e h = still (λ y z k. cc)
  by_pc (panicked x) e h = still (λ y z k. cc)
  by_pc finished e h = still (λ y z k. cc)

  pub turn-IsRace :
      (qs : List ℕ) × IsRace n own i head tail (turn ar i n w c) qs
      × ((q : ℕ) → Member q ps → Member q qs)
      × ((q : ℕ) → Member q qs → Member q ps ⊎ (q ≡ own w))
      × ((qs ≡ ps) ⊎ IsLinking n own i head tail c ps w qs)
  unfolding turn
  turn-IsRace = by_pc th.pc refl (is.holds w below)
