-- ===== src/Race/Walk.antt =====
-- The search of a level by a thread that runs alone, after an exchange that was lost.
use native.Mathlib.Decide.{ℕ_discrete}
use skl.Prelude.{
  ℕ, zero, suc, ◌+◌, ◌≤◌, ◌≡◌, ◌≢◌, inl, inr, refl, sym, subst, ap, ◌∙◌, List, [], ◌∷◌, arith,
  length,
}
use skl.Compare.{Trailer}
use skl.Node.{next_offset, tower_offset, Link}
use skl.Arena.{Arena}
use skl.SkipMap.{SkipMap, get_next}
use skl.SkipMap.Shape.{All, Chain}
use skl.Splice.Bracket.{Chain-frame}
use skl.Race.{met, ready, swapping, searching, Thread, System, look, step, turn, run}
use skl.Race.Level.{All-Member, Member-All}
use skl.Race.Moves.{next_of, look-AfterLook, cas_next_offset-lost}
use skl.Race.Alone.{
  met-HasEnded, HasEnded, pc_of, after_turn, turned, IsFrame, framed, pc_turned, from_ready,
  IsRight, IsRight-kept, swap_right, weaken, Ends,
}

module _ {A T E : Type 0} ⦃t : Trailer T⦄ (ar : Arena A E) (i n w : ℕ) where
  -- The links from `x` lead through at most `l` nodes to the tail, none of them the thread's own.
  pub record IsWalk (x l : ℕ) (c : System A T) : Type 0 where
    pub rest : List ℕ
    pub chain : Chain (next_of i c.map) c.map.tail x rest
    pub ne_own : All (λ r. r ≢ (c.thread w).nd) (x ∷ rest)
    pub ne_null : x ≢ 0
    pub short : length rest ≤ l

  pub IsWalk-kept :
      (x l : ℕ) (c d : System A T) → IsFrame ar i n w c d → IsWalk x l c → IsWalk x l d
  IsWalk-kept x l c d f h = record {
    rest = h.rest;
    chain = rw (f.tail_same) (
        Chain-frame (next_of i c.map) (next_of i d.map) c.map.tail x h.rest h.chain (
          Member-All (λ r. next_of i d.map r ≡ next_of i c.map r) (x ∷ h.rest)
            (λ r m.
              f.next_same r (All-Member (λ r. r ≢ (c.thread w).nd) r (x ∷ h.rest) h.ne_own m))));
    ne_own = subst (λ m. All (λ r. r ≢ m) (x ∷ h.rest)) (sym f.nd_same) h.ne_own;
    ne_null = h.ne_null;
    short = h.short;
  }

  IsWalk-next :
      (x l : ℕ) (c : System A T)
      → IsWalk x (suc l) c
      → next_of i c.map x ≢ c.map.tail
      → IsWalk (next_of i c.map x) l c
  IsWalk-next x l c h ne = by_rest h.rest h.chain h.ne_own h.short
    where
      by_rest :
          (ps : List ℕ)
          → Chain (next_of i c.map) c.map.tail x ps
          → All (λ r. r ≢ (c.thread w).nd) (x ∷ ps)
          → length ps ≤ suc l
          → IsWalk (next_of i c.map x) l c
      by_rest [] ch a le = absurd (ne ch)
      by_rest (p ∷ ps) ch a le =
          subst (λ r. IsWalk r l c) (sym ch.0)
            (record {
              rest = ps;
              chain = ch.3;
              ne_own = a.1;
              ne_null = ch.1;
              short = omega (arith, le);
            })

  walk_ends : (x : ℕ) (c : System A T) → IsWalk x 0 c → next_of i c.map x ≡ c.map.tail
  walk_ends x c h = by_rest h.rest h.chain h.short
    where
      by_rest :
          (ps : List ℕ)
          → Chain (next_of i c.map) c.map.tail x ps
          → length ps ≤ 0
          → next_of i c.map x ≡ c.map.tail
      by_rest [] ch le = ch
      by_rest (p ∷ ps) ch le = absurd (omega (arith, le))

  link_path :
      (c d : System A T)
      → d.map.mem.link ≡ c.map.mem.link
      → (r : ℕ) → next_of i d.map r ≡ next_of i c.map r
  unfolding next_offset
  link_path c d e r = ap (λ (l : ℕ → Link). (l (tower_offset r i)).next_offset) e

  -- One round of the search, given what follows where it goes on.
  from_look :
      (l x : ℕ) (c : System A T)
      → IsWalk x l c
      → pc_of ar i n w c ≡ searching x
      → ((d : System A T)
          → next_of i c.map x ≢ c.map.tail
          → IsFrame ar i n w c d
          → pc_of ar i n w d ≡ searching (next_of i c.map x)
          → Ends ar i n w (l + 6) d)
      → Ends ar i n w (l + 7) c
  unfolding step
  from_look l x c h e onwards =
      let r = look ar i x (get_next c.map x i) (c.thread w) c.map in
      let (links, same, outcome) = look-AfterLook ar i x (get_next c.map x i) (c.thread w) c.map in
      let d = turn ar i n w c in
      let map_eq : d.map ≡ r.1 = (turned ar i n w c (searching x) e).1 in
      let f : IsFrame ar i n w c d = record {
        next_same = λ q _. link_path c d (ap (λ (s : SkipMap A T). s.mem.link) map_eq ∙ links.0) q;
        tail_same = ap (λ (s : SkipMap A T). s.tail) map_eq ∙ links.2;
        nd_same = ap (λ (x : Thread). x.nd) (turned ar i n w c (searching x) e).0 ∙ same;
      } in
      let read : get_next c.map x i ≡ next_of i c.map x =
        unfold get_next in ground (arith, h.ne_null) in
      elim outcome [
        | inl k ↦ weaken ar i n w 7 (l + 7) c (omega arith) (
            after_turn ar i n w 6 c (
              from_ready ar i n w x (next_of i c.map x) 2 (IsRight ar i n w x (next_of i c.map x))
                (IsRight-kept ar i n w x (next_of i c.map x))
                (swap_right ar i n w x (next_of i c.map x)) d
                (f.next_same x h.ne_own.0, λ j. h.ne_own.0 (j ∙ f.nd_same))
                (pc_turned ar i n w c (searching x) (ready x (next_of i c.map x)) e
                  (k ∙ ap (ready x) read))))
        | inr k ↦ elim k [
          | inl k ↦ weaken ar i n w (suc (l + 6)) (l + 7) c (omega arith) (
              after_turn ar i n w (l + 6) c (
                onwards d (λ j. k.1 (read ∙ j)) f
                  (pc_turned ar i n w c (searching x) (searching (next_of i c.map x)) e
                    (k.0 ∙ ap searching read))))
          | inr k ↦ weaken ar i n w 1 (l + 7) c (omega arith) (
              after_turn ar i n w 0 c (
                0,
                omega arith,
                unfold run in
                    subst HasEnded
                      (sym (pc_turned ar i n w c (searching x) (met i (get_next c.map x i)) e k))
                      (met-HasEnded i (get_next c.map x i)),
              ))
        ]
      ]

  -- A search of a level comes to a splice that is right, or finds the entry.
  pub from_searching :
      (l x : ℕ) (c : System A T)
      → IsWalk x l c
      → pc_of ar i n w c ≡ searching x
      → Ends ar i n w (l + 7) c
  from_searching zero x c h e = from_look 0 x c h e (λ d ne f k. absurd (ne (walk_ends x c h)))
  from_searching (suc l) x c h e = from_look (suc l) x c h e (λ d ne f k.
      weaken ar i n w (l + 7) (suc l + 6) d (omega arith) (
        from_searching l (next_of i c.map x) d
          (IsWalk-kept (next_of i c.map x) l c d f (IsWalk-next x l c h ne)) k))

  pub swap_any :
      (p q l : ℕ) (c : System A T)
      → IsWalk p l c
      → pc_of ar i n w c ≡ swapping p q
      → Ends ar i n w (l + 8) c
  unfolding step
  swap_any p q l c h e = elim (ℕ_discrete (next_of i c.map p) q) [
    | yes k ↦
        weaken ar i n w 2 (l + 8) c (omega arith) (swap_right ar i n w p q c (k, h.ne_own.0) e)
    | no k ↦
        let lost = cas_next_offset-lost i p q (c.thread w).nd c.map k in
        weaken ar i n w (suc (l + 7)) (l + 8) c (omega arith) (
          after_turn ar i n w (l + 7) c (
            from_searching l p (turn ar i n w c)
              (IsWalk-kept p l c (turn ar i n w c)
                (framed ar i n w c (swapping p q) e (rw lost (λ r _. refl, refl, refl))) h)
              (pc_turned ar i n w c (swapping p q) (searching p) e (rw lost refl))))
  ]
