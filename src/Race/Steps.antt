-- ===== src/Race/Steps.antt =====
-- Each kind of step keeps the invariant of a race.
use native.Mathlib.Decide.{ℕ_discrete}
use skl.Prelude.{ℕ, ◌<◌, ◌≡◌, ◌≢◌, ◌⊎◌, inl, inr, refl, sym, ap, ◌∙◌, List, ◌∷◌}
use skl.Node.{next_offset, prev_offset, tower_offset}
use skl.SkipMap.{SkipMap}
use skl.SkipMap.Shape.{All}
use skl.Splice.Bracket.{Chain-frame}
use skl.Store.{write_tower, set_link, cas_next_offset, cas_prev_offset}
use skl.Race.{written, relinking, Thread, at, System}
use skl.Race.Facts.{IsFresh, IsSpan, IsWritten, Holds, IsTarget}
use skl.Race.Changes.{IsTarget-ne, same-Change, write-Change, relink-Change, link-Change}
use skl.Race.Level.{
  Member, Member-All, Chain-target, Chain-injective, put, put-All, put-Member, Member-put,
  nd-Member-put, Distinct-put, Chain-put,
}
use skl.Race.Moves.{
  next_of, prev_of, write_tower-own, write_tower-other, cas_next_offset-won, cas_prev_offset-next,
  cas_prev_offset-other, cas_prev_offset-here, cas-ends,
}
use skl.Race.Invariant.{IsSetup, IsPending, IsRace}
use skl.Race.Rebuild.{update-own, moved, IsPending-moved, rebuild}

module _ {A T : Type 0} (n : ℕ) (own : ℕ → ℕ) (i head tail : ℕ) (setup : IsSetup n own head tail)
    (c : System A T) (ps : List ℕ) (is : IsRace n own i head tail c ps) (w : ℕ)
    (below : w < n) where
  abbrev th : Thread
  th = c.thread w

  abbrev In : ℕ → Type 0
  In q = Member q (head ∷ ps)

  abbrev next : ℕ → ℕ
  next = next_of i c.map

  abbrev prev : ℕ → ℕ
  prev = prev_of i c.map

  unmoved :
      (t : Thread) (s : SkipMap A T) (x : ℕ)
      → ((y z : ℕ) → th.pc ≢ relinking y z)
      → next_of i s x ≡ next x
      → prev_of i s (next x) ≡ prev (next x)
      → In x
      → (prev_of i s (next_of i s x) ≡ x)
        ⊎ IsPending n own i head tail
            (moved n own i head tail setup c ps is w below t s)
            x
            (prev_of i s (next_of i s x))
            (next_of i s x)
  unmoved t s x quiet en ep h =
      rw (en, ep)
        (elim (is.back x h) [
          | inl e ↦ inl e
          | inr p ↦ inr (
              IsPending-moved n own i head tail setup c ps is w below t s x (prev (next x)) (next x)
                (quiet (prev (next x)) (next x)) p)
        ])

  -- A step that leaves the links alone.
  pub quiet-IsRace :
      (t : Thread) (s : SkipMap A T)
      → s.mem.link ≡ c.map.mem.link
      → s.head ≡ c.map.head
      → s.tail ≡ c.map.tail
      → t.nd ≡ th.nd
      → ((y z : ℕ) → th.pc ≢ relinking y z)
      → Holds In tail next prev (own w) t.pc
      → IsRace n own i head tail (moved n own i head tail setup c ps is w below t s) ps
  unfolding next_offset prev_offset
  quiet-IsRace t s el eh et en quiet h =
      let ex : next_of i s ≡ next = ap {B = ℕ → ℕ} (λ l q. (l (tower_offset q i)).next_offset) el in
      let ey : prev_of i s ≡ prev = ap {B = ℕ → ℕ} (λ l q. (l (tower_offset q i)).prev_offset) el in
      rebuild n own i head tail setup c ps is w below t s ps eh et en (rw ex is.chain) is.distinct
        (same-Change In tail next prev (next_of i s) (prev_of i s) (own w)
          (λ q. ap (λ (f : ℕ → ℕ). f q) ex) (λ q. ap (λ (f : ℕ → ℕ). f q) ey))
        (rw (ex, ey) h)
        (λ x hx.
          unmoved t s x quiet (ap (λ (f : ℕ → ℕ). f x) ex) (ap (λ (f : ℕ → ℕ). f (next x)) ey) hx)

  nodes_ne : (q : ℕ) → IsFresh In tail (own w) → In q → q ≢ own w
  nodes_ne q f h = IsTarget-ne q (own w) f (inr h)

  target-In : (x : ℕ) → In x → IsTarget In tail (next x)
  target-In x h = elim (Chain-target next tail head x ps is.chain h) [
    | inl e ↦ inl e
    | inr k ↦ inr (inr k)
  ]

  -- The tower of the thread's node is written.
  pub write-IsRace :
      (p q : ℕ)
      → ((y z : ℕ) → th.pc ≢ relinking y z)
      → IsFresh In tail (own w)
      → IsSpan In tail p q
      → IsRace n own i head tail
          (moved n own i head tail setup c ps is w below
            (at (written p q) th)
            (write_tower (own w) i p q c.map))
          ps
  write-IsRace p q quiet f sp =
      let s = write_tower (own w) i p q c.map in
      let own_links = write_tower-own i (own w) p q c.map in
      let other = write_tower-other i (own w) p q c.map in
      rebuild n own i head tail setup c ps is w below (at (written p q) th) s ps
        (unfold write_tower set_link in refl) (unfold write_tower set_link in refl) refl
        (Chain-frame next (next_of i s) tail head ps is.chain (
          Member-All (λ r. next_of i s r ≡ next r) (head ∷ ps)
            (λ r h. (other r (nodes_ne r f h)).0)))
        is.distinct
        (write-Change In tail next prev (next_of i s) (prev_of i s) (own w) f
          (λ r ne. (other r ne).0) (λ r ne. (other r ne).1))
        (record { fresh = f; span = sp; own_next = own_links.0; own_prev = own_links.1 })
        (λ x hx.
          unmoved (at (written p q) th) s x quiet (other x (nodes_ne x f hx)).0
            (other (next x) (IsTarget-ne (next x) (own w) f (target-In x hx))).1 hx)

  -- The exchange of the link forward is made.
  pub link-IsRace :
      (p q : ℕ)
      → ((y z : ℕ) → th.pc ≢ relinking y z)
      → IsWritten In tail next prev (own w) p q
      → prev q ≡ p
      → next p ≡ q
      → IsRace n own i head tail
          (moved n own i head tail setup c ps is w below
            (at (relinking p q) th)
            (cas_next_offset p i q (own w) c.map).1)
          (put p (own w) head ps)
  link-IsRace p q quiet wr near e =
      let nd = own w in
      let s = (cas_next_offset p i q nd c.map).1 in
      let won = cas_next_offset-won i p q nd c.map e in
      let ends = cas-ends i p q nd c.map in
      let p_in = wr.span.prev_in in
      let p_ne : p ≢ nd = nodes_ne p wr.fresh p_in in
      let here : next_of i s nd ≡ q = won.2 nd (λ k. p_ne (sym k)) ∙ wr.own_next in
      let absent : All (λ r. r ≢ nd) (head ∷ ps) =
        Member-All (λ r. r ≢ nd) (head ∷ ps) (λ r h. nodes_ne r wr.fresh h) in
      rebuild n own i head tail setup c ps is w below (at (relinking p q) th) s (put p nd head ps)
        ends.0 ends.1 refl
        (Chain-put p nd next (next_of i s) tail head ps is.chain is.distinct absent p_in
          (setup.ne_null w below) wr.fresh.ne_tail won.1 (here ∙ sym e) (λ r ne _. won.2 r ne))
        (
          put-All p nd (λ r. r ≢ head) head ps (λ k. absent.0 (sym k)) is.distinct.0,
          Distinct-put p nd head ps absent.1 is.distinct.1,
        )
        (link-Change In In' tail next prev (next_of i s) (prev_of i s) nd p q wr.fresh wr.span e
          near grow only won.1 won.2 won.3)
        (
          inr (nd-Member-put p nd head ps),
          record { prev_in = grow p p_in; next_in = grown q wr.span.next_in },
          p_ne,
          record {
            old_in = grow p p_in;
            ahead = λ k. IsTarget-ne q nd wr.fresh wr.span.next_in (sym k ∙ won.1);
            pending = λ k. here;
          },
        )
        (backwards won.1 here won.2 won.3)
    where
      In' : ℕ → Type 0
      In' r = Member r (head ∷ put p (own w) head ps)

      grow : (r : ℕ) → In r → In' r
      grow r (inl k) = inl k
      grow r (inr m) = inr (Member-put p (own w) r head ps m)

      grown : (r : ℕ) → IsTarget In tail r → IsTarget In' tail r
      grown r (inl k) = inl k
      grown r (inr m) = inr (grow r m)

      only : (r : ℕ) → In' r → (r ≡ own w) ⊎ In r
      only r (inl k) = inr (inl k)
      only r (inr m) = elim (put-Member p (own w) r head ps m) [
        | inl k ↦ inl k
        | inr k ↦ inr (inr k)
      ]

      c' : System A T
      c' =
          moved n own i head tail setup c ps is w below (at (relinking p q) th)
            (cas_next_offset p i q (own w) c.map).1

      backwards :
          next_of i c'.map p ≡ own w
          → next_of i c'.map (own w) ≡ q
          → ((r : ℕ) → r ≢ p → next_of i c'.map r ≡ next r)
          → ((r : ℕ) → prev_of i c'.map r ≡ prev r)
          → (x : ℕ) → In' x
          → (prev_of i c'.map (next_of i c'.map x) ≡ x)
            ⊎ IsPending n own i head tail c' x
                (prev_of i c'.map (next_of i c'.map x))
                (next_of i c'.map x)
      backwards at_p at_nd other same x h = elim (only x h) [
        | inl k ↦
            rw (k, at_nd, same q, near)
              (inr (record {
                thread = w;
                thread_lt = below;
                owner = refl;
                at_relinking =
                    ap (λ (t : Thread). t.pc) (update-own c.thread w (at (relinking p q) th));
              }))
        | inr m ↦ elim (ℕ_discrete x p) [
          | yes k ↦ rw (k, at_p, same (own w)) (inl wr.own_prev)
          | no ne ↦ unmoved (at (relinking p q) th) c'.map x quiet (other x ne) (same (next x)) m
        ]
      ]

  -- A link back is put right, or left where another thread has done so.
  pub back-IsRace :
      (t : Thread) (a b q : ℕ)
      → t.nd ≡ th.nd
      → In b
      → IsTarget In tail q
      → (prev q ≡ a → next b ≡ q)
      → ((y z : ℕ) → th.pc ≡ relinking y z → (y ≡ a) × (z ≡ q))
      → Holds In tail
          (next_of i (cas_prev_offset q i a b c.map).1)
          (prev_of i (cas_prev_offset q i a b c.map).1)
          (own w)
          t.pc
      → IsRace n own i head tail
          (moved n own i head tail setup c ps is w below t (cas_prev_offset q i a b c.map).1)
          ps
  back-IsRace t a b q en hb hq near mine h =
      rebuild n own i head tail setup c ps is w below t s ps (cas-ends i a q b c.map).2
        (cas-ends i a q b c.map).3 en
        (Chain-frame next (next_of i s) tail head ps is.chain
          (Member-All (λ r. next_of i s r ≡ next r) (head ∷ ps) (λ r _. forward r)))
        is.distinct
        (elim here [
          | inl k ↦
              relink-Change In tail next prev (next_of i s) (prev_of i s) (own w) b q hb (near k.0)
                hq
                (λ x y hx hy e. Chain-injective next tail head x y ps is.chain is.distinct hx hy e)
                forward other (inr k.1)
          | inr k ↦
              same-Change In tail next prev (next_of i s) (prev_of i s) (own w) forward
                (λ r. elim (ℕ_discrete r q) [ yes e ↦ rw e (k.1) | no ne ↦ other r ne ])
        ])
        h backwards
    where
      s : SkipMap A T
      s = (cas_prev_offset q i a b c.map).1

      forward : (r : ℕ) → next_of i s r ≡ next r
      forward = cas_prev_offset-next i a q b c.map

      other : (r : ℕ) → r ≢ q → prev_of i s r ≡ prev r
      other = cas_prev_offset-other i a q b c.map

      here : ((prev q ≡ a) × (prev_of i s q ≡ b)) ⊎ ((prev q ≢ a) × (prev_of i s q ≡ prev q))
      here = cas_prev_offset-here i a q b c.map

      kept :
          (x : ℕ)
          → In x
          → prev_of i s (next x) ≡ prev (next x)
          → ((prev (next x) ≡ a) → next x ≢ q)
          → (prev_of i s (next_of i s x) ≡ x)
            ⊎ IsPending n own i head tail
                (moved n own i head tail setup c ps is w below t s)
                x
                (prev_of i s (next_of i s x))
                (next_of i s x)
      kept x hx same ne =
          rw (forward x, same)
            (elim (is.back x hx) [
              | inl e ↦ inl e
              | inr p ↦ inr (
                  IsPending-moved n own i head tail setup c ps is w below t s x (prev (next x))
                    (next x) (λ k. let m = mine (prev (next x)) (next x) k in ne m.0 m.1) p)
            ])

      backwards :
          (x : ℕ)
          → In x
          → (prev_of i s (next_of i s x) ≡ x)
            ⊎ IsPending n own i head tail
                (moved n own i head tail setup c ps is w below t s)
                x
                (prev_of i s (next_of i s x))
                (next_of i s x)
      backwards x hx = elim (ℕ_discrete (next x) q) [
        | no ne ↦ kept x hx (other (next x) ne) (λ _. ne)
        | yes e ↦ elim here [
          | inl k ↦
              rw (forward x, e, k.1)
                (inl (
                  Chain-injective next tail head b x ps is.chain is.distinct hb hx
                    (near k.0 ∙ sym e)))
          | inr k ↦ kept x hx (rw e (k.1)) (rw e (λ j. absurd (k.0 j)))
        ]
      ]
