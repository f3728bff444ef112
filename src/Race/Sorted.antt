-- ===== src/Race/Sorted.antt =====
-- A node put in its place keeps a level in the order of its entries.
use native.Mathlib.Decide.{ℕ_discrete}
use skl.Prelude.{ℕ, ◌≡◌, ◌⊎◌, inl, inr, sym, subst, ap, ◌∙◌, List, [], ◌∷◌, lt}
use skl.Compare.{Trailer}
use skl.Compare.Laws.{IsOrder, entry_order, entry_order-IsOrder}
use skl.SkipMap.{SkipMap, entry}
use skl.SkipMap.Shape.{Chain}
use skl.SkipMap.Invariant.{Sorted}
use skl.Splice.Bracket.{All-imp}
use skl.Race.Level.{Member, All-Member, put, put_here, put_there, put-All}

module _ {A T : Type 0} ⦃t : Trailer T⦄ (s : SkipMap A T) (o : IsOrder s.cmp.cmp) (next : ℕ → ℕ)
    (tail p nd : ℕ) where
  abbrev pub IsLess : ℕ → ℕ → Type 0
  IsLess a b = entry_order s.cmp (entry s a) (entry s b) ≡ lt

  IsLess-trans : (a b c : ℕ) → IsLess a b → IsLess b c → IsLess a c
  IsLess-trans a b c h k =
      (entry_order-IsOrder s.cmp o).lt_trans (entry s a) (entry s b) (entry s c) h k

  put_before : (q : ℕ) (qs : List ℕ) → IsLess nd q → Sorted s (q ∷ qs) → Sorted s (nd ∷ q ∷ qs)
  put_before q qs h so =
      ((h, All-imp (IsLess q) (IsLess nd) qs (λ r k. IsLess-trans nd q r h k) so.0), so)

  put_behind :
      (x : ℕ) (qs : List ℕ)
      → Chain next tail x qs
      → Member p (x ∷ qs)
      → IsLess p nd
      → ((next p ≡ tail) ⊎ IsLess nd (next p))
      → Sorted s qs
      → Sorted s (put p nd x qs)
  put_behind x [] c m h k so = unfold put in (tt, tt)
  put_behind x (q ∷ qs) c m h k so = elim (ℕ_discrete x p) [
    | yes e ↦ rw (put_here p nd x q qs e) (
        put_before q qs
          (elim k [
            | inl j ↦ absurd (c.2 (sym c.0 ∙ rw e j))
            | inr j ↦ subst (IsLess nd) (ap next (sym e) ∙ c.0) j
          ])
          so)
    | no e ↦
        let m' : Member p (q ∷ qs) = elim m [ inl j ↦ absurd (e (sym j)) | inr j ↦ j ] in
        rw (put_there p nd x q qs e) (
          put-All p nd (IsLess q) q qs
              (elim m' [
                | inl j ↦ subst (λ r. IsLess r nd) j h
                | inr j ↦ IsLess-trans q p nd (All-Member (IsLess q) p qs so.0 j) h
              ])
              so.0,
          put_behind q qs c.3 m' h k so.1,
        )
  ]

  pub Sorted-put :
      (head : ℕ) (ps : List ℕ)
      → Chain next tail head ps
      → Member p (head ∷ ps)
      → ((p ≡ head) ⊎ IsLess p nd)
      → ((next p ≡ tail) ⊎ IsLess nd (next p))
      → Sorted s ps
      → Sorted s (put p nd head ps)
  Sorted-put head ps c m (inr h) k so = put_behind head ps c m h k so
  Sorted-put head [] c m (inl e) k so = unfold put in (tt, tt)
  Sorted-put head (q ∷ qs) c m (inl e) k so = rw (put_here p nd head q qs (sym e)) (
      put_before q qs
        (elim k [
          | inl j ↦ absurd (c.2 (sym c.0 ∙ subst (λ r. next r ≡ tail) e j))
          | inr j ↦ subst (IsLess nd) (ap next e ∙ c.0) j
        ])
        so)
