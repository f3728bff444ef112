-- ===== src/Race/Level.antt =====
-- The nodes of a level as a list from the head, and a node put behind another one.
use native.Mathlib.Decide.{ℕ_discrete}
use skl.Prelude.{
  ℕ, ◌+◌, ◌≤◌, subst, ◌≡◌, ◌≢◌, ◌⊎◌, inl, inr, refl, sym, ◌∙◌, ◌==◌, List, [], ◌∷◌, arith, length,
  if◌then◌else◌,
}
use skl.SkipMap.Shape.{All, Chain}
use skl.Splice.Bracket.{Distinct, Chain-frame}

abbrev pub Member : ℕ → List ℕ → Type 0
Member q [] = ⊥
Member q (p ∷ ps) = (q ≡ p) ⊎ Member q ps

pub All-Member {ℓ} : (P : ℕ → Type ℓ) (q : ℕ) (ps : List ℕ) → All P ps → Member q ps → P q
All-Member P q [] a m = elim m [ ]
All-Member P q (p ∷ ps) a (inl e) = rw e a.0
All-Member P q (p ∷ ps) a (inr m) = All-Member P q ps a.1 m

pub Member-All {ℓ} : (P : ℕ → Type ℓ) (ps : List ℕ) → ((q : ℕ) → Member q ps → P q) → All P ps
Member-All P [] f = tt
Member-All P (p ∷ ps) f = (f p (inl refl), Member-All P ps (λ q m. f q (inr m)))

module _ (next : ℕ → ℕ) (tail : ℕ) where
  pub Chain-target :
      (x a : ℕ) (ps : List ℕ)
      → Chain next tail x ps
      → Member a (x ∷ ps)
      → (next a ≡ tail) ⊎ Member (next a) ps
  Chain-target x a [] c (inl e) = inl (rw e c)
  Chain-target x a [] c (inr m) = elim m [ ]
  Chain-target x a (p ∷ ps) c (inl e) = inr (inl (rw e (c.0)))
  Chain-target x a (p ∷ ps) c (inr m) = elim (Chain-target p a ps c.3 m) [
    | inl e ↦ inl e
    | inr k ↦ inr (inr k)
  ]

  pub Chain-ne_null : (x a : ℕ) (ps : List ℕ) → Chain next tail x ps → Member a ps → a ≢ 0
  Chain-ne_null x a [] c m = elim m [ ]
  Chain-ne_null x a (p ∷ ps) c (inl e) = rw e (c.1)
  Chain-ne_null x a (p ∷ ps) c (inr m) = Chain-ne_null p a ps c.3 m

  -- A node of a level, with what follows it.
  pub Chain-from :
      (x a : ℕ) (ps : List ℕ)
      → Chain next tail x ps
      → Member a (x ∷ ps)
      → (rs : List ℕ) × Chain next tail a rs
        × (length rs ≤ length ps)
        × ((q : ℕ) → Member q (a ∷ rs) → Member q (x ∷ ps))
  Chain-from x a ps c (inl e) =
      subst
        (λ a.
          (rs : List ℕ) × Chain next tail a rs
          × (length rs ≤ length ps)
          × ((q : ℕ) → Member q (a ∷ rs) → Member q (x ∷ ps)))
        (sym e) (ps, c, omega arith, λ q m. m)
  Chain-from x a [] c (inr m) = elim m [ ]
  Chain-from x a (p ∷ ps) c (inr m) =
      let (rs, d, le, sub) = Chain-from p a ps c.3 m in
      (rs, d, omega (arith, le), λ q k. inr (sub q k))

  -- Behind the first node comes the second, and no other one leads there.
  first-only :
      (x p b : ℕ) (ps : List ℕ)
      → Chain next tail x (p ∷ ps)
      → Distinct (x ∷ p ∷ ps)
      → Member b (p ∷ ps)
      → next b ≢ p
  first-only x p b ps c d m e = elim (Chain-target p b ps c.3 m) [
    | inl k ↦ c.2 (sym e ∙ k)
    | inr k ↦ All-Member (λ q. q ≢ p) (next b) ps d.1.0 k e
  ]

  -- Two nodes of a level do not lead to the same one.
  pub Chain-injective :
      (x a b : ℕ) (ps : List ℕ)
      → Chain next tail x ps
      → Distinct (x ∷ ps)
      → Member a (x ∷ ps)
      → Member b (x ∷ ps)
      → next a ≡ next b
      → a ≡ b
  Chain-injective x a b [] c d (inl e) (inl k) h = e ∙ sym k
  Chain-injective x a b [] c d (inr m) k h = elim m [ ]
  Chain-injective x a b [] c d (inl e) (inr m) h = elim m [ ]
  Chain-injective x a b (p ∷ ps) c d (inl e) (inl k) h = e ∙ sym k
  Chain-injective x a b (p ∷ ps) c d (inl e) (inr m) h =
      absurd (first-only x p b ps c d m (sym h ∙ rw e (c.0)))
  Chain-injective x a b (p ∷ ps) c d (inr m) (inl k) h =
      absurd (first-only x p a ps c d m (h ∙ rw k (c.0)))
  Chain-injective x a b (p ∷ ps) c d (inr m) (inr k) h = Chain-injective p a b ps c.3 d.1 m k h

module _ (p nd : ℕ) where
  -- the list of the nodes behind `x` with `nd` put behind `p`
  unfoldable pub put : (x : ℕ) → List ℕ → List ℕ
  put x [] = nd ∷ []
  put x (q ∷ qs) = if x == p then nd ∷ q ∷ qs else q ∷ put q qs

  pub length-put : (x : ℕ) (qs : List ℕ) → length (put x qs) ≡ length qs + 1
  unfolding put
  length-put x [] = refl
  length-put x (q ∷ qs) = ground (arith, length-put q qs)

  pub put_here : (x q : ℕ) (qs : List ℕ) → x ≡ p → put x (q ∷ qs) ≡ nd ∷ q ∷ qs
  unfolding put
  put_here x q qs e = ground arith

  pub put_there : (x q : ℕ) (qs : List ℕ) → x ≢ p → put x (q ∷ qs) ≡ q ∷ put q qs
  unfolding put
  put_there x q qs e = ground arith

  pub put-All {ℓ} : (P : ℕ → Type ℓ) (x : ℕ) (qs : List ℕ) → P nd → All P qs → All P (put x qs)
  put-All P x [] h a = unfold put in (h, tt)
  put-All P x (q ∷ qs) h a = elim (ℕ_discrete x p) [
    | yes e ↦ rw (put_here x q qs e) (h, a)
    | no e ↦ rw (put_there x q qs e) (a.0, put-All P q qs h a.1)
  ]

  pub Member-put : (a x : ℕ) (qs : List ℕ) → Member a qs → Member a (put x qs)
  Member-put a x [] m = elim m [ ]
  Member-put a x (q ∷ qs) m = elim (ℕ_discrete x p) [
    | yes e ↦ rw (put_here x q qs e) (inr m)
    | no e ↦ rw (put_there x q qs e) (elim m [ inl k ↦ inl k | inr k ↦ inr (Member-put a q qs k) ])
  ]

  pub put-Member : (a x : ℕ) (qs : List ℕ) → Member a (put x qs) → (a ≡ nd) ⊎ Member a qs
  put-Member a x qs m =
      All-Member (λ r. (r ≡ nd) ⊎ Member r qs) a (put x qs)
        (put-All (λ r. (r ≡ nd) ⊎ Member r qs) x qs (inl refl)
          (Member-All (λ r. (r ≡ nd) ⊎ Member r qs) qs (λ r k. inr k)))
        m

  pub nd-Member-put : (x : ℕ) (qs : List ℕ) → Member nd (put x qs)
  nd-Member-put x [] = unfold put in inl refl
  nd-Member-put x (q ∷ qs) = elim (ℕ_discrete x p) [
    | yes e ↦ rw (put_here x q qs e) (inl refl)
    | no e ↦ rw (put_there x q qs e) (inr (nd-Member-put q qs))
  ]

  pub Distinct-put :
      (x : ℕ) (qs : List ℕ) → All (λ q. q ≢ nd) qs → Distinct qs → Distinct (put x qs)
  Distinct-put x [] a d = unfold put in (tt, tt)
  Distinct-put x (q ∷ qs) a d = elim (ℕ_discrete x p) [
    | yes e ↦ rw (put_here x q qs e) (a, d)
    | no e ↦
        rw (put_there x q qs e)
          (put-All (λ r. r ≢ q) q qs (λ k. a.0 (sym k)) d.0, Distinct-put q qs a.1 d.1)
  ]

  pub Chain-put :
      (next next' : ℕ → ℕ) (tail x : ℕ) (qs : List ℕ)
      → Chain next tail x qs
      → Distinct (x ∷ qs)
      → All (λ q. q ≢ nd) (x ∷ qs)
      → Member p (x ∷ qs)
      → nd ≢ 0
      → nd ≢ tail
      → next' p ≡ nd
      → next' nd ≡ next p
      → ((q : ℕ) → q ≢ p → q ≢ nd → next' q ≡ next q)
      → Chain next' tail x (put x qs)
  Chain-put next next' tail x [] c d a (inl e) nz nt ep en eq' =
      unfold put in (rw (← e) ep, nz, nt, en ∙ rw e c)
  Chain-put next next' tail x [] c d a (inr m) nz nt ep en eq' = elim m [ ]
  Chain-put next next' tail x (q ∷ qs) c d a m nz nt ep en eq' = elim (ℕ_discrete x p) [
    | yes e ↦ rw (put_here x q qs e) (
      rw e ep,
      nz,
      nt,
      (
        en ∙ rw (← e) (c.0),
        c.1,
        c.2,
        Chain-frame next next' tail q qs c.3 (
            Member-All (λ r. next' r ≡ next r) (q ∷ qs)
              (λ r k.
                eq' r (λ h. All-Member (λ r. r ≢ x) r (q ∷ qs) d.0 k (h ∙ sym e))
                  (All-Member (λ r. r ≢ nd) r (q ∷ qs) a.1 k))),
      ),
    )
    | no e ↦ rw (put_there x q qs e) (
      eq' x e a.0 ∙ c.0,
      c.1,
      c.2,
      Chain-put next next' tail q qs c.3 d.1 a.1 (elim m [ inl h ↦ absurd (e (sym h)) | inr k ↦ k ])
          nz nt ep en eq',
    )
  ]
