-- ===== src/Splice/Bracket.antt =====
-- The place of a target in a list of nodes, and what a new node in that place does to the shape of
-- a level.
pub mod Links
pub mod Nested
use skl.Prelude.{
  ℕ, ◌≡◌, ◌≢◌, ◌⊎◌, inl, inr, refl, sym, subst, ◌∙◌, List, [], ◌∷◌, Ordering, lt, eq, gt, arith,
  ◌+◌, length,
}
use skl.SkipMap.Shape.{All, Sub, Monotone, Chain}
use skl.SkipMap.Invariant.{Back}

-- No node stands in the list twice.
abbrev pub Distinct : List ℕ → Type 0
Distinct [] = Unit
Distinct (p ∷ ps) = All (λ q. q ≢ p) ps × Distinct ps

pub All-imp : (P Q : ℕ → Type 0) (ps : List ℕ) → ((p : ℕ) → P p → Q p) → All P ps → All Q ps
All-imp P Q [] f h = tt
All-imp P Q (p ∷ ps) f h = (f p h.0, All-imp P Q ps f h.1)

pub All-zip : (P Q : ℕ → Type 0) (ps : List ℕ) → All P ps → All Q ps → All (λ p. P p × Q p) ps
All-zip P Q [] h k = tt
All-zip P Q (p ∷ ps) h k = ((h.0, k.0), All-zip P Q ps h.1 k.1)

pub Sub-cons_right : (q : ℕ) (ps qs : List ℕ) → Sub ps qs → Sub ps (q ∷ qs)
Sub-cons_right q [] qs s = tt
Sub-cons_right q (p ∷ ps) qs s = inr s

pub All-Sub : (P : ℕ → Type 0) (ps qs : List ℕ) → Sub ps qs → All P qs → All P ps
All-Sub P [] qs s h = tt
All-Sub P (p ∷ ps) [] s h = elim s [ ]
All-Sub P (p ∷ ps) (q ∷ qs) (inl s) h = (rw (s.0) h.0, All-Sub P ps qs s.1 h.1)
All-Sub P (p ∷ ps) (q ∷ qs) (inr s) h = All-Sub P (p ∷ ps) qs s h.1

pub Distinct-Sub : (ps qs : List ℕ) → Sub ps qs → Distinct qs → Distinct ps
Distinct-Sub [] qs s h = tt
Distinct-Sub (p ∷ ps) [] s h = elim s [ ]
Distinct-Sub (p ∷ ps) (q ∷ qs) (inl s) h =
    (rw (s.0) (All-Sub (λ r. r ≢ q) ps qs s.1 h.0), Distinct-Sub ps qs s.1 h.1)
Distinct-Sub (p ∷ ps) (q ∷ qs) (inr s) h = Distinct-Sub (p ∷ ps) qs s h.1

pub Chain-frame :
    (next next' : ℕ → ℕ) (tail x : ℕ) (ps : List ℕ)
    → Chain next tail x ps
    → All (λ q. next' q ≡ next q) (x ∷ ps)
    → Chain next' tail x ps
Chain-frame next next' tail x [] c f = f.0 ∙ c
Chain-frame next next' tail x (p ∷ ps) c f =
    (f.0 ∙ c.0, c.1, c.2, Chain-frame next next' tail p ps c.3 f.1)

pub Back-frame :
    (prev prev' : ℕ → ℕ) (tail x : ℕ) (ps : List ℕ)
    → Back prev tail x ps
    → All (λ q. prev' q ≡ prev q) ps
    → prev' tail ≡ prev tail
    → Back prev' tail x ps
Back-frame prev prev' tail x [] b f e = e ∙ b
Back-frame prev prev' tail x (p ∷ ps) b f e = (f.0 ∙ b.0, Back-frame prev prev' tail p ps b.1 f.1 e)

module _ (c : ℕ → Ordering) (tail : ℕ) where
  -- The node before the target and the node behind it, where `x` is before the list.
  unfoldable pub bracket : ℕ → List ℕ → ℕ × ℕ
  bracket x [] = (x, tail)
  bracket x (p ∷ ps) = elim (c p) [ gt ↦ bracket p ps | eq ↦ (x, p) | lt ↦ (x, p) ]

  pub bracket-prev : (P : ℕ → Type 0) (x : ℕ) (ps : List ℕ) → All P (x ∷ ps) → P (bracket x ps).0
  unfolding bracket
  bracket-prev P x [] h = h.0
  bracket-prev P x (p ∷ ps) h =
      elim (c p)
        as (λ o. P (elim o as (λ _. ℕ × ℕ) [ gt ↦ bracket p ps | eq ↦ (x, p) | lt ↦ (x, p) ]).0) [
          | gt ↦ bracket-prev P p ps h.1
          | eq ↦ h.0
          | lt ↦ h.0
        ]

  pub bracket-next : (P : ℕ → Type 0) (x : ℕ) (ps : List ℕ) → All P ps → P tail → P (bracket x ps).1
  unfolding bracket
  bracket-next P x [] h k = k
  bracket-next P x (p ∷ ps) h k =
      elim (c p)
        as (λ o. P (elim o as (λ _. ℕ × ℕ) [ gt ↦ bracket p ps | eq ↦ (x, p) | lt ↦ (x, p) ]).1) [
          | gt ↦ bracket-next P p ps h.1 k
          | eq ↦ h.0
          | lt ↦ h.0
        ]

  pub Chain-bracket :
      (next : ℕ → ℕ) (x : ℕ) (ps : List ℕ)
      → Chain next tail x ps
      → next (bracket x ps).0 ≡ (bracket x ps).1
  unfolding bracket
  Chain-bracket next x [] h = h
  Chain-bracket next x (p ∷ ps) h = ground (arith, Chain-bracket next p ps h.3)

  pub Back-bracket :
      (prev : ℕ → ℕ) (x : ℕ) (ps : List ℕ)
      → Back prev tail x ps
      → prev (bracket x ps).1 ≡ (bracket x ps).0
  unfolding bracket
  Back-bracket prev x [] h = h
  Back-bracket prev x (p ∷ ps) h = ground (arith, Back-bracket prev p ps h.1)

  -- The two are different nodes.
  pub bracket-ne :
      (x : ℕ) (ps : List ℕ)
      → Distinct (x ∷ ps)
      → All (λ p. p ≢ tail) (x ∷ ps)
      → (bracket x ps).0 ≢ (bracket x ps).1
  unfolding bracket
  bracket-ne x [] d h = h.0
  bracket-ne x (p ∷ ps) d h =
      elim (c p)
        as (λ o.
          let b : ℕ × ℕ = elim o as (λ _. ℕ × ℕ) [
            | gt ↦ bracket p ps
            | eq ↦ (x, p)
            | lt ↦ (x, p)
          ] in
          b.0 ≢ b.1) [
            | gt ↦ bracket-ne p ps d.1 h.1
            | eq ↦ λ e. d.0.0 (sym e)
            | lt ↦ λ e. d.0.0 (sym e)
          ]

module _ (c : ℕ → Ordering) where
  -- the list with a new node in the target's place
  unfoldable pub insert_at : ℕ → List ℕ → List ℕ
  insert_at nd [] = nd ∷ []
  insert_at nd (p ∷ ps) = elim (c p) [
    | gt ↦ p ∷ insert_at nd ps
    | eq ↦ nd ∷ p ∷ ps
    | lt ↦ nd ∷ p ∷ ps
  ]

  pub All-insert_at :
      (P : ℕ → Type 0) (nd : ℕ) (ps : List ℕ) → P nd → All P ps → All P (insert_at nd ps)
  unfolding insert_at
  All-insert_at P nd [] h k = (h, tt)
  All-insert_at P nd (p ∷ ps) h k =
      elim (c p)
        as (λ o. All P (elim o as (λ _. List ℕ) [
          | gt ↦ p ∷ insert_at nd ps
          | eq ↦ nd ∷ p ∷ ps
          | lt ↦ nd ∷ p ∷ ps
        ])) [ gt ↦ (k.0, All-insert_at P nd ps h k.1) | eq ↦ (h, k) | lt ↦ (h, k) ]

  pub Distinct-insert_at :
      (nd : ℕ) (ps : List ℕ) → All (λ p. nd ≢ p) ps → Distinct ps → Distinct (insert_at nd ps)
  unfolding insert_at
  Distinct-insert_at nd [] h d = (tt, tt)
  Distinct-insert_at nd (p ∷ ps) h d =
      elim (c p)
        as (λ o. Distinct (elim o as (λ _. List ℕ) [
          | gt ↦ p ∷ insert_at nd ps
          | eq ↦ nd ∷ p ∷ ps
          | lt ↦ nd ∷ p ∷ ps
        ])) [
          | gt ↦ (All-insert_at (λ q. q ≢ p) nd ps h.0 d.0, Distinct-insert_at nd ps h.1 d.1)
          | eq ↦ (flipped (p ∷ ps) h, d)
          | lt ↦ (flipped (p ∷ ps) h, d)
        ]
    where
      flipped : (qs : List ℕ) → All (λ q. nd ≢ q) qs → All (λ q. q ≢ nd) qs
      flipped [] h = tt
      flipped (q ∷ qs) h = ((λ e. h.0 (sym e)), flipped qs h.1)

  pub length-insert_at : (nd : ℕ) (ps : List ℕ) → length (insert_at nd ps) ≡ length ps + 1
  unfolding insert_at
  length-insert_at nd [] = refl
  length-insert_at nd (p ∷ ps) = ground (arith, length-insert_at nd ps)

pub gt-cases : (o : Ordering) → (o ≡ gt) ⊎ (o ≢ gt)
gt-cases gt = inl refl
gt-cases eq = inr (λ e. cc)
gt-cases lt = inr (λ e. cc)

module _ (c : ℕ → Ordering) (tail nd x p : ℕ) (ps : List ℕ) where
  pub bracket_pass : c p ≡ gt → bracket c tail x (p ∷ ps) ≡ bracket c tail p ps
  unfolding bracket
  bracket_pass h = ground arith

  pub bracket_stop : c p ≢ gt → bracket c tail x (p ∷ ps) ≡ (x, p)
  unfolding bracket
  bracket_stop h = ground arith

  pub insert_at_pass : c p ≡ gt → insert_at c nd (p ∷ ps) ≡ p ∷ insert_at c nd ps
  unfolding insert_at
  insert_at_pass h = ground arith

  pub insert_at_stop : c p ≢ gt → insert_at c nd (p ∷ ps) ≡ nd ∷ p ∷ ps
  unfolding insert_at
  insert_at_stop h = ground arith
