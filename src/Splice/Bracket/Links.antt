-- ===== src/Splice/Bracket/Links.antt =====
-- The links of a level that has taken a new node up.
use skl.Prelude.{ℕ, ◌≡◌, ◌≢◌, inl, inr, sym, subst, ◌∙◌, List, [], ◌∷◌, Ordering}
use skl.SkipMap.Shape.{All, Chain}
use skl.SkipMap.Invariant.{Back}
use skl.Splice.Bracket.{
  Distinct, Chain-frame, Back-frame, bracket, bracket-prev, bracket-next, insert_at, gt-cases,
  bracket_pass, bracket_stop, insert_at_pass, insert_at_stop,
}

module _ (c : ℕ → Ordering) (tail nd : ℕ) where
  -- A chain takes the new node up, where only the links of the nodes around it have changed.
  pub Chain-insert_at :
      (next next' : ℕ → ℕ) (x : ℕ) (ps : List ℕ)
      → Chain next tail x ps
      → Distinct (x ∷ ps)
      → nd ≢ 0
      → nd ≢ tail
      → next' (bracket c tail x ps).0 ≡ nd
      → next' nd ≡ (bracket c tail x ps).1
      → All (λ q. q ≢ (bracket c tail x ps).0 → next' q ≡ next q) (x ∷ ps)
      → Chain next' tail x (insert_at c nd ps)
  unfolding bracket insert_at
  Chain-insert_at next next' x [] h d n m e k f = (e, n, m, k)
  Chain-insert_at next next' x (p ∷ ps) h d n m e k f = elim (gt-cases (c p)) [
    | inl pass ↦
        let b = bracket_pass c tail nd x p ps pass in
        let far : (bracket c tail p ps).0 ≢ x = bracket-prev c tail (λ q. q ≢ x) p ps d.0 in
        let e' = rw b at e in
        let k' = rw b at k in
        let f' : All (λ q. q ≢ (bracket c tail p ps).0 → next' q ≡ next q) (x ∷ p ∷ ps) =
          subst (λ (z : ℕ × ℕ). All (λ q. q ≢ z.0 → next' q ≡ next q) (x ∷ p ∷ ps)) b f in
        rw (insert_at_pass c tail nd x p ps pass) (
          f'.0 (λ z. far (sym z)) ∙ h.0,
          h.1,
          h.2,
          Chain-insert_at next next' p ps h.3 d.1 n m e' k' f'.1,
        )
    | inr stop ↦
        let b = bracket_stop c tail nd x p ps stop in
        let e' : next' x ≡ nd = rw b at e in
        let k' : next' nd ≡ p = rw b at k in
        let f' : All (λ q. q ≢ x → next' q ≡ next q) (x ∷ p ∷ ps) =
          subst (λ (z : ℕ × ℕ). All (λ q. q ≢ z.0 → next' q ≡ next q) (x ∷ p ∷ ps)) b f in
        rw (insert_at_stop c tail nd x p ps stop)
          (e', n, m, (k', h.1, h.2, Chain-frame next next' tail p ps h.3 (apply (p ∷ ps) f'.1 d.0)))
  ]
    where
      apply :
          (qs : List ℕ)
          → All (λ q. q ≢ x → next' q ≡ next q) qs
          → All (λ q. q ≢ x) qs
          → All (λ q. next' q ≡ next q) qs
      apply [] a b = tt
      apply (q ∷ qs) a b = (a.0 b.0, apply qs a.1 b.1)

  -- So does the chain of the links back.
  pub Back-insert_at :
      (prev prev' : ℕ → ℕ) (x : ℕ) (ps : List ℕ)
      → Back prev tail x ps
      → Distinct ps
      → All (λ q. q ≢ tail) ps
      → prev' nd ≡ (bracket c tail x ps).0
      → prev' (bracket c tail x ps).1 ≡ nd
      → All (λ q. q ≢ (bracket c tail x ps).1 → prev' q ≡ prev q) ps
      → ((bracket c tail x ps).1 ≢ tail → prev' tail ≡ prev tail)
      → Back prev' tail x (insert_at c nd ps)
  unfolding bracket insert_at
  Back-insert_at prev prev' x [] h d l e k f g = (e, k)
  Back-insert_at prev prev' x (p ∷ ps) h d l e k f g = elim (gt-cases (c p)) [
    | inl pass ↦
        let b = bracket_pass c tail nd x p ps pass in
        let far : (bracket c tail p ps).1 ≢ p =
          bracket-next c tail (λ q. q ≢ p) p ps d.0 (λ z. l.0 (sym z)) in
        let e' = rw b at e in
        let k' = rw b at k in
        let f' : All (λ q. q ≢ (bracket c tail p ps).1 → prev' q ≡ prev q) (p ∷ ps) =
          subst (λ (z : ℕ × ℕ). All (λ q. q ≢ z.1 → prev' q ≡ prev q) (p ∷ ps)) b f in
        let g' = rw b at g in
        rw (insert_at_pass c tail nd x p ps pass)
          (f'.0 (λ z. far (sym z)) ∙ h.0, Back-insert_at prev prev' p ps h.1 d.1 l.1 e' k' f'.1 g')
    | inr stop ↦
        let b = bracket_stop c tail nd x p ps stop in
        let e' : prev' nd ≡ x = rw b at e in
        let k' : prev' p ≡ nd = rw b at k in
        let f' : All (λ q. q ≢ p → prev' q ≡ prev q) (p ∷ ps) =
          subst (λ (z : ℕ × ℕ). All (λ q. q ≢ z.1 → prev' q ≡ prev q) (p ∷ ps)) b f in
        let g' : p ≢ tail → prev' tail ≡ prev tail = rw b at g in
        rw (insert_at_stop c tail nd x p ps stop)
          (e', (k', Back-frame prev prev' tail p ps h.1 (apply ps f'.1 d.0) (g' l.0)))
  ]
    where
      apply :
          (qs : List ℕ)
          → All (λ q. q ≢ p → prev' q ≡ prev q) qs
          → All (λ q. q ≢ p) qs
          → All (λ q. prev' q ≡ prev q) qs
      apply [] a b = tt
      apply (q ∷ qs) a b = (a.0 b.0, apply qs a.1 b.1)
