-- ===== src/Splice/Bracket/Nested.antt =====
-- A new node in two levels, of which one is a sublist of the other.
use skl.Prelude.{ℕ, ◌≡◌, ◌≢◌, inl, inr, refl, List, [], ◌∷◌, Ordering, lt, gt}
use skl.SkipMap.Shape.{Sub, Monotone}
use skl.Splice.Bracket.{
  All-Sub, Sub-cons_right, insert_at, gt-cases, insert_at_pass, insert_at_stop,
}

module _ (c : ℕ → Ordering) (nd : ℕ) where
  Sub-single : (qs : List ℕ) → Sub (nd ∷ []) (insert_at c nd qs)
  unfolding insert_at
  Sub-single [] = inl (refl, tt)
  Sub-single (q ∷ qs) = elim (gt-cases (c q)) [
    | inl pass ↦ rw (insert_at_pass c 0 nd 0 q qs pass) (inr (Sub-single qs))
    | inr stop ↦ rw (insert_at_stop c 0 nd 0 q qs stop) (inl (refl, tt))
  ]

  -- A sublist takes the node up in the place in which the list does.
  pub Sub-insert_at :
      (ps qs : List ℕ) → Monotone c qs → Sub ps qs → Sub (insert_at c nd ps) (insert_at c nd qs)
  Sub-insert_at [] qs m s = unfold insert_at in Sub-single qs
  Sub-insert_at (p ∷ ps) [] m s = elim s [ ]
  Sub-insert_at (p ∷ ps) (q ∷ qs) m (inl s) = elim (gt-cases (c p)) [
    | inl pass ↦
        let pass' : c q ≡ gt = rw (← s.0) pass in
        rw (insert_at_pass c 0 nd 0 p ps pass, insert_at_pass c 0 nd 0 q qs pass')
          (inl (s.0, Sub-insert_at ps qs m.1 s.1))
    | inr stop ↦
        let stop' : c q ≢ gt = rw (← s.0) stop in
        rw (insert_at_stop c 0 nd 0 p ps stop, insert_at_stop c 0 nd 0 q qs stop')
          (inl (refl, inl s))
  ]
  Sub-insert_at (p ∷ ps) (q ∷ qs) m (inr s) = elim (gt-cases (c q)) [
    | inl pass ↦
        rw (insert_at_pass c 0 nd 0 q qs pass)
          (Sub-cons_right q _ _ (Sub-insert_at (p ∷ ps) qs m.1 s))
    | inr stop ↦
        let later = (All-Sub (λ r. c r ≢ lt → c q ≡ gt) (p ∷ ps) qs s m.0).0 in
        let stop' : c p ≢ gt = λ e. stop (later (λ f. cc)) in
        rw (insert_at_stop c 0 nd 0 p ps stop', insert_at_stop c 0 nd 0 q qs stop)
          (inl (refl, inr s))
  ]

  -- A level that does not take the node up is still a sublist.
  pub Sub-insert_at_right : (ps qs : List ℕ) → Sub ps qs → Sub ps (insert_at c nd qs)
  Sub-insert_at_right [] qs s = tt
  Sub-insert_at_right (p ∷ ps) [] s = elim s [ ]
  Sub-insert_at_right (p ∷ ps) (q ∷ qs) s = elim (gt-cases (c q)) [
    | inl pass ↦ rw (insert_at_pass c 0 nd 0 q qs pass) (elim s [
      | inl e ↦ inl (e.0, Sub-insert_at_right ps qs e.1)
      | inr e ↦ inr (Sub-insert_at_right (p ∷ ps) qs e)
    ])
    | inr stop ↦ rw (insert_at_stop c 0 nd 0 q qs stop) (inr s)
  ]
