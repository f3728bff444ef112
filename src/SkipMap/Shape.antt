-- ===== src/SkipMap/Shape.antt =====
-- What the links of a well-formed map look like: a chain of nodes on each level, the higher ones
-- sublists of the lower ones, and the base level in the order of the entries.
use skl.Prelude.{
  ℕ, zero, suc, ◌<◌, ◌≡◌, ◌≢◌, ◌⊎◌, inl, inr, refl, ap, List, [], ◌∷◌, Ordering, lt, gt, arith,
  length,
}

abbrev pub All {ℓ} : (ℕ → Type ℓ) → List ℕ → Type ℓ
All P [] = Unit
All P (x ∷ xs) = P x × All P xs

-- `p` stands in the list, and `ps` behind it.
abbrev pub After : ℕ → List ℕ → List ℕ → Type 0
After p ps [] = ⊥
After p ps (q ∷ qs) = ((q ≡ p) × (qs ≡ ps)) ⊎ After p ps qs

-- The first list is the second with elements left out.
abbrev pub Sub : List ℕ → List ℕ → Type 0
Sub [] qs = Unit
Sub (p ∷ ps) [] = ⊥
Sub (p ∷ ps) (q ∷ qs) = ((p ≡ q) × Sub ps qs) ⊎ Sub (p ∷ ps) qs

-- Along the list the target is behind the nodes, then perhaps at one, then before them.
abbrev pub Monotone : (ℕ → Ordering) → List ℕ → Type 0
Monotone c [] = Unit
Monotone c (p ∷ ps) = All (λ q. c q ≢ lt → c p ≡ gt) ps × Monotone c ps

-- From `p` the steps lead through the list to `tail`.
abbrev pub Chain : (ℕ → ℕ) → ℕ → ℕ → List ℕ → Type 0
Chain next tail p [] = next p ≡ tail
Chain next tail p (q ∷ qs) = (next p ≡ q) × (q ≢ 0) × (q ≢ tail) × Chain next tail q qs

pub All-After {ℓ} : (P : ℕ → Type ℓ) (p : ℕ) (ps qs : List ℕ) → All P qs → After p ps qs → P p
All-After P p ps [] h a = elim a [ ]
All-After P p ps (q ∷ qs) h (inl a) = rw (← a.0) h.0
All-After P p ps (q ∷ qs) h (inr a) = All-After P p ps qs h.1 a

pub After-trans : (p q : ℕ) (ps qs rs : List ℕ) → After q qs rs → After p ps qs → After p ps rs
After-trans p q ps qs [] a b = elim a [ ]
After-trans p q ps qs (r ∷ rs) (inl a) b = inr (rw (a.1) b)
After-trans p q ps qs (r ∷ rs) (inr a) b = inr (After-trans p q ps qs rs a b)

pub length-After : (p : ℕ) (ps qs : List ℕ) → After p ps qs → length ps < length qs
length-After p ps [] a = elim a [ ]
length-After p ps (q ∷ qs) (inl a) = omega (arith, ap length a.1)
length-After p ps (q ∷ qs) (inr a) = omega (arith, length-After p ps qs a)

pub Chain-After :
    (next : ℕ → ℕ) (tail x p : ℕ) (ps qs : List ℕ)
    → Chain next tail x qs
    → After p ps qs
    → (p ≢ 0) × (p ≢ tail) × Chain next tail p ps
Chain-After next tail x p ps [] c a = elim a [ ]
Chain-After next tail x p ps (q ∷ qs) c (inl a) = rw (← a.0, ← a.1) (c.1, c.2, c.3)
Chain-After next tail x p ps (q ∷ qs) c (inr a) = Chain-After next tail q p ps qs c.3 a

-- The lists that follow a node on the levels below `i`: `xs` on level `i`, `ys` on the base level.
abbrev pub View : (ℕ → ℕ → ℕ) → ℕ → ℕ → ℕ → List ℕ → List ℕ → Type 0
View next tail zero x xs ys = Chain (λ p. next p 0) tail x xs × (xs ≡ ys)
View next tail (suc i) x xs ys =
    Chain (λ p. next p (suc i)) tail x xs × ((zs : List ℕ) × Sub xs zs × View next tail i x zs ys)

module _ (next : ℕ → ℕ → ℕ) (tail : ℕ) where
  -- One level's part of a view: from a node to the next one on that level.
  abbrev Moves : ℕ → Type 0
  Moves i =
      (x p : ℕ) (xs ys : List ℕ)
      → View next tail i x (p ∷ xs) ys
      → (zs : List ℕ) × After p zs ys × View next tail i p xs zs

  -- The same over nodes that the level above leaves out.
  skip :
      (i : ℕ)
      → Moves i
      → (x p : ℕ) (xs zs ys : List ℕ) → Sub (p ∷ xs) zs
      → View next tail i x zs ys
      → (ws rs : List ℕ) × Sub xs ws × After p rs ys × View next tail i p ws rs
  skip i move x p xs [] ys s w = elim s [ ]
  skip i move x p xs (z ∷ zs) ys (inl s) w =
      let (rs, a, w') = move x z zs ys w in (zs, rs, s.1, rw s.0 a, rw s.0 w')
  skip i move x p xs (z ∷ zs) ys (inr s) w =
      let (rs, a, w') = move x z zs ys w in
      let (us, vs, s', b, w'') = skip i move z p xs zs rs s w' in
      (us, vs, s', After-trans p z vs rs ys a b, w'')

  pub View-move : (i : ℕ) → Moves i
  View-move zero x p xs ys (c, e) = (xs, rw (← e) (inl (refl, refl)), (c.3, refl))
  View-move (suc i) x p xs ys (c, (zs, s, w)) =
      let (ws, rs, s', a, w') = skip i (View-move i) x p xs zs ys s w in
      (rs, a, (c.3, (ws, s', w')))

pub Monotone-After :
    (c : ℕ → Ordering) (p : ℕ) (ps qs : List ℕ) → Monotone c qs → After p ps qs → Monotone c ps
Monotone-After c p ps [] m a = elim a [ ]
Monotone-After c p ps (q ∷ qs) m (inl a) = rw (← a.1) m.1
Monotone-After c p ps (q ∷ qs) m (inr a) = Monotone-After c p ps qs m.1 a

-- What a level of a view says of the next step.
pub View-step :
    (next : ℕ → ℕ → ℕ) (tail i x : ℕ) (xs ys : List ℕ)
    → View next tail i x xs ys
    → Chain (λ p. next p i) tail x xs
View-step next tail zero x xs ys w = w.0
View-step next tail (suc i) x xs ys w = w.0
