-- ===== src/SkipMap/Find/Scan.antt =====
-- The plain scan of the base level that `find_near` is an optimisation of, and how it moves along a
-- list whose nodes are in order.
use skl.Prelude.{
  ℕ, ◌==◌, ◌≡◌, ◌≢◌, inl, inr, Bool, true, false, not, Option, none, some, List, [], ◌∷◌, Ordering,
  lt, eq, gt, if◌then◌else◌,
}
use skl.SkipMap.Shape.{After, All-After, Monotone}

module _ (c : ℕ → Ordering) (next : ℕ → ℕ) (head : ℕ) (less allow_equal : Bool) where
  -- `x` is the node before the list
  unfoldable pub scan : ℕ → List ℕ → Option ℕ × Bool
  scan x [] =
      if not less then (none, false) else if x == head then (none, false) else (some x, false)
  scan x (p ∷ ps) = elim (c p) [
    | gt ↦ scan p ps
    | eq ↦
        if allow_equal
        then (some p, true)
        else if not less
        then (some (next p), false)
        else (some x, false)
    | lt ↦
        if not less then (some p, false) else if x == head then (none, false) else (some x, false)
  ]

  -- Where a later node is still before the target, the scan passes all that lies between.
  pub scan-After :
      (x p : ℕ) (ps qs : List ℕ) → Monotone c qs → After p ps qs → c p ≡ gt → scan x qs ≡ scan p ps
  unfolding scan
  scan-After x p ps [] m a h = elim a [ ]
  scan-After x p ps (q ∷ qs) m (inl a) h =
      let here : c q ≡ gt = rw (a.0) h in rw (here, scan) (rw (a.0, a.1))
  scan-After x p ps (q ∷ qs) m (inr a) h =
      let passed : c q ≡ gt = All-After (λ r. c r ≢ lt → c q ≡ gt) p ps qs m.0 a (λ k. cc) in
      rw (passed, scan) (scan-After q p ps qs m.1 a h)

  -- A node at the target is what the scan finds, if that is allowed.
  pub scan_hit :
      (x p : ℕ) (ps qs : List ℕ)
      → Monotone c qs
      → After p ps qs
      → c p ≡ eq
      → allow_equal ≡ true
      → scan x qs ≡ (some p, true)
  unfolding scan
  scan_hit x p ps [] m a h k = elim a [ ]
  scan_hit x p ps (q ∷ qs) m (inl a) h k =
      let here : c q ≡ eq = rw (a.0) h in rw (here, k, scan) (rw (a.0))
  scan_hit x p ps (q ∷ qs) m (inr a) h k =
      let passed : c q ≡ gt = All-After (λ r. c r ≢ lt → c q ≡ gt) p ps qs m.0 a (λ k. cc) in
      rw (passed, scan) (scan_hit q p ps qs m.1 a h k)

  pub scan_beyond :
      (x p : ℕ) (ps qs : List ℕ)
      → Monotone c qs
      → After p ps qs
      → c p ≡ eq
      → allow_equal ≡ false
      → less ≡ false
      → scan x qs ≡ (some (next p), false)
  unfolding scan
  scan_beyond x p ps [] m a h k l = elim a [ ]
  scan_beyond x p ps (q ∷ qs) m (inl a) h k l =
      let here : c q ≡ eq = rw (a.0) h in rw (here, k, l, scan) (rw (a.0))
  scan_beyond x p ps (q ∷ qs) m (inr a) h k l =
      let passed : c q ≡ gt = All-After (λ r. c r ≢ lt → c q ≡ gt) p ps qs m.0 a (λ k. cc) in
      rw (passed, scan) (scan_beyond q p ps qs m.1 a h k l)
