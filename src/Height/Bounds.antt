-- ===== src/Height/Bounds.antt =====
-- How high `random_height` goes.
use skl.Prelude.{ℕ, zero, suc, ◌+◌, ◌≤◌, ◌<◌, ◌≡◌, ◌⊎◌, inl, inr, leb, ltb, arith, Bool-cases, ◌&&◌}
use Prim.Native.Nat.{max}
use skl.Height.{grow, random_height}

module _ (probabilities : ℕ → ℕ) (rnd max_height : ℕ) where
  -- Every level passed had a probability of at least the random number, and the loop stopped at the
  -- greatest height or at a level of a smaller one.
  pub record IsHeight (low h : ℕ) : Type 0 where
    pub at_least : low ≤ h
    pub at_most : h ≤ max low max_height
    pub passed : (l : ℕ) → low ≤ l → l < h → rnd ≤ probabilities l
    pub stopped : (max_height ≤ h) ⊎ (probabilities h < rnd)

  grow-IsHeight :
      (rounds h : ℕ)
      → max_height ≤ h + rounds
      → IsHeight h (grow probabilities rnd max_height rounds h)
  unfolding grow
  grow-IsHeight zero h e = record {
    at_least = omega arith;
    at_most = omega arith;
    passed = λ l a b. absurd (omega arith);
    stopped = inl (omega arith);
  }
  grow-IsHeight (suc rounds) h e =
      elim (Bool-cases (ltb h max_height && leb rnd (probabilities h))) [
        | inl more ↦
            let r = grow-IsHeight rounds (h + 1) (omega arith) in
            let here : rnd ≤ probabilities h = ground arith in
            let below : h < max_height = ground arith in
            rw more (record {
              at_least = omega (arith, r.at_least);
              at_most = omega (arith, r.at_most);
              passed = passed_on here r;
              stopped = r.stopped;
            })
        | inr done ↦ rw done (record {
          at_least = omega arith;
          at_most = omega arith;
          passed = λ l a b. absurd (omega arith);
          stopped = ground arith;
        })
      ]
    where
      passed_on :
          rnd ≤ probabilities h
          → IsHeight (h + 1) (grow probabilities rnd max_height rounds (h + 1))
          → (l : ℕ) → h ≤ l
          → l < grow probabilities rnd max_height rounds (h + 1)
          → rnd ≤ probabilities l
      passed_on here r l a b = elim (split l a) [ inl e ↦ rw e here | inr e ↦ r.passed l e b ]
        where
          split : (l : ℕ) → h ≤ l → (l ≡ h) ⊎ (h + 1 ≤ l)
          split l a = omega arith

  -- For any table of probabilities and any random number the height is at least 1, and at most the
  -- map's unless that is 0; the levels passed on the way have a probability that is not below the
  -- random number, and the loop ends only at the map's height or at a level with a smaller one.
  pub random_height-IsHeight : IsHeight 1 (random_height probabilities rnd max_height)
  unfolding random_height
  random_height-IsHeight = grow-IsHeight max_height 1 (omega arith)
