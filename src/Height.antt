-- ===== src/Height.antt =====
-- `random_height` of src/lib.rs. The table PROBABILITIES is computed in floating point when the
-- crate is compiled, and the random number comes from the crate `rand`: both are arguments.
pub mod Bounds
use skl.Prelude.{ℕ, zero, suc, ◌+◌, ltb, leb, ◌&&◌, Bool, if◌then◌else◌}

-- `MAX_HEIGHT`
abbrev pub max_tower : ℕ
max_tower = 32

module _ (probabilities : ℕ → ℕ) (rnd max_height : ℕ) where
  -- the `while` loop, at most as many rounds as the height allows
  unfoldable pub grow : ℕ → ℕ → ℕ
  grow zero h = h
  grow (suc rounds) h =
      let higher = grow rounds (h + 1) in
      if ltb h max_height && leb rnd (probabilities h) then higher else h

  unfoldable pub random_height : ℕ
  unfolding grow
  random_height = grow max_height 1
