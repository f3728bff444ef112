-- ===== src/Meta/Bounds.antt =====
-- What the version counters and the height say of what was inserted.
use Prim.Native.Nat.{max, min}
use skl.Prelude.{ℕ, ◌≤◌, ◌<◌, ◌≡◌, List, [], ◌∷◌, arith}
use skl.Meta.{
  Meta, Attempt, Outcome, kept, stored, waiting, max_loop, height_loop, update_max_version,
  update_min_version, raise_height,
}

-- An outcome of a loop that moves a cell up to `version`: it saw a cell that is at least `version`,
-- or it replaced a smaller one by `version`, or the attempts have run out.
abbrev pub RaisedTo : ℕ → Outcome → Type 0
RaisedTo version (kept current) = version ≤ current
RaisedTo version (stored old new_value) = (old < version) × (new_value ≡ version)
RaisedTo version waiting = Unit {0}

-- Whatever other threads store meanwhile and whichever exchanges fail, the loop of
-- `update_max_version` gives up only at a cell that is at least `version`, and stores only
-- `version`, over a smaller value.
pub max_loop-RaisedTo :
    (version current : ℕ) (seen : List Attempt) → RaisedTo version (max_loop version current seen)
unfolding max_loop
max_loop-RaisedTo version current [] = ground arith
max_loop-RaisedTo version current (a ∷ rest) = ground (arith, max_loop-RaisedTo version a.cell rest)

-- Whatever other threads store meanwhile and whichever exchanges fail, the loop that raises the height
-- gives up only at a cell that is at least the new height, and stores only that height, over a
-- smaller one.
pub height_loop-RaisedTo :
    (height list_height : ℕ) (seen : List Attempt)
    → RaisedTo height (height_loop height list_height seen)
unfolding height_loop
height_loop-RaisedTo height list_height [] = ground arith
height_loop-RaisedTo height list_height (a ∷ rest) =
    ground (arith, height_loop-RaisedTo height a.cell rest)

pub update_max_version-max :
    (version : ℕ) (m : Meta)
    → (update_max_version version m).max_version ≡ max m.max_version version
unfolding update_max_version
update_max_version-max version m = ground arith

pub raise_height-max : (h : ℕ) (m : Meta) → (raise_height h m).height ≡ max m.height h
unfolding raise_height
raise_height-max h m = ground arith

pub update_min_version-min :
    (version : ℕ) (m : Meta)
    → (update_min_version version m).min_version ≡ min m.min_version version
unfolding update_min_version
update_min_version-min version m = ground arith
