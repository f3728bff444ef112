-- ===== src/Meta.antt =====
-- `struct Meta` of src/map.rs: the counters of a map. A CAS loop is run against the cells that its
-- attempts meet: for each attempt the value that the cell holds then, and whether the weak exchange
-- fails though the values agree.
pub mod Bounds
use skl.Prelude.{
  ℕ, ◌+◌, ◌%◌, ◌^◌, Bool, true, false, not, ◌&&◌, Option, none, some, List, [], ◌∷◌, leb, ltb, ◌==◌,
  if◌then◌else◌,
}

pub record Meta : Type 0 where
  pub max_version : ℕ
  pub min_version : ℕ
  pub len : ℕ
  pub magic_version : ℕ
  pub height : ℕ
  pub reserved_byte : ℕ

-- `Meta::new`
unfoldable pub new : ℕ → Meta
new version = record {
  max_version = 0;
  min_version = 0;
  len = 0;
  magic_version = version;
  height = 1;
  reserved_byte = 0;
}

-- `fetch_add(1)` on a u32
unfoldable pub increase_len : Meta → Meta
increase_len m = record m { len = (m.len + 1) % 2 ^ 32 }

-- What one attempt of `compare_exchange_weak` meets.
pub record Attempt : Type 0 where
  pub cell : ℕ
  pub spurious : Bool

-- How such a loop ends: it leaves a cell alone, or it has stored a value over an old one.
pub data Outcome : Type 0 where
  kept : (current : ℕ) → Outcome
  stored : (old new_value : ℕ) → Outcome
  waiting : Outcome

-- The loop of `update_max_version`, from the value it has loaded.
unfoldable pub max_loop : ℕ → ℕ → List Attempt → Outcome
max_loop version current [] = if leb version current then kept current else waiting
max_loop version current (a ∷ rest) =
    let again = max_loop version a.cell rest in
    if leb version current
    then kept current
    else if (a.cell == current) && not a.spurious
    then stored current version
    else again

-- The loop of `update_min_version`.
unfoldable pub min_loop : ℕ → ℕ → List Attempt → Outcome
min_loop version current [] = if leb current version then kept current else waiting
min_loop version current (a ∷ rest) =
    let again = min_loop version a.cell rest in
    if leb current version
    then kept current
    else if (a.cell == current) && not a.spurious
    then stored current version
    else again

-- The loop of `new_node` that raises the height.
unfoldable pub height_loop : ℕ → ℕ → List Attempt → Outcome
height_loop height list_height [] = if ltb list_height height then waiting else kept list_height
height_loop height list_height (a ∷ rest) =
    let again = height_loop height a.cell rest in
    if ltb list_height height
    then if (a.cell == list_height) && not a.spurious then stored list_height height else again
    else kept list_height

-- the attempt that meets no other thread
abbrev pub alone : ℕ → List Attempt
alone current = record { cell = current; spurious = false } ∷ []

-- what the cell holds in the end
abbrev pub final : ℕ → Outcome → ℕ
final c (kept current) = c
final c (stored old new_value) = new_value
final c waiting = c

-- The three updates on a map that one thread uses.
unfoldable pub update_max_version : ℕ → Meta → Meta
unfolding max_loop
update_max_version version m = record m {
  max_version = final m.max_version (max_loop version m.max_version (alone m.max_version));
}

unfoldable pub update_min_version : ℕ → Meta → Meta
unfolding min_loop
update_min_version version m = record m {
  min_version = final m.min_version (min_loop version m.min_version (alone m.min_version));
}

unfoldable pub raise_height : ℕ → Meta → Meta
unfolding height_loop
raise_height height m = record m {
  height = final m.height (height_loop height m.height (alone m.height));
}
