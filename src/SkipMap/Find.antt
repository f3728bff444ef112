-- ===== src/SkipMap/Find.antt =====
-- `find_near` of src/map.rs: the search that every read starts with. The loop takes fuel, one unit
-- for each round; `none` means that the fuel ran out.
pub mod Scan
pub mod Near
use skl.Prelude.{
  ℕ, zero, suc, ◌-◌, ◌==◌, ltb, Bool, true, false, not, Option, none, some, lt, eq, gt,
  if◌then◌else◌,
}
use skl.Compare.{Bytes, Trailer}
use skl.SkipMap.{SkipMap, get_next, at_tail, order}

module _ {A T : Type 0} ⦃t : Trailer T⦄ (s : SkipMap A T) (v : ℕ) (key : Bytes)
    (less allow_equal : Bool) where
  unfoldable pub near_loop : ℕ → ℕ → ℕ → Option (Option ℕ × Bool)
  near_loop zero x level = none
  near_loop (suc fuel) x level =
      let next = get_next s x level in
      let down = near_loop fuel x (level - 1) in
      let right = near_loop fuel next level in
      if at_tail s next
      then if ltb 0 level
        then down
        else if not less
        then some (none, false)
        else if x == s.head
        then some (none, false)
        else some (some x, false)
      else elim (order s v key next) [
        | gt ↦ right
        | eq ↦
            if allow_equal
            then some (some next, true)
            else if not less
            then some (some (get_next s next 0), false)
            else if ltb 0 level
            then down
            else some (some x, false)
        | lt ↦
            if ltb 0 level
            then down
            else if not less
            then some (some next, false)
            else if x == s.head
            then some (none, false)
            else some (some x, false)
      ]

  unfoldable pub find_near : ℕ → Option (Option ℕ × Bool)
  unfolding near_loop
  find_near fuel = near_loop fuel s.head (s.meta.height - 1)
