-- ===== src/SkipMap/Seek.antt =====
-- The bounds of src/map.rs: the entry at or next to a key that a version may see. The outer option
-- is the fuel's.
use skl.Prelude.{
  ℕ, zero, suc, ◌^◌, ◌-◌, ◌==◌, leb, ltb, Bool, true, false, Option, none, some, if◌then◌else◌,
}
use skl.Compare.{Bytes, Trailer, is_lt, is_gt}
use skl.Node.{get_key, version}
use skl.SkipMap.{SkipMap, get_next, get_prev, at_tail, at_head}
use skl.SkipMap.Find.{find_near}

abbrev pub u64_max : ℕ
u64_max = 2 ^ 64 - 1

module _ {A T : Type 0} ⦃t : Trailer T⦄ (s : SkipMap A T) (v : ℕ) where
  unfoldable pub prev_max_loop : ℕ → ℕ → ℕ → Option (Option ℕ)
  prev_max_loop zero curr prev = none
  prev_max_loop (suc fuel) curr prev =
      let again = prev_max_loop fuel prev (get_prev s prev 0) in
      if ltb v (version s.mem curr)
      then some none
      else if at_head s prev
      then (if leb (version s.mem curr) v then some (some curr) else some none)
      else if is_lt (s.cmp.cmp (get_key s.mem prev) (get_key s.mem curr))
      then some (some curr)
      else if version s.mem prev == v
      then some (some prev)
      else if ltb v (version s.mem prev)
      then some (some curr)
      else again

  unfoldable pub find_prev_max_version : ℕ → ℕ → Option (Option ℕ)
  find_prev_max_version fuel curr = prev_max_loop fuel curr (get_prev s curr 0)

  -- The test of `next` is against the head, as in the source, so that the tail is read as a node.
  unfoldable pub next_max_loop : ℕ → ℕ → ℕ → Option (Option ℕ)
  next_max_loop zero curr next = none
  next_max_loop (suc fuel) curr next =
      let again = next_max_loop fuel next (get_next s next 0) in
      if leb (version s.mem curr) v
      then some (some curr)
      else if at_head s next
      then (if leb (version s.mem curr) v then some (some curr) else some none)
      else if is_gt (s.cmp.cmp (get_key s.mem next) (get_key s.mem curr))
      then (if leb (version s.mem next) v then some (some curr) else some none)
      else if leb (version s.mem next) v
      then (if next == s.tail then some none else some (some next))
      else again

  unfoldable pub find_next_max_version : ℕ → ℕ → Option (Option ℕ)
  find_next_max_version fuel curr = next_max_loop fuel curr (get_next s curr 0)

  -- What the four bounds do with the node that `find_near` returns.
  unfoldable pub towards_next : ℕ → Option (Option ℕ × Bool) → Option (Option ℕ)
  towards_next fuel none = none
  towards_next fuel (some (none, found)) = some none
  towards_next fuel (some (some n, found)) =
      if at_tail s n then some none else find_next_max_version fuel n

  unfoldable pub towards_prev : ℕ → Option (Option ℕ × Bool) → Option (Option ℕ)
  towards_prev fuel none = none
  towards_prev fuel (some (none, found)) = some none
  towards_prev fuel (some (some n, found)) =
      if at_head s n then some none else find_prev_max_version fuel n

module _ {A T : Type 0} ⦃t : Trailer T⦄ (s : SkipMap A T) (fuel : ℕ) (v : ℕ) where
  unfoldable pub above : Bytes → Option (Option ℕ)
  above key = towards_next s v fuel (find_near s 0 key false false fuel)

  unfoldable pub below : Bytes → Option (Option ℕ)
  below key = towards_prev s v fuel (find_near s u64_max key true false fuel)

  unfoldable pub at_or_above : Bytes → Option (Option ℕ)
  at_or_above key = towards_next s v fuel (find_near s u64_max key false true fuel)

  unfoldable pub at_or_below : Bytes → Option (Option ℕ)
  at_or_below key = towards_prev s v fuel (find_near s 0 key true true fuel)

  unfoldable pub first_in : Option (Option ℕ)
  first_in =
      let nd = get_next s s.head 0 in
      if at_tail s nd then some none else at_or_above (get_key s.mem nd)

  unfoldable pub last_in : Option (Option ℕ)
  last_in =
      let nd = get_prev s s.tail 0 in
      if at_head s nd then some none else at_or_below (get_key s.mem nd)
