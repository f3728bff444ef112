-- ===== src/Splice.antt =====
-- The search for the place of a new node in src/map.rs. `none` means that the fuel ran out.
pub mod Bracket
pub mod Level
pub mod Search
pub mod Shared
use skl.Prelude.{
  ℕ, zero, suc, ◌+◌, ◌%◌, ◌^◌, ◌==◌, ltb, Bool, true, false, not, ◌&&◌, Option, none, some, lt, eq,
  gt, if◌then◌else◌, length,
}
use skl.Compare.{Bytes, Trailer, starts_with}
use skl.Node.{null, is_null, get_key, key_size, height, version}
use skl.SkipMap.{SkipMap, get_next, order}

-- `struct Pointer`, with `Pointer::new`
pub record Pointer : Type 0 where
  pub offset : ℕ
  pub size : ℕ
  pub height : Option ℕ

abbrev pub pointer : ℕ → ℕ → Pointer
pointer offset size = record { offset = offset; size = size; height = none }

-- `struct Splice`
pub record Splice : Type 0 where
  pub prev : ℕ
  pub next : ℕ

-- `struct FindResult`
pub record FindResult : Type 0 where
  pub found : Bool
  pub found_key : Option Pointer
  pub splice : Splice
  pub curr : Option ℕ

-- `struct Inserter`; the array has MAX_HEIGHT cells
pub record Inserter : Type 0 where
  pub spl : ℕ → Splice
  pub height : ℕ

unfoldable pub inserter : Inserter
inserter = record { spl = λ _. record { prev = null; next = null }; height = 0 }

unfoldable pub set_splice : Inserter → ℕ → Splice → Inserter
set_splice ins lvl spl = record ins { spl = λ i. if i == lvl then spl else ins.spl i }

module _ {A T : Type 0} ⦃t : Trailer T⦄ (s : SkipMap A T) (v : ℕ) (key : Bytes) where
  unfoldable pub key_is_after_node : ℕ → Bool
  key_is_after_node nd = elim (s.cmp.cmp (get_key s.mem nd) key) [
    | lt ↦ true
    | gt ↦ false
    | eq ↦ ltb v (version s.mem nd)
  ]

  -- The key that a new node may share with `next`: the same key, or one that it begins with.
  unfoldable pub shared_key : ℕ → Option Pointer
  shared_key next = elim (s.cmp.cmp key (get_key s.mem next)) [
    | eq ↦ some (record {
      offset = (s.mem.node next).key_offset;
      size = key_size s.mem next;
      height = some (height s.mem next);
    })
    | gt ↦
        if starts_with (get_key s.mem next) key
        then some (record {
          offset = (s.mem.node next).key_offset;
          size = length key % 2 ^ 32;
          height = some (height s.mem next);
        })
        else none
    | lt ↦ none
  ]

  unfoldable pub find_splice_for_level : ℕ → ℕ → ℕ → Option FindResult
  find_splice_for_level zero level prev = none
  find_splice_for_level (suc fuel) level prev =
      let next = get_next s prev level in
      let onwards = find_splice_for_level fuel level next in
      let here : Splice = record { prev = prev; next = next } in
      if next == s.tail
      then some (record { found = false; found_key = none; splice = here; curr = none })
      else elim (order s v key next) [
        | lt ↦
            some (record { found = false; found_key = shared_key next; splice = here; curr = none })
        | gt ↦ onwards
        | eq ↦
            some (record {
              found = true;
              found_key = shared_key next;
              splice = here;
              curr = some next;
            })
      ]

  -- The `while` loop: the level from which the splices must be recomputed, and the node to start at.
  unfoldable pub reusable : Inserter → ℕ → ℕ → ℕ × ℕ
  reusable ins zero level = (level, s.head)
  reusable ins (suc rounds) level =
      let spl = ins.spl level in
      let upper = reusable ins rounds (level + 1) in
      if not (get_next s spl.prev level == spl.next)
      then upper
      else if not (spl.prev == s.head) && not (key_is_after_node spl.prev)
      then (s.meta.height, s.head)
      else if not (spl.next == s.tail) && not (key_is_after_node spl.next)
      then (s.meta.height, s.head)
      else (level, spl.prev)

  -- what `find_splice` returns, with the inserter that it has changed
  abbrev pub Found : Type 0
  Found = Bool × Option Pointer × Option ℕ × Inserter

  abbrev pub first_of_two : Option Pointer → Option Pointer → Option Pointer
  first_of_two none new = new
  first_of_two (some old) new = some old

  -- The `for` loop over the levels below `rounds`, from the top. `next` is never null in what the
  -- search of a level returns unless the links are, and then it becomes the tail.
  unfoldable pub splice_levels :
      (fuel start : ℕ) (returned_when_found : Bool)
      → ℕ
      → Bool
      → Option Pointer
      → Inserter
      → Option Found
  splice_levels fuel start returned zero found found_key ins = some (found, found_key, none, ins)
  splice_levels fuel start returned (suc lvl) found found_key ins =
      elim (find_splice_for_level fuel lvl start) [
        | none ↦ none
        | some fr ↦
            let spl : Splice = record {
              prev = fr.splice.prev;
              next = if is_null fr.splice.next then s.tail else fr.splice.next;
            } in
            let key' = first_of_two found_key fr.found_key in
            if fr.found && returned
            then some (fr.found, key', fr.curr, ins)
            else splice_levels fuel start returned lvl fr.found key' (set_splice ins lvl spl)
      ]

  unfoldable pub find_splice : ℕ → Inserter → Bool → Option Found
  find_splice fuel ins returned =
      if ltb ins.height s.meta.height
      then splice_levels fuel s.head returned s.meta.height false none
          (record ins { height = s.meta.height })
      else let (level, prev) = reusable ins s.meta.height 0 in
        splice_levels fuel prev returned level false none ins
