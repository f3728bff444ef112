-- ===== src/Race.antt =====
-- Several calls of `update` (src/map.rs) that link their nodes on one level at the same time. Each
-- thread runs the inner `loop` of `update`; a step is one access to memory that the threads share,
-- with what the thread does by itself up to the next one, and the threads take their steps in any
-- order. A thread that finds its entry in the map has left the loop, for `lost` on the base level and
-- by a panic on the levels above.
pub mod Facts
pub mod Changes
pub mod Level
pub mod Moves
pub mod Invariant
pub mod Rebuild
pub mod Steps
pub mod Turn
pub mod Safety
pub mod Alone
pub mod Walk
pub mod Termination
pub mod Entries
pub mod Sharing
pub mod Sorted
pub mod Order
pub mod Ordered
pub mod Outcome
pub mod Single
use skl.Prelude.{ℕ, zero, suc, ◌<◌, ◌==◌, Option, none, List, [], ◌∷◌, lt, eq, gt, if◌then◌else◌}
use skl.Compare.{Bytes, Trailer}
use skl.Node.{update, next_offset, prev_offset, get_bytes}
use skl.Types.{as_ref}
use skl.Arena.{Arena}
use skl.SkipMap.{SkipMap, get_next, order}
use skl.SkipMap.Shape.{All}
use skl.Splice.{Pointer, shared_key}
use skl.Store.{write_tower, cas_next_offset, cas_prev_offset}
use skl.Update.{Linking, share_key}

-- Where a thread stands in the loop, with its `prev` and `next`, and what it has read of the link
-- from `next` back.
pub data Pc : Type 0 where
  ready written swapping relinking : (prev next : ℕ) → Pc
  checking helping : (prev next seen : ℕ) → Pc
  searching found panicked : ℕ → Pc
  finished : Pc

-- The entry is in the map already: above the base level the code panics.
abbrev pub met : (i next : ℕ) → Pc
met zero next = Pc.found next
met (suc i) next = Pc.panicked next

pub record Thread : Type 0 where
  pub nd : ℕ
  pub version : ℕ
  pub g : Linking
  pub pc : Pc

abbrev pub at : Pc → Thread → Thread
at pc th = record th { pc = pc }

module _ {A T E : Type 0} ⦃t : Trailer T⦄ (ar : Arena A E) (i : ℕ) where
  -- back to the start of the loop with a new splice
  unfoldable pub again : Option Pointer → (x next : ℕ) → Thread → SkipMap A T → Thread × SkipMap A T
  unfolding share_key
  again found_key x next th s =
      let (g, s') = share_key ar th.nd found_key th.g s in
      (record th { g = g; pc = Pc.ready x next }, s')

  -- one round of `find_splice_for_level`, which has read `next` behind `x`
  unfoldable pub look : (x next : ℕ) → Thread → SkipMap A T → Thread × SkipMap A T
  unfolding again shared_key order get_bytes as_ref
  look x next th s =
      let key = as_ref (get_bytes s.mem) th.g.k in
      if next == s.tail then again none x next th s else elim (order s th.version key next) [
        | lt ↦ again (shared_key s th.version key next) x next th s
        | gt ↦ (at (Pc.searching next) th, s)
        | eq ↦ (at (met i next) th, s)
      ]

  unfoldable pub step : Pc → Thread → SkipMap A T → Thread × SkipMap A T
  unfolding look write_tower cas_next_offset cas_prev_offset get_next next_offset prev_offset
  step (Pc.ready prev next) th s = (at (Pc.written prev next) th, write_tower th.nd i prev next s)
  step (Pc.written prev next) th s =
      let seen = prev_offset s.mem next i in
      if seen == prev
      then (at (Pc.swapping prev next) th, s)
      else (at (Pc.checking prev next seen) th, s)
  step (Pc.checking prev next seen) th s =
      if next_offset s.mem prev i == next
      then (at (Pc.helping prev next seen) th, s)
      else (at (Pc.swapping prev next) th, s)
  step (Pc.helping prev next seen) th s =
      (at (Pc.swapping prev next) th, (cas_prev_offset next i seen prev s).1)
  step (Pc.swapping prev next) th s =
      let (won, s') = cas_next_offset prev i next th.nd s in
      if won then (at (Pc.relinking prev next) th, s') else (at (Pc.searching prev) th, s')
  step (Pc.searching x) th s = look x (get_next s x i) th s
  step (Pc.relinking prev next) th s = (at Pc.finished th, (cas_prev_offset next i prev th.nd s).1)
  step (Pc.found x) th s = (th, s)
  step (Pc.panicked x) th s = (th, s)
  step Pc.finished th s = (th, s)

-- the threads from `n` on take no steps
pub record System (A T : Type 0) : Type 0 where
  pub map : SkipMap A T
  pub thread : ℕ → Thread

module _ {A T E : Type 0} ⦃t : Trailer T⦄ (ar : Arena A E) (i n : ℕ) where
  unfoldable pub turn : ℕ → System A T → System A T
  unfolding step update
  turn w c =
      let (th, s) = step ar i (c.thread w).pc (c.thread w) c.map in
      record { map = s; thread = update c.thread w th }

  pub data Step (c : System A T) : System A T → Type 0 where
    pick : (w : ℕ) → w < n → Step c (turn w c)

  pub data Reach (c : System A T) : System A T → Type 0 where
    start : Reach c c
    later : {d e : System A T} → Reach c d → Step d e → Reach c e

  -- a schedule, run from its first thread on
  unfoldable pub run : List ℕ → System A T → System A T
  unfolding turn
  run [] c = c
  run (w ∷ ws) c = run ws (turn w c)

  pub run-Reach :
      (ws : List ℕ) {b : System A T} (c : System A T)
      → All (λ w. w < n) ws
      → Reach b c
      → Reach b (run ws c)
  unfolding run
  run-Reach [] c h r = r
  run-Reach (w ∷ ws) c h r = run-Reach ws (turn w c) h.1 (later r (pick w h.0))
