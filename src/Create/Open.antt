-- ===== src/Create/Open.antt =====
-- The constructors of src/map/api.rs. What the operating system gives when a file or anonymous
-- memory is mapped is an argument: the error, or the arena with what its memory holds.
use skl.Prelude.{ℕ, Bool, true, ◌==◌, Option, none, some, if◌then◌else◌}
use skl.Compare.{Trailer, Comparator, ascend}
use skl.Node.{Memory}
use skl.Meta.{Meta}
use skl.Options
use skl.Options.{Options, with_unify, with_magic_version}
use skl.Run.{Run, Error, left, right, ok, err, panicked, out_of_fuel}
use skl.Arena.{Arena, ArenaOptions}
use skl.SkipMap.{SkipMap}
use skl.Alloc.{node_align}
use skl.Create.{new_in}

-- `CURRENT_VERSION`
abbrev pub current_version : ℕ
current_version = 0

-- `std::io::Error`, by where it comes from; `O` is the type of the system's own
pub data IoError (O E : Type 0) : Type 0 where
  os : O → IoError O E
  invalid_data : Error E → IoError O E
  bad_magic_version : IoError O E
  bad_version : IoError O E

pub data Opened (O A T : Type 0) : Type 0 where
  failed : O → Opened O A T
  opened : A → Memory T → (ℕ → Meta) → Opened O A T

pub data Map (O E A T : Type 0) : Type 0 where
  created : SkipMap A T → Map O E A T
  io_error : IoError O E → Map O E A T
  aborted : Map O E A T

unfoldable pub arena_options : (capacity : Option ℕ) → (unify : Option Bool) → ArenaOptions
arena_options capacity unify = record {
  capacity = capacity;
  maximum_alignment = node_align;
  unify = unify;
  magic_version = current_version;
}

module _ {A T E F : Type 0} ⦃t : Trailer T⦄ (ar : Arena A E)
    (arena_new : ArenaOptions → A × Memory T × (ℕ → Meta)) where
  unfoldable pub with_options_and_comparator :
      Options → Comparator → Run (SkipMap A T) F E (Unit {0})
  unfolding new_in arena_options
  with_options_and_comparator opts cmp =
      let (a, mem, stored) = arena_new (arena_options (some opts.capacity) (some opts.unify)) in
      new_in ar a mem stored cmp opts

  unfoldable pub with_comparator : Comparator → Run (SkipMap A T) F E (Unit {0})
  unfolding with_options_and_comparator Options.new
  with_comparator = with_options_and_comparator Options.new

  unfoldable pub with_options : Options → Run (SkipMap A T) F E (Unit {0})
  unfolding with_options_and_comparator ascend
  with_options opts = with_options_and_comparator opts ascend

  unfoldable pub new : Run (SkipMap A T) F E (Unit {0})
  unfolding with_options Options.new
  new = with_options Options.new

module _ {O A T E : Type 0} ⦃t : Trailer T⦄ (ar : Arena A E) where
  -- `new_in` on an arena that is mapped; there is no closure of a caller's that could fail
  abbrev pub construct_in : Opened O A T → Comparator → Options → Map O E A T
  construct_in (failed e) cmp opts = io_error (os e)
  construct_in (opened a mem stored) cmp opts = elim (new_in {F = ⊥} ar a mem stored cmp opts) [
    | ok u s ↦ created s
    | err e s ↦ elim e [ left x ↦ elim x [ ] | right e ↦ io_error (invalid_data e) ]
    | panicked ↦ aborted
    | out_of_fuel ↦ aborted
  ]

  -- the tests on the versions of a map that has been opened
  unfoldable pub check_versions : (magic_version : ℕ) → Map O E A T → Map O E A T
  check_versions magic_version (io_error e) = io_error e
  check_versions magic_version aborted = aborted
  check_versions magic_version (created s) =
      if s.meta.magic_version == magic_version
      then if ar.magic_version s.arena == current_version then created s else io_error bad_version
      else io_error bad_magic_version

  module _ (open_arena : ArenaOptions → Opened O A T) where
    unfoldable pub map_mut_with_options_and_comparator : Options → Comparator → Map O E A T
    unfolding new_in arena_options with_unify check_versions
    map_mut_with_options_and_comparator opts cmp =
        check_versions opts.magic_version
          (construct_in (open_arena (arena_options none none)) cmp (with_unify true opts))

    unfoldable pub map_anon_with_options_and_comparator : Options → Comparator → Map O E A T
    unfolding new_in arena_options
    map_anon_with_options_and_comparator opts cmp =
        construct_in (open_arena (arena_options none (some opts.unify))) cmp opts

    unfoldable pub map_mut_with_comparator : Comparator → Map O E A T
    unfolding map_mut_with_options_and_comparator Options.new
    map_mut_with_comparator cmp = map_mut_with_options_and_comparator Options.new cmp

    unfoldable pub map_mut_with_options : Options → Map O E A T
    unfolding map_mut_with_options_and_comparator ascend
    map_mut_with_options opts = map_mut_with_options_and_comparator opts ascend

    unfoldable pub map_mut : Map O E A T
    unfolding map_mut_with_options Options.new
    map_mut = map_mut_with_options Options.new

    unfoldable pub map_anon_with_comparator : Comparator → Map O E A T
    unfolding map_anon_with_options_and_comparator Options.new
    map_anon_with_comparator cmp = map_anon_with_options_and_comparator Options.new cmp

    unfoldable pub map_anon_with_options : Options → Map O E A T
    unfolding map_anon_with_options_and_comparator ascend
    map_anon_with_options opts = map_anon_with_options_and_comparator opts ascend

    unfoldable pub map_anon : Map O E A T
    unfolding map_anon_with_options_and_comparator Options.new ascend
    map_anon = map_anon_with_options_and_comparator Options.new ascend

  -- `Arena::map` is asked for the version that the file must have.
  unfoldable pub map_with_comparator :
      (open_arena : (version : ℕ) → Opened O A T) → Comparator → (magic_version : ℕ) → Map O E A T
  unfolding new_in with_unify with_magic_version Options.new check_versions
  map_with_comparator open_arena cmp magic_version = check_versions magic_version (
      construct_in (open_arena current_version) cmp
        (with_magic_version magic_version (with_unify true Options.new)))

  unfoldable pub map :
      (open_arena : (version : ℕ) → Opened O A T) → (magic_version : ℕ) → Map O E A T
  unfolding map_with_comparator ascend
  map open_arena magic_version = map_with_comparator open_arena ascend magic_version
