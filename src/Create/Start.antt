-- ===== src/Create/Start.antt =====
-- What `new_in` and `clear` leave, whatever the arena answers.
use skl.Prelude.{ℕ, ◌≤◌, ◌<◌, ◌≡◌, refl, Bool, false, Option, none, some, if◌then◌else◌}
use skl.Compare.{Comparator, Trailer}
use skl.Compare.Laws.{IsOrder}
use skl.Node.{Memory, null}
use skl.Meta
use skl.Meta.{Meta}
use skl.Options.{Options}
use skl.Run.{Run, right, arena_too_small, arena, ok, err}
use skl.Run.Ends.{Ends}
use skl.Arena.{Arena}
use skl.Arena.Laws.{IsArena}
use skl.SkipMap.{SkipMap}
use skl.Create.{check_capacity, get_pointers, set_up, new_in, clear}
use skl.Create.Ends.{IsOwn}
use skl.Create.Ready.{IsReady, IsReadied, set_up-Ends}

module _ {A T E : Type 0} (F : Type 0) ⦃t : Trailer T⦄ (free : A → ℕ → Bool) (ar : Arena A E)
    (laws : IsArena free ar) where
  -- Let the arena be writable and hand out only memory that is free, its address 0 be in use, the
  -- comparator be a total preorder, and the greatest height asked for be from 1 to 31. Then `new_in`
  -- neither panics nor runs on: it leaves a well-formed map without entries, laid out in the arena,
  -- with the comparator and the options given and new counters, or it ends with an error of the map's own.
  pub new_in-IsReady :
      (a : A) (mem : Memory T) (stored : ℕ → Meta) (cmp : Comparator) (opts : Options)
      → ar.read_only a ≡ false
      → free a 0 ≡ false
      → IsOrder cmp.cmp
      → 1 ≤ opts.max_height
      → opts.max_height < 32
      → Ends
          (λ _ s'.
            IsReady free s'
            × (s'.cmp ≡ cmp)
            × (s'.opts ≡ opts)
            × (s'.meta ≡ Meta.new opts.magic_version))
          IsOwn
          (new_in {F = F} ar a mem stored cmp opts)
  unfolding new_in
  new_in-IsReady a mem stored cmp opts writable held o low high =
      by_capacity (check_capacity T (ar.data_offset a) (ar.capacity a) opts.max_height)
    where
      blank : ℕ → SkipMap A T
      blank data_offset = record {
        arena = a;
        mem = mem;
        meta = Meta.new opts.magic_version;
        head = null;
        tail = null;
        data_offset = data_offset;
        opts = opts;
        cmp = cmp;
      }

      by_capacity :
          (c : Option ℕ)
          → Ends {S = SkipMap A T} {F = F} {E = E}
              (λ _ s'.
                IsReady free s'
                × (s'.cmp ≡ cmp)
                × (s'.opts ≡ opts)
                × (s'.meta ≡ Meta.new opts.magic_version))
              IsOwn
              (elim c [
                | none ↦ err (right arena_too_small) (blank 0)
                | some data_offset ↦
                    if ar.read_only a
                    then ok tt (get_pointers ar stored (blank data_offset))
                    else set_up ar opts.magic_version (blank data_offset)
              ])
      by_capacity none = (arena_too_small, refl)
      by_capacity (some data_offset) =
          rw writable
            (set_up-Ends F free ar laws opts.magic_version (blank data_offset) held o low high)

  -- Let the arena hand out only memory that is free, its address 0 be in use after it has been
  -- cleared, the comparator be a total preorder, and the greatest height be from 1 to 31. Then `clear`
  -- neither panics nor runs on: it leaves a well-formed map without entries, laid out in the arena,
  -- with the comparator and the options as they were and new counters of the magic version that it reads
  -- of the old ones after the arena's `clear`, or it ends with an error of the map's own.
  pub clear-IsReady :
      (wiped : Memory T → Memory T) (left : Meta → Meta) (s : SkipMap A T)
      → free ((ar.clear s.arena).1) 0 ≡ false
      → IsOrder s.cmp.cmp
      → 1 ≤ s.opts.max_height
      → s.opts.max_height < 32
      → Ends
          (λ _ s'.
            IsReady free s'
            × (s'.cmp ≡ s.cmp)
            × (s'.opts ≡ s.opts)
            × (s'.meta ≡ Meta.new (if s.opts.unify then left s.meta else s.meta).magic_version))
          IsOwn
          (clear {F = F} ar wiped left s)
  unfolding clear
  clear-IsReady wiped left s held o low high = by_answer ((ar.clear s.arena).0)
    where
      counters : Meta
      counters = if s.opts.unify then left s.meta else s.meta

      by_answer :
          (r : Option E)
          → Ends
              (IsReadied free counters.magic_version s)
              IsOwn
              (elim r as (λ _. Run (SkipMap A T) F E (Unit {0})) [
                | some e ↦ err (right (arena e)) (record s { arena = (ar.clear s.arena).1 })
                | none ↦
                    set_up ar counters.magic_version (record s {
                      arena = (ar.clear s.arena).1;
                      mem = wiped s.mem;
                      meta = counters;
                    })
              ])
      by_answer (some e) = (arena e, refl)
      by_answer none =
          set_up-Ends F free ar laws counters.magic_version
            (record s { arena = (ar.clear s.arena).1; mem = wiped s.mem; meta = counters }) held o
            low high
