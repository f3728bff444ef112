-- ===== src/Create.antt =====
-- How src/map.rs and `clear` of src/map/api.rs set a map up in an arena: the counters, and the head
-- and the tail, linked to each other on every level. A map under construction is a `SkipMap` whose
-- head and tail are null.
pub mod Empty
pub mod Open
pub mod Ends
pub mod Ready
pub mod Start
use skl.Prelude.{ℕ, zero, suc, ◌+◌, ◌*◌, ◌%◌, ◌^◌, ◌==◌, ltb, Option, none, some, if◌then◌else◌}
use skl.Encoding.{encode_value_pointer, encode_key_size_and_height, decode_value_pointer}
use skl.Compare.{Comparator, Trailer}
use skl.Node.{Node, Memory, node_size, link_size, null, align_up, tower}
use skl.Meta
use skl.Meta.{Meta}
use skl.Options.{Options}
use skl.Run.{Run, arena, arena_too_small, right, ok, err, M, pure, ◌>>=◌, ◌>>◌}
use skl.Arena.{Arena}
use skl.SkipMap.{SkipMap}
use skl.Store.{set_node, set_link}
use skl.Alloc.{node_align, modify, allocate}

-- `mem::size_of::<Meta>()` and its alignment
abbrev pub meta_size : ℕ
meta_size = 24

abbrev pub meta_align : ℕ
meta_align = 8

-- `Node::full`
unfoldable pub full : (value_offset max_height : ℕ) → Node
unfolding encode_value_pointer encode_key_size_and_height
full value_offset max_height = record {
  value = encode_value_pointer value_offset 0;
  key_offset = 0;
  key_size_and_height = encode_key_size_and_height 0 max_height;
}

-- where a node of that height ends, when it is put behind `offset`
unfoldable pub node_end : (max_height offset : ℕ) → ℕ
unfolding align_up
node_end max_height offset = align_up node_align offset + node_size + link_size * max_height

module _ (T : Type 0) ⦃t : Trailer T⦄ where
  -- where a trailer behind `offset` ends
  unfoldable pub trailer_end : ℕ → ℕ
  unfolding align_up
  trailer_end offset = if t.size_of == 0 then offset else align_up t.align_of offset + t.size_of

  -- The data offset, or nothing where the arena is too small.
  unfoldable pub check_capacity : (data_offset capacity max_height : ℕ) → Option ℕ
  unfolding align_up trailer_end node_end
  check_capacity data_offset capacity max_height =
      let meta_end = align_up meta_align data_offset + meta_size in
      let head_end = trailer_end (node_end max_height meta_end) in
      let tail_end = trailer_end (node_end max_height head_end) in
      if ltb capacity tail_end then none else some (tail_end % 2 ^ 32)

module _ {A T : Type 0} where
  -- the loop that links all levels of the head and the tail
  unfoldable pub link_ends : (levels i head tail : ℕ) → SkipMap A T → SkipMap A T
  unfolding set_link tower
  link_ends zero i head tail s = s
  link_ends (suc levels) i head tail s =
      let s₁ = set_link head i (record (tower s.mem head i) { next_offset = tail }) s in
      let s₂ = set_link tail i (record (tower s₁.mem tail i) { prev_offset = head }) s₁ in
      link_ends levels (i + 1) head tail s₂

module _ {A T E : Type 0} ⦃t : Trailer T⦄ (ar : Arena A E) where
  -- The counters, the head and the tail that an arena holds already; `stored` reads the counters.
  unfoldable pub get_pointers : (ℕ → Meta) → SkipMap A T → SkipMap A T
  unfolding align_up decode_value_pointer
  get_pointers stored s =
      let meta = align_up meta_align (ar.data_offset s.arena) in
      let head = align_up node_align (meta + meta_size) in
      let trailer_offset = (decode_value_pointer (s.mem.node head).value).0 in
      record s {
        meta = stored meta;
        head = head;
        tail = align_up node_align (trailer_offset + t.size_of);
      }

module _ {A T E F : Type 0} ⦃t : Trailer T⦄ (ar : Arena A E) where
  unfoldable pub allocate_full_node : (max_height : ℕ) → M (SkipMap A T) F E ℕ
  unfolding allocate set_node full
  allocate_full_node max_height = do
    node ← allocate (ar.alloc_aligned_bytes node_size node_align (max_height * link_size % 2 ^ 32))
    trailer_offset ←
        if t.size_of == 0
        then (λ s. ok (ar.allocated s.arena) s)
        else do trailer ← allocate (ar.alloc t.size_of t.align_of); pure trailer.offset
    modify (set_node node.offset (full trailer_offset max_height))
    pure node.offset

  -- `allocate_meta`, or the counters on the heap
  unfoldable pub allocate_meta : (magic_version : ℕ) → M (SkipMap A T) F E (Unit {0})
  unfolding allocate Meta.new
  allocate_meta magic_version = do
    meta ← λ s.
        if s.opts.unify
        then allocate (ar.alloc meta_size meta_align) s
        else ok (record { offset = null; capacity = 0 }) s
    modify (λ s. record s { meta = Meta.new magic_version })

  -- the part that `new_in` and `clear` share
  unfoldable pub set_up : (magic_version : ℕ) → M (SkipMap A T) F E (Unit {0})
  unfolding allocate_meta allocate_full_node link_ends
  set_up magic_version = do
    allocate_meta magic_version
    λ s.
        (do
          head ← allocate_full_node s.opts.max_height
          tail ← allocate_full_node s.opts.max_height
          modify (link_ends s.opts.max_height 0 head tail)
          modify (λ s. record s { head = head; tail = tail }))
          s

  -- `new_in`, with what the arena's memory holds before
  unfoldable pub new_in :
      A → Memory T → (ℕ → Meta) → Comparator → Options → Run (SkipMap A T) F E (Unit {0})
  unfolding check_capacity get_pointers set_up Meta.new
  new_in a mem stored cmp opts =
      let blank : ℕ → SkipMap A T = λ data_offset. record {
        arena = a;
        mem = mem;
        meta = Meta.new opts.magic_version;
        head = null;
        tail = null;
        data_offset = data_offset;
        opts = opts;
        cmp = cmp;
      } in
      elim (check_capacity T (ar.data_offset a) (ar.capacity a) opts.max_height) [
        | none ↦ err (right arena_too_small) (blank 0)
        | some data_offset ↦
            if ar.read_only a
            then ok tt (get_pointers ar stored (blank data_offset))
            else set_up opts.magic_version (blank data_offset)
      ]

  -- `wiped` is what the arena's `clear` makes of its memory, `left` what it leaves of the counters that
  -- stand in it: they are read for the magic version after that.
  unfoldable pub clear :
      (wiped : Memory T → Memory T) (left : Meta → Meta) → M (SkipMap A T) F E (Unit {0})
  unfolding set_up
  clear wiped left s =
      let (refused, a) = ar.clear s.arena in
      elim refused [
        | some e ↦ err (right (arena e)) (record s { arena = a })
        | none ↦
            let meta = if s.opts.unify then left s.meta else s.meta in
            set_up meta.magic_version (record s { arena = a; mem = wiped s.mem; meta = meta })
      ]
