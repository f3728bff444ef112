-- ===== src/Alloc/Outcomes.antt =====
-- The outcomes of the allocations of nodes, one for each answer of the arena.
use skl.Prelude.{ℕ, ◌+◌, ◌*◌, ◌%◌, ◌^◌, ◌≡◌, ◌⊎◌, inl, inr, refl, none, some, length, arith}
use skl.Node.{node_size, link_size}
use skl.Compare.{Bytes, Trailer}
use skl.Types.{VacantBuffer}
use skl.Run.{Run, and_then, on_err, ◌>>=◌, right, arena, ok, err, Failure}
use skl.Arena.{Region, Alloc, Arena}
use skl.SkipMap.{SkipMap}
use skl.Store.{set_bytes, set_node, set_trailer}
use skl.Splice.{pointer}
use skl.Alloc.{
  Filled, Allocated, Deallocator, allocate, allocate_entry_node, allocate_value_node,
  check_node_size, node_align, header, deallocator, release, fill_vacant_key, fill_vacant_value,
}
use skl.Alloc.Filling.{Fills, fill_vacant-full}

pub Alloc-cases :
    {A E : Type 0} (x : Alloc A E)
    → ((r : Region) × (a : A) × (x ≡ Alloc.allocated r a))
      ⊎ ((e : E) × (a : A) × (x ≡ Alloc.refused e a))
Alloc-cases (Alloc.allocated r a) = inl (r, a, refl)
Alloc-cases (Alloc.refused e a) = inr (e, a, refl)

module _ {A T E F : Type 0} (f : A → Alloc A E) (s : SkipMap A T) where
  allocate-allocated :
      {r : Region} {a : A}
      → f s.arena ≡ Alloc.allocated r a
      → allocate {F = F} f s ≡ ok r (record s { arena = a })
  unfolding allocate
  allocate-allocated e = ground (arith, e)

  allocate-refused :
      {e : E} {a : A}
      → f s.arena ≡ Alloc.refused e a
      → allocate {F = F} f s ≡ err (right (arena e)) (record s { arena = a })
  unfolding allocate
  allocate-refused h = ground (arith, h)

module _ {A T E F : Type 0} ⦃t : Trailer T⦄ (ar : Arena A E) (s : SkipMap A T) (h : ℕ) (trailer : T)
    (key value : Bytes) (f : VacantBuffer → Filled F) (fills : Fills f value) where
  -- a node that lacks only its bytes
  abbrev pub with_header : A → (node value_at key_at : ℕ) → SkipMap A T
  with_header a node value_at key_at =
      set_node node (header value_at (length value) key_at (length key) h)
        (set_trailer value_at trailer (record s { arena = a }))

  module _ (kf : VacantBuffer → Filled F) (key_fills : Fills kf key) where
    abbrev pub entry_node : Run (SkipMap A T) F E Allocated
    entry_node = allocate_entry_node ar h trailer (length key) kf (length value) f s

    pub entry_node_too_large :
        {e : Failure F E}
        → check_node_size h (length key) (length value) s ≡ err e s
        → entry_node ≡ err e s
    unfolding allocate_entry_node
    entry_node_too_large c = ground arith

    module _
        (checked : check_node_size {E = E} {F = F} h (length key) (length value) s ≡ ok tt s) where
      pub entry_node_without_node :
          {e : E} {a : A}
          → ar.alloc_aligned_bytes node_size node_align (h * link_size % 2 ^ 32) s.arena
            ≡ Alloc.refused e a
          → entry_node ≡ err (right (arena e)) (record s { arena = a })
      unfolding allocate_entry_node allocate
      entry_node_without_node n = ground arith

      module _ {node : Region} {a₁ : A}
          (n : ar.alloc_aligned_bytes node_size node_align (h * link_size % 2 ^ 32) s.arena
            ≡ Alloc.allocated node a₁) where
        pub entry_node_without_key :
            {e : E} {a : A}
            → ar.alloc_bytes (length key) a₁ ≡ Alloc.refused e a
            → entry_node ≡ err (right (arena e)) (record s { arena = ar.release node a })
        unfolding allocate_entry_node release
        entry_node_without_key k =
            let given =
              allocate-allocated {F = F}
                (ar.alloc_aligned_bytes node_size node_align (h * link_size % 2 ^ 32)) s n in
            let not_given =
              allocate-refused {F = F} (ar.alloc_bytes (length key)) (record s { arena = a₁ }) k in
            rw (checked, given, and_then, on_err, ◌>>=◌, not_given) refl

        module _ {key_ref : Region} {a₂ : A}
            (k : ar.alloc_bytes (length key) a₁ ≡ Alloc.allocated key_ref a₂) where
          pub entry_node_without_value :
              {e : E} {a : A}
              → ar.alloc_aligned_bytes t.size_of t.align_of (length value) a₂ ≡ Alloc.refused e a
              → entry_node
                ≡ err
                    (right (arena e))
                    (record s { arena = ar.release node (ar.release key_ref a) })
          unfolding allocate_entry_node allocate release
          entry_node_without_value v = ground arith

          pub entry_node_stored :
              {r : Region} {a₃ : A}
              → key_ref.capacity ≡ length key
              → ar.alloc_aligned_bytes t.size_of t.align_of (length value) a₂ ≡ Alloc.allocated r a₃
              → (d : Deallocator) × (entry_node
                  ≡ ok
                      (node.offset, d)
                      (set_bytes (r.offset + t.size_of) value (
                        set_bytes key_ref.offset key
                          (with_header a₃ node.offset r.offset key_ref.offset))))
          unfolding allocate_entry_node allocate fill_vacant_key fill_vacant_value
          entry_node_stored {r} {a₃} c v = (
            deallocator node (some (pointer key_ref.offset (length key)))
                (pointer r.offset r.capacity),
            ground (
              arith,
              fill_vacant-full ar kf key key_fills (pointer key_ref.offset (length key))
                  key_ref.offset (with_header a₃ node.offset r.offset key_ref.offset),
              fill_vacant-full ar f value fills (pointer r.offset r.capacity) (r.offset + t.size_of)
                  (set_bytes key_ref.offset key
                    (with_header a₃ node.offset r.offset key_ref.offset)),
            ),
          )

  module _ (key_at : ℕ) where
    abbrev pub value_node : Run (SkipMap A T) F E Allocated
    value_node = allocate_value_node ar h trailer (length key) key_at (length value) f s

    pub value_node_too_large :
        {e : Failure F E}
        → check_node_size h (length key) (length value) s ≡ err e s
        → value_node ≡ err e s
    unfolding allocate_value_node
    value_node_too_large c = ground arith

    module _
        (checked : check_node_size {E = E} {F = F} h (length key) (length value) s ≡ ok tt s) where
      pub value_node_without_node :
          {e : E} {a : A}
          → ar.alloc_aligned_bytes node_size node_align (h * link_size % 2 ^ 32) s.arena
            ≡ Alloc.refused e a
          → value_node ≡ err (right (arena e)) (record s { arena = a })
      unfolding allocate_value_node allocate
      value_node_without_node n = ground arith

      module _ {node : Region} {a₁ : A}
          (n : ar.alloc_aligned_bytes node_size node_align (h * link_size % 2 ^ 32) s.arena
            ≡ Alloc.allocated node a₁) where
        pub value_node_without_value :
            {e : E} {a : A}
            → ar.alloc_aligned_bytes t.size_of t.align_of (length value) a₁ ≡ Alloc.refused e a
            → value_node ≡ err (right (arena e)) (record s { arena = ar.release node a })
        unfolding allocate_value_node release
        value_node_without_value v =
            let given =
              allocate-allocated {F = F}
                (ar.alloc_aligned_bytes node_size node_align (h * link_size % 2 ^ 32)) s n in
            let not_given =
              allocate-refused {F = F} (ar.alloc_aligned_bytes t.size_of t.align_of (length value))
                (record s { arena = a₁ }) v in
            rw (checked, given, and_then, on_err, ◌>>=◌, not_given) refl

        pub value_node_stored :
            {r : Region} {a₂ : A}
            → ar.alloc_aligned_bytes t.size_of t.align_of (length value) a₁ ≡ Alloc.allocated r a₂
            → (d : Deallocator) × (value_node
                ≡ ok
                    (node.offset, d)
                    (set_bytes
                      (r.offset + t.size_of)
                      value
                      (with_header a₂ node.offset r.offset key_at)))
        unfolding allocate_value_node allocate fill_vacant_value
        value_node_stored {r} {a₂} v = (
          deallocator node none (pointer r.offset r.capacity),
          ground (
            arith,
            fill_vacant-full ar f value fills (pointer r.offset r.capacity) (r.offset + t.size_of)
                (with_header a₂ node.offset r.offset key_at),
          ),
        )
