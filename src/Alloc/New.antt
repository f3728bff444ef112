-- ===== src/Alloc/New.antt =====
-- What the allocations of a node leave, whatever the arena answers: the node with its entry, or an
-- error, and in both cases the entries in use as they were.
use skl.Prelude.{
  ℕ, ◌+◌, ◌*◌, ◌%◌, ◌≤◌, ◌<◌, ◌^◌, ◌≡◌, ◌⊎◌, inl, inr, sym, subst, Bool, true, false, some, length,
  arith, Bool-cases,
}
use native.Mathlib.Decide.{ℕ_discrete}
use skl.Node.{align_up, node_size, link_size, remove, read, get_bytes, update}
use skl.Compare.{Bytes, Trailer}
use skl.Types.{VacantBuffer}
use skl.Run.{Run, Failure, ok, err}
use skl.Run.Ends.{Ends}
use skl.Arena.{Region, Alloc, Arena}
use skl.Arena.Laws.{IsTaken, NoneFreed, IsArena}
use skl.SkipMap.{SkipMap}
use skl.Store.{set_bytes, set_node, set_trailer}
use skl.Store.Reads.{read-write_bytes}
use skl.Alloc.{
  Filled, Allocated, Deallocator, header, node_align, check_node_size, allocate_entry_node,
  allocate_value_node,
}
use skl.Alloc.Sizes.{check_node_size_lem}
use skl.Alloc.Outcomes.{
  Alloc-cases, with_header, entry_node_too_large, entry_node_without_node, entry_node_without_key,
  entry_node_without_value, entry_node_stored, value_node_too_large, value_node_without_node,
  value_node_without_value, value_node_stored,
}
use skl.Alloc.Kept.{
  IsKept, IsKept-arena, IsKept-set_node, IsKept-set_bytes, IsKept-set_trailer, Occupied,
}
use skl.Alloc.Filling.{Fills}
use skl.Alloc.Stored.{IsStored, node_end, item-stored, stored-IsUsed}

-- A region that has been handed out is not free.
Occupied-taken :
    {A : Type 0} (free : A → ℕ → Bool) {a a' : A} {offset size : ℕ}
    → IsTaken free a a' offset size
    → (x : ℕ) → offset ≤ x
    → x < offset + size
    → free a' x ≡ false
Occupied-taken free {a} {a'} {offset} {size} taken x lo hi = elim (Bool-cases (free a' x)) [
  | inl f ↦ absurd (omega (arith, taken.not_twice x f))
  | inr n ↦ n
]

-- What is not free stays so.
not_free :
    {A : Type 0} (free : A → ℕ → Bool) {a a' : A} {offset size : ℕ}
    → IsTaken free a a' offset size
    → (x : ℕ) → free a x ≡ false
    → free a' x ≡ false
not_free free {a} {a'} taken x h = elim (Bool-cases (free a' x)) [
  | inl f ↦ cc (taken.still_free x f)
  | inr n ↦ n
]

module _ {A T E F : Type 0} ⦃t : Trailer T⦄ (free : A → ℕ → Bool) (ar : Arena A E)
    (laws : IsArena free ar) (single : t.size_of ≡ 0 → (a b : T) → a ≡ b) (s : SkipMap A T) (h : ℕ)
    (h_pos : 1 ≤ h) (h_le : h ≤ s.opts.max_height) (h_lt : h < 32) (trailer : T) (key value : Bytes)
    (key_lt : length key < 2 ^ 27) (value_lt : length value < remove) (f : VacantBuffer → Filled F)
    (fills : Fills f value) where
  abbrev Stored : Allocated → SkipMap A T → Type 0
  Stored n s' =
      IsStored (free s.arena) (free s'.arena) s s' n.0 h
        (record { key = key; version = t.version trailer; value = some value })

  abbrev Untouched : Failure F E → SkipMap A T → Type 0
  Untouched e s' = IsKept (free s.arena) s s' × NoneFreed free s.arena s'.arena

  -- From the state in which only the value is missing: the node's memory was taken first, the value's
  -- last, and the key's bytes were not free then.
  module _ (s' : SkipMap A T) (nd value_at key_at : ℕ) {a₁ a₂ : A} (k : IsKept (free s.arena) s s')
      (node_taken : IsTaken free s.arena a₁ nd (node_size + h * link_size % 2 ^ 32))
      (between : (x : ℕ) → free a₂ x ≡ true → free a₁ x ≡ true)
      (value_taken : IsTaken free a₂ s'.arena value_at (t.size_of + length value))
      (aligned : align_up t.align_of value_at ≡ value_at)
      (key_used : Occupied (free a₂) key_at (length key))
      (is_node : s'.mem.node nd ≡ header value_at (length value) key_at (length key) h)
      (is_trailer : s'.mem.trailer value_at ≡ trailer)
      (is_key : read s'.mem.byte key_at (length key) ≡ key) where
    was_free : (x : ℕ) → free s'.arena x ≡ true → free s.arena x ≡ true
    was_free x f = node_taken.still_free x (between x (value_taken.still_free x f))

    room : (x : ℕ) → nd ≤ x → x < node_end nd h → free s.arena x ≡ true
    room x lo hi = node_taken.was_free x lo (omega (arith, hi))

    key_apart :
        (x : ℕ)
        → key_at ≤ x
        → x < key_at + length key
        → (x < value_at + t.size_of) ⊎ (value_at + t.size_of + length value ≤ x)
    key_apart x lo hi = grind (arith, key_used x lo hi, value_taken.was_free x)

    node_apart : (x : ℕ) → free s'.arena x ≡ true → (x < nd) ⊎ (node_end nd h ≤ x)
    node_apart x f = elim (node_taken.not_twice x (between x (value_taken.still_free x f))) [
      | inl a ↦ inl a
      | inr b ↦ inr (omega arith)
    ]

    node_used : free s'.arena nd ≡ false
    node_used = elim (Bool-cases (free s'.arena nd)) [
      | inl f ↦ absurd (elim (node_apart nd f) [ inl a ↦ omega arith | inr b ↦ omega arith ])
      | inr n ↦ n
    ]

    trailer_used : (t.size_of ≡ 0) ⊎ (free s'.arena value_at ≡ false)
    trailer_used = elim (ℕ_discrete t.size_of 0) [
      | yes z ↦ inl z
      | no n ↦ inr (Occupied-taken free value_taken value_at (omega arith) (omega arith))
    ]

    set_bytes-IsStored :
        IsStored
          (free s.arena)
          (free s'.arena)
          s
          (set_bytes (value_at + t.size_of) value s')
          nd
          h
          (record { key = key; version = t.version trailer; value = some value })
    set_bytes-IsStored = record {
      kept = IsKept-set_bytes (free s.arena) k (value_at + t.size_of) value (λ x lo hi.
          node_taken.still_free x (between x (value_taken.was_free x (omega arith) (omega arith))));
      was_free = room;
      still_free = was_free;
      outside = node_apart;
      is_item =
          item-stored s' nd value_at key_at h trailer key value is_node is_trailer is_key aligned
            value_taken.offset_lt key_lt value_lt h_lt key_apart;
      used =
          stored-IsUsed s' nd value_at key_at h trailer key value is_node is_trailer is_key aligned
            value_taken.offset_lt key_lt value_lt h_lt key_apart (free s'.arena) node_used
            trailer_used (λ x lo hi. not_free free value_taken x (key_used x lo hi))
            (λ x lo hi. Occupied-taken free value_taken x (omega arith) (omega arith));
    }

  trailer_free :
      {a a' : A} {offset : ℕ} (n : ℕ)
      → IsTaken free a a' offset (t.size_of + n)
      → ((x : ℕ) → free a x ≡ true → free s.arena x ≡ true)
      → (t.size_of ≡ 0) ⊎ (free s.arena offset ≡ true)
  trailer_free {a} {a'} {offset} n taken back = elim (ℕ_discrete t.size_of 0) [
    | yes z ↦ inl z
    | no n ↦ inr (back offset (taken.was_free offset (omega arith) (omega arith)))
  ]

  checked-cases :
      (check_node_size {E = E} {F = F} h (length key) (length value) s ≡ ok tt s)
      ⊎ ((e : Failure F E) × (check_node_size h (length key) (length value) s ≡ err e s))
  checked-cases =
      elim (check_node_size_lem {F = F} {E = E} h (length key) (length value) s h_pos h_le) [
        | inl a ↦ inl a.0
        | inr (inl b) ↦ inr (_, b.0)
        | inr (inr (inl b)) ↦ inr (_, b.0)
        | inr (inr (inr b)) ↦ inr (_, b.0)
      ]

  abbrev IsDone : Run (SkipMap A T) F E Allocated → Type 0
  IsDone r = Ends Stored Untouched r

  -- An error after which only the arena's state is another.
  failed :
      {r : Run (SkipMap A T) F E Allocated} {e : Failure F E} {a : A}
      → NoneFreed free s.arena a
      → r ≡ err e (record s { arena = a })
      → IsDone r
  failed {r} {e} {a} n h = subst IsDone (sym h) (IsKept-arena (free s.arena) s a, n)

  with_header-IsKept :
      (a : A) (node value_at key_at : ℕ)
      → free s.arena node ≡ true
      → ((t.size_of ≡ 0) ⊎ (free s.arena value_at ≡ true))
      → IsKept
          (free s.arena)
          s
          (with_header ar s h trailer key value f fills a node value_at key_at)
  with_header-IsKept a node value_at key_at n v =
      IsKept-set_node (free s.arena)
        (IsKept-set_trailer (free s.arena) (IsKept-arena (free s.arena) s a) value_at trailer single
          v)
        node (header value_at (length value) key_at (length key) h) n

  module _ (kf : VacantBuffer → Filled F) (key_fills : Fills kf key) where
    entry_node-taken :
        (node key_ref r : Region) {a₁ a₂ a₃ : A} (d : Deallocator)
        → IsTaken free s.arena a₁ node.offset (node_size + h * link_size % 2 ^ 32)
        → IsTaken free a₁ a₂ key_ref.offset (length key)
        → IsTaken free a₂ a₃ r.offset (t.size_of + length value)
        → align_up t.align_of r.offset ≡ r.offset
        → Stored
            (node.offset, d)
            (set_bytes (r.offset + t.size_of) value (
              set_bytes key_ref.offset key (
                with_header ar s h trailer key value f fills a₃ node.offset r.offset
                  key_ref.offset)))
    unfolding set_bytes set_node set_trailer update
    entry_node-taken node key_ref r {a₁} {a₂} {a₃} d tn tk tv al =
        let s₁ =
          with_header ar s h trailer key value f fills a₃ node.offset r.offset key_ref.offset in
        let k =
          with_header-IsKept a₃ node.offset r.offset key_ref.offset
            (tn.was_free node.offset (omega arith) (omega arith))
            (trailer_free (length value) tv (λ x f. tn.still_free x (tk.still_free x f))) in
        set_bytes-IsStored (set_bytes key_ref.offset key s₁) node.offset r.offset key_ref.offset
          (IsKept-set_bytes (free s.arena) k key_ref.offset key
            (λ x lo hi. tn.still_free x (tk.was_free x lo hi)))
          tn tk.still_free tv al (λ x lo hi. Occupied-taken free tk x lo hi) (ground arith)
          (ground arith) (read-write_bytes s₁.mem.byte key_ref.offset key)

    -- With memory for all of it the node holds the entry; where the arena refuses or the entry is too
    -- large there is an error. What was in use before is as it was.
    pub allocate_entry_node-Ends :
        IsDone (allocate_entry_node ar h trailer (length key) kf (length value) f s)
    allocate_entry_node-Ends = elim checked-cases [
      | inr (e, c) ↦
          failed (λ x h. h) (entry_node_too_large ar s h trailer key value f fills kf key_fills c)
      | inl c ↦
          elim (Alloc-cases
            (ar.alloc_aligned_bytes node_size node_align (h * link_size % 2 ^ 32) s.arena)) [
              | inr (e, a, n) ↦
                  failed (laws.aligned_refused _ _ _ _ _ _ n)
                    (entry_node_without_node ar s h trailer key value f fills kf key_fills c n)
              | inl (node, a₁, n) ↦ with_node c n (laws.aligned _ _ _ _ _ _ n).0
            ]
    ]
      where
        with_key :
            {node key_ref : Region} {a₁ a₂ : A}
            → check_node_size {E = E} {F = F} h (length key) (length value) s ≡ ok tt s
            → ar.alloc_aligned_bytes node_size node_align (h * link_size % 2 ^ 32) s.arena
              ≡ Alloc.allocated node a₁
            → ar.alloc_bytes (length key) a₁ ≡ Alloc.allocated key_ref a₂
            → IsTaken free s.arena a₁ node.offset (node_size + h * link_size % 2 ^ 32)
            → IsDone (allocate_entry_node ar h trailer (length key) kf (length value) f s)
        with_key {node} {key_ref} {a₁} {a₂} c n k tn =
            elim (Alloc-cases (ar.alloc_aligned_bytes t.size_of t.align_of (length value) a₂)) [
              | inr (e, a, v) ↦
                  failed
                    (laws.aligned_released _ _ _ _ _ _ _ n
                      (laws.bytes_released _ _ _ _ _ k (laws.aligned_refused _ _ _ _ _ _ v)))
                    (entry_node_without_value ar s h trailer key value f fills kf key_fills c n k v)
              | inl (r, a₃, v) ↦
                  let given = laws.bytes _ _ _ _ k in
                  let placed = laws.aligned _ _ _ _ _ _ v in
                  let (d, e) =
                    entry_node_stored ar s h trailer key value f fills kf key_fills c n k given.1
                      v in
                  subst IsDone (sym e)
                    (entry_node-taken node key_ref r d tn given.0 placed.0 placed.1)
            ]

        with_node :
            {node : Region} {a₁ : A}
            → check_node_size {E = E} {F = F} h (length key) (length value) s ≡ ok tt s
            → ar.alloc_aligned_bytes node_size node_align (h * link_size % 2 ^ 32) s.arena
              ≡ Alloc.allocated node a₁
            → IsTaken free s.arena a₁ node.offset (node_size + h * link_size % 2 ^ 32)
            → IsDone (allocate_entry_node ar h trailer (length key) kf (length value) f s)
        with_node {node} {a₁} c n tn = elim (Alloc-cases (ar.alloc_bytes (length key) a₁)) [
          | inr (e, a, k) ↦
              failed (laws.aligned_released _ _ _ _ _ _ _ n (laws.bytes_refused _ _ _ _ k))
                (entry_node_without_key ar s h trailer key value f fills kf key_fills c n k)
          | inl (key_ref, a₂, k) ↦ with_key c n k tn
        ]

  module _ (key_at : ℕ) (key_used : Occupied (free s.arena) key_at (length key))
      (is_key : get_bytes s.mem key_at (length key) ≡ key) where
    value_node-taken :
        (node r : Region) {a₁ a₂ : A} (d : Deallocator)
        → IsTaken free s.arena a₁ node.offset (node_size + h * link_size % 2 ^ 32)
        → IsTaken free a₁ a₂ r.offset (t.size_of + length value)
        → align_up t.align_of r.offset ≡ r.offset
        → Stored
            (node.offset, d)
            (set_bytes
              (r.offset + t.size_of)
              value
              (with_header ar s h trailer key value f fills a₂ node.offset r.offset key_at))
    unfolding set_bytes set_node set_trailer update get_bytes
    value_node-taken node r {a₁} {a₂} d tn tv al =
        let s₁ = with_header ar s h trailer key value f fills a₂ node.offset r.offset key_at in
        let k =
          with_header-IsKept a₂ node.offset r.offset key_at
            (tn.was_free node.offset (omega arith) (omega arith))
            (trailer_free (length value) tv tn.still_free) in
        set_bytes-IsStored s₁ node.offset r.offset key_at k tn (λ x f. f) tv al
          (λ x lo hi. not_free free tn x (key_used x lo hi)) (ground arith) (ground arith) is_key

    -- The same for a node that shares the bytes of a key which are in use.
    pub allocate_value_node-Ends :
        IsDone (allocate_value_node ar h trailer (length key) key_at (length value) f s)
    allocate_value_node-Ends = elim checked-cases [
      | inr (e, c) ↦
          failed (λ x h. h) (value_node_too_large ar s h trailer key value f fills key_at c)
      | inl c ↦
          elim (Alloc-cases
            (ar.alloc_aligned_bytes node_size node_align (h * link_size % 2 ^ 32) s.arena)) [
              | inr (e, a, n) ↦
                  failed (laws.aligned_refused _ _ _ _ _ _ n)
                    (value_node_without_node ar s h trailer key value f fills key_at c n)
              | inl (node, a₁, n) ↦ with_node c n (laws.aligned _ _ _ _ _ _ n).0
            ]
    ]
      where
        with_node :
            {node : Region} {a₁ : A}
            → check_node_size {E = E} {F = F} h (length key) (length value) s ≡ ok tt s
            → ar.alloc_aligned_bytes node_size node_align (h * link_size % 2 ^ 32) s.arena
              ≡ Alloc.allocated node a₁
            → IsTaken free s.arena a₁ node.offset (node_size + h * link_size % 2 ^ 32)
            → IsDone (allocate_value_node ar h trailer (length key) key_at (length value) f s)
        with_node {node} {a₁} c n tn =
            elim (Alloc-cases (ar.alloc_aligned_bytes t.size_of t.align_of (length value) a₁)) [
              | inr (e, a, v) ↦
                  failed
                    (laws.aligned_released _ _ _ _ _ _ _ n (laws.aligned_refused _ _ _ _ _ _ v))
                    (value_node_without_value ar s h trailer key value f fills key_at c n v)
              | inl (r, a₂, v) ↦
                  let placed = laws.aligned _ _ _ _ _ _ v in
                  let (d, e) = value_node_stored ar s h trailer key value f fills key_at c n v in
                  subst IsDone (sym e) (value_node-taken node r d tn placed.0 placed.1)
            ]
