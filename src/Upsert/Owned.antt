-- ===== src/Upsert/Owned.antt =====
-- An owned entry (src/map/entry.rs) over `set_value` on its node: it keeps the trailer that it was
-- made with, and reads key and value anew.
use skl.Prelude.{
  ℕ, ◌+◌, ◌^◌, ◌≤◌, ◌<◌, ◌≡◌, ◌⊎◌, inl, inr, refl, sym, ap, ◌∙◌, subst, Bool, some, arith, length,
}
use skl.Encoding.{encode_value_pointer, decode_value_pointer, decode_key_size_and_height}
use skl.Encoding.RoundTrip.{decode-encode_value_pointer}
use skl.Compare.{Bytes, Trailer}
use skl.Node.{
  Memory, remove, update, align_up, read, get_key, key_size, get_bytes, get_trailer,
  get_trailer_by_offset, get_value, get_value_by_offset,
}
use skl.Node.Align.{aligned_room}
use skl.Node.Reads.{value_behind, get_value_by_offset_lem}
use skl.Types.{VacantBuffer, remaining}
use skl.Entry.{to_owned, from_node, borrow}
use skl.Run.{Run, right, arena, ok, err}
use skl.Run.Ends.{Ends}
use skl.Arena.{Region, Alloc, Arena}
use skl.Arena.Laws.{IsArena}
use skl.SkipMap.{SkipMap}
use skl.Store.{set_bytes, set_node, set_trailer, swap_value}
use skl.Store.Reads.{length-read, read-same, write_bytes-outside, read-write_bytes}
use skl.Alloc.{Filled, allocate}
use skl.Alloc.Kept.{Occupied}
use skl.Alloc.Outcomes.{Alloc-cases}
use skl.Alloc.Filling.{Fills}
use skl.Upsert.{set_value}

module _ {A T : Type 0} ⦃t : Trailer T⦄ (k d : ℕ) (power : t.align_of ≡ 2 ^ k) (within : k + d ≡ 32)
    (nd offset : ℕ) (value : Bytes) (trailer : T) (s : SkipMap A T)
    (aligned : align_up t.align_of offset ≡ offset) (offset_lt : offset < 2 ^ 32)
    (value_lt : length value < remove) where
  -- what `set_value` leaves when the closure has filled the buffer
  abbrev replaced : SkipMap A T
  replaced =
      swap_value nd offset (length value)
        (set_trailer offset trailer (set_bytes (offset + t.size_of) value s))

  word : decode_value_pointer (replaced.mem.node nd).value ≡ (offset, length value)
  unfolding swap_value set_node set_trailer set_bytes update
  word =
      let here : (replaced.mem.node nd).value ≡ encode_value_pointer offset (length value) =
        ground arith in
      ap decode_value_pointer here
      ∙ decode-encode_value_pointer offset (length value) offset_lt (omega (arith, value_lt))

  new_trailer : get_trailer replaced.mem nd ≡ trailer
  unfolding get_trailer get_trailer_by_offset swap_value set_node set_trailer update
  new_trailer =
      ap (λ (w : ℕ × ℕ). replaced.mem.trailer (align_up t.align_of w.0)) word
      ∙ ap (λ x. replaced.mem.trailer x) aligned
      ∙ ground arith

  new_value : get_value replaced.mem nd ≡ some value
  unfolding get_value value_behind get_bytes swap_value set_node set_trailer set_bytes
  new_value =
      let room : offset + t.align_of ≤ 2 ^ 32 = omega (
        arith,
        power,
        aligned_room k d offset within (subst (λ a. align_up a offset ≡ offset) power aligned)
            offset_lt,
      ) in
      let written = read-write_bytes s.mem.byte (offset + t.size_of) value in
      ap (λ (w : ℕ × ℕ). get_value_by_offset replaced.mem w.0 w.1) word
      ∙ get_value_by_offset_lem replaced.mem k d power within offset (length value) room
      ∙ ground (arith, written, aligned, value_lt)

  same_key :
      ((x : ℕ)
        → (s.mem.node nd).key_offset ≤ x
        → x < (s.mem.node nd).key_offset + key_size s.mem nd
        → (x < offset + t.size_of) ⊎ (offset + t.size_of + length value ≤ x))
      → get_key replaced.mem nd ≡ get_key s.mem nd
  unfolding get_key key_size get_bytes swap_value set_node set_trailer set_bytes update
  same_key apart =
      let here : replaced.mem.node nd
          ≡ record (s.mem.node nd) { value = encode_value_pointer offset (length value) } =
        ground arith in
      ap (λ n. get_bytes replaced.mem n.key_offset (key_of n.key_size_and_height)) here
      ∙ read-same s.mem.byte replaced.mem.byte (s.mem.node nd).key_offset (key_size s.mem nd)
          (λ x lo hi. write_bytes-outside s.mem.byte (offset + t.size_of) value x (apart x lo hi))
    where
      key_of : ℕ → ℕ
      key_of w = (decode_key_size_and_height w).0

  -- The node has the new trailer; the entry keeps its own.
  pub replaced-entry :
      ((x : ℕ)
        → (s.mem.node nd).key_offset ≤ x
        → x < (s.mem.node nd).key_offset + key_size s.mem nd
        → (x < offset + t.size_of) ⊎ (offset + t.size_of + length value ≤ x))
      → (m : Memory T) → get_key s.mem nd ≡ get_key m nd
      → (get_trailer replaced.mem nd ≡ trailer)
        × (borrow replaced.mem (to_owned (from_node m nd))
            ≡ record (from_node m nd) { value = some value })
  unfolding borrow to_owned from_node
  replaced-entry apart m key_kept =
      (new_trailer, ground (arith, new_value, same_key apart, key_kept))

module _ {A T E F : Type 0} ⦃t : Trailer T⦄ (ar : Arena A E) (nd : ℕ) (trailer : T) (value : Bytes)
    (f : VacantBuffer → Filled F) (s : SkipMap A T) where
  set_value_refused :
      {e : E} {a : A}
      → ar.alloc_aligned_bytes t.size_of t.align_of (length value) s.arena ≡ Alloc.refused e a
      → set_value ar nd trailer (length value) f s ≡ err (right (arena e)) (record s { arena = a })
  unfolding set_value allocate
  set_value_refused h = ground arith

  set_value_replaced :
      {r : Region} {a : A}
      → Fills f value
      → ar.alloc_aligned_bytes t.size_of t.align_of (length value) s.arena ≡ Alloc.allocated r a
      → set_value ar nd trailer (length value) f s
        ≡ ok tt (
            swap_value nd r.offset (length value) (
              set_trailer r.offset trailer
                (set_bytes (r.offset + t.size_of) value (record s { arena = a }))))
  unfolding set_value allocate remaining get_bytes
  set_value_replaced {r} {a} fills h =
      let full =
        fills (r.offset + t.size_of) (read s.mem.byte (r.offset + t.size_of) (length value))
          (length-read s.mem.byte (r.offset + t.size_of) (length value)) in
      ground (arith, full)

module _ {A T E : Type 0} (F : Type 0) ⦃t : Trailer T⦄ (free : A → ℕ → Bool) (ar : Arena A E)
    (laws : IsArena free ar) (k d : ℕ) (power : t.align_of ≡ 2 ^ k) (within : k + d ≡ 32) where
  -- Let the arena hand out only free memory, the trailer's alignment be a power of two of at most 32
  -- bits, the value be shorter than 2^32 - 1, the closure fill the whole buffer with it, and the key of a
  -- node lie in memory that is not free. Then `set_value` on the node ends. When it succeeds, the node
  -- has the new trailer, but an owned entry that was made of the node before has, borrowed afterwards,
  -- the old trailer and the key beside the new value. When it fails, no memory is changed.
  pub set_value-borrow :
      (nd : ℕ) (trailer : T) (value : Bytes) (f : VacantBuffer → Filled F) (s : SkipMap A T)
      → length value < remove
      → Fills f value
      → Occupied (free s.arena) (s.mem.node nd).key_offset (key_size s.mem nd)
      → Ends
          (λ _ s'.
            (get_trailer s'.mem nd ≡ trailer)
            × (borrow s'.mem (to_owned (from_node s.mem nd))
                ≡ record (from_node s.mem nd) { value = some value }))
          (λ e s'. s'.mem ≡ s.mem)
          (set_value {F = F} ar nd trailer (length value) f s)
  set_value-borrow nd trailer value f s value_lt fills used =
      elim (Alloc-cases (ar.alloc_aligned_bytes t.size_of t.align_of (length value) s.arena)) [
        | inr (e, a, h) ↦ subst Done (sym (set_value_refused ar nd trailer value f s h)) refl
        | inl (r, a, h) ↦
            let given = laws.aligned _ _ _ _ _ _ h in
            subst Done (sym (set_value_replaced ar nd trailer value f s fills h)) (
              replaced-entry k d power within nd r.offset value trailer (record s { arena = a })
                given.1 given.0.offset_lt value_lt
                (λ x lo hi. grind (arith, used x lo hi, given.0.was_free x)) s.mem refl)
      ]
    where
      Done : Run (SkipMap A T) F E (Unit {0}) → Type 0
      Done r =
          Ends
            (λ _ s'.
              (get_trailer s'.mem nd ≡ trailer)
              × (borrow s'.mem (to_owned (from_node s.mem nd))
                  ≡ record (from_node s.mem nd) { value = some value }))
            (λ e s'. s'.mem ≡ s.mem) r
