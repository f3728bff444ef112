-- ===== src/Alloc/Kept.antt =====
-- What an allocation leaves alone: it writes only to addresses that were free, so that the entries
-- of the nodes in use stay.
use skl.Prelude.{
  ℕ, ◌+◌, ◌≤◌, ◌<◌, ◌≡◌, ◌≢◌, ◌⊎◌, inl, inr, refl, ap, ◌∙◌, Bool, true, false, arith, length,
  Bool-cases,
}
use native.Mathlib.Decide.{ℕ_discrete}
use skl.Encoding.{decode_value_pointer}
use skl.Compare.{Bytes, Trailer}
use skl.Node.{
  Node, Memory, align_up, update, remove, get_key, key_size, get_bytes, version, get_trailer,
  get_trailer_by_offset,
}
use skl.Node.Reads.{value_behind, read_value}
use skl.SkipMap.{SkipMap}
use skl.SkipMap.Contents.{item}
use skl.Store.{set_node, set_trailer, set_bytes}
use skl.Store.Reads.{read-same, write_bytes-outside}

-- No address of the segment is free.
abbrev pub Occupied : (free : ℕ → Bool) (offset len : ℕ) → Type 0
Occupied free offset len = (x : ℕ) → offset ≤ x → x < offset + len → free x ≡ false

module _ {T : Type 0} ⦃t : Trailer T⦄ where
  -- what a node's word says of its value and its trailer
  abbrev pub value_offset : Memory T → ℕ → ℕ
  value_offset m p = align_up t.align_of (decode_value_pointer (m.node p).value).0

  abbrev pub value_len : Memory T → ℕ → ℕ
  value_len m p = (decode_value_pointer (m.node p).value).1

  -- All that an entry is read from lies in memory that is in use; a trailer may take up no memory.
  pub record IsUsed (free : ℕ → Bool) (m : Memory T) (p : ℕ) : Type 0 where
    pub node_used : free p ≡ false
    pub trailer_used : (t.size_of ≡ 0) ⊎ (free (value_offset m p) ≡ false)
    pub key_used : Occupied free (m.node p).key_offset (key_size m p)
    pub value_used :
        value_len m p ≢ remove → Occupied free (value_offset m p + t.size_of) (value_len m p)

module _ {A T : Type 0} ⦃t : Trailer T⦄ (free : ℕ → Bool) where
  -- Only the arena's state and cells at free addresses have changed.
  pub record IsKept (s s' : SkipMap A T) : Type 0 where
    pub rest : s' ≡ record s { arena = s'.arena; mem = record (s'.mem) { link = s.mem.link } }
    pub node_kept : (x : ℕ) → free x ≡ false → s'.mem.node x ≡ s.mem.node x
    pub byte_kept : (x : ℕ) → free x ≡ false → s'.mem.byte x ≡ s.mem.byte x
    pub trailer_kept :
        (x : ℕ) → (t.size_of ≡ 0) ⊎ (free x ≡ false) → s'.mem.trailer x ≡ s.mem.trailer x

  pub IsKept-arena : (s : SkipMap A T) (a : A) → IsKept s (record s { arena = a })
  IsKept-arena s a = record {
    rest = refl;
    node_kept = λ x h. refl;
    byte_kept = λ x h. refl;
    trailer_kept = λ x h. refl;
  }

  module _ {s s' : SkipMap A T} (k : IsKept s s') where
    pub IsKept-with_arena : (a : A) → IsKept s (record s' { arena = a })
    IsKept-with_arena a = record {
      rest = ap (λ (x : SkipMap A T). record x { arena = a }) k.rest;
      node_kept = k.node_kept;
      byte_kept = k.byte_kept;
      trailer_kept = k.trailer_kept;
    }

    pub IsKept-set_node : (nd : ℕ) (n : Node) → free nd ≡ true → IsKept s (set_node nd n s')
    unfolding set_node update
    IsKept-set_node nd n f = record {
      rest =
          ap
            (λ (x : SkipMap A T). record x {
              mem = record (x.mem) { node = update s'.mem.node nd n };
            })
            k.rest;
      node_kept = λ x h. ground (arith, k.node_kept x h);
      byte_kept = k.byte_kept;
      trailer_kept = k.trailer_kept;
    }

    pub IsKept-set_bytes :
        (offset : ℕ) (bs : Bytes)
        → ((x : ℕ) → offset ≤ x → x < offset + length bs → free x ≡ true)
        → IsKept s (set_bytes offset bs s')
    unfolding set_bytes
    IsKept-set_bytes offset bs f = record {
      rest =
          ap
            (λ (x : SkipMap A T). record x {
              mem = record (x.mem) { byte = (set_bytes offset bs s').mem.byte };
            })
            k.rest;
      node_kept = k.node_kept;
      byte_kept =
          λ x h. write_bytes-outside s'.mem.byte offset bs x (outside x h) ∙ k.byte_kept x h;
      trailer_kept = k.trailer_kept;
    }
      where
        outside : (x : ℕ) → free x ≡ false → (x < offset) ⊎ (offset + length bs ≤ x)
        outside x h = grind (arith, f x, h)

    -- A type without a size has one value.
    pub IsKept-set_trailer :
        (offset : ℕ) (trailer : T)
        → (t.size_of ≡ 0 → (a b : T) → a ≡ b)
        → ((t.size_of ≡ 0) ⊎ (free offset ≡ true))
        → IsKept s (set_trailer offset trailer s')
    unfolding set_trailer update
    IsKept-set_trailer offset trailer single f = record {
      rest =
          ap
            (λ (x : SkipMap A T). record x {
              mem = record (x.mem) { trailer = update s'.mem.trailer offset trailer };
            })
            k.rest;
      node_kept = k.node_kept;
      byte_kept = k.byte_kept;
      trailer_kept = λ x h. written x h f;
    }
      where
        written :
            (x : ℕ)
            → (t.size_of ≡ 0) ⊎ (free x ≡ false)
            → (t.size_of ≡ 0) ⊎ (free offset ≡ true)
            → update s'.mem.trailer offset trailer x ≡ s.mem.trailer x
        written x (inl z) g = single z (update s'.mem.trailer offset trailer x) (s.mem.trailer x)
        written x (inr h) (inl z) =
            single z (update s'.mem.trailer offset trailer x) (s.mem.trailer x)
        written x (inr h) (inr g) = ground (arith, k.trailer_kept x (inr h), h, g)

  module _ {s s' : SkipMap A T} (k : IsKept s s') (p : ℕ) (u : IsUsed free s.mem p) where
    get_key-kept : get_key s'.mem p ≡ get_key s.mem p
    unfolding get_key key_size get_bytes
    get_key-kept = rw (k.node_kept p u.node_used) (
        read-same s.mem.byte s'.mem.byte (s.mem.node p).key_offset (key_size s.mem p)
          (λ x lo hi. k.byte_kept x (u.key_used x lo hi)))

    trailer_kept : get_trailer s'.mem p ≡ get_trailer s.mem p
    unfolding get_trailer get_trailer_by_offset
    trailer_kept =
        rw (k.node_kept p u.node_used) (k.trailer_kept (value_offset s.mem p) u.trailer_used)

    read_value-kept : read_value s'.mem p ≡ read_value s.mem p
    unfolding read_value value_behind get_bytes
    read_value-kept = rw (k.node_kept p u.node_used) (elim (ℕ_discrete (value_len s.mem p) remove) [
      | yes e ↦ ground (arith, e)
      | no ne ↦
          let same =
            read-same s.mem.byte s'.mem.byte (value_offset s.mem p + t.size_of) (value_len s.mem p)
              (λ x lo hi. k.byte_kept x (u.value_used ne x lo hi)) in
          ground (arith, same)
    ])

    pub item-kept : item s' p ≡ item s p
    unfolding version
    item-kept = ground (arith, get_key-kept, trailer_kept, read_value-kept)

    -- What has not become free stays in use.
    pub IsUsed-kept :
        (free' : ℕ → Bool) → ((x : ℕ) → free' x ≡ true → free x ≡ true) → IsUsed free' s'.mem p
    unfolding key_size decode_value_pointer
    IsUsed-kept free' still =
        let same = k.node_kept p u.node_used in
        record {
          node_used = not_free p u.node_used;
          trailer_used = rw same (elim u.trailer_used [
            | inl z ↦ inl z
            | inr f ↦ inr (not_free (value_offset s.mem p) f)
          ]);
          key_used = rw same (λ x lo hi. not_free x (u.key_used x lo hi));
          value_used = rw same (λ ne x lo hi. not_free x (u.value_used ne x lo hi));
        }
      where
        not_free : (x : ℕ) → free x ≡ false → free' x ≡ false
        not_free x h = elim (Bool-cases (free' x)) [ inl f ↦ cc (still x f) | inr n ↦ n ]
