-- ===== src/Alloc/Stored.antt =====
-- What is read of a new node, once its header, its trailer and the bytes of its key and its value
-- have been written.
use skl.Prelude.{
  ℕ, ◌+◌, ◌*◌, ◌≤◌, ◌<◌, ◌^◌, ◌≡◌, ◌⊎◌, inl, inr, ap, ◌∙◌, Bool, true, false, some, arith, length,
}
use skl.Encoding.{decode_value_pointer, decode_key_size_and_height}
use skl.Encoding.RoundTrip.{decode-encode_value_pointer, decode-encode_key_size_and_height}
use skl.Compare.{Bytes, Trailer}
use skl.Node.{
  align_up, remove, read, get_key, key_size, get_bytes, version, get_trailer, get_trailer_by_offset,
  node_size, link_size,
}
use skl.Node.Reads.{value_behind, read_value}
use skl.Spec.{Item}
use skl.SkipMap.{SkipMap}
use skl.SkipMap.Contents.{item}
use skl.Store.{set_bytes}
use skl.Store.Reads.{read-same, write_bytes-outside, read-write_bytes}
use skl.Alloc.{header}
use skl.Alloc.Kept.{IsKept, IsUsed, Occupied}

-- where the memory of a node of that height ends
abbrev pub node_end : (nd h : ℕ) → ℕ
node_end nd h = nd + (node_size + h * link_size)

module _ {A T : Type 0} ⦃t : Trailer T⦄ where
  -- A node has been stored in memory that was free, and is read as the entry; what was in use stays.
  pub record IsStored (free free' : ℕ → Bool) (s s' : SkipMap A T) (nd h : ℕ) (e : Item)
      : Type 0 where
    pub kept : IsKept free s s'
    pub was_free : (x : ℕ) → nd ≤ x → x < node_end nd h → free x ≡ true
    pub still_free : (x : ℕ) → free' x ≡ true → free x ≡ true
    pub outside : (x : ℕ) → free' x ≡ true → (x < nd) ⊎ (node_end nd h ≤ x)
    pub is_item : item s' nd ≡ e
    pub used : IsUsed free' s'.mem nd

  module _ (s : SkipMap A T) (nd value_at key_at h : ℕ) (trailer : T) (key value : Bytes)
      (is_node : s.mem.node nd ≡ header value_at (length value) key_at (length key) h)
      (is_trailer : s.mem.trailer value_at ≡ trailer)
      (is_key : read s.mem.byte key_at (length key) ≡ key)
      (aligned : align_up t.align_of value_at ≡ value_at) (value_at_lt : value_at < 2 ^ 32)
      (key_lt : length key < 2 ^ 27) (value_lt : length value < remove) (h_lt : h < 32)
      (apart : (x : ℕ)
        → key_at ≤ x
        → x < key_at + length key
        → (x < value_at + t.size_of) ⊎ (value_at + t.size_of + length value ≤ x)) where
    word : decode_value_pointer (s.mem.node nd).value ≡ (value_at, length value)
    word =
        ap (λ n. decode_value_pointer n.value) is_node
        ∙ decode-encode_value_pointer value_at (length value) value_at_lt (omega arith)

    size : decode_key_size_and_height (s.mem.node nd).key_size_and_height ≡ (length key, h)
    size =
        ap (λ n. decode_key_size_and_height n.key_size_and_height) is_node
        ∙ decode-encode_key_size_and_height (length key) h key_lt (omega arith)

    abbrev stored : SkipMap A T
    stored = set_bytes (value_at + t.size_of) value s

    get_key-stored : get_key stored.mem nd ≡ key
    unfolding get_key key_size get_bytes set_bytes
    get_key-stored =
        ap (λ (z : ℕ × ℕ). read stored.mem.byte (s.mem.node nd).key_offset z.0) size
        ∙ ap (λ n. read stored.mem.byte n.key_offset (length key)) is_node
        ∙ read-same s.mem.byte stored.mem.byte key_at (length key) (λ x lo hi.
          write_bytes-outside s.mem.byte (value_at + t.size_of) value x (apart x lo hi))
        ∙ is_key

    version-stored : version stored.mem nd ≡ t.version trailer
    unfolding version get_trailer get_trailer_by_offset set_bytes
    version-stored =
        ap (λ (w : ℕ × ℕ). t.version (s.mem.trailer (align_up t.align_of w.0))) word
        ∙ ap (λ x. t.version (s.mem.trailer x)) aligned
        ∙ ap t.version is_trailer

    read_value-stored : read_value stored.mem nd ≡ some value
    unfolding read_value value_behind get_bytes set_bytes
    read_value-stored =
        let here = read-write_bytes s.mem.byte (value_at + t.size_of) value in
        ap (λ (w : ℕ × ℕ). value_behind stored.mem w.0 w.1) word
        ∙ ap (λ x. value_behind stored.mem value_at (length value)) aligned
        ∙ ground (arith, here, aligned, value_lt)

    pub item-stored :
        item stored nd ≡ record { key = key; version = t.version trailer; value = some value }
    item-stored = ground (arith, get_key-stored, version-stored, read_value-stored)

    pub stored-IsUsed :
        (free : ℕ → Bool)
        → free nd ≡ false
        → ((t.size_of ≡ 0) ⊎ (free value_at ≡ false))
        → Occupied free key_at (length key)
        → Occupied free (value_at + t.size_of) (length value)
        → IsUsed free stored.mem nd
    unfolding set_bytes key_size
    stored-IsUsed free n tr k v = record {
      node_used = n;
      trailer_used = elim tr [ inl z ↦ inl z | inr f ↦ inr (ap free at ∙ f) ];
      key_used =
          λ x lo hi. k x (omega (arith, lo, key_here)) (omega (arith, hi, key_here, length_here));
      value_used = λ ne x lo hi. v x (omega (arith, at, lo)) (omega (arith, at, len_here, hi));
    }
      where
        at : align_up t.align_of (decode_value_pointer (s.mem.node nd).value).0 ≡ value_at
        at = ap (λ (w : ℕ × ℕ). align_up t.align_of w.0) word ∙ aligned

        len_here : (decode_value_pointer (s.mem.node nd).value).1 ≡ length value
        len_here = ap (λ (w : ℕ × ℕ). w.1) word

        key_here : (s.mem.node nd).key_offset ≡ key_at
        key_here = ap (λ n. n.key_offset) is_node

        length_here :
            (decode_key_size_and_height (s.mem.node nd).key_size_and_height).0 ≡ length key
        length_here = ap (λ (w : ℕ × ℕ). w.0) size
