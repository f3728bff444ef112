-- ===== src/Upsert/Remove.antt =====
-- The exchange with which an entry is removed.
use skl.Prelude.{ℕ, ◌<◌, ◌^◌, ◌≡◌, ◌≢◌, ◌∙◌, ap, sym, true, none, arith}
use skl.Encoding.{encode_value_pointer, decode_value_pointer}
use skl.Encoding.RoundTrip.{decode-encode_value_pointer}
use skl.Compare.{Trailer}
use skl.Node.{
  Memory, get_trailer_by_offset, remove, update, get_value, get_value_by_offset, get_trailer,
}
use skl.SkipMap.{SkipMap}
use skl.Store.{set_node}
use skl.Upsert.{compare_remove}

module _ {T : Type 0} ⦃t : Trailer T⦄ (m : Memory T) (nd offset len : ℕ)
    (packed : (m.node nd).value ≡ encode_value_pointer offset len) (offset_lt : offset < 2 ^ 32)
    (len_lt : len < 2 ^ 32) where
  -- what a node's word says of its value and its trailer
  decoded : decode_value_pointer (m.node nd).value ≡ (offset, len)
  decoded = ap decode_value_pointer packed ∙ decode-encode_value_pointer offset len offset_lt len_lt

  get_value_by_word : get_value m nd ≡ get_value_by_offset m offset len
  unfolding get_value get_value_by_offset decode_value_pointer
  get_value_by_word = ap (λ (d : ℕ × ℕ). get_value_by_offset m d.0 d.1) decoded

  get_trailer_by_word : get_trailer m nd ≡ get_trailer_by_offset m offset
  unfolding get_trailer get_trailer_by_offset decode_value_pointer
  get_trailer_by_word = ap (λ (d : ℕ × ℕ). get_trailer_by_offset m d.0) decoded

module _ {A T : Type 0} ⦃t : Trailer T⦄ (nd offset len : ℕ) (s : SkipMap A T)
    (packed : (s.mem.node nd).value ≡ encode_value_pointer offset len) (offset_lt : offset < 2 ^ 32)
    (len_lt : len < 2 ^ 32) where
  removed_word :
      ((compare_remove none nd s).1.mem.node nd).value ≡ encode_value_pointer offset remove
  unfolding compare_remove set_node update
  removed_word =
      let read =
        ap decode_value_pointer packed ∙ decode-encode_value_pointer offset len offset_lt len_lt in
      ground (arith, read)

  -- When the node's word packs an offset and a length below 2^32 and no other thread comes between, the
  -- exchange is made: the node's value is gone, its trailer
  -- is the one it had, and other nodes are as they were.
  pub compare_remove-removed :
      (q : ℕ)
      → q ≢ nd
      → ((compare_remove none nd s).0 ≡ (true, (s.mem.node nd).value))
        × (get_value (compare_remove none nd s).1.mem nd ≡ none)
        × (get_trailer (compare_remove none nd s).1.mem nd ≡ get_trailer s.mem nd)
        × ((compare_remove none nd s).1.mem.node q ≡ s.mem.node q)
  unfolding compare_remove set_node update get_value_by_offset get_trailer_by_offset
  compare_remove-removed q ne =
      let m = (compare_remove none nd s).1.mem in
      let gone : get_value m nd ≡ none =
        get_value_by_word m nd offset remove removed_word offset_lt (omega arith) ∙ ground arith in
      let kept : get_trailer m nd ≡ get_trailer s.mem nd =
        get_trailer_by_word m nd offset remove removed_word offset_lt (omega arith)
        ∙ ground arith
        ∙ sym (get_trailer_by_word s.mem nd offset len packed offset_lt len_lt) in
      (ground arith, gone, kept, ground arith)
