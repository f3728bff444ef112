-- ===== src/Upsert/Readers.antt =====
-- What readers get after an entry has been removed: the entries with a tombstone in its place.
use native.Mathlib.Decide.{ℕ_discrete}
use mathlib.Core.Option
use skl.Prelude.{
  ℕ, suc, ◌+◌, ◌≤◌, ◌<◌, ◌^◌, ◌≡◌, ◌≢◌, ◌∙◌, ap, sym, subst, refl, true, none, some, List, [], ◌∷◌,
  arith, length, ◌==◌, if◌then◌else◌,
}
use skl.Encoding.{encode_value_pointer, decode_value_pointer, decode_key_size_and_height}
use skl.Encoding.RoundTrip.{decode-encode_value_pointer}
use skl.Compare.{Bytes, Trailer}
use skl.Node.{
  Node, remove, update, get_trailer, get_trailer_by_offset, get_key, get_bytes, key_size, version,
  read, next_offset, prev_offset,
}
use skl.Node.Reads.{value_behind, read_value}
use skl.Spec.{Item, lookup}
use skl.SkipMap.{SkipMap, get_next, get_prev, entry}
use skl.SkipMap.Invariant.{IsSkipList}
use skl.SkipMap.Get.{get}
use skl.SkipMap.Contents.{item, contents, value_of, get-lookup}
use skl.Store.{set_node}
use skl.Upsert.{compare_remove}
use skl.Upsert.Remove.{compare_remove-removed}
use skl.Race.Level.{Member-All}
use skl.Race.Entries.{Sorted-kept}

abbrev pub tombstone : Item → Item
tombstone e = record e { value = none }

module _ {A T : Type 0} ⦃t : Trailer T⦄ (s : SkipMap A T) (nd : ℕ) where
  -- the entries of the nodes, that of `nd` removed
  unfoldable pub erased : List ℕ → List Item
  erased [] = []
  erased (p ∷ ps) = (if p == nd then tombstone (item s p) else item s p) ∷ erased ps

module _ {A T : Type 0} ⦃t : Trailer T⦄ (nd offset len : ℕ) (s : SkipMap A T)
    (packed : (s.mem.node nd).value ≡ encode_value_pointer offset len) (offset_lt : offset < 2 ^ 32)
    (len_lt : len < 2 ^ 32) where
  abbrev new_node : Node
  new_node = record (s.mem.node nd) { value = encode_value_pointer offset remove }

  abbrev removed : SkipMap A T
  removed = set_node nd new_node s

  removed_eq : (compare_remove none nd s).1 ≡ removed
  unfolding compare_remove set_node
  removed_eq =
      let read =
        ap decode_value_pointer packed ∙ decode-encode_value_pointer offset len offset_lt len_lt in
      ground (arith, read)

  abbrev of_node : Node → Item
  of_node n = record {
    key = read s.mem.byte n.key_offset (decode_key_size_and_height n.key_size_and_height).0;
    version = t.version (get_trailer_by_offset s.mem (decode_value_pointer n.value).0);
    value = value_behind s.mem (decode_value_pointer n.value).0 (decode_value_pointer n.value).1;
  }

  -- the item of `nd` with the offset and the length of its value given
  abbrev of_word : ℕ × ℕ → Item
  of_word d = record {
    key =
        read s.mem.byte (s.mem.node nd).key_offset
          (decode_key_size_and_height (s.mem.node nd).key_size_and_height).0;
    version = t.version (get_trailer_by_offset s.mem d.0);
    value = value_behind s.mem d.0 d.1;
  }

  item-other : (q : ℕ) → q ≢ nd → item removed q ≡ item s q
  unfolding set_node update get_key version read_value get_bytes key_size get_trailer
      get_trailer_by_offset value_behind
  item-other q ne = let same : removed.mem.node q ≡ s.mem.node q = ground arith in ap of_node same

  item-here : item removed nd ≡ tombstone (item s nd)
  unfolding set_node update get_key version read_value get_bytes key_size get_trailer
      get_trailer_by_offset value_behind
  item-here =
      let same : removed.mem.node nd ≡ new_node = ground arith in
      let word : decode_value_pointer (encode_value_pointer offset remove) ≡ (offset, remove) =
        decode-encode_value_pointer offset remove offset_lt (omega arith) in
      let before : decode_value_pointer (s.mem.node nd).value ≡ (offset, len) =
        ap decode_value_pointer packed ∙ decode-encode_value_pointer offset len offset_lt len_lt in
      ap of_node same ∙ ap of_word word ∙ sym (ap (λ (d : ℕ × ℕ). tombstone (of_word d)) before)

  contents-erased : (ps : List ℕ) → contents removed ps ≡ erased s nd ps
  unfolding contents erased
  contents-erased [] = refl
  contents-erased (p ∷ ps) = elim (ℕ_discrete p nd) [
    | yes e ↦ ground (arith, e, item-here, contents-erased ps)
    | no e ↦ ground (arith, e, item-other p e, contents-erased ps)
  ]

  entry-removed : (q : ℕ) → entry removed q ≡ entry s q
  unfolding entry
  entry-removed q = elim (ℕ_discrete q nd) [
    | yes e ↦ rw e (ap (λ (e : Item). (e.key, e.version)) item-here)
    | no e ↦ ap (λ (e : Item). (e.key, e.version)) (item-other q e)
  ]

  removed-IsSkipList : {levels : ℕ → List ℕ} → IsSkipList s levels → IsSkipList removed levels
  unfolding set_node get_next get_prev next_offset prev_offset
  removed-IsSkipList {levels} is = record {
    head_ne_null = is.head_ne_null;
    tail_ne_null = is.tail_ne_null;
    head_ne_tail = is.head_ne_tail;
    ordered = is.ordered;
    height_pos = is.height_pos;
    height_le = is.height_le;
    max_height_lt = is.max_height_lt;
    chain = is.chain;
    back = is.back;
    nested = is.nested;
    unused = is.unused;
    apart = is.apart;
    sorted =
        Sorted-kept s removed (levels 0) refl
          (Member-All (λ q. entry removed q ≡ entry s q) (levels 0) (λ q _. entry-removed q))
          is.sorted;
  }

  -- Removal refines the removal of an entry from the collection. Let the node's word pack an offset and
  -- a length below 2^32 and no other thread come between. Then the exchange is made, a well-formed map
  -- stays well formed with the same nodes on each level, and with fuel for its nodes and levels every
  -- reader, of whichever key and version, gets what the lookup gives in the entries with a tombstone in
  -- the place of that node's.
  pub compare_remove-lookup :
      {levels : ℕ → List ℕ} (v : ℕ) (key : Bytes) (reads : ℕ)
      → IsSkipList s levels
      → s.meta.height + length (levels 0) ≤ reads
      → ((compare_remove none nd s).0.0 ≡ true)
        × IsSkipList (compare_remove none nd s).1 levels
        × (Option.map (value_of s v key) (get (compare_remove none nd s).1 reads v key)
            ≡ some (lookup s.cmp v key (erased s nd (levels 0))))
  compare_remove-lookup {levels} v key reads is le =
      let made =
        compare_remove-removed nd offset len s packed offset_lt len_lt (suc nd) (omega arith) in
      (
        ap (λ x. x.0) made.0,
        subst (λ x. IsSkipList x levels) (sym removed_eq) (removed-IsSkipList is),
        subst
            (λ x.
              Option.map (value_of s v key) (get x reads v key)
              ≡ some (lookup s.cmp v key (erased s nd (levels 0))))
            (sym removed_eq)
            (unfold set_node in
              get-lookup removed v key reads (removed-IsSkipList is) le
              ∙ ap (λ (es : List Item). some (lookup s.cmp v key es)) (contents-erased (levels 0))),
      )
