-- ===== src/Race/Sharing.antt =====
-- A thread that shares the key of the next node: its node still holds the entry that it is to insert.
use native.Mathlib.Decide.{ℕ_discrete}
use skl.Prelude.{
  ℕ, ◌/◌, ◌%◌, ◌^◌, ◌<◌, ◌≡◌, ◌≢◌, ◌⊎◌, inl, inr, refl, ap, ◌∙◌, lt, eq, arith, none, some,
}
use skl.Encoding.{decode_value_pointer, encode_key_size_and_height, decode_key_size_and_height}
use skl.Encoding.RoundTrip.{decode-encode_key_size_and_height}
use skl.Compare.{Bytes, Trailer, Comparator}
use skl.Compare.Laws.{IsOrder, entry_order}
use skl.Node.{
  Memory, Node, get_key, version, get_bytes, key_size, height, get_trailer, get_trailer_by_offset,
  update, read,
}
use skl.Types.{Key, as_ref}
use skl.Arena.{Arena}
use skl.Alloc.{dealloc}
use skl.SkipMap.{SkipMap, entry, order}
use skl.Splice.{Pointer, shared_key}
use skl.Store.{set_node}
use skl.Upsert.{on_fail}
use skl.Update.{Linking, share_key}
use skl.Race.Entries.{KeepsEntries}

module _ {A T : Type 0} where
  -- each header's word of the key's size and the height is a u32
  abbrev pub HasWords : SkipMap A T → Type 0
  HasWords s = (q : ℕ) → (s.mem.node q).key_size_and_height < 2 ^ 32

same_entry :
    (c : Comparator) (o : IsOrder c.cmp) (k l j : Bytes) (v w : ℕ)
    → c.cmp k l ≡ eq
    → entry_order c (k, v) (j, w) ≡ eq
    → entry_order c (l, v) (l, w) ≡ eq
unfolding entry_order
same_entry c o k l j v w same own = ground (arith, same, own, o.eq_left k l l)

encode_lt :
    (word : ℕ)
    → word < 2 ^ 32
    → (decode_key_size_and_height (
          encode_key_size_and_height
            (decode_key_size_and_height word).0
            (decode_key_size_and_height word).1)
        ≡ decode_key_size_and_height word)
      × (encode_key_size_and_height
            (decode_key_size_and_height word).0
            (decode_key_size_and_height word).1
          < 2 ^ 32)
unfolding decode_key_size_and_height
encode_lt word h =
    let back =
      decode-encode_key_size_and_height (word / 2 ^ 5) (word % 2 ^ 5) (omega (arith, h))
        (omega arith) in
    (back, omega (arith, h, ap (λ (x : ℕ × ℕ). x.0) (unfold decode_key_size_and_height in back)))

module _ {A T E : Type 0} ⦃t : Trailer T⦄ (ar : Arena A E) (nd next v : ℕ) (g : Linking)
    (s : SkipMap A T) where
  abbrev key : Bytes
  key = as_ref (get_bytes s.mem) g.k

  abbrev pub Shared : Linking × SkipMap A T → Type 0
  Shared r =
      KeepsEntries (λ q. q ≢ nd) s r.1
      × HasWords r.1
      × (s.cmp.cmp (as_ref (get_bytes r.1.mem) r.0.k) key ≡ eq)
      × (entry_order s.cmp (as_ref (get_bytes r.1.mem) r.0.k, v) (entry r.1 nd) ≡ eq)

  on_fail_rest : (k : Key) → (on_fail ar k s).mem ≡ s.mem × ((on_fail ar k s).cmp ≡ s.cmp)
  unfolding on_fail dealloc
  on_fail_rest (Key.occupied key) = (refl, refl)
  on_fail_rest (Key.vacant b) = (ground arith, ground arith)
  on_fail_rest (Key.pointer offset len) = (refl, refl)
  on_fail_rest (Key.remove key) = (refl, refl)
  on_fail_rest (Key.remove_vacant b) = (ground arith, ground arith)
  on_fail_rest (Key.remove_pointer offset len) = (refl, refl)

  pub Shared-none :
      IsOrder s.cmp.cmp
      → HasWords s
      → entry_order s.cmp (key, v) (entry s nd) ≡ eq
      → Shared (share_key ar nd none g s)
  unfolding share_key
  Shared-none o words own = (
    record { cmp_same = refl; bytes_same = refl; entry_same = λ q _. refl },
    words,
    ground (arith, o.flip key key),
    own,
  )

  set_node-other :
      (x : SkipMap A T) (m : Node) (q : ℕ) → q ≢ nd → entry (set_node nd m x) q ≡ entry x q
  unfolding entry set_node update get_key version get_bytes key_size get_trailer
      get_trailer_by_offset
  set_node-other x m q ne =
      let same : (set_node nd m x).mem.node q ≡ x.mem.node q = ground arith in
      ap
        (λ (m : Node). (
          read x.mem.byte m.key_offset (decode_key_size_and_height m.key_size_and_height).0,
          t.version (get_trailer_by_offset x.mem (decode_value_pointer m.value).0),
        ))
        same

  set_node-own :
      (x : SkipMap A T) (offset word : ℕ)
      → entry
          (set_node nd
            (record (x.mem.node nd) { key_offset = offset; key_size_and_height = word })
            x)
          nd
        ≡ (get_bytes x.mem offset (decode_key_size_and_height word).0, version x.mem nd)
  unfolding entry set_node update get_key version get_bytes key_size get_trailer
      get_trailer_by_offset
  set_node-own x offset word =
      let m : Node = record (x.mem.node nd) { key_offset = offset; key_size_and_height = word } in
      let same : (set_node nd m x).mem.node nd ≡ m = ground arith in
      ap
        (λ (m : Node). (
          read x.mem.byte m.key_offset (decode_key_size_and_height m.key_size_and_height).0,
          t.version (get_trailer_by_offset x.mem (decode_value_pointer m.value).0),
        ))
        same

  abbrev offered : Pointer
  offered = record {
    offset = (s.mem.node next).key_offset;
    size = key_size s.mem next;
    height = some (height s.mem next);
  }

  abbrev new_word : ℕ
  new_word = encode_key_size_and_height (key_size s.mem next) (height s.mem next)

  abbrev failed_map : SkipMap A T
  failed_map = on_fail ar g.k s

  entry_mem : (x y : SkipMap A T) (q : ℕ) → x.mem ≡ y.mem → entry x q ≡ entry y q
  unfolding entry
  entry_mem x y q e = ap (λ (m : Memory T). (get_key m q, version m q)) e

  abbrev with_key : SkipMap A T
  with_key =
      set_node nd
        (record (failed_map.mem.node nd) {
          key_offset = (s.mem.node next).key_offset;
          key_size_and_height = new_word;
        })
        failed_map

  with_key-bytes : get_bytes with_key.mem ≡ get_bytes s.mem
  unfolding set_node get_bytes
  with_key-bytes = ap (λ (m : Memory T). get_bytes m) (on_fail_rest g.k).0

  word_back : HasWords s → (decode_key_size_and_height new_word).0 ≡ key_size s.mem next
  unfolding key_size height
  word_back words =
      ap (λ (x : ℕ × ℕ). x.0) (encode_lt (s.mem.node next).key_size_and_height (words next)).0

  with_key-entry : HasWords s → entry with_key nd ≡ (get_key s.mem next, version s.mem nd)
  unfolding get_key
  with_key-entry words =
      set_node-own failed_map (s.mem.node next).key_offset new_word
      ∙ ap
          (λ (k : ℕ).
            (get_bytes failed_map.mem (s.mem.node next).key_offset k, version failed_map.mem nd))
          (word_back words)
      ∙ ap
          (λ (m : Memory T).
            (get_bytes m (s.mem.node next).key_offset (key_size s.mem next), version m nd))
          (on_fail_rest g.k).0

  with_key-HasWords : HasWords s → HasWords with_key
  unfolding set_node update key_size height
  with_key-HasWords words q = elim (ℕ_discrete q nd) [
    | yes e ↦ ground (arith, e, (encode_lt (s.mem.node next).key_size_and_height (words next)).1)
    | no e ↦ ground (arith, e, words q, ap (λ (m : Memory T). m.node q) (on_fail_rest g.k).0)
  ]

  Shared-some :
      IsOrder s.cmp.cmp
      → HasWords s
      → entry_order s.cmp (key, v) (entry s nd) ≡ eq
      → s.cmp.cmp key (get_key s.mem next) ≡ eq
      → Shared (share_key ar nd (some offered) g s)
  unfolding share_key as_ref
  Shared-some o words own same = (
    record {
      cmp_same = unfold set_node in (on_fail_rest g.k).1;
      bytes_same = with_key-bytes;
      entry_same =
          λ q ne. set_node-other failed_map _ q ne ∙ entry_mem failed_map s q (on_fail_rest g.k).0;
    },
    with_key-HasWords words,
    rw with_key-bytes (unfold get_key in ground (arith, o.flip key (get_key s.mem next), same)),
    rw (with_key-bytes, with_key-entry words)
        (unfold get_key in
          same_entry s.cmp o key (get_key s.mem next) (get_key s.mem nd) v (version s.mem nd) same
            (unfold entry in own)),
  )

  shared-cases :
      order s v key next ≡ lt
      → ((s.cmp.cmp key (get_key s.mem next) ≡ eq) × (shared_key s v key next ≡ some offered))
        ⊎ (shared_key s v key next ≡ none)
  unfolding order entry entry_order shared_key
  shared-cases before = ground arith

  -- Before a node that stands behind the target, whatever key of that node is offered, the new node
  -- still holds its entry.
  pub shared :
      IsOrder s.cmp.cmp
      → HasWords s
      → entry_order s.cmp (key, v) (entry s nd) ≡ eq
      → order s v key next ≡ lt
      → Shared (share_key ar nd (shared_key s v key next) g s)
  shared o words own before = elim (shared-cases before) [
    | inl k ↦ rw (k.1) (Shared-some o words own k.0)
    | inr k ↦ rw k (Shared-none o words own)
  ]
