-- ===== src/Update/Sorted.antt =====
-- A map into which a node has been linked is well formed again.
use skl.Prelude.{
  ℕ, zero, suc, ◌≤◌, ◌<◌, ◌≡◌, ◌≢◌, inl, inr, refl, sym, subst, true, false, List, [], ◌∷◌,
  Ordering, lt, eq, gt, arith, ltb, if◌then◌else◌, Bool-cases,
}
use skl.Compare.{Bytes, Trailer}
use skl.Compare.Laws.{IsOrder, entry_order, entry_order-IsOrder}
use skl.Node.{Link, get_key, version, get_bytes, key_size, get_trailer, get_trailer_by_offset}
use skl.SkipMap.{SkipMap, entry, order}
use skl.SkipMap.Shape.{All, Sub, Monotone}
use skl.SkipMap.Invariant.{IsSkipList, Sorted, Sorted-Monotone}
use skl.Splice.Bracket.{
  All-imp, All-Sub, insert_at, All-insert_at, gt-cases, insert_at_pass, insert_at_stop,
}
use skl.Splice.Bracket.Nested.{Sub-insert_at, Sub-insert_at_right}
use skl.Update.Link.{Nodes}
use skl.Update.Levels.{IsLevel, IsSound, IsNew}
use skl.Update.Loop.{relinked, relinked_rest, IsReady, relinked-insert_at, relinked-other}

Monotone-Sub : (c : ℕ → Ordering) (ps qs : List ℕ) → Sub ps qs → Monotone c qs → Monotone c ps
Monotone-Sub c [] qs s m = tt
Monotone-Sub c (p ∷ ps) [] s m = elim s [ ]
Monotone-Sub c (p ∷ ps) (q ∷ qs) (inl s) m =
    (rw (s.0) (All-Sub (λ r. c r ≢ lt → c q ≡ gt) ps qs s.1 m.0), Monotone-Sub c ps qs s.1 m.1)
Monotone-Sub c (p ∷ ps) (q ∷ qs) (inr s) m = Monotone-Sub c (p ∷ ps) qs s m.1

not-gt-eq : (o : Ordering) → o ≢ gt → o ≢ eq → o ≡ lt
not-gt-eq lt h k = refl
not-gt-eq eq h k = absurd (k refl)
not-gt-eq gt h k = absurd (h refl)

-- The order of the entries does not depend on the links.
Sorted-links :
    {A T : Type 0} ⦃t : Trailer T⦄ (s : SkipMap A T) (link : ℕ → Link) (ps : List ℕ)
    → Sorted s ps
    → Sorted (record s { mem = record (s.mem) { link = link } }) ps
unfolding entry get_key version get_bytes key_size get_trailer get_trailer_by_offset
Sorted-links s link [] h = tt
Sorted-links s link (p ∷ ps) h = (h.0, Sorted-links s link ps h.1)

module _ {A T : Type 0} ⦃t : Trailer T⦄ (s : SkipMap A T) (o : IsOrder s.cmp.cmp) (v : ℕ)
    (key : Bytes) (nd : ℕ) (is_entry : entry s nd ≡ (key, v)) where
  before_new : (p : ℕ) → order s v key p ≡ gt → entry_order s.cmp (entry s p) (entry s nd) ≡ lt
  unfolding order
  before_new p h =
      let e = entry_order-IsOrder s.cmp o in
      subst (λ x. entry_order s.cmp (entry s p) x ≡ lt) (sym is_entry)
        (ground (arith, e.flip (key, v) (entry s p), h))

  after_new :
      (p : ℕ)
      → order s v key p ≢ gt
      → order s v key p ≢ eq
      → entry_order s.cmp (entry s nd) (entry s p) ≡ lt
  unfolding order
  after_new p h k =
      subst (λ x. entry_order s.cmp x (entry s p) ≡ lt) (sym is_entry) (not-gt-eq _ h k)

  after_after :
      (p q : ℕ)
      → entry_order s.cmp (entry s nd) (entry s p) ≡ lt
      → entry_order s.cmp (entry s p) (entry s q) ≡ lt
      → entry_order s.cmp (entry s nd) (entry s q) ≡ lt
  after_after p q = (entry_order-IsOrder s.cmp o).lt_trans (entry s nd) (entry s p) (entry s q)

  -- A new entry goes to its place in the order.
  Sorted-insert_at :
      (ps : List ℕ)
      → Sorted s ps
      → All (λ q. order s v key q ≢ eq) ps
      → Sorted s (insert_at (order s v key) nd ps)
  unfolding insert_at
  Sorted-insert_at [] h a = (tt, tt)
  Sorted-insert_at (p ∷ ps) h a = elim (gt-cases (order s v key p)) [
    | inl pass ↦ subst (Sorted s) (sym (insert_at_pass (order s v key) 0 nd 0 p ps pass)) (
      All-insert_at (order s v key) (λ q. entry_order s.cmp (entry s p) (entry s q) ≡ lt) nd ps
          (before_new p pass) h.0,
      Sorted-insert_at ps h.1 a.1,
    )
    | inr stop ↦
        let first = after_new p stop a.0 in
        subst (Sorted s) (sym (insert_at_stop (order s v key) 0 nd 0 p ps stop)) (
          (
            first,
            All-imp (λ q. entry_order s.cmp (entry s p) (entry s q) ≡ lt)
                (λ q. entry_order s.cmp (entry s nd) (entry s q) ≡ lt) ps
                (λ q. after_after p q first) h.0,
          ),
          h,
        )
  ]

-- the levels with the node in its place on those below `h`
abbrev pub with_node : (ℕ → Ordering) → (nd h : ℕ) → (ℕ → List ℕ) → ℕ → List ℕ
with_node c nd h levels i = if ltb i h then insert_at c nd (levels i) else levels i

module _ {A T : Type 0} ⦃t : Trailer T⦄ (s : SkipMap A T) (v : ℕ) (key : Bytes) (height : ℕ → ℕ)
    (N : ℕ → Type 0) (nodes : Nodes height N) (nd h : ℕ) (levels : ℕ → List ℕ)
    (is : IsSkipList s levels) (h_pos : 0 < h) (h_le : h ≤ s.meta.height)
    (is_entry : entry s nd ≡ (key, v)) (absent : All (λ q. order s v key q ≢ eq) (levels 0))
    (sound : (k : ℕ) → k < s.opts.max_height → IsSound height N nd s.head s.tail k (levels k))
    (new : (k : ℕ) → k < h → IsNew height N nd s.head s.tail k (levels k)) where
  ready : IsReady (order s v key) height N nodes nd h levels s.head s.tail
  ready = record { sound = λ k l. sound k (omega (arith, is.height_le)); new = new }

  level :
      (i : ℕ)
      → i < s.opts.max_height
      → IsLevel
          (relinked (order s v key) nd levels h 0 s)
          i
          (with_node (order s v key) nd h levels i)
  level i e =
      let known : IsLevel s i (levels i) = record { chain = is.chain i e; back = is.back i e } in
      elim (Bool-cases (ltb i h)) [
        | inl low ↦
            let below : i < h = ground arith in
            rw low (
              relinked-insert_at (order s v key) height N nodes nd h levels h 0 i s ready
                (omega arith) (omega arith) (omega arith) known)
        | inr high ↦
            let beyond : h ≤ i = ground arith in
            rw high (
              relinked-other (order s v key) height N nodes nd h levels h 0 i (levels i) s ready
                (omega arith) (inr (omega arith)) (sound i e) known)
      ]

  Monotone-level : (i : ℕ) → i < s.opts.max_height → Monotone (order s v key) (levels i)
  Monotone-level zero e = Sorted-Monotone s v key (levels 0) is.ordered is.sorted
  Monotone-level (suc i) e =
      Monotone-Sub (order s v key) (levels (suc i)) (levels i) (is.nested i e)
        (Monotone-level i (omega arith))

  Sub-level :
      (i : ℕ)
      → suc i < s.opts.max_height
      → Sub
          (with_node (order s v key) nd h levels (suc i))
          (with_node (order s v key) nd h levels i)
  Sub-level i e =
      let sub = is.nested i e in
      elim (Bool-cases (ltb (suc i) h)) [
        | inl low ↦
            let lower : ltb i h ≡ true = ground arith in
            rw (low, lower)
              (Sub-insert_at (order s v key) nd (levels (suc i)) (levels i)
                (Monotone-level i (omega arith)) sub)
        | inr high ↦ rw high (elim (Bool-cases (ltb i h)) [
          | inl low ↦
              rw low (Sub-insert_at_right (order s v key) nd (levels (suc i)) (levels i) sub)
          | inr higher ↦ rw higher sub
        ])
      ]

  unused_level :
      (i : ℕ)
      → s.meta.height ≤ i
      → i < s.opts.max_height
      → with_node (order s v key) nd h levels i ≡ []
  unused_level i a b = let high : ltb i h ≡ false = ground arith in rw high (is.unused i a b)

  base : with_node (order s v key) nd h levels 0 ≡ insert_at (order s v key) nd (levels 0)
  base = let low : ltb 0 h ≡ true = ground arith in rw low refl

  -- Let the map be well formed, the node's tower be from 1 up to the map's height, its key and version
  -- be `key` and `v`, no entry of just these be in the map, and the nodes of the arena not overlap.
  -- Then the map with the node linked in is well formed: its levels are the old ones with the node in
  -- its place on those that its tower reaches.
  pub relinked-IsSkipList :
      IsSkipList (relinked (order s v key) nd levels h 0 s) (with_node (order s v key) nd h levels)
  relinked-IsSkipList =
      let s' = relinked (order s v key) nd levels h 0 s in
      let rest = relinked_rest (order s v key) nd levels h 0 s in
      let here = sorted_base in
      subst (λ (x : SkipMap A T). IsSkipList x (with_node (order s v key) nd h levels)) (sym rest)
        (record {
          head_ne_null = is.head_ne_null;
          tail_ne_null = is.tail_ne_null;
          head_ne_tail = is.head_ne_tail;
          ordered = is.ordered;
          height_pos = is.height_pos;
          height_le = is.height_le;
          max_height_lt = is.max_height_lt;
          chain = λ i e.
              (subst (λ (x : SkipMap A T). IsLevel x i (with_node (order s v key) nd h levels i))
                rest (level i e)).chain;
          back = λ i e.
              (subst (λ (x : SkipMap A T). IsLevel x i (with_node (order s v key) nd h levels i))
                rest (level i e)).back;
          nested = Sub-level;
          unused = unused_level;
          apart = subst (All (λ p. p ≢ s.head)) (sym base) (
              All-insert_at (order s v key) (λ p. p ≢ s.head) nd (levels 0) (new 0 h_pos).absent.0
                is.apart);
          sorted = Sorted-links s (s'.mem.link) (with_node (order s v key) nd h levels 0) here;
        })
    where
      sorted_base : Sorted s (with_node (order s v key) nd h levels 0)
      sorted_base =
          subst (Sorted s) (sym base)
            (Sorted-insert_at s is.ordered v key nd is_entry (levels 0) is.sorted absent)
