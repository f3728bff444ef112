-- ===== src/Splice/Shared.antt =====
-- The key that find_splice of src/map.rs offers to a new entry: its bytes are those of the new key,
-- in memory that an entry of the map uses.
use skl.Prelude.{
  ℕ, zero, suc, ◌+◌, ◌%◌, ◌≤◌, ◌<◌, ◌^◌, ◌≡◌, ◌⊎◌, inl, inr, refl, sym, ap, ◌∙◌, subst, Bool, true,
  false, Option, none, some, Option-cases, Bool-cases, List, [], ◌∷◌, lt, eq, gt, arith, length,
  Ordering, if◌then◌else◌,
}
use skl.Compare.{Bytes, Trailer, starts_with}
use skl.Node.{Memory, get_key, key_size, get_bytes, read, height, is_null}
use skl.Store.Reads.{length-read}
use skl.SkipMap.{SkipMap, get_next, order}
use skl.SkipMap.Shape.{Chain, All}
use skl.Splice.{
  Pointer, Splice, FindResult, Inserter, inserter, shared_key, find_splice_for_level, splice_levels,
  find_splice, first_of_two, set_splice, Found,
}
use skl.Alloc.Kept.{Occupied, IsUsed}

Ordering-cases : (o : Ordering) → (o ≡ lt) ⊎ (o ≡ eq) ⊎ (o ≡ gt)
Ordering-cases lt = inl refl
Ordering-cases eq = inr (inl refl)
Ordering-cases gt = inr (inr refl)

-- A key that begins with another is read as that one up to its length.
read-starts_with :
    (byte : ℕ → ℕ) (offset n : ℕ) (key : Bytes)
    → starts_with (read byte offset n) key ≡ true
    → (read byte offset (length key) ≡ key) × (length key ≤ n)
unfolding starts_with read
read-starts_with byte offset n [] h = (refl, omega arith)
read-starts_with byte offset zero (k ∷ ks) h = cc
read-starts_with byte offset (suc n) (k ∷ ks) h =
    let rest = read-starts_with byte (offset + 1) n ks (ground arith) in
    (ground (arith, rest.0), omega (arith, rest.1))

module _ {T : Type 0} (free : ℕ → Bool) (m : Memory T) (key : Bytes) where
  -- The bytes of the key are there, and in use.
  pub record IsShared (p : Pointer) : Type 0 where
    pub reads : get_bytes m p.offset p.size ≡ key
    pub sized : p.size ≡ length key
    pub in_use : Occupied free p.offset p.size

  abbrev pub Offers : Option Pointer → Type 0
  Offers none = Unit
  Offers (some p) = IsShared p

module _ {A T : Type 0} ⦃t : Trailer T⦄ (free : ℕ → Bool) (s : SkipMap A T) (v : ℕ) (key : Bytes)
    (exact : (a b : Bytes) → s.cmp.cmp a b ≡ eq → a ≡ b) (key_lt : length key < 2 ^ 32) where
  -- The whole key of the node, or its beginning.
  whole-IsShared :
      (q : ℕ) (h : Option ℕ)
      → IsUsed free s.mem q
      → s.cmp.cmp key (get_key s.mem q) ≡ eq
      → IsShared free s.mem key
          (record { offset = (s.mem.node q).key_offset; size = key_size s.mem q; height = h })
  unfolding get_key get_bytes
  whole-IsShared q h u e =
      let same : key ≡ get_key s.mem q = exact key (get_key s.mem q) e in
      record {
        reads = sym same;
        sized =
            sym (length-read s.mem.byte (s.mem.node q).key_offset (key_size s.mem q))
            ∙ ap length (sym same);
        in_use = u.key_used;
      }

  start-IsShared :
      (q : ℕ) (h : Option ℕ)
      → IsUsed free s.mem q
      → starts_with (get_key s.mem q) key ≡ true
      → IsShared free s.mem key
          (record { offset = (s.mem.node q).key_offset; size = length key % 2 ^ 32; height = h })
  unfolding get_key get_bytes
  start-IsShared q h u e =
      let small : length key % 2 ^ 32 ≡ length key = omega arith in
      let begins = read-starts_with s.mem.byte (s.mem.node q).key_offset (key_size s.mem q) key e in
      record {
        reads = rw small begins.0;
        sized = small;
        in_use = λ x lo hi. u.key_used x lo (omega (arith, begins.1));
      }

  shared_key-Offers : (q : ℕ) → IsUsed free s.mem q → Offers free s.mem key (shared_key s v key q)
  unfolding shared_key
  shared_key-Offers q u = elim (Ordering-cases (s.cmp.cmp key (get_key s.mem q))) [
    | inl e ↦
        let here : shared_key s v key q ≡ none = ground arith in
        subst (Offers free s.mem key) (sym here) tt
    | inr (inl e) ↦
        let here : shared_key s v key q
            ≡ some (record {
              offset = (s.mem.node q).key_offset;
              size = key_size s.mem q;
              height = some (height s.mem q);
            }) =
          ground arith in
        subst (Offers free s.mem key) (sym here) (whole-IsShared q (some (height s.mem q)) u e)
    | inr (inr e) ↦ elim (Bool-cases (starts_with (get_key s.mem q) key)) [
      | inl b ↦
          let here : shared_key s v key q
              ≡ some (record {
                offset = (s.mem.node q).key_offset;
                size = length key % 2 ^ 32;
                height = some (height s.mem q);
              }) =
            ground arith in
          subst (Offers free s.mem key) (sym here) (start-IsShared q (some (height s.mem q)) u b)
      | inr b ↦
          let here : shared_key s v key q ≡ none = ground arith in
          subst (Offers free s.mem key) (sym here) tt
    ]
  ]

  -- The search of a level offers what the node behind the place offers.
  level-Offers :
      (fuel i x : ℕ) (ps : List ℕ)
      → Chain (λ p. get_next s p i) s.tail x ps
      → All (IsUsed free s.mem) ps
      → (fr : FindResult) → find_splice_for_level s v key fuel i x ≡ some fr
      → Offers free s.mem key fr.found_key
  unfolding find_splice_for_level
  level-Offers zero i x ps c a fr e = absurd (cc)
  level-Offers (suc fuel) i x [] c a fr e =
      let here : fr.found_key ≡ none = ground arith in subst (Offers free s.mem key) (sym here) tt
  level-Offers (suc fuel) i x (p ∷ ps) c a fr e = elim (Ordering-cases (order s v key p)) [
    | inl l ↦
        let here : fr.found_key ≡ shared_key s v key p = ground arith in
        subst (Offers free s.mem key) (sym here) (shared_key-Offers p a.0)
    | inr (inl l) ↦
        let here : fr.found_key ≡ shared_key s v key p = ground arith in
        subst (Offers free s.mem key) (sym here) (shared_key-Offers p a.0)
    | inr (inr l) ↦ level-Offers fuel i p ps c.3 a.1 fr (ground arith)
  ]

  first_of_two-Offers :
      (a b : Option Pointer)
      → Offers free s.mem key a
      → Offers free s.mem key b
      → Offers free s.mem key (first_of_two s v key a b)
  first_of_two-Offers none b h k = k
  first_of_two-Offers (some p) b h k = h

  module _ (fuel : ℕ) (levels : ℕ → List ℕ) where
    levels-Offers :
        (rounds : ℕ) (found : Bool) (fk : Option Pointer) (ins : Inserter)
        → ((k : ℕ) → k < rounds → Chain (λ p. get_next s p k) s.tail s.head (levels k))
        → ((k : ℕ) → k < rounds → All (IsUsed free s.mem) (levels k))
        → Offers free s.mem key fk
        → (r : Found s v key) → splice_levels s v key fuel s.head true rounds found fk ins ≡ some r
        → Offers free s.mem key r.1
    unfolding splice_levels
    levels-Offers zero found fk ins c u o r e =
        let here : r.1 ≡ fk = ground arith in subst (Offers free s.mem key) (sym here) o
    levels-Offers (suc lvl) found fk ins c u o r e =
        elim (Option-cases (find_splice_for_level s v key fuel lvl s.head)) [
          | inl gone ↦ absurd (ground arith)
          | inr (fr, z) ↦
              let both = first_of_two-Offers fk fr.found_key o (
                level-Offers fuel lvl s.head (levels lvl) (c lvl (omega arith))
                  (u lvl (omega arith)) fr z) in
              elim (Bool-cases fr.found) [
                | inl hit ↦
                    let here : r.1 ≡ first_of_two s v key fk fr.found_key = ground arith in
                    subst (Offers free s.mem key) (sym here) both
                | inr miss ↦
                    let spl : Splice = record {
                      prev = fr.splice.prev;
                      next = if is_null fr.splice.next then s.tail else fr.splice.next;
                    } in
                    levels-Offers lvl fr.found (first_of_two s v key fk fr.found_key)
                      (set_splice ins lvl spl) (λ k l. c k (omega arith)) (λ k l. u k (omega arith))
                      both r (ground arith)
              ]
        ]

  pub find_splice-Offers :
      (fuel : ℕ) (levels : ℕ → List ℕ)
      → ((k : ℕ) → k < s.meta.height → Chain (λ p. get_next s p k) s.tail s.head (levels k))
      → ((k : ℕ) → k < s.meta.height → All (IsUsed free s.mem) (levels k))
      → (r : Found s v key) → 0 < s.meta.height
      → find_splice s v key fuel inserter true ≡ some r
      → Offers free s.mem key r.1
  unfolding find_splice inserter
  find_splice-Offers fuel levels c u r p e =
      levels-Offers fuel levels s.meta.height false none
        (record { spl = inserter.spl; height = s.meta.height }) c u tt r (ground arith)
