-- ===== src/Update/Renewed.antt =====
-- A map whose arena, memory and counters are new, but whose links and entries are the old ones.
use skl.Prelude.{ℕ, ◌≤◌, ◌≡◌, refl, ap, List, [], ◌∷◌, Ordering, arith}
use skl.Compare.{Bytes, Trailer}
use skl.Node.{
  Memory, Link, next_offset, prev_offset, get_key, version, get_bytes, key_size, get_trailer,
  get_trailer_by_offset,
}
use skl.Node.Reads.{value_behind, read_value}
use skl.Spec.{Item}
use skl.Meta.{Meta}
use skl.SkipMap.{SkipMap, get_next, get_prev, entry, order}
use skl.SkipMap.Shape.{All}
use skl.SkipMap.Invariant.{IsSkipList}
use skl.SkipMap.Contents.{item, contents}
use skl.Splice.Bracket.{bracket, insert_at, All-imp}
use skl.Race.Level.{Member-All}
use skl.Race.Entries.{Sorted-kept}

module _ {A T : Type 0} (s : SkipMap A T) (counters : Meta) where
  abbrev pub renewed : A → Memory T → SkipMap A T
  renewed a m = record s { arena = a; mem = record m { link = s.mem.link }; meta = counters }

-- A place depends on the order of the nodes in the list alone.
pub bracket-same :
    (c c' : ℕ → Ordering) (tail x : ℕ) (ps : List ℕ)
    → All (λ p. c' p ≡ c p) ps
    → bracket c' tail x ps ≡ bracket c tail x ps
unfolding bracket
bracket-same c c' tail x [] a = refl
bracket-same c c' tail x (p ∷ ps) a = ground (arith, bracket-same c c' tail p ps a.1, a.0)

pub insert_at-same :
    (c c' : ℕ → Ordering) (nd : ℕ) (ps : List ℕ)
    → All (λ p. c' p ≡ c p) ps
    → insert_at c' nd ps ≡ insert_at c nd ps
unfolding insert_at
insert_at-same c c' nd [] a = refl
insert_at-same c c' nd (p ∷ ps) a = ground (arith, insert_at-same c c' nd ps a.1, a.0)

pub contents-same :
    {A T : Type 0} ⦃t : Trailer T⦄ (s s' : SkipMap A T) (ps : List ℕ)
    → All (λ p. item s' p ≡ item s p) ps
    → contents s' ps ≡ contents s ps
unfolding contents
contents-same s s' [] a = refl
contents-same s s' (p ∷ ps) a = ground (arith, contents-same s s' ps a.1, a.0)

module _ {A T : Type 0} ⦃t : Trailer T⦄ (s : SkipMap A T) (counters : Meta) (a : A)
    (m : Memory T) where
  module _ (ps : List ℕ) (same : All (λ p. item (renewed s counters a m) p ≡ item s p) ps) where
    pub entries_same : All (λ p. entry (renewed s counters a m) p ≡ entry s p) ps
    unfolding entry
    entries_same =
        All-imp (λ p. item (renewed s counters a m) p ≡ item s p)
          (λ p. entry (renewed s counters a m) p ≡ entry s p) ps
          (λ p e. ap (λ (i : Item). (i.key, i.version)) e) same

    pub orders_same :
        (v : ℕ) (key : Bytes)
        → All (λ p. order (renewed s counters a m) v key p ≡ order s v key p) ps
    unfolding order
    orders_same v key =
        All-imp (λ p. entry (renewed s counters a m) p ≡ entry s p)
          (λ p. order (renewed s counters a m) v key p ≡ order s v key p) ps
          (λ p e. ground (arith, e)) entries_same

  pub renewed-IsSkipList :
      {levels : ℕ → List ℕ}
      → IsSkipList s levels
      → s.meta.height ≤ counters.height
      → counters.height ≤ s.opts.max_height
      → All (λ p. item (renewed s counters a m) p ≡ item s p) (levels 0)
      → IsSkipList (renewed s counters a m) levels
  unfolding get_next get_prev next_offset prev_offset
  renewed-IsSkipList {levels} is ge le same = record {
    head_ne_null = is.head_ne_null;
    tail_ne_null = is.tail_ne_null;
    head_ne_tail = is.head_ne_tail;
    ordered = is.ordered;
    height_pos = omega (arith, is.height_pos, ge);
    height_le = le;
    max_height_lt = is.max_height_lt;
    chain = is.chain;
    back = is.back;
    nested = is.nested;
    unused = λ i lo hi. is.unused i (omega (arith, ge, lo)) hi;
    apart = is.apart;
    sorted =
        Sorted-kept s (renewed s counters a m) (levels 0) refl (entries_same (levels 0) same)
          is.sorted;
  }

-- The counters beside the height do not matter to the shape of a map.
pub counters-IsSkipList :
    {A T : Type 0} ⦃t : Trailer T⦄ (s : SkipMap A T) (counters : Meta) {levels : ℕ → List ℕ}
    → IsSkipList s levels
    → counters.height ≡ s.meta.height
    → IsSkipList (record s { meta = counters }) levels
unfolding get_next get_prev next_offset prev_offset entry
counters-IsSkipList s counters {levels} is same = record {
  head_ne_null = is.head_ne_null;
  tail_ne_null = is.tail_ne_null;
  head_ne_tail = is.head_ne_tail;
  ordered = is.ordered;
  height_pos = omega (arith, is.height_pos, same);
  height_le = omega (arith, is.height_le, same);
  max_height_lt = is.max_height_lt;
  chain = is.chain;
  back = is.back;
  nested = is.nested;
  unused = λ i lo hi. is.unused i (omega (arith, lo, same)) hi;
  apart = is.apart;
  sorted =
      Sorted-kept s (record s { meta = counters }) (levels 0) refl
        (Member-All (λ q. entry (record s { meta = counters }) q ≡ entry s q) (levels 0)
          (λ q _. refl))
        is.sorted;
}

-- The entries of some nodes are the old ones, and one node has a new entry.
pub record IsGrown {A T : Type 0} ⦃t : Trailer T⦄ (s s' : SkipMap A T) (ps : List ℕ) (nd : ℕ)
    (e : Item) : Type 0 where
  pub cmp_kept : s'.cmp ≡ s.cmp
  pub opts_kept : s'.opts ≡ s.opts
  pub is_item : item s' nd ≡ e
  pub items_kept : All (λ p. item s' p ≡ item s p) ps

-- The entries of some nodes are the old ones.
pub record IsStill {A T : Type 0} ⦃t : Trailer T⦄ (s s' : SkipMap A T) (ps : List ℕ) : Type 0 where
  pub cmp_kept : s'.cmp ≡ s.cmp
  pub opts_kept : s'.opts ≡ s.opts
  pub meta_kept : s'.meta ≡ s.meta
  pub items_kept : All (λ p. item s' p ≡ item s p) ps

pub item-links :
    {A T : Type 0} ⦃t : Trailer T⦄ (s : SkipMap A T) (link : ℕ → Link) (p : ℕ)
    → item (record s { mem = record (s.mem) { link = link } }) p ≡ item s p
unfolding get_key version get_bytes key_size get_trailer get_trailer_by_offset read_value
    value_behind
item-links s link p = refl
