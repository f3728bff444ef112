-- ===== src/Compare.antt =====
-- Comparators and trailers (src/lib.rs). A byte string is a list of numbers; the order of slices is
-- that of Rust's `<[u8] as Ord>::cmp`.
pub mod Laws
pub mod Prefix
use skl.Prelude.{
  ℕ, zero, suc, Bool, true, false, ◌&&◌, List, [], ◌∷◌, compare, Ordering, lt, eq, gt, ◌==◌,
}

abbrev pub Bytes : Type 0
Bytes = List ℕ

-- `Ordering::then_with`, its argument already computed
abbrev pub then_with : Ordering → Ordering → Ordering
then_with eq second = second
then_with lt second = lt
then_with gt second = gt

-- `a.cmp(b)` on slices
unfoldable pub cmp_bytes : Bytes → Bytes → Ordering
cmp_bytes [] [] = eq
cmp_bytes [] (y ∷ ys) = lt
cmp_bytes (x ∷ xs) [] = gt
cmp_bytes (x ∷ xs) (y ∷ ys) = then_with (compare x y) (cmp_bytes xs ys)

-- `a == b` on slices
unfoldable pub bytes_eq : Bytes → Bytes → Bool
bytes_eq [] [] = true
bytes_eq [] (y ∷ ys) = false
bytes_eq (x ∷ xs) [] = false
bytes_eq (x ∷ xs) (y ∷ ys) = (x == y) && bytes_eq xs ys

-- `slice.starts_with(prefix)`, its arguments in that order
unfoldable pub starts_with : Bytes → Bytes → Bool
starts_with xs [] = true
starts_with [] (y ∷ ys) = false
starts_with (x ∷ xs) (y ∷ ys) = (x == y) && starts_with xs ys

pub data Bound : Type 0 where
  included excluded : Bytes → Bound
  unbounded : Bound

-- `impl RangeBounds<[u8]>`, by its two ends
pub record Range : Type 0 where
  pub start_bound : Bound
  pub end_bound : Bound

abbrev pub is_lt : Ordering → Bool
is_lt o = elim o [ lt ↦ true | eq ↦ false | gt ↦ false ]

abbrev pub is_gt : Ordering → Bool
is_gt o = elim o [ lt ↦ false | eq ↦ false | gt ↦ true ]

abbrev pub is_le : Ordering → Bool
is_le o = elim o [ lt ↦ true | eq ↦ true | gt ↦ false ]

abbrev above_start : Bound → Bytes → Bool
above_start (included b) k = is_le (cmp_bytes b k)
above_start (excluded b) k = is_lt (cmp_bytes b k)
above_start unbounded k = true

abbrev below_end : Bound → Bytes → Bool
below_end (included b) k = is_le (cmp_bytes k b)
below_end (excluded b) k = is_lt (cmp_bytes k b)
below_end unbounded k = true

-- `range.contains(&key)`
unfoldable pub range_contains : Range → Bytes → Bool
range_contains r k = above_start r.start_bound k && below_end r.end_bound k

-- `trait Comparator`
pub record Comparator : Type 0 where
  pub cmp : Bytes → Bytes → Ordering
  pub contains : Range → Bytes → Bool

unfoldable pub ascend : Comparator
unfolding cmp_bytes range_contains
ascend = record { cmp = cmp_bytes; contains = range_contains }

unfoldable pub descend : Comparator
unfolding cmp_bytes range_contains
descend = record { cmp = λ a b. cmp_bytes b a; contains = range_contains }

-- the comparator of an `Arc` or an `Rc`, which calls the one inside
unfoldable pub forwarding : Comparator → Comparator
forwarding c = record { cmp = λ a b. c.cmp a b; contains = λ r k. c.contains r k }

-- `trait Trailer`, with the size and the alignment that the compiler gives the type
pub record Trailer (T : Type 0) : Type 0 where
  pub version : T → ℕ
  pub size_of : ℕ
  pub align_of : ℕ

abbrev pub u64_trailer : Trailer ℕ
u64_trailer = record { version = λ t. t; size_of = 8; align_of = 8 }

abbrev pub unit_trailer : Trailer (Unit {0})
unit_trailer = record { version = λ _. 0; size_of = 0; align_of = 1 }
