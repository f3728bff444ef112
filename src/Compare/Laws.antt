-- ===== src/Compare/Laws.antt =====
-- What the map needs of a comparator, that both comparators of the crate have it, and the order of
-- entries that it gives: by key, and among equal keys the newest version first.
use skl.Prelude.{ℕ, [], ◌∷◌, compare, Ordering, lt, eq, gt, ◌≡◌, refl, arith}
use skl.Compare.{Bytes, then_with, cmp_bytes, Comparator, ascend, descend}

abbrev pub opposite : Ordering → Ordering
opposite lt = gt
opposite eq = eq
opposite gt = lt

-- A total preorder, given by its three-way comparison.
pub record IsOrder {A : Type 0} (cmp : A → A → Ordering) : Type 0 where
  pub flip : (a b : A) → cmp b a ≡ opposite (cmp a b)
  pub lt_trans : (a b c : A) → cmp a b ≡ lt → cmp b c ≡ lt → cmp a c ≡ lt
  pub eq_left : (a b c : A) → cmp a b ≡ eq → cmp a c ≡ cmp b c

cmp_bytes_flip : (a b : Bytes) → cmp_bytes b a ≡ opposite (cmp_bytes a b)
unfolding cmp_bytes
cmp_bytes_flip [] [] = refl
cmp_bytes_flip [] (y ∷ ys) = refl
cmp_bytes_flip (x ∷ xs) [] = refl
cmp_bytes_flip (x ∷ xs) (y ∷ ys) = ground (arith, cmp_bytes_flip xs ys)

cmp_bytes_trans : (a b c : Bytes) → cmp_bytes a b ≡ lt → cmp_bytes b c ≡ lt → cmp_bytes a c ≡ lt
unfolding cmp_bytes
cmp_bytes_trans [] [] c h k = k
cmp_bytes_trans [] (y ∷ ys) [] h k = cc
cmp_bytes_trans [] (y ∷ ys) (z ∷ zs) h k = refl
cmp_bytes_trans (x ∷ xs) [] c h k = cc
cmp_bytes_trans (x ∷ xs) (y ∷ ys) [] h k = cc
cmp_bytes_trans (x ∷ xs) (y ∷ ys) (z ∷ zs) h k = ground (arith, cmp_bytes_trans xs ys zs)

pub cmp_bytes-eq : (a b : Bytes) → cmp_bytes a b ≡ eq → a ≡ b
unfolding cmp_bytes
cmp_bytes-eq [] [] h = refl
cmp_bytes-eq [] (y ∷ ys) h = cc
cmp_bytes-eq (x ∷ xs) [] h = cc
cmp_bytes-eq (x ∷ xs) (y ∷ ys) h = ground (arith, cmp_bytes-eq xs ys)

-- The comparison of slices is a total order.
pub cmp_bytes-IsOrder : IsOrder cmp_bytes
cmp_bytes-IsOrder = record {
  flip = cmp_bytes_flip;
  lt_trans = cmp_bytes_trans;
  eq_left = λ a b c h. rw (cmp_bytes-eq a b h);
}

pub ascend-IsOrder : IsOrder ascend.cmp
unfolding ascend
ascend-IsOrder = cmp_bytes-IsOrder

pub descend-IsOrder : IsOrder descend.cmp
unfolding descend
descend-IsOrder = record {
  flip = λ a b. cmp_bytes_flip b a;
  lt_trans = λ a b c h k. cmp_bytes_trans c b a k h;
  eq_left = λ a b c h. rw (cmp_bytes-eq b a h);
}

-- The place of the key and version `a` against those of an entry `b`: `gt` where the entry comes
-- first. Higher versions come first.
unfoldable pub entry_order : Comparator → Bytes × ℕ → Bytes × ℕ → Ordering
entry_order c (k, v) (j, w) = then_with (c.cmp k j) (compare w v)

-- When the comparator is a total preorder of the keys, the order of the entries by key and descending
-- version is a total preorder of pairs of a key and a version.
pub entry_order-IsOrder : (c : Comparator) → IsOrder c.cmp → IsOrder (entry_order c)
unfolding entry_order
entry_order-IsOrder c o = record {
  flip = λ (k, v) (j, w). ground (arith, o.flip k j);
  lt_trans = λ (k, v) (j, w) (i, u). ground (
    arith,
    o.lt_trans k j i,
    o.eq_left k j i,
    o.eq_left i j k,
    o.flip j i,
    o.flip k i,
    o.flip k j,
  );
  eq_left = λ (k, v) (j, w) (i, u). ground (arith, o.eq_left k j i);
}
