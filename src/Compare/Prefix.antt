-- ===== src/Compare/Prefix.antt =====
-- When the search of `find_splice_for_level` can meet a longer key with the searched one as prefix.
use skl.Prelude.{true, [], ◌∷◌, lt, eq, ◌≡◌, ◌⊎◌, inl, inr, refl, arith}
use skl.Compare.{Bytes, cmp_bytes, starts_with}

-- A key that starts with `k` is equal to `k` or comes behind it in the order of slices, so that
-- `compare(key, next_key)` is not `Greater` for a comparator of that order.
pub not-gt_of_starts_with :
    (k l : Bytes) → starts_with l k ≡ true → (cmp_bytes k l ≡ lt) ⊎ (cmp_bytes k l ≡ eq)
unfolding cmp_bytes starts_with
not-gt_of_starts_with [] [] h = inr refl
not-gt_of_starts_with [] (y ∷ ys) h = inl refl
not-gt_of_starts_with (x ∷ xs) [] h = cc
not-gt_of_starts_with (x ∷ xs) (y ∷ ys) h = ground (arith, not-gt_of_starts_with xs ys)
