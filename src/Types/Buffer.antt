-- ===== src/Types/Buffer.antt =====
-- How a vacant buffer behaves over its calls.
use skl.Prelude.{
  ℕ, zero, suc, ◌+◌, ◌-◌, ◌≤◌, ◌<◌, ◌≡◌, refl, ap, sym, ◌∙◌, none, some, [], ◌∷◌, ◌++◌, ◌⊎◌, inl,
  inr, ltb, Bool-cases, arith, length, length-append, take, drop,
}
use mathlib.Core.List.{map, append_assoc, append-nil}
use skl.Compare.{Bytes}
use skl.Types.{VacantBuffer, remaining, contents, fill, overwrite, write}

length-take_le : (n : ℕ) (xs : Bytes) → n ≤ length xs → length (take n xs) ≡ n
length-take_le zero xs h = refl
length-take_le (suc n) [] h = absurd (omega arith)
length-take_le (suc n) (x ∷ xs) h = ap suc (length-take_le n xs (omega arith))

length-drop : (n : ℕ) (xs : Bytes) → length (drop n xs) + n ≡ length xs + (n - length xs)
length-drop zero xs = omega arith
length-drop (suc n) [] = omega arith
length-drop (suc n) (x ∷ xs) = omega (arith, length-drop n xs)

take-append : (xs ys : Bytes) → take (length xs) (xs ++ ys) ≡ xs
take-append [] ys = refl
take-append (x ∷ xs) ys = ap (λ l. x ∷ l) (take-append xs ys)

pub drop_all : (n : ℕ) (xs : Bytes) → length xs ≤ n → (take n xs ≡ xs) × (drop n xs ≡ [])
drop_all zero [] h = (refl, refl)
drop_all zero (x ∷ xs) h = absurd (omega arith)
drop_all (suc n) [] h = (refl, refl)
drop_all (suc n) (x ∷ xs) h = let r = drop_all n xs (omega arith) in (ap (λ l. x ∷ l) r.0, r.1)

-- The slice is as long as the capacity, and what is written fits.
pub record IsBuffer (b : VacantBuffer) : Type 0 where
  pub sized : length b.value ≡ b.cap
  pub fits : b.len ≤ b.cap

module _ (bytes : Bytes) (b : VacantBuffer) (is : IsBuffer b)
    (room : length bytes ≤ remaining b) where
  start : Bytes
  start = take b.len b.value ++ bytes

  rest : Bytes
  rest = drop (b.len + length bytes) b.value

  length-start : length start ≡ b.len + length bytes
  unfolding start
  length-start = omega (
    arith,
    length-append (take b.len b.value) bytes,
    length-take_le b.len b.value (omega (arith, is.sized, is.fits)),
  )

  regrouped : (overwrite bytes b).value ≡ start ++ rest
  unfolding start rest overwrite
  regrouped = sym (append_assoc (take b.len b.value) bytes rest)

  overwrite-IsBuffer : IsBuffer (overwrite bytes b)
  unfolding overwrite rest remaining
  overwrite-IsBuffer = record {
    sized =
        ap length regrouped
        ∙ omega (
          arith,
          length-append start rest,
          length-start,
          length-drop (b.len + length bytes) b.value,
          is.sized,
          is.fits,
          room,
        );
    fits = omega (arith, is.fits, room);
  }

  contents-overwrite : contents (overwrite bytes b) ≡ contents b ++ bytes
  unfolding overwrite contents start
  contents-overwrite = rw (regrouped, ← length-start) (take-append start rest)

-- A write succeeds exactly when the bytes fit; it keeps the buffer in shape and appends the bytes to
-- its contents, and a refused write leaves it as it was and reports the sizes.
pub write_lem :
    (bytes : Bytes) (b : VacantBuffer)
    → IsBuffer b
    → IsBuffer (write bytes b).1
      × (((length bytes ≤ remaining b)
            × ((write bytes b).0 ≡ none)
            × (contents (write bytes b).1 ≡ contents b ++ bytes))
          ⊎ ((remaining b < length bytes)
              × ((write bytes b).0
                  ≡ some (record { remaining = remaining b; write = length bytes }))
              × ((write bytes b).1 ≡ b)))
unfolding write
write_lem bytes b is = elim (Bool-cases (ltb (remaining b) (length bytes))) [
  | inl over ↦ rw over (is, inr (ground arith, refl, refl))
  | inr room ↦
      let fit : length bytes ≤ remaining b = ground arith in
      rw room
        (overwrite-IsBuffer bytes b is fit, inl (fit, refl, contents-overwrite bytes b is fit))
]

-- `fill` marks the whole buffer as written, and stores the given byte nowhere.
pub fill_keeps :
    (byte : ℕ) (b : VacantBuffer)
    → IsBuffer b
    → ((fill byte b).value ≡ b.value) × (contents (fill byte b) ≡ b.value)
unfolding fill contents
fill_keeps byte b is =
    let r = drop_all b.cap b.value (omega (arith, is.sized)) in
    let same : take b.cap b.value ++ map (λ _. byte) (drop b.cap b.value) ≡ b.value =
      rw (r.0, r.1) (append-nil b.value) in
    (same, rw same r.0)
