-- ===== src/Node/Align.antt =====
-- `Node::align_offset` of src/map.rs clears the low bits of a sum on u32.
use Prim.Native.Nat.{bit_and, bit_and-bitwise, digits, min}
use native.Mathlib.Nat.{
  pow-suc, mod-add-div', mod-lt, add-mul-mod_self_right, mod-eq_of_lt, mod-le,
  lt_of_mul-lt-mul_right, mul-le-mul_right,
}
use skl.Prelude.{
  ℕ, zero, suc, ◌+◌, ◌-◌, ◌*◌, ◌/◌, ◌%◌, ◌^◌, ◌≤◌, ◌<◌, ◌≡◌, refl, ap, sym, subst, ◌∙◌, arith,
}
use skl.Node.{align_up, align_offset}

-- The digit recursion does not depend on how much fuel is left over.
and_fuel :
    (k l x y : ℕ) → x ≤ k → x ≤ l → digits (λ v. zero) min k x y ≡ digits (λ v. zero) min l x y
and_fuel k l zero y p q =
    elim k as (λ k. digits (λ v. zero) min k 0 y ≡ digits (λ v. zero) min l 0 y) [
      | zero ↦ elim l as (λ l. digits (λ v. zero) min 0 0 y ≡ digits (λ v. zero) min l 0 y) [
        | zero ↦ refl
        | suc l ↦ refl
      ]
      | suc k ↦ elim l as (λ l. digits (λ v. zero) min (suc k) 0 y ≡ digits (λ v. zero) min l 0 y) [
        | zero ↦ refl
        | suc l ↦ refl
      ]
    ]
and_fuel zero l (suc x) y p q = absurd (omega arith)
and_fuel (suc k) zero (suc x) y p q = absurd (omega arith)
and_fuel (suc k) (suc l) (suc x) y p q =
    omega (arith, and_fuel k l (suc x / 2) (y / 2) (omega arith) (omega arith))

-- The last binary digit, and the rest.
and_last : (x y : ℕ) → bit_and x y ≡ bit_and (x / 2) (y / 2) * 2 + min (x % 2) (y % 2)
and_last zero y = omega (arith, bit_and-bitwise 0 y, bit_and-bitwise 0 (y / 2))
and_last (suc x) y = omega (
  arith,
  bit_and-bitwise (suc x) y,
  bit_and-bitwise (suc x / 2) (y / 2),
  and_fuel x (suc x / 2) (suc x / 2) (y / 2) (omega arith) (omega arith),
)

and_ones : (w x : ℕ) → x < 2 ^ w → bit_and x (2 ^ w - 1) ≡ x
and_ones zero zero h = refl
and_ones zero (suc x) h = absurd (omega arith)
and_ones (suc w) x h =
    let half : (2 ^ suc w - 1) / 2 ≡ 2 ^ w - 1 = omega (arith, pow-suc 2 w, h) in
    omega (
      arith,
      pow-suc 2 w,
      and_last x (2 ^ suc w - 1),
      ap (bit_and (x / 2)) half,
      and_ones w (x / 2) (omega (arith, pow-suc 2 w)),
    )

mod_twice : (p x : ℕ) → 0 < p → x % (p * 2) ≡ x / 2 % p * 2 + x % 2
mod_twice p x pos =
    let q = x / 2 / p in
    let r = x / 2 % p * 2 + x % 2 in
    let split : x ≡ r + q * (p * 2) = grind (arith, mod-add-div' (x / 2) p) in
    let small : r < p * 2 = omega (arith, mod-lt (x / 2) pos) in
    ap (λ y. y % (p * 2)) split ∙ add-mul-mod_self_right r q (p * 2) ∙ mod-eq_of_lt small

pow_positive : (k : ℕ) → 0 < 2 ^ k
pow_positive zero = omega arith
pow_positive (suc k) = omega (arith, pow-suc 2 k, pow_positive k)

-- What a mask of high ones leaves.
pub and_high : (k d x : ℕ) → x < 2 ^ (k + d) → bit_and x (2 ^ (k + d) - 2 ^ k) ≡ x - x % 2 ^ k
and_high zero d x h =
    let same : 0 + d ≡ d = omega arith in
    rw same (omega (arith, and_ones d x (subst (λ n. x < 2 ^ n) same h)))
and_high (suc k) d x h =
    let same : suc k + d ≡ suc (k + d) = omega arith in
    let half : (2 ^ suc (k + d) - 2 ^ suc k) / 2 ≡ 2 ^ (k + d) - 2 ^ k =
      omega (arith, pow-suc 2 k, pow-suc 2 (k + d)) in
    let even : (2 ^ suc (k + d) - 2 ^ suc k) % 2 ≡ 0 =
      omega (arith, pow-suc 2 k, pow-suc 2 (k + d)) in
    let below : x / 2 < 2 ^ (k + d) = omega (arith, h, ap (λ n. 2 ^ n) same, pow-suc 2 (k + d)) in
    let rest : x % 2 ^ suc k ≡ x / 2 % 2 ^ k * 2 + x % 2 =
      ap (λ n. x % n) (pow-suc 2 k) ∙ mod_twice (2 ^ k) x (pow_positive k) in
    rw same (
      omega (
        arith,
        and_last x (2 ^ suc (k + d) - 2 ^ suc k),
        ap (bit_and (x / 2)) half,
        and_high k d (x / 2) below,
        even,
        rest,
        mod-le (x / 2) (2 ^ k),
      ))

-- For an alignment that is a power of two the masked offset is the aligned address, as long as the
-- next multiple of the alignment is one of 32 bits.
pub align_offset_lem :
    (k d offset : ℕ)
    → k + d ≡ 32
    → offset + 2 ^ k ≤ 2 ^ 32
    → align_offset (2 ^ k) offset ≡ align_up (2 ^ k) offset
unfolding align_offset align_up
align_offset_lem k d offset e b =
    let top = offset + 2 ^ k - 1 in
    let pos = pow_positive k in
    let fits : top % 2 ^ 32 ≡ top = mod-eq_of_lt (omega (arith, pos, b)) in
    let below : top < 2 ^ (k + d) = rw e (omega (arith, pos, b)) in
    let masked = and_high k d top below in
    rw fits (ap (λ n. bit_and top (2 ^ n - 2 ^ k)) (sym e) ∙ masked)

pow_sum : (k d : ℕ) → 2 ^ (k + d) ≡ 2 ^ d * 2 ^ k
pow_sum zero d = let same : 0 + d ≡ d = omega arith in rw same (omega arith)
pow_sum (suc k) d =
    let same : suc k + d ≡ suc (k + d) = omega arith in
    let assoc : 2 ^ d * (2 ^ k * 2) ≡ 2 ^ d * 2 ^ k * 2 = grind arith in
    ap (λ n. 2 ^ n) same
    ∙ pow-suc 2 (k + d)
    ∙ ap (λ x. x * 2) (pow_sum k d)
    ∙ sym assoc
    ∙ ap (λ x. 2 ^ d * x) (sym (pow-suc 2 k))

-- Behind an aligned offset of 32 bits there is room for the alignment.
pub aligned_room :
    (k d offset : ℕ)
    → k + d ≡ 32
    → align_up (2 ^ k) offset ≡ offset
    → offset < 2 ^ 32
    → offset + 2 ^ k ≤ 2 ^ 32
unfolding align_up
aligned_room k d offset e aligned small =
    let p = 2 ^ k in
    let top = offset + p - 1 in
    let q = top / p in
    let pos : 0 < p = pow_positive k in
    let multiple : offset ≡ q * p =
      omega (arith, aligned, mod-add-div' top p, mod-lt top pos, mod-le top p) in
    let whole : 2 ^ d * p ≡ 2 ^ 32 = sym (pow_sum k d) ∙ ap (λ n. 2 ^ n) e in
    let fewer : q < 2 ^ d = lt_of_mul-lt-mul_right p (omega (arith, whole, multiple, small)) in
    let next : suc q * p ≤ 2 ^ d * p = mul-le-mul_right p fewer in
    omega (arith, next, whole, multiple)
