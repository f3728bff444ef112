-- ===== src/Encoding/Bits.antt =====
-- `|` of a shifted word and a small one is a sum, at every width.
use Prim.Native.Nat.{bit_or, bit_or-bitwise, digits, max}
use native.Mathlib.Nat.{pow-suc}
use skl.Prelude.{ℕ, zero, suc, ◌+◌, ◌*◌, ◌/◌, ◌%◌, ◌^◌, ◌≤◌, ◌<◌, ◌≡◌, refl, ap, arith}

-- The digit recursion does not depend on how much fuel is left over.
or_fuel : (k l x y : ℕ) → x ≤ k → x ≤ l → digits (λ v. v) max k x y ≡ digits (λ v. v) max l x y
or_fuel k l zero y p q = elim k as (λ k. digits (λ v. v) max k 0 y ≡ digits (λ v. v) max l 0 y) [
  | zero ↦ elim l as (λ l. digits (λ v. v) max 0 0 y ≡ digits (λ v. v) max l 0 y) [
    | zero ↦ refl
    | suc l ↦ refl
  ]
  | suc k ↦ elim l as (λ l. digits (λ v. v) max (suc k) 0 y ≡ digits (λ v. v) max l 0 y) [
    | zero ↦ refl
    | suc l ↦ refl
  ]
]
or_fuel zero l (suc x) y p q = absurd (omega arith)
or_fuel (suc k) zero (suc x) y p q = absurd (omega arith)
or_fuel (suc k) (suc l) (suc x) y p q =
    omega (arith, or_fuel k l (suc x / 2) (y / 2) (omega arith) (omega arith))

-- The last binary digit, and the rest.
or_last : (x y : ℕ) → bit_or x y ≡ bit_or (x / 2) (y / 2) * 2 + max (x % 2) (y % 2)
or_last zero y = omega (arith, bit_or-bitwise 0 y, bit_or-bitwise 0 (y / 2))
or_last (suc x) y = omega (
  arith,
  bit_or-bitwise (suc x) y,
  bit_or-bitwise (suc x / 2) (y / 2),
  or_fuel x (suc x / 2) (suc x / 2) (y / 2) (omega arith) (omega arith),
)

or-zero : (k x : ℕ) → x ≤ k → bit_or x 0 ≡ x
or-zero k zero h = refl
or-zero zero (suc x) h = absurd (omega arith)
or-zero (suc k) (suc x) h = omega (arith, or_last (suc x) 0, or-zero k (suc x / 2) (omega arith))

pub or_shifted : (s hi lo : ℕ) → lo < 2 ^ s → bit_or (hi * 2 ^ s) lo ≡ hi * 2 ^ s + lo
or_shifted zero hi zero h = omega (arith, or-zero (hi * 1) (hi * 1) (omega arith))
or_shifted zero hi (suc lo) h = absurd (omega arith)
or_shifted (suc s) hi lo h =
    let twice : hi * 2 ^ suc s ≡ hi * 2 ^ s * 2 = omega (arith, ap (λ p. hi * p) (pow-suc 2 s)) in
    let half : hi * 2 ^ suc s / 2 ≡ hi * 2 ^ s = omega arith in
    omega (
      arith,
      or_last (hi * 2 ^ suc s) lo,
      ap (λ n. bit_or n (lo / 2)) half,
      or_shifted s hi (lo / 2) (omega (arith, pow-suc 2 s)),
    )
