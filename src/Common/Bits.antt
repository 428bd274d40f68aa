-- ===== src/Common/Bits.antt =====
-- The bits of a word: what `|`, `&` and `~` do to each of them.
use Prim.Native.Nat.{
  ℕ, zero, suc, ◌+◌, ◌-◌, ◌*◌, ◌/◌, ◌%◌, ◌^◌, ◌≤◌, ◌<◌, min, max, digits, bitwise, bit_and, bit_or,
  bit_and-bitwise, bit_or-bitwise,
}
use mathlib.Core.Path.{◌≡◌, refl}
use native.Mathlib.Nat.{pow-suc}
use native.Mathlib.Omega.{arith}
use bingos.Common.Tests.{◌==◌, if◌then◌else◌}

-- The fuel of `digits` does not matter once it covers the first word.
fuel_enough :
    (z : ℕ → ℕ) (f : ℕ → ℕ → ℕ) (n m a b : ℕ) → a ≤ n → a ≤ m → digits z f n a b ≡ digits z f m a b
fuel_enough z f zero zero a b p q = refl
fuel_enough z f zero (suc m) zero b p q = refl
fuel_enough z f (suc n) zero zero b p q = refl
fuel_enough z f (suc n) (suc m) zero b p q = refl
fuel_enough z f zero (suc m) (suc a) b p q = absurd (omega arith)
fuel_enough z f (suc n) zero (suc a) b p q = absurd (omega arith)
fuel_enough z f (suc n) (suc m) (suc a) b p q =
    let half = fuel_enough z f n m (suc a / 2) (b / 2) (omega arith) (omega arith) in rw half

lowest :
    (z : ℕ → ℕ) (f : ℕ → ℕ → ℕ) (a b : ℕ)
    → bitwise z f (suc a) b ≡ bitwise z f (suc a / 2) (b / 2) * 2 + f (suc a % 2) (b % 2)
lowest z f a b =
    let same = fuel_enough z f a (suc a / 2) (suc a / 2) (b / 2) (omega arith) (omega arith) in
    omega (arith, same)

or_halves : (a b : ℕ) → bit_or a b ≡ bit_or (a / 2) (b / 2) * 2 + max (a % 2) (b % 2)
or_halves zero b = simp bit_or-bitwise (omega arith)
or_halves (suc a) b = simp bit_or-bitwise (lowest (λ y. y) max a b)

and_halves : (a b : ℕ) → bit_and a b ≡ bit_and (a / 2) (b / 2) * 2 + min (a % 2) (b % 2)
and_halves zero b = simp bit_and-bitwise (omega arith)
and_halves (suc a) b = simp bit_and-bitwise (lowest (λ y. 0) min a b)

-- Bit `i` of `a`, 0 or 1.
pub bit : ℕ → ℕ → ℕ
bit zero a = a % 2
bit (suc i) a = bit i (a / 2)

pub bit-le-one : (i a : ℕ) → bit i a ≤ 1
unfolding bit
bit-le-one zero a = omega arith
bit-le-one (suc i) a = bit-le-one i (a / 2)

pub bit-bit_or : (i a b : ℕ) → bit i (bit_or a b) ≡ max (bit i a) (bit i b)
unfolding bit
bit-bit_or zero a b = omega (arith, or_halves a b)
bit-bit_or (suc i) a b =
    let e : bit_or a b / 2 ≡ bit_or (a / 2) (b / 2) = omega (arith, or_halves a b) in
    rw e (bit-bit_or i (a / 2) (b / 2))

pub bit-bit_and : (i a b : ℕ) → bit i (bit_and a b) ≡ min (bit i a) (bit i b)
unfolding bit
bit-bit_and zero a b = omega (arith, and_halves a b)
bit-bit_and (suc i) a b =
    let e : bit_and a b / 2 ≡ bit_and (a / 2) (b / 2) = omega (arith, and_halves a b) in
    rw e (bit-bit_and i (a / 2) (b / 2))

pub bit-zero : (i : ℕ) → bit i 0 ≡ 0
unfolding bit
bit-zero zero = refl
bit-zero (suc i) = bit-zero i

half-pow : (j : ℕ) → (2 ^ suc j / 2 ≡ 2 ^ j) × (2 ^ suc j % 2 ≡ 0)
half-pow j = omega (arith, pow-suc 2 j)

-- `1 << j`
pub bit-pow : (i j : ℕ) → bit i (2 ^ j) ≡ (if i == j then 1 else 0)
unfolding bit
bit-pow zero zero = refl
bit-pow zero (suc j) = ground (arith, half-pow j)
bit-pow (suc i) zero = ground (arith, bit-zero i)
bit-pow (suc i) (suc j) = rw ((half-pow j).0, bit-pow i j) (ground arith)

-- `~a`, in `k` bits.
pub bit-complement : (i k a : ℕ) → i < k → a < 2 ^ k → bit i (2 ^ k - 1 - a) ≡ 1 - bit i a
unfolding bit
bit-complement i zero a h s = absurd (omega arith)
bit-complement zero (suc k) a h s = omega (arith, pow-suc 2 k)
bit-complement (suc i) (suc k) a h s =
    let e : (2 ^ suc k - 1 - a) / 2 ≡ 2 ^ k - 1 - a / 2 = omega (arith, pow-suc 2 k) in
    rw e (bit-complement i k (a / 2) (omega arith) (omega (arith, pow-suc 2 k)))

and-zero : (n a : ℕ) → a ≤ n → bit_and a 0 ≡ 0
and-zero zero zero h = refl
and-zero zero (suc a) h = absurd (omega arith)
and-zero (suc n) zero h = refl
and-zero (suc n) (suc a) h =
    omega (arith, and_halves (suc a) 0, and-zero n (suc a / 2) (omega arith))

-- `a & (1 << j)`
pub bit_and-pow : (j a : ℕ) → bit_and a (2 ^ j) ≡ bit j a * 2 ^ j
unfolding bit
bit_and-pow zero a = omega (arith, and_halves a 1, and-zero (a / 2) (a / 2) (omega arith))
bit_and-pow (suc j) a =
    grind (arith, and_halves a (2 ^ suc j), half-pow j, pow-suc 2 j, bit_and-pow j (a / 2))
