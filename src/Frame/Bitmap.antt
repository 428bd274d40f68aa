-- ===== src/Frame/Bitmap.antt =====
-- kernel/frame.c: what setting and clearing one bit does to every frame.
use Prim.Native.Nat.{bit_and, bit_or}
use native.Mathlib.Nat.{pow-suc}
use bingos.Common.{
  ℕ, zero, suc, ◌-◌, ◌/◌, ◌%◌, ◌^◌, ◌≤◌, ◌<◌, ◌≡◌, refl, ap, Bool, true, false, not, ◌==◌, inl, inr,
  if◌then◌else◌, Bool-cases, ==_iff, arith,
}
use bingos.Common.Bits.{
  bit, bit-le-one, bit-bit_or, bit-bit_and, bit-pow, bit-complement, bit_and-pow,
}
use bingos.Frame.{Frames, store, bitmap_set, bitmap_unset, bitmap_test, is_used}

pub pow_positive : (j : ℕ) → 1 ≤ 2 ^ j
pow_positive zero = omega arith
pow_positive (suc j) = omega (arith, pow_positive j, pow-suc 2 j)

pub test_zero : (j w : ℕ) → (bit_and w (2 ^ j) == 0) ≡ (bit j w == 0)
test_zero j w = rw (bit_and-pow j w) (elim (Bool-cases (bit j w == 0)) [
  | inl e ↦ grind (arith, pow_positive j, bit-le-one j w)
  | inr e ↦ grind (arith, pow_positive j, bit-le-one j w)
])

pow-lt : (k j : ℕ) → j < k → 2 ^ j < 2 ^ k
pow-lt zero j h = absurd (omega arith)
pow-lt (suc k) zero h = omega (arith, pow_positive k, pow-suc 2 k)
pow-lt (suc k) (suc j) h = omega (arith, pow-lt k j (omega arith), pow-suc 2 k, pow-suc 2 j)

-- Bit by bit, a word with bit `j` set.
set_word : (i j w : ℕ) → bit i (bit_or w (2 ^ j)) ≡ (if i == j then 1 else bit i w)
set_word i j w = rw (bit-bit_or i w (2 ^ j), bit-pow i j) (ground (arith, bit-le-one i w))

unset_word :
    (i j w : ℕ)
    → i < 32
    → j < 32
    → bit i (bit_and w (2 ^ 32 - 1 - 2 ^ j)) ≡ (if i == j then 0 else bit i w)
unset_word i j w p q =
    rw
      (
        bit-bit_and i w (2 ^ 32 - 1 - 2 ^ j),
        bit-complement i 32 (2 ^ j) p (pow-lt 32 j q),
        bit-pow i j,
      )
      (ground (arith, bit-le-one i w))

pub is_used-bit :
    (f : Frames) (b : ℕ) → is_used f b ≡ not (bit (b % 32) (f.frame_map (b / 32)) == 0)
unfolding is_used bitmap_test
is_used-bit f b = ap not (test_zero (b % 32) (f.frame_map (b / 32)))

same_word : (b c : ℕ) → c / 32 ≡ b / 32 → (c == b) ≡ (c % 32 == b % 32)
same_word b c d = ground arith

other_word : (b c : ℕ) → (c / 32 == b / 32) ≡ false → (c == b) ≡ false
other_word b c e = ground arith

used-if : (t : Bool) (w : ℕ) → not ((if t then 1 else w) == 0) ≡ (if t then true else not (w == 0))
used-if true w = refl
used-if false w = refl

unused-if :
    (t : Bool) (w : ℕ) → not ((if t then 0 else w) == 0) ≡ (if t then false else not (w == 0))
unused-if true w = refl
unused-if false w = refl

pub is_used-set :
    (f : Frames) (b c : ℕ) → is_used (bitmap_set b f) c ≡ (if c == b then true else is_used f c)
unfolding bitmap_set store
is_used-set f b c =
    rw (is_used-bit (bitmap_set b f) c, is_used-bit f c)
      (elim (Bool-cases (c / 32 == b / 32)) [
        | inl e ↦
            let d : c / 32 ≡ b / 32 = (==_iff (c / 32) (b / 32)).0 e in
            rw (e, set_word (c % 32) (b % 32) (f.frame_map (b / 32)), same_word b c d, d)
              (used-if (c % 32 == b % 32) (bit (c % 32) (f.frame_map (b / 32))))
        | inr e ↦ rw (e, other_word b c e)
      ])

pub is_used-unset :
    (f : Frames) (b c : ℕ) → is_used (bitmap_unset b f) c ≡ (if c == b then false else is_used f c)
unfolding bitmap_unset store
is_used-unset f b c =
    rw (is_used-bit (bitmap_unset b f) c, is_used-bit f c)
      (elim (Bool-cases (c / 32 == b / 32)) [
        | inl e ↦
            let d : c / 32 ≡ b / 32 = (==_iff (c / 32) (b / 32)).0 e in
            rw
              (
                e,
                unset_word (c % 32) (b % 32) (f.frame_map (b / 32)) (omega arith) (omega arith),
                same_word b c d,
                d,
              )
              (unused-if (c % 32 == b % 32) (bit (c % 32) (f.frame_map (b / 32))))
        | inr e ↦ rw (e, other_word b c e)
      ])
