-- ===== src/Net/Checksum.antt =====
-- net/net.c: the checksum of an IPv4 header, as its receiver verifies it.
use bingos.Common.{
  ℕ, zero, suc, ◌+◌, ◌-◌, ◌/◌, ◌%◌, ◌^◌, ◌≤◌, ◌≡◌, ◌↔◌, ◌*◌, ◌<◌, refl, List, [], ◌∷◌, length, All,
  arith, ltb, if◌then◌else◌,
}
use bingos.Net.{htons, load16, sum_words, calculate_ipv4_checksum}

htons-bound : (s : ℕ) → htons s ≤ 65535
unfolding htons
htons-bound s = omega arith

sum_words-bound : (n i : ℕ) (packet : List ℕ) → sum_words n i packet ≤ n * 65535
unfolding sum_words
sum_words-bound zero i packet = omega arith
sum_words-bound (suc n) i packet =
    omega (arith, htons-bound (load16 i packet), sum_words-bound n (i + 2) packet)

-- A one's complement sum of 16-bit words: carries are added back until none is left. Three times are
-- enough below 2 ^ 32.
unfoldable pub end_around : ℕ → ℕ
end_around s = s / 2 ^ 16 + s % 2 ^ 16

-- The checksum of a header, from the sum of its words.
abbrev complement_of : ℕ → ℕ
complement_of sum =
    (65535 - (if ltb 65535 sum then sum / 2 ^ 16 + sum % 2 ^ 16 else sum) % 2 ^ 16) % 2 ^ 16

complement_verifies :
    (sum : ℕ)
    → sum ≤ 655350
    → (end_around (end_around (sum + complement_of sum)) ≡ 65535)
      ↔ (sum / 2 ^ 16 + sum % 2 ^ 16 ≤ 65535)
unfolding end_around
complement_verifies sum h = ground arith

-- The sum of the words of a header as its receiver reads it: each word from two bytes, the high one
-- first.
unfoldable pub word_sum : List ℕ → ℕ
word_sum [] = 0
word_sum (a ∷ []) = a * 256
word_sum (a ∷ b ∷ rest) = a * 256 + b + word_sum rest

sum_words-behind :
    (n i a b : ℕ) (rest : List ℕ) → sum_words n (suc (suc i)) (a ∷ b ∷ rest) ≡ sum_words n i rest
unfolding sum_words load16
sum_words-behind zero i a b rest = refl
sum_words-behind (suc n) i a b rest =
    let next : suc (suc i) + 2 ≡ suc (suc (i + 2)) = omega arith in
    rw (next, sum_words-behind n (i + 2) a b rest) refl

sum_words-word_sum :
    (n : ℕ) (packet : List ℕ)
    → length packet ≡ n + n
    → All (λ x. x < 256) packet
    → sum_words n 0 packet ≡ word_sum packet
unfolding sum_words load16 htons word_sum
sum_words-word_sum zero [] h bytes = refl
sum_words-word_sum zero (a ∷ packet) h bytes = absurd (omega arith)
sum_words-word_sum (suc n) [] h bytes = absurd (omega arith)
sum_words-word_sum (suc n) (a ∷ []) h bytes = absurd (omega arith)
sum_words-word_sum (suc n) (a ∷ b ∷ packet) h (small_a, (small_b, bytes)) =
    let rest = sum_words-word_sum n packet (omega (arith, h)) bytes in
    rw (sum_words-behind n 0 a b packet, rest) (omega (arith, small_a, small_b))

-- calculate_ipv4_checksum returns the number that makes the one's complement sum of the header 0xffff,
-- which is how a receiver verifies it, exactly when one fold of the sum leaves no carry, for a header
-- of twenty bytes. The field of the checksum is 0 in the header that is summed.
pub calculate_ipv4_checksum_verifies :
    (packet : List ℕ)
    → length packet ≡ 20
    → All (λ x. x < 256) packet
    → (end_around (end_around (word_sum packet + calculate_ipv4_checksum packet)) ≡ 65535)
      ↔ (word_sum packet / 2 ^ 16 + word_sum packet % 2 ^ 16 ≤ 65535)
unfolding calculate_ipv4_checksum
calculate_ipv4_checksum_verifies packet size bytes =
    let sum = sum_words-word_sum 10 packet (omega (arith, size)) bytes in
    let bound = rw sum at (sum_words-bound 10 0 packet) in
    rw sum (complement_verifies (word_sum packet) bound)
