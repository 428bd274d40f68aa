-- ===== src/Kmalloc/Orders.antt =====
-- kernel/kmalloc.c: the order of a size.
use bingos.Common.{
  ℕ, zero, suc, ◌+◌, ◌*◌, ◌≤◌, ◌<◌, ◌≡◌, Option, none, some, List, [], ◌∷◌, length, leb, arith, inl,
  inr, Bool-cases, get_or, subst,
}
use bingos.Kmalloc.{block_counts, block_sizes, blocksize, nblocks, order_from, get_order}

-- The orders are those below 8; the blocks of a page fill it at most, and have room for a header.
pub order_fits : (o : ℕ) → o < 8 → (16 + nblocks o * blocksize o ≤ 4096) × (32 ≤ blocksize o)
unfolding nblocks blocksize
order_fits zero h = (omega arith, omega arith)
order_fits (suc zero) h = (omega arith, omega arith)
order_fits (suc (suc zero)) h = (omega arith, omega arith)
order_fits (suc (suc (suc zero))) h = (omega arith, omega arith)
order_fits (suc (suc (suc (suc zero)))) h = (omega arith, omega arith)
order_fits (suc (suc (suc (suc (suc zero))))) h = (omega arith, omega arith)
order_fits (suc (suc (suc (suc (suc (suc zero)))))) h = (omega arith, omega arith)
order_fits (suc (suc (suc (suc (suc (suc (suc zero))))))) h = (omega arith, omega arith)
order_fits (suc (suc (suc (suc (suc (suc (suc (suc o)))))))) h = absurd (omega arith)

pub order_count : (o : ℕ) → o < 8 → 1 ≤ nblocks o
unfolding nblocks block_counts
order_count zero h = omega arith
order_count (suc zero) h = omega arith
order_count (suc (suc zero)) h = omega arith
order_count (suc (suc (suc zero))) h = omega arith
order_count (suc (suc (suc (suc zero)))) h = omega arith
order_count (suc (suc (suc (suc (suc zero))))) h = omega arith
order_count (suc (suc (suc (suc (suc (suc zero)))))) h = omega arith
order_count (suc (suc (suc (suc (suc (suc (suc zero))))))) h = omega arith
order_count (suc (suc (suc (suc (suc (suc (suc (suc o)))))))) h = absurd (omega arith)

-- What the loop finds in the sizes from an order on: the first that is large enough.
IsOrderFrom : List ℕ → ℕ → ℕ → Option ℕ → Type 0
IsOrderFrom sizes first size none = (k : ℕ) → k < length sizes → get_or sizes k 0 < size
IsOrderFrom sizes first size (some o) =
    (i : ℕ) × (o ≡ first + i)
    × (i < length sizes)
    × (size ≤ get_or sizes i 0)
    × ((k : ℕ) → k < i → get_or sizes k 0 < size)

order_from-IsOrderFrom :
    (sizes : List ℕ) (first size : ℕ) → IsOrderFrom sizes first size (order_from sizes first size)
unfolding order_from IsOrderFrom
order_from-IsOrderFrom [] first size = λ k h. absurd (omega arith)
order_from-IsOrderFrom (s ∷ sizes) first size = elim (Bool-cases (leb size s)) [
  | inl e ↦ rw e (0, omega arith, omega arith, ground arith, λ k h. absurd (omega arith))
  | inr e ↦ rw e (
      behind (order_from sizes (suc first) size) (order_from-IsOrderFrom sizes (suc first) size)
        (ground arith))
]
  where
    smaller_all :
        (n : ℕ)
        → ((k : ℕ) → k < n → get_or sizes k 0 < size)
        → s < size
        → (k : ℕ) → k < suc n
        → get_or (s ∷ sizes) k 0 < size
    smaller_all n h less zero l = less
    smaller_all n h less (suc k) l = h k (omega arith)

    behind :
        (o : Option ℕ)
        → IsOrderFrom sizes (suc first) size o
        → s < size
        → IsOrderFrom (s ∷ sizes) first size o
    behind none h less = smaller_all (length sizes) h less
    behind (some o) (i, e, l, fits, smaller) less =
        (suc i, omega arith, omega arith, fits, smaller_all i smaller less)

-- The order of a size: the least whose blocks have room for it and a header.
unfoldable pub IsOrder : ℕ → Option ℕ → Type 0
IsOrder size none = 4068 < size
IsOrder size (some o) =
    (o < 8) × (size + 12 ≤ blocksize o) × ((k : ℕ) → k < o → blocksize k < size + 12)

-- get_order of a size finds the least order whose blocks have room for the size and a header; for a
-- size above 4068, which __kmalloc still takes for a small one up to 4080, it ends without a return.
pub get_order-IsOrder : (size : ℕ) → IsOrder size (get_order size)
unfolding IsOrder get_order IsOrderFrom blocksize block_sizes
get_order-IsOrder size =
    by_result (order_from block_sizes 0 (size + 12))
      (order_from-IsOrderFrom block_sizes 0 (size + 12))
  where
    by_result : (o : Option ℕ) → IsOrderFrom block_sizes 0 (size + 12) o → IsOrder size o
    by_result none h = let last = h 7 (omega arith) in omega (arith, last)
    by_result (some o) (i, e, l, fits, smaller) =
        let same : i ≡ o = omega (arith, e) in
        subst
          (λ k.
            (k < 8)
            × (size + 12 ≤ get_or block_sizes k 0)
            × ((j : ℕ) → j < k → get_or block_sizes j 0 < size + 12))
          same (l, fits, smaller)
