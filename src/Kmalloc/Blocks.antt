-- ===== src/Kmalloc/Blocks.antt =====
-- kernel/kmalloc.c: where the blocks of a page are.
use bingos.Common.{
  ℕ, zero, suc, ◌+◌, ◌-◌, ◌*◌, ◌/◌, ◌%◌, ◌≤◌, ◌<◌, ◌≡◌, ◌≢◌, ◌⊎◌, refl, sym, ap, ◌∙◌, false, List,
  [], ◌∷◌, ◌==◌, arith, inl, inr, All,
}
use native.Mathlib.Decide.{dec_lt}
use bingos.Kmalloc.{blocksize, nblocks, chain}
use bingos.Kmalloc.Orders.{order_fits}

-- A header of the page at `a`, which is cut into the blocks of an order.
unfoldable pub IsBlock : ℕ → ℕ → ℕ → Type 0
IsBlock o a b = (k : ℕ) × (k < nblocks o) × (b ≡ a + 16 + k * blocksize o)

times_le : (a b c : ℕ) → suc a ≤ b → a * c + c ≤ b * c
times_le a b c h = let e : b ≡ suc a + (b - suc a) = omega arith in more (b - suc a) e
  where
    more : (d : ℕ) → b ≡ suc a + d → a * c + c ≤ b * c
    more d e =
        let f : (suc a + d) * c ≡ a * c + c + d * c = grind arith in
        let g : b * c ≡ (suc a + d) * c = ap (λ x. x * c) e in omega (arith, f, g)

-- A block lies in its page behind the descriptor.
pub IsBlock-page : (o a b : ℕ) → o < 8 → IsBlock o a b → (a + 16 ≤ b) × (b + blocksize o ≤ a + 4096)
unfolding IsBlock
IsBlock-page o a b h (k, l, e) =
    let fits = order_fits o h in
    let inside = times_le k (nblocks o) (blocksize o) l in
    (omega (arith, e), omega (arith, e, fits, inside))

-- The start of the page of a block, as `PAGE_DESC` finds it.
pub page_of_block : (o a b : ℕ) → o < 8 → a % 4096 ≡ 0 → IsBlock o a b → b / 4096 * 4096 ≡ a
page_of_block o a b h e block =
    let (low, high) = IsBlock-page o a b h block in
    let room = order_fits o h in omega (arith, low, high, room)

-- Two blocks of a page lie apart.
pub blocks_apart :
    (o a b c : ℕ)
    → IsBlock o a b
    → IsBlock o a c
    → b ≢ c
    → (b + blocksize o ≤ c) ⊎ (c + blocksize o ≤ b)
unfolding IsBlock
blocks_apart o a b c (k, l, e) (j, m, d) differ = elim (dec_lt k j) [
  | yes p ↦ let t = times_le k j (blocksize o) p in inl (omega (arith, e, d, t))
  | no p ↦ elim (dec_lt j k) [
    | yes q ↦ let t = times_le j k (blocksize o) q in inr (omega (arith, e, d, t))
    | no q ↦ absurd (differ (same (omega arith)))
  ]
]
  where
    same : k ≡ j → b ≡ c
    same p = e ∙ rw p (sym d)

-- Elements that are all different.
unfoldable pub Distinct : List ℕ → Type 0
Distinct [] = Unit
Distinct (x ∷ xs) = All (λ y. (y == x) ≡ false) xs × Distinct xs

pub chain-IsBlock :
    (left k o a : ℕ)
    → k + left ≡ nblocks o
    → All (IsBlock o a) (chain left (a + 16 + k * blocksize o) (blocksize o))
unfolding chain IsBlock
chain-IsBlock zero k o a h = tt
chain-IsBlock (suc left) k o a h =
    let size = blocksize o in
    let step : a + 16 + suc k * size ≡ a + 16 + k * size + size = next k size in
    let rest = chain-IsBlock left (suc k) o a (omega arith) in
    ((k, omega arith, refl), rw step at rest)
  where
    next : (i size : ℕ) → a + 16 + suc i * size ≡ a + 16 + i * size + size
    next i size = grind arith

chain-above : (left p q size : ℕ) → q < p → All (λ y. (y == q) ≡ false) (chain left p size)
unfolding chain
chain-above zero p q size h = tt
chain-above (suc left) p q size h = (ground arith, chain-above left (p + size) q size (omega arith))

pub chain-Distinct : (left p size : ℕ) → 1 ≤ size → Distinct (chain left p size)
unfolding chain Distinct
chain-Distinct zero p size h = tt
chain-Distinct (suc left) p size h =
    (chain-above left (p + size) p size (omega arith), chain-Distinct left (p + size) size h)
