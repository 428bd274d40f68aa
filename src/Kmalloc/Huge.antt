-- ===== src/Kmalloc/Huge.antt =====
-- kernel/kmalloc.c: which huge block __kmalloc hands out of its queue.
use bingos.Common.{
  ℕ, ◌+◌, ◌<◌, ◌≡◌, refl, ap, true, Option, none, some, List, [], ◌∷◌, leb, ltb, if◌then◌else◌,
  arith,
}
use bingos.Kmalloc.{Kheap, huge_loop, huge_kmalloc, kmalloc}

-- The blocks of a queue that are too small.
pub too_small : ℕ → List (ℕ × ℕ) → List (ℕ × ℕ)
too_small size [] = []
too_small size ((b, s) ∷ queue) =
    let rest = too_small size queue in if leb size s then rest else (b, s) ∷ rest

-- The block at the end of a queue.
pub last_block : ℕ × ℕ → List (ℕ × ℕ) → ℕ
last_block (b, s) [] = b
last_block (b, s) (next ∷ queue) = last_block next queue

huge_loop-last :
    (size : ℕ) (first : ℕ × ℕ) (queue : List (ℕ × ℕ)) (header : Option ℕ)
    → huge_loop size (first ∷ queue) header
      ≡ (some (last_block first queue), too_small size (first ∷ queue))
unfolding huge_loop too_small last_block
huge_loop-last size (b, s) [] header = refl
huge_loop-last size (b, s) (next ∷ queue) header =
    ap (λ r. (r.0, (if leb size s then r.1 else (b, s) ∷ r.1)))
      (huge_loop-last size next queue (some b))

huge_kmalloc-found :
    (size b : ℕ) (queue : List (ℕ × ℕ)) (h : Kheap)
    → huge_loop size h.huge none ≡ (some b, queue)
    → huge_kmalloc size h ≡ (b + 4096, record h { huge = queue })
unfolding huge_kmalloc
huge_kmalloc-found size b queue h e = rw (e, huge_kmalloc, e) refl

-- When the queue of huge blocks is not empty, kmalloc of a huge size returns the block at its end,
-- whatever its size, takes every block that is large enough out of the queue, and leaves a block that
-- it returns and that is too small in the queue.
pub kmalloc-last_block :
    (size : ℕ) (first : ℕ × ℕ) (queue : List (ℕ × ℕ)) (h : Kheap)
    → 4080 < size
    → h.huge ≡ first ∷ queue
    → kmalloc size h
      ≡ some (last_block first queue + 4096, record h { huge = too_small size (first ∷ queue) })
unfolding kmalloc
kmalloc-last_block size first queue h large full =
    let e : ltb 4080 size ≡ true = ground arith in
    let loop : huge_loop size h.huge none
        ≡ (some (last_block first queue), too_small size (first ∷ queue)) =
      rw full (huge_loop-last size first queue none) in
    rw (e, huge_kmalloc-found size (last_block first queue) (too_small size (first ∷ queue)) h loop)
      refl
