-- ===== src/Kmalloc/Tests.antt =====
-- kernel/kmalloc.c: a heap that has just been started.
use bingos.Common.{
  ℕ, ◌+◌, ◌*◌, ◌%◌, ◌≤◌, ◌<◌, ◌≡◌, ◌⊎◌, refl, true, Option, none, some, [], ◌∷◌, ◌==◌,
  if◌then◌else◌, arith, inl, inr, Bool-cases,
}
use bingos.Kmalloc.{
  Kheap, block_sizes, block_counts, blocksize, nblocks, order_from, get_order, get_free_pages,
  chain, add_page, first_block, take_block, small_kmalloc, huge_loop, huge_kmalloc, kmalloc, kfree,
}
use bingos.Kmalloc.Orders.{IsOrder, get_order-IsOrder}
use bingos.Kmalloc.Blocks.{Distinct, IsBlock}
use bingos.Kmalloc.Invariant.{IsUsed, IsHeap, used_blocks_apart}
use bingos.Kmalloc.Laws.{IsGiven, IsReturned, kmalloc-IsGiven, kfree-IsHeap}
use bingos.Kmalloc.Huge.{too_small, last_block, kmalloc-last_block}

abbrev started : Kheap
started = record {
  kmalloc_end = 0xc0000000;
  firstfree = λ o. [];
  npages = λ o. 0;
  nmallocs = λ o. 0;
  nfrees = λ o. 0;
  nbytesmalloced = λ o. 0;
  order = λ a. none;
  free = λ a. [];
  nfree = λ a. 0;
  bh_length = λ p. none;
  huge = [];
  huge_size = λ b. none;
}

address : Option (ℕ × Kheap) → ℕ
address none = 1
address (some r) = r.0

-- The address of a second block.
second : ℕ → ℕ → Option (ℕ × Kheap) → ℕ
unfolding address
second size order none = 1
second size order (some r) = address (kmalloc size r.1)

-- The first page is passed over; the block stands behind the descriptor and a header.
kmalloc-first : address (kmalloc 20 started) ≡ 0xc000101c
unfolding address kmalloc get_order order_from block_sizes small_kmalloc first_block add_page
    get_free_pages chain blocksize nblocks block_counts take_block
kmalloc-first = refl

kmalloc-second : second 20 0 (kmalloc 20 started) ≡ 0xc000103c
unfolding second address kmalloc get_order order_from block_sizes small_kmalloc first_block add_page
    get_free_pages chain blocksize nblocks block_counts take_block
kmalloc-second = refl

-- A size that is small for __kmalloc, and for which there is no order.
get_order-missing : get_order 4080 ≡ none
unfolding get_order order_from block_sizes
get_order-missing = refl

get_order-IsOrder_example : IsOrder 20 (get_order 20)
get_order-IsOrder_example = get_order-IsOrder 20

started-IsHeap : IsHeap started
unfolding Distinct
started-IsHeap = record {
  pages = λ a o e. absurd (clash o e);
  free_blocks = λ a. tt;
  distinct = λ a. tt;
  used = λ b len e. absurd (clash len e);
  lists = λ o. tt;
  counted = λ a. refl;
  listed = λ a o e some_free. absurd (omega arith);
  started = omega arith;
}
  where
    clash : (o : ℕ) → none ≡ some o → ⊥
    clash o e = ground arith

kmalloc-IsGiven_example : (r : ℕ × Kheap) × (kmalloc 20 started ≡ some r) × IsGiven started 20 r
kmalloc-IsGiven_example = kmalloc-IsGiven 20 started started-IsHeap (omega arith) (omega arith)

-- A block of 20 bytes in use in the first page.
abbrev one_used : Kheap
one_used = record started {
  kmalloc_end = 0xc0002000;
  order = λ a. if a == 0xc0001000 then some 0 else none;
  bh_length = λ p. if p == 0xc0001010 then some 20 else if p == 0xc0001030 then some 10 else none;
}

one_used-IsHeap : IsHeap one_used
unfolding Distinct IsBlock nblocks blocksize block_sizes block_counts
one_used-IsHeap = record {
  pages = λ a o e. elim (Bool-cases (a == 0xc0001000)) [
    | inl p ↦ page_of a o p (rw p at e)
    | inr p ↦ absurd (clash o (rw p at e))
  ];
  free_blocks = λ a. tt;
  distinct = λ a. tt;
  used = λ b len e. elim (Bool-cases (b == 0xc0001010)) [
    | inl p ↦ place 0 b len 20 (omega arith) (ground arith) (rw p at e) (omega arith)
    | inr p ↦ elim (Bool-cases (b == 0xc0001030)) [
      | inl q ↦ place 1 b len 10 (omega arith) (ground arith) (rw (p, q) at e) (omega arith)
      | inr q ↦ absurd (clash len (rw (p, q) at e))
    ]
  ];
  lists = λ o. tt;
  counted = λ a. refl;
  listed = λ a o e some_free. absurd (omega arith);
  started = omega arith;
}
  where
    clash : (o : ℕ) → none ≡ some o → ⊥
    clash o e = ground arith

    page_of :
        (a o : ℕ)
        → (a == 0xc0001000) ≡ true
        → some 0 ≡ some o
        → (a % 4096 ≡ 0) × (o < 8) × (a + 4096 ≤ 0xc0002000)
    page_of a o p e =
        let q : a ≡ 0xc0001000 = ground arith in
        let z : 0 ≡ o = ground arith in (omega (arith, q), omega (arith, z), omega (arith, q))

    place :
        (k b len most : ℕ)
        → k < 127
        → b ≡ 0xc0001010 + k * 32
        → some most ≡ some len
        → most ≤ 20
        → IsUsed one_used b len
    place k b len most l p e small =
        let z : most ≡ len = ground arith in
        record {
          used_page = 0xc0001000;
          used_order = 0;
          used_order_of = refl;
          used_place = (k, l, p);
          used_fits = omega (arith, z, small);
        }

kfree-IsHeap_example :
    (h' : Kheap) × (kfree (0xc0001010 + 12) one_used ≡ some h')
    × IsHeap h'
    × ((b : ℕ) → h'.bh_length b ≡ (if b == 0xc0001010 then none else one_used.bh_length b))
    × IsReturned 0xc0001010 h'
kfree-IsHeap_example = kfree-IsHeap 0xc0001010 20 one_used one_used-IsHeap refl

used_blocks_apart_example :
    (0xc0001010 + 12 + 20 ≤ 0xc0001030) ⊎ (0xc0001030 + 12 + 10 ≤ 0xc0001010)
used_blocks_apart_example =
    used_blocks_apart one_used 0xc0001010 20 0xc0001030 10 one_used-IsHeap refl refl
      (λ e. omega arith)

abbrev queued : Kheap
queued = record started { huge = (0xc0100000, 8192) ∷ (0xc0200000, 4096) ∷ [] }

kmalloc-last_block_example :
    kmalloc 5000 queued
    ≡ some (
      last_block (0xc0100000, 8192) ((0xc0200000, 4096) ∷ []) + 4096,
      record queued { huge = too_small 5000 ((0xc0100000, 8192) ∷ (0xc0200000, 4096) ∷ []) },
    )
kmalloc-last_block_example =
    kmalloc-last_block 5000 (0xc0100000, 8192) ((0xc0200000, 4096) ∷ []) queued (omega arith) refl

-- The block that is returned is smaller than the size, and is still in the queue.
kmalloc-too_small : address (kmalloc 5000 queued) ≡ 0xc0201000
unfolding address kmalloc huge_kmalloc huge_loop
kmalloc-too_small = refl
