-- ===== src/Kmalloc.antt =====
-- kernel/kmalloc.c: the heap of the kernel.
--
-- A chain through `bh_next` or `next` is the list of its addresses, and NULL is the empty list; a
-- block is named by the address of its header. A header has a length where it is used and none where
-- it is MF_FREE. What the model has no value for is `none`: a get_order that ends without a return,
-- and the free of a block that is not in use, which would make a cycle of the chain. Addresses have 32
-- bits. The nodes of the queue of huge blocks, the skip list, which nothing uses, and kmalloc_i's early half (pre_alloc) are left out.
pub mod Orders
pub mod Blocks
pub mod Invariant
pub mod Take
pub mod Grow
pub mod Return
pub mod Laws
pub mod Huge
mod Tests
use bingos.Common.{
  ℕ, zero, suc, ◌+◌, ◌-◌, ◌*◌, ◌/◌, ◌%◌, ◌^◌, Bool, true, false, not, ◌&&◌, Option, none, some,
  List, [], ◌∷◌, length, ltb, leb, ◌==◌, if◌then◌else◌, get_or,
}

-- The columns `size` and `nblocks` of the table `sizes`, which ends with a size of 0.
pub block_sizes : List ℕ
block_sizes = 32 ∷ 64 ∷ 128 ∷ 252 ∷ 508 ∷ 1020 ∷ 2040 ∷ 4080 ∷ []

pub block_counts : List ℕ
block_counts = 127 ∷ 63 ∷ 31 ∷ 16 ∷ 8 ∷ 4 ∷ 2 ∷ 1 ∷ []

-- `BLOCKSIZE(order)` and `NBLOCKS(order)`
pub blocksize : ℕ → ℕ
unfolding block_sizes
blocksize order = get_or block_sizes order 0

pub nblocks : ℕ → ℕ
unfolding block_counts
nblocks order = get_or block_counts order 0

-- `sizeof(block_header_t)` and `sizeof(page_descriptor_t)`
abbrev pub header_size : ℕ
header_size = 12

abbrev pub descriptor_size : ℕ
descriptor_size = 16

-- The loop of `get_order` over the orders from `order` on, for a size with its header.
pub order_from : List ℕ → ℕ → ℕ → Option ℕ
order_from [] order size = none
order_from (s ∷ sizes) order size =
    let rest = order_from sizes (suc order) size in if leb size s then some order else rest

pub get_order : ℕ → Option ℕ
unfolding order_from block_sizes
get_order size = order_from block_sizes 0 (size + header_size)

-- The variables of the file and what stands in the pages of the heap: for an order the pages that
-- have free blocks; for a page its order, its chain of free blocks and their number; for a header its
-- length. The huge blocks are those in the queue, with their sizes.
pub record Kheap : Type 0 where
  pub kmalloc_end : ℕ
  pub firstfree : ℕ → List ℕ
  pub npages : ℕ → ℕ
  pub nmallocs : ℕ → ℕ
  pub nfrees : ℕ → ℕ
  pub nbytesmalloced : ℕ → ℕ
  pub order : ℕ → Option ℕ
  pub free : ℕ → List ℕ
  pub nfree : ℕ → ℕ
  pub bh_length : ℕ → Option ℕ
  pub huge : List (ℕ × ℕ)
  pub huge_size : ℕ → Option ℕ

abbrev pub update {ℓ} : {A : Type ℓ} → (ℕ → A) → ℕ → A → ℕ → A
update f i x = λ k. if k == i then x else f k

-- `__get_free_pages`, and `__get_free_page` for one: the page after the end is passed over, even
-- where the end is the start of a page.
pub get_free_pages : ℕ → Kheap → ℕ × Kheap
get_free_pages pages h =
    let start =
      if h.kmalloc_end / 4096 == 0
      then h.kmalloc_end
      else (h.kmalloc_end / 4096 * 4096 + 4096) % 2 ^ 32 in
    (start, record h { kmalloc_end = (start + pages * 4096) % 2 ^ 32 })

-- The chain of the blocks of a new page, with `left` blocks left from the header `p`.
pub chain : ℕ → ℕ → ℕ → List ℕ
chain zero p size = []
chain (suc left) p size = p ∷ chain left (p + size) size

-- The body of the loop of `__kmalloc` that makes a page for an order.
pub add_page : ℕ → Kheap → Kheap
unfolding get_free_pages chain blocksize nblocks
add_page o h =
    let (page, h') = get_free_pages 1 h in
    record h' {
      npages = update h.npages o (h.npages o + 1);
      order = update h.order page (some o);
      free = update h.free page (chain (nblocks o) (page + descriptor_size) (blocksize o));
      nfree = update h.nfree page (nblocks o);
      firstfree = update h.firstfree o (page ∷ h.firstfree o);
    }

-- The first block of the first page of an order, and the blocks and pages behind it.
pub data FirstFree : Type 0 where
  block : ℕ → ℕ → List ℕ → List ℕ → FirstFree
  nothing : FirstFree

pub first_block : ℕ → Kheap → FirstFree
first_block o h = elim (h.firstfree o) [
  | [] ↦ nothing
  | page ∷ pages ↦ elim (h.free page) [ [] ↦ nothing | p ∷ ps ↦ block page p ps pages ]
]

-- The branch of `__kmalloc` that takes a block `p` from its page.
pub take_block : ℕ → ℕ → ℕ → ℕ → List ℕ → List ℕ → Kheap → Kheap
take_block size o page p ps pages h = record h {
  free = update h.free page ps;
  nfree = update h.nfree page (h.nfree page - 1);
  firstfree = if h.nfree page - 1 == 0 then update h.firstfree o pages else h.firstfree;
  nmallocs = update h.nmallocs o (h.nmallocs o + 1);
  nbytesmalloced = update h.nbytesmalloced o (h.nbytesmalloced o + size);
  bh_length = update h.bh_length p (some size);
}

-- The loop of `__kmalloc` on a size of an order: the address of a block, or 0 for NULL.
pub small_kmalloc : ℕ → ℕ → ℕ → Kheap → ℕ × Kheap
small_kmalloc zero size o h = (0, h)
small_kmalloc (suc tries) size o h =
    let rest = small_kmalloc tries size o (add_page o h) in
    elim (first_block o h) [
      | nothing ↦ if (get_free_pages 1 h).0 == 0 then (0, (get_free_pages 1 h).1) else rest
      | block page p ps pages ↦ elim (h.bh_length p) [
        | none ↦ (p + header_size, take_block size o page p ps pages h)
        | some len ↦ (0, h)
      ]
    ]

-- The loop of `__kmalloc` over the queue: the header it ends on, and the queue without the blocks
-- that are large enough.
pub huge_loop : ℕ → List (ℕ × ℕ) → Option ℕ → Option ℕ × List (ℕ × ℕ)
huge_loop size [] header = (header, [])
huge_loop size ((b, s) ∷ queue) header =
    let (last, left) = huge_loop size queue (some b) in
    (last, if leb size s then left else (b, s) ∷ left)

pub huge_kmalloc : ℕ → Kheap → ℕ × Kheap
huge_kmalloc size h =
    let (header, queue) = huge_loop size h.huge none in
    elim header [
      | some b ↦ (b + 4096, record h { huge = queue })
      | none ↦
          let pages = (size + 48) / 4096 + 2 in
          let (b, h') = get_free_pages pages h in
          (
            b + 4096,
            record h' {
              huge = queue;
              huge_size = update h.huge_size b (some ((pages - 1) * 4096));
            },
          )
    ]

-- `__kmalloc`
pub kmalloc : ℕ → Kheap → Option (ℕ × Kheap)
kmalloc size h =
    if ltb 4080 size
    then some (huge_kmalloc size h)
    else (elim (get_order size) [ none ↦ none | some o ↦ some (small_kmalloc 3 size o h) ])

-- The branch of `__kfree` for a block with a header, in its page. A page without free blocks is in no
-- chain and has NULL as its `next`.
pub release_block : ℕ → ℕ → ℕ → ℕ → Kheap → Kheap
release_block p page o len h = record h {
  free = update h.free page (p ∷ h.free page);
  nfree = update h.nfree page (h.nfree page + 1);
  bh_length = update h.bh_length p none;
  firstfree =
      if h.nfree page + 1 == 1 then update h.firstfree o (page ∷ h.firstfree o) else h.firstfree;
  nfrees = update h.nfrees o (h.nfrees o + 1);
  nbytesmalloced = update h.nbytesmalloced o (h.nbytesmalloced o - len);
}

-- `kfree` of an address that is not NULL: a small block, found by its header and the start of its
-- page, or a huge block, which is put into the queue.
pub kfree : ℕ → Kheap → Option Kheap
unfolding release_block
kfree q h =
    let p = q - header_size in
    elim (h.bh_length p) [
      | some len ↦ elim (h.order (p / 4096 * 4096)) [
        | none ↦ none
        | some o ↦ some (release_block p (p / 4096 * 4096) o len h)
      ]
      | none ↦ elim (h.huge_size (q - 4096)) [
        | none ↦ none
        | some s ↦ some (record h { huge = (q - 4096, s) ∷ h.huge })
      ]
    ]
