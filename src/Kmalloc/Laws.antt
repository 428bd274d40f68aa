-- ===== src/Kmalloc/Laws.antt =====
-- kernel/kmalloc.c: the blocks that kmalloc gives out and kfree takes back.
use bingos.Common.{
  true, ℕ, zero, suc, ◌+◌, ◌-◌, ◌*◌, ◌/◌, ◌%◌, ◌^◌, ◌≤◌, ◌<◌, ◌≡◌, ◌⊎◌, refl, false, Option, none,
  some, List, [], ◌∷◌, ltb, ◌==◌, ==_refl, if◌then◌else◌, arith, inl, inr,
}
use bingos.Kmalloc.{
  Kheap, get_free_pages, blocksize, nblocks, chain, add_page, first_block, take_block,
  small_kmalloc, get_order, kmalloc, release_block, kfree, block, nothing,
}
use bingos.Kmalloc.Orders.{order_count, IsOrder, get_order-IsOrder}
use bingos.Kmalloc.Blocks.{page_of_block}
use bingos.Kmalloc.Invariant.{IsHeap, member, member-first}
use bingos.Kmalloc.Take.{take_block-IsHeap}
use bingos.Kmalloc.Grow.{page_start, grown, add_page-grown, grown-IsHeap}
use bingos.Kmalloc.Return.{release_block-IsHeap}

-- What kmalloc gives: the address behind a header that was not in use, and that has the length now;
-- the other headers are as they were.
pub IsGiven : Kheap → ℕ → ℕ × Kheap → Type 0
IsGiven h size (q, h') =
    (p : ℕ) × (q ≡ p + 12)
    × IsHeap h'
    × (h.bh_length p ≡ none)
    × (h'.bh_length p ≡ some size)
    × ((b : ℕ) → (b == p) ≡ false → h'.bh_length b ≡ h.bh_length b)

small_kmalloc-block :
    (tries size o page p : ℕ) (ps rest : List ℕ) (h : Kheap)
    → h.firstfree o ≡ page ∷ rest
    → h.free page ≡ p ∷ ps
    → h.bh_length p ≡ none
    → small_kmalloc (suc tries) size o h ≡ (p + 12, take_block size o page p ps rest h)
unfolding small_kmalloc first_block
small_kmalloc-block tries size o page p ps rest h on_list on_page header =
    let first : first_block o h ≡ block page p ps rest = rw (on_list, on_page, first_block) refl in
    rw (first, header, small_kmalloc) refl

taken :
    (tries size o page p : ℕ) (ps rest : List ℕ) (h : Kheap)
    → IsHeap h
    → h.firstfree o ≡ page ∷ rest
    → h.free page ≡ p ∷ ps
    → size + 12 ≤ blocksize o
    → IsGiven h size (small_kmalloc (suc tries) size o h)
unfolding IsGiven take_block first_block
taken tries size o page p ps rest h heap on_list on_page fits =
    let f = (rw on_page at (heap.free_blocks page)).0 in
    rw (small_kmalloc-block tries size o page p ps rest h on_list on_page f.free_header) (
      p,
      refl,
      take_block-IsHeap h size o page p ps rest heap on_list on_page fits,
      f.free_header,
      rw (==_refl p) refl,
      λ b e. rw e refl,
    )

List-cases : (xs : List ℕ) → (xs ≡ []) ⊎ ((x : ℕ) × (ys : List ℕ) × (xs ≡ x ∷ ys))
List-cases [] = inl refl
List-cases (x ∷ xs) = inr (x, xs, refl)

-- A new page has a first block, and the page stands first for its order.
chain-first : (o p : ℕ) → o < 8 → (ps : List ℕ) × (chain (nblocks o) p (blocksize o) ≡ p ∷ ps)
unfolding chain
chain-first o p h = from_count (nblocks o) (order_count o h)
  where
    from_count : (n : ℕ) → 1 ≤ n → (ps : List ℕ) × (chain n p (blocksize o) ≡ p ∷ ps)
    from_count zero k = absurd (omega arith)
    from_count (suc n) k = (chain n (p + blocksize o) (blocksize o), refl)

small_kmalloc-nothing :
    (tries size o : ℕ) (h : Kheap)
    → first_block o h ≡ nothing
    → ((get_free_pages 1 h).0 == 0) ≡ false
    → small_kmalloc (suc tries) size o h ≡ small_kmalloc tries size o (add_page o h)
unfolding small_kmalloc
small_kmalloc-nothing tries size o h empty page = rw (empty, page, small_kmalloc) refl

some_page :
    (h : Kheap)
    → 4096 ≤ h.kmalloc_end
    → h.kmalloc_end + 8192 < 2 ^ 32
    → ((get_free_pages 1 h).0 == 0) ≡ false
unfolding get_free_pages
some_page h started room =
    let e : (h.kmalloc_end / 4096 == 0) ≡ false = ground arith in
    let at : ((h.kmalloc_end / 4096 * 4096 + 4096) % 2 ^ 32 == 0) ≡ false = ground arith in
    rw (e, at) refl

-- kmalloc where a page has to be made first.
made :
    (tries size o : ℕ) (h : Kheap)
    → IsHeap h
    → h.kmalloc_end + 8192 < 2 ^ 32
    → o < 8
    → size + 12 ≤ blocksize o
    → first_block o h ≡ nothing
    → IsGiven h size (small_kmalloc (suc (suc tries)) size o h)
unfolding IsGiven grown
made tries size o h heap room order fits empty =
    let new = (h.kmalloc_end / 4096 * 4096 + 4096) % 2 ^ 32 in
    let start = page_start h.kmalloc_end heap.started room in
    let heap' = grown-IsHeap h o new heap order start.0 start.1 in
    let (ps, first) = chain-first o (new + 16) order in
    let grow = add_page-grown h o heap.started room in
    let skip = small_kmalloc-nothing (suc tries) size o h empty (some_page h heap.started room) in
    let listed : (grown o new h).firstfree o ≡ new ∷ h.firstfree o = rw (==_refl o) refl in
    let paged : (grown o new h).free new ≡ (new + 16) ∷ ps = rw (==_refl new) first in
    let given =
      taken tries size o new (new + 16) ps (h.firstfree o) (grown o new h) heap' listed paged
        fits in
    rw (skip, grow) given

-- Whether an order has a free block at hand.
at_hand :
    (h : Kheap) (o : ℕ)
    → ((page : ℕ) × (rest : List ℕ) × (p : ℕ) × (ps : List ℕ) × (h.firstfree o ≡ page ∷ rest)
        × (h.free page ≡ p ∷ ps))
      ⊎ (first_block o h ≡ nothing)
unfolding first_block
at_hand h o = elim (List-cases (h.firstfree o)) [
  | inl e ↦ inr (rw (e, first_block) refl)
  | inr (page, rest, e) ↦ elim (List-cases (h.free page)) [
    | inl d ↦ inr (rw (e, d, first_block) refl)
    | inr (p, ps, d) ↦ inl (page, rest, p, ps, e, d)
  ]
]

small_kmalloc-IsGiven :
    (size o : ℕ) (h : Kheap)
    → IsHeap h
    → h.kmalloc_end + 8192 < 2 ^ 32
    → o < 8
    → size + 12 ≤ blocksize o
    → IsGiven h size (small_kmalloc 3 size o h)
small_kmalloc-IsGiven size o h heap room order fits = elim (at_hand h o) [
  | inl (page, rest, p, ps, e, d) ↦ taken 2 size o page p ps rest h heap e d fits
  | inr empty ↦ made 1 size o h heap room order fits empty
]

-- kmalloc of a size that get_order has an order for returns the address behind a header that was not
-- in use, of a block with room for the size, and leaves the other headers; the heap stays valid. A
-- page is made where none has a free block, of which the heap has to have room for two.
pub kmalloc-IsGiven :
    (size : ℕ) (h : Kheap)
    → IsHeap h
    → h.kmalloc_end + 8192 < 2 ^ 32
    → size ≤ 4068
    → (r : ℕ × Kheap) × (kmalloc size h ≡ some r) × IsGiven h size r
unfolding kmalloc IsOrder
kmalloc-IsGiven size h heap room small =
    let little : ltb 4080 size ≡ false = ground arith in
    by_order (get_order size) refl (get_order-IsOrder size) little
  where
    by_order :
        (o : Option ℕ)
        → get_order size ≡ o
        → IsOrder size o
        → ltb 4080 size ≡ false
        → (r : ℕ × Kheap) × (kmalloc size h ≡ some r) × IsGiven h size r
    by_order none e order little = absurd (omega arith)
    by_order (some o) e (range, fits, least) little = (
      small_kmalloc 3 size o h,
      rw (little, e, kmalloc) refl,
      small_kmalloc-IsGiven size o h heap room range fits,
    )

-- What kfree leaves of a block: it stands among the free blocks of a page, and the page in the list of
-- its order.
pub IsReturned : ℕ → Kheap → Type 0
IsReturned p h =
    (page : ℕ) × (o : ℕ) × (h.order page ≡ some o)
    × (member p (h.free page) ≡ true)
    × (member page (h.firstfree o) ≡ true)

-- kfree of an address that kmalloc gave keeps the heap valid, takes the header out of use, and no
-- other, and puts the block among the free ones of a page that is in the list of its order.
pub kfree-IsHeap :
    (p len : ℕ) (h : Kheap)
    → IsHeap h
    → h.bh_length p ≡ some len
    → (h' : Kheap) × (kfree (p + 12) h ≡ some h')
      × IsHeap h'
      × ((b : ℕ) → h'.bh_length b ≡ (if b == p then none else h.bh_length b))
      × IsReturned p h'
unfolding kfree release_block IsReturned
kfree-IsHeap p len h heap in_use =
    let u = heap.used p len in_use in
    let page = heap.pages u.used_page u.used_order u.used_order_of in
    let its = page_of_block u.used_order u.used_page p page.1 page.0 u.used_place in
    let header : p + 12 - 12 ≡ p = omega arith in
    let heap' =
      release_block-IsHeap h p u.used_page u.used_order len heap in_use u.used_place
        u.used_order_of in
    let first : member p (p ∷ h.free u.used_page) ≡ true = member-first p (h.free u.used_page) in
    (
      release_block p u.used_page u.used_order len h,
      rw (header, in_use, header, its, u.used_order_of, header, its, kfree) refl,
      heap',
      λ b. refl,
      (
        u.used_page,
        u.used_order,
        u.used_order_of,
        rw (==_refl u.used_page) first,
        heap'.listed u.used_page u.used_order u.used_order_of
            (rw (==_refl u.used_page) (omega arith)),
      ),
    )
