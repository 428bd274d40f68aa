-- ===== src/Kmalloc/Grow.antt =====
-- kernel/kmalloc.c: a page is added for an order.
use bingos.Common.{
  zero, suc, ap, length, true, ℕ, ◌+◌, ◌*◌, ◌/◌, ◌%◌, ◌^◌, ◌≤◌, ◌<◌, ◌≡◌, refl, sym, subst, false,
  none, some, ◌∷◌, ◌==◌, ==_iff, ==_refl, arith, inl, inr, Bool-cases, Option-cases, All,
}
use bingos.Kmalloc.{update, Kheap, blocksize, nblocks, get_free_pages, chain, add_page}
use bingos.Kmalloc.Orders.{order_fits}
use bingos.Kmalloc.Blocks.{IsBlock, IsBlock-page, Distinct, chain-IsBlock, chain-Distinct}
use bingos.Kmalloc.Invariant.{member, IsFree, IsHeap, some_inj, All-imp}

-- The start of the page that is added, behind everything in use.
pub page_start :
    (e : ℕ)
    → 4096 ≤ e
    → e + 8192 < 2 ^ 32
    → (((e / 4096 * 4096 + 4096) % 2 ^ 32) % 4096 ≡ 0)
      × (e ≤ (e / 4096 * 4096 + 4096) % 2 ^ 32)
      × ((e / 4096 * 4096 + 4096) % 2 ^ 32 + 4096 ≤ e + 8192)
page_start e h k =
    let small : (e / 4096 * 4096 + 4096) % 2 ^ 32 ≡ e / 4096 * 4096 + 4096 = omega arith in
    rw small (omega arith, omega arith, omega arith)

-- The heap with a page at `new` added for an order.
unfoldable pub grown : ℕ → ℕ → Kheap → Kheap
grown o new h = record h {
  kmalloc_end = new + 4096;
  npages = update h.npages o (h.npages o + 1);
  order = update h.order new (some o);
  free = update h.free new (chain (nblocks o) (new + 16) (blocksize o));
  nfree = update h.nfree new (nblocks o);
  firstfree = update h.firstfree o (new ∷ h.firstfree o);
}

pub add_page-grown :
    (h : Kheap) (o : ℕ)
    → 4096 ≤ h.kmalloc_end
    → h.kmalloc_end + 8192 < 2 ^ 32
    → add_page o h ≡ grown o ((h.kmalloc_end / 4096 * 4096 + 4096) % 2 ^ 32) h
unfolding add_page get_free_pages grown
add_page-grown h o started room =
    let far : (h.kmalloc_end / 4096 == 0) ≡ false = ground arith in
    let end : ((h.kmalloc_end / 4096 * 4096 + 4096) % 2 ^ 32 + 1 * 4096) % 2 ^ 32
        ≡ (h.kmalloc_end / 4096 * 4096 + 4096) % 2 ^ 32 + 4096 =
      omega arith in
    rw (far, end) refl

-- A page for an order is added behind the end of the heap.
module _ (h : Kheap) (o new : ℕ) (heap : IsHeap h) (order : o < 8) (aligned : new % 4096 ≡ 0)
    (behind : h.kmalloc_end ≤ new) where
  fresh : (a k : ℕ) → h.order a ≡ some k → (a == new) ≡ false
  fresh a k e = let old = heap.pages a k e in ground (arith, old)

  still_page : (a k : ℕ) → h.order a ≡ some k → (grown o new h).order a ≡ some k
  unfolding grown
  still_page a k e = rw (fresh a k e) e

  still-IsFree : (a b : ℕ) → IsFree h a b → IsFree (grown o new h) a b
  unfolding grown
  still-IsFree a b f = record {
    free_order = f.free_order;
    free_page = still_page a f.free_order f.free_page;
    free_place = f.free_place;
    free_header = f.free_header;
  }

  -- No header of the new page is in use.
  unused : (b : ℕ) → IsBlock o new b → h.bh_length b ≡ none
  unused b place = elim (Option-cases (h.bh_length b)) [
    | inl e ↦ e
    | inr (len, e) ↦
        let u = heap.used b len e in
        let page = heap.pages u.used_page u.used_order u.used_order_of in
        let old = IsBlock-page u.used_order u.used_page b page.1 u.used_place in
        let now = IsBlock-page o new b order place in
        let size = order_fits u.used_order page.1 in absurd (omega (arith, page, old, now, size))
  ]

  new-IsFree : (b : ℕ) → IsBlock o new b → IsFree (grown o new h) new b
  unfolding grown
  new-IsFree b place = record {
    free_order = o;
    free_page = rw (==_refl new) refl;
    free_place = place;
    free_header = unused b place;
  }

  new_blocks : All (IsBlock o new) (chain (nblocks o) (new + 16) (blocksize o))
  new_blocks =
      let start : new + 16 + 0 * blocksize o ≡ new + 16 = omega arith in
      rw start at (chain-IsBlock (nblocks o) 0 o new (omega arith))

  chain-length : (left p size : ℕ) → length (chain left p size) ≡ left
  unfolding chain
  chain-length zero p size = refl
  chain-length (suc left) p size = ap suc (chain-length left (p + size) size)

  still_listed :
      (a k : ℕ)
      → (grown o new h).order a ≡ some k
      → 1 ≤ (grown o new h).nfree a
      → member a ((grown o new h).firstfree k) ≡ true
  unfolding grown member
  still_listed a k e some_free = elim (Bool-cases (a == new)) [
    | inl s ↦
        let k_o = some_inj (rw s at e) in
        let same : (k == o) ≡ true = ground arith in rw (same, s) refl
    | inr s ↦
        let old = heap.listed a k (rw s at e) (rw s at some_free) in
        elim (Bool-cases (k == o)) [
          | inl d ↦
              let same = (==_iff k o).0 d in
              rw (d, s) (subst (λ j. member a (h.firstfree j) ≡ true) same old)
          | inr d ↦ rw d old
        ]
  ]

  new_pages :
      (a k : ℕ)
      → (grown o new h).order a ≡ some k
      → (a % 4096 ≡ 0) × (k < 8) × (a + 4096 ≤ new + 4096)
  unfolding grown
  new_pages a k e = elim (Bool-cases (a == new)) [
    | inl s ↦
        let same = (==_iff a new).0 s in
        let k_o = some_inj (rw s at e) in
        (omega (arith, same, aligned), omega (arith, k_o, order), omega (arith, same))
    | inr s ↦ let old = heap.pages a k (rw s at e) in (old.0, old.1, omega (arith, old, behind))
  ]

  pub grown-IsHeap : IsHeap (grown o new h)
  unfolding grown Distinct
  grown-IsHeap = record {
    pages = new_pages;
    free_blocks = λ a. elim (Bool-cases (a == new)) [
      | inl e ↦
          let same = (==_iff a new).0 e in
          rw e (
            subst (λ k. All (IsFree (grown o new h) k) (chain (nblocks o) (new + 16) (blocksize o)))
              (sym same)
              (All-imp (chain (nblocks o) (new + 16) (blocksize o)) new-IsFree new_blocks))
      | inr e ↦ rw e (All-imp (h.free a) (still-IsFree a) (heap.free_blocks a))
    ];
    distinct = λ a. elim (Bool-cases (a == new)) [
      | inl e ↦
          rw e (
            chain-Distinct (nblocks o) (new + 16) (blocksize o) (omega (arith, order_fits o order)))
      | inr e ↦ rw e (heap.distinct a)
    ];
    used = λ b len e.
        let u = heap.used b len e in
        record {
          used_page = u.used_page;
          used_order = u.used_order;
          used_order_of = still_page u.used_page u.used_order u.used_order_of;
          used_place = u.used_place;
          used_fits = u.used_fits;
        };
    lists = λ k. elim (Bool-cases (k == o)) [
      | inl e ↦
          let same = (==_iff k o).0 e in
          rw e (
            subst (λ j. All (λ a. (grown o new h).order a ≡ some j) (new ∷ h.firstfree o))
              (sym same)
              (rw (==_refl new) refl, All-imp (h.firstfree o) (λ a. still_page a o) (heap.lists o)))
      | inr e ↦ rw e (All-imp (h.firstfree k) (λ a. still_page a k) (heap.lists k))
    ];
    counted = λ a. elim (Bool-cases (a == new)) [
      | inl e ↦ rw e (sym (chain-length (nblocks o) (new + 16) (blocksize o)))
      | inr e ↦ rw e (heap.counted a)
    ];
    listed = still_listed;
    started = omega (arith, heap.started, behind);
  }
