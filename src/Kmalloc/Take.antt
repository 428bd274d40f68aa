-- ===== src/Kmalloc/Take.antt =====
-- kernel/kmalloc.c: a block is taken from its page.
use bingos.Common.{
  refl, length, ℕ, ◌+◌, ◌-◌, ◌≤◌, ◌≡◌, sym, ◌∙◌, subst, Bool, true, false, some, List, ◌∷◌, ◌==◌,
  ==_iff, if◌then◌else◌, arith, inl, inr, Bool-cases, All,
}
use bingos.Kmalloc.{Kheap, blocksize, take_block}
use bingos.Kmalloc.Blocks.{IsBlock, Distinct}
use bingos.Kmalloc.Invariant.{
  member, IsFree, IsUsed, IsHeap, some_inj, not_eq, All-imp, All-and, free_apart,
}

-- A block `p` is taken from the first page of an order.
module _ (h : Kheap) (size o page p : ℕ) (ps rest : List ℕ) (heap : IsHeap h)
    (on_list : h.firstfree o ≡ page ∷ rest) (on_page : h.free page ≡ p ∷ ps)
    (fits : size + 12 ≤ blocksize o) where
  page_order : h.order page ≡ some o
  page_order = (rw on_list at (heap.lists o)).0

  p-IsFree : IsFree h page p
  p-IsFree = (rw on_page at (heap.free_blocks page)).0

  p-IsBlock : IsBlock o page p
  p-IsBlock =
      subst (λ k. IsBlock k page p) (some_inj (sym p-IsFree.free_page ∙ page_order))
        p-IsFree.free_place

  still-IsFree :
      (a b : ℕ) → IsFree h a b → (b == p) ≡ false → IsFree (take_block size o page p ps rest h) a b
  unfolding take_block
  still-IsFree a b f e = record {
    free_order = f.free_order;
    free_page = f.free_page;
    free_place = f.free_place;
    free_header = rw e f.free_header;
  }

  still_listed :
      (b : Bool) (k : ℕ)
      → All
          (λ a. h.order a ≡ some k)
          ((if b then (λ j. if j == o then rest else h.firstfree j) else h.firstfree) k)
  still_listed true k = elim (Bool-cases (k == o)) [
    | inl e ↦ let same = (==_iff k o).0 e in rw (e, same) ((rw on_list at (heap.lists o)).1)
    | inr e ↦ rw e (heap.lists k)
  ]
  still_listed false k = heap.lists k

  now-IsUsed :
      (b len : ℕ)
      → (take_block size o page p ps rest h).bh_length b ≡ some len
      → IsUsed (take_block size o page p ps rest h) b len
  unfolding take_block
  now-IsUsed b len e = elim (Bool-cases (b == p)) [
    | inl s ↦
        let same = (==_iff b p).0 s in
        let len_size = some_inj (rw s at e) in
        record {
          used_page = page;
          used_order = o;
          used_order_of = page_order;
          used_place = subst (IsBlock o page) (sym same) p-IsBlock;
          used_fits = omega (arith, len_size, fits);
        }
    | inr s ↦
        let old = heap.used b len (rw s at e) in
        record {
          used_page = old.used_page;
          used_order = old.used_order;
          used_order_of = old.used_order_of;
          used_place = old.used_place;
          used_fits = old.used_fits;
        }
  ]

  now_counted :
      (a : ℕ)
      → (take_block size o page p ps rest h).nfree a
        ≡ length ((take_block size o page p ps rest h).free a)
  unfolding take_block
  now_counted a = elim (Bool-cases (a == page)) [
    | inl e ↦ let old = rw on_page at (heap.counted page) in rw e (omega (arith, old))
    | inr e ↦ rw e (heap.counted a)
  ]

  -- A page that still has a free block is still in the list, from which the first is taken only when
  -- it has none.
  now_listed :
      (a k : ℕ)
      → h.order a ≡ some k
      → 1 ≤ (take_block size o page p ps rest h).nfree a
      → member a ((take_block size o page p ps rest h).firstfree k) ≡ true
  unfolding take_block member
  now_listed a k e some_free = by_empty (h.nfree page - 1 == 0) refl old
    where
      before :
          (s : Bool)
          → (a == page) ≡ s
          → 1 ≤ (if s then h.nfree page - 1 else h.nfree a)
          → 1 ≤ h.nfree a
      before true s some_left = let same = (==_iff a page).0 s in rw same (omega (arith, some_left))
      before false s some_left = some_left

      old : member a (h.firstfree k) ≡ true
      old = heap.listed a k e (before (a == page) refl some_free)

      not_empty :
          (h.nfree page - 1 == 0) ≡ true
          → (s : Bool) → (a == page) ≡ s
          → 1 ≤ (if s then h.nfree page - 1 else h.nfree a)
          → (a == page) ≡ false
      not_empty last true s some_left = absurd (ground arith)
      not_empty last false s some_left = s

      by_empty :
          (b : Bool)
          → (h.nfree page - 1 == 0) ≡ b
          → member a (h.firstfree k) ≡ true
          → member a ((if b then (λ j. if j == o then rest else h.firstfree j) else h.firstfree) k)
            ≡ true
      by_empty false more was = was
      by_empty true last was = elim (Bool-cases (k == o)) [
        | inl d ↦
            let other = not_empty last (a == page) refl some_free in
            let was' = subst (λ j. member a (h.firstfree j) ≡ true) ((==_iff k o).0 d) was in
            let was'' = subst (λ xs. member a xs ≡ true) on_list was' in
            rw d (rw (member, other) at was'')
        | inr d ↦ rw d was
      ]

  pub take_block-IsHeap : IsHeap (take_block size o page p ps rest h)
  unfolding take_block Distinct
  take_block-IsHeap = record {
    pages = heap.pages;
    free_blocks = λ a. elim (Bool-cases (a == page)) [
      | inl e ↦
          let same = (==_iff a page).0 e in
          let on_page' = rw on_page at (heap.free_blocks page) in
          let apart = rw on_page at (heap.distinct page) in
          rw e (
            subst (λ k. All (IsFree (take_block size o page p ps rest h) k) ps) (sym same)
              (All-and ps (still-IsFree page) on_page'.1 apart.0))
      | inr e ↦ rw e (
          All-imp (h.free a)
            (λ b f. still-IsFree a b f (free_apart h a b page p heap f p-IsFree (not_eq a page e)))
            (heap.free_blocks a))
    ];
    distinct = λ a. elim (Bool-cases (a == page)) [
      | inl e ↦ rw e ((rw on_page at (heap.distinct page)).1)
      | inr e ↦ rw e (heap.distinct a)
    ];
    used = now-IsUsed;
    lists = still_listed (h.nfree page - 1 == 0);
    counted = now_counted;
    listed = now_listed;
    started = heap.started;
  }
