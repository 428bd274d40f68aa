-- ===== src/Kmalloc/Return.antt =====
-- kernel/kmalloc.c: a block goes back to its page.
use bingos.Common.{
  length, ◌≤◌, ℕ, ◌+◌, ◌≡◌, refl, sym, ◌∙◌, subst, Bool, true, false, none, some, ◌∷◌, ◌==◌, ==_iff,
  ==_refl, if◌then◌else◌, arith, inl, inr, Bool-cases, All,
}
use bingos.Kmalloc.{Kheap, release_block}
use bingos.Kmalloc.Blocks.{IsBlock, Distinct}
use bingos.Kmalloc.Invariant.{member, IsFree, IsUsed, IsHeap, some_inj, All-imp}

-- A block in use is put in front of the free blocks of its page.
module _ (h : Kheap) (p page o len : ℕ) (heap : IsHeap h) (in_use : h.bh_length p ≡ some len)
    (place : IsBlock o page p) (its_order : h.order page ≡ some o) where
  still-IsFree : (a b : ℕ) → IsFree h a b → IsFree (release_block p page o len h) a b
  unfolding release_block
  still-IsFree a b f = record {
    free_order = f.free_order;
    free_page = f.free_page;
    free_place = f.free_place;
    free_header = elim (Bool-cases (b == p)) [ inl e ↦ rw e refl | inr e ↦ rw e f.free_header ];
  }

  now-IsFree : IsFree (release_block p page o len h) page p
  unfolding release_block
  now-IsFree = record {
    free_order = o;
    free_page = its_order;
    free_place = place;
    free_header = rw (==_refl p) refl;
  }

  not_free : (a b : ℕ) → IsFree h a b → (b == p) ≡ false
  not_free a b f = elim (Bool-cases (b == p)) [
    | inl e ↦
        let free_p = subst (λ k. h.bh_length k ≡ none) ((==_iff b p).0 e) f.free_header in
        absurd (clash (sym free_p ∙ in_use))
    | inr e ↦ e
  ]
    where
      clash : none ≡ some len → ⊥
      clash e = ground arith

  still-IsUsed :
      (b l : ℕ)
      → (release_block p page o len h).bh_length b ≡ some l
      → IsUsed (release_block p page o len h) b l
  unfolding release_block
  still-IsUsed b l e = elim (Bool-cases (b == p)) [
    | inl s ↦ let e' = rw s at e in absurd (clash e')
    | inr s ↦
        let old = heap.used b l (rw s at e) in
        record {
          used_page = old.used_page;
          used_order = old.used_order;
          used_order_of = old.used_order_of;
          used_place = old.used_place;
          used_fits = old.used_fits;
        }
  ]
    where
      clash : none ≡ some l → ⊥
      clash e = ground arith

  still_listed :
      (b : Bool) (k : ℕ)
      → All
          (λ a. h.order a ≡ some k)
          ((if b
              then (λ j. if j == o then page ∷ h.firstfree o else h.firstfree j)
              else h.firstfree)
            k)
  still_listed true k = elim (Bool-cases (k == o)) [
    | inl e ↦
        let same = (==_iff k o).0 e in
        rw e (
          subst (λ j. All (λ a. h.order a ≡ some j) (page ∷ h.firstfree o)) (sym same)
            (its_order, heap.lists o))
    | inr e ↦ rw e (heap.lists k)
  ]
  still_listed false k = heap.lists k

  now_counted :
      (a : ℕ)
      → (release_block p page o len h).nfree a ≡ length ((release_block p page o len h).free a)
  unfolding release_block
  now_counted a = elim (Bool-cases (a == page)) [
    | inl e ↦ let old = heap.counted page in rw e (omega (arith, old))
    | inr e ↦ rw e (heap.counted a)
  ]

  now_listed :
      (a k : ℕ)
      → h.order a ≡ some k
      → 1 ≤ (release_block p page o len h).nfree a
      → member a ((release_block p page o len h).firstfree k) ≡ true
  unfolding release_block member
  now_listed a k e some_free = elim (Bool-cases (a == page)) [
    | inl s ↦
        let same = (==_iff a page).0 s in
        let k_o : k ≡ o = some_inj (sym (subst (λ j. h.order j ≡ some k) same e) ∙ its_order) in
        let old : 1 ≤ h.nfree a → member a (h.firstfree o) ≡ true = λ some_before.
          subst (λ j. member a (h.firstfree j) ≡ true) k_o (heap.listed a k e some_before) in
        let some_before : (h.nfree page + 1 == 1) ≡ false → 1 ≤ h.nfree a =
          λ more. subst (λ j. 1 ≤ h.nfree j) (sym same) (more_than_one (h.nfree page) more) in
        here k_o s (h.nfree page + 1 == 1) refl (λ more. old (some_before more))
    | inr s ↦ elsewhere s (h.nfree page + 1 == 1) (heap.listed a k e (rw s at some_free))
  ]
    where
      more_than_one : (n : ℕ) → (n + 1 == 1) ≡ false → 1 ≤ n
      more_than_one n more = ground arith

      here :
          k ≡ o
          → (a == page) ≡ true
          → (b : Bool) → (h.nfree page + 1 == 1) ≡ b
          → ((h.nfree page + 1 == 1) ≡ false → member a (h.firstfree o) ≡ true)
          → member a (
              (if b
                  then (λ j. if j == o then page ∷ h.firstfree o else h.firstfree j)
                  else h.firstfree)
                k)
            ≡ true
      here k_o s true first old =
          let same : (k == o) ≡ true = ground arith in rw same (rw (member, s) refl)
      here k_o s false more old = rw k_o (old more)

      elsewhere :
          (a == page) ≡ false
          → (b : Bool) → member a (h.firstfree k) ≡ true
          → member a (
              (if b
                  then (λ j. if j == o then page ∷ h.firstfree o else h.firstfree j)
                  else h.firstfree)
                k)
            ≡ true
      elsewhere s true old = elim (Bool-cases (k == o)) [
        | inl d ↦
            rw d
              (rw (member, s) (subst (λ j. member a (h.firstfree j) ≡ true) ((==_iff k o).0 d) old))
        | inr d ↦ rw d old
      ]
      elsewhere s false old = old

  pub release_block-IsHeap : IsHeap (release_block p page o len h)
  unfolding release_block Distinct
  release_block-IsHeap = record {
    pages = heap.pages;
    free_blocks = λ a. elim (Bool-cases (a == page)) [
      | inl e ↦
          let same = (==_iff a page).0 e in
          rw e (
            subst (λ k. All (IsFree (release_block p page o len h) k) (p ∷ h.free page)) (sym same)
              (now-IsFree, All-imp (h.free page) (still-IsFree page) (heap.free_blocks page)))
      | inr e ↦ rw e (All-imp (h.free a) (still-IsFree a) (heap.free_blocks a))
    ];
    distinct = λ a. elim (Bool-cases (a == page)) [
      | inl e ↦
          rw e (All-imp (h.free page) (not_free page) (heap.free_blocks page), heap.distinct page)
      | inr e ↦ rw e (heap.distinct a)
    ];
    used = still-IsUsed;
    lists = still_listed (h.nfree page + 1 == 1);
    counted = now_counted;
    listed = now_listed;
    started = heap.started;
  }
