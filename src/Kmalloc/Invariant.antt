-- ===== src/Kmalloc/Invariant.antt =====
-- kernel/kmalloc.c: the invariant of the heap, and that blocks in use lie apart.
use bingos.Common.{
  refl, ==_refl, length, if◌then◌else◌, Bool, true, ℕ, ◌+◌, ◌*◌, ◌/◌, ◌%◌, ◌≤◌, ◌<◌, ◌≡◌, ◌≢◌, ◌⊎◌,
  sym, ap, ◌∙◌, subst, false, none, some, List, [], ◌∷◌, ◌==◌, ==_iff, arith, inl, inr, Bool-cases,
  All,
}
use native.Mathlib.Decide.{dec_lt}
use bingos.Kmalloc.{Kheap, blocksize}
use bingos.Kmalloc.Blocks.{IsBlock, IsBlock-page, page_of_block, blocks_apart, Distinct}

-- A free block of a page.
pub record IsFree (h : Kheap) (a b : ℕ) : Type 0 where
  pub free_order : ℕ
  pub free_page : h.order a ≡ some free_order
  pub free_place : IsBlock free_order a b
  pub free_header : h.bh_length b ≡ none

-- A block in use, with its length.
pub record IsUsed (h : Kheap) (b len : ℕ) : Type 0 where
  pub used_page : ℕ
  pub used_order : ℕ
  pub used_order_of : h.order used_page ≡ some used_order
  pub used_place : IsBlock used_order used_page b
  pub used_fits : len + 12 ≤ blocksize used_order

-- Whether a list has an element.
unfoldable pub member : ℕ → List ℕ → Bool
member a [] = false
member a (b ∷ bs) = let rest = member a bs in if a == b then true else rest

pub member-first : (a : ℕ) (bs : List ℕ) → member a (a ∷ bs) ≡ true
unfolding member
member-first a bs = rw (==_refl a) refl

-- The pages are whole, aligned and in front of the end of the heap; the free blocks of a page are
-- different blocks of it that are not in use, and are counted; a block in use is one of a page and has
-- room for its length; and the list of an order holds pages of it, all those with a free block.
pub record IsHeap (h : Kheap) : Type 0 where
  pub pages : (a o : ℕ) → h.order a ≡ some o → (a % 4096 ≡ 0) × (o < 8) × (a + 4096 ≤ h.kmalloc_end)
  pub free_blocks : (a : ℕ) → All (IsFree h a) (h.free a)
  pub distinct : (a : ℕ) → Distinct (h.free a)
  pub used : (b len : ℕ) → h.bh_length b ≡ some len → IsUsed h b len
  pub lists : (o : ℕ) → All (λ a. h.order a ≡ some o) (h.firstfree o)
  pub counted : (a : ℕ) → h.nfree a ≡ length (h.free a)
  pub listed : (a o : ℕ) → h.order a ≡ some o → 1 ≤ h.nfree a → member a (h.firstfree o) ≡ true
  pub started : 4096 ≤ h.kmalloc_end

pub some_inj : {a b : ℕ} → some a ≡ some b → a ≡ b
some_inj e = ground arith

pub not_eq : (a b : ℕ) → (a == b) ≡ false → a ≢ b
not_eq a b e same = ground arith

same_page :
    (o a b len c len' : ℕ)
    → IsBlock o a b
    → IsBlock o a c
    → len + 12 ≤ blocksize o
    → len' + 12 ≤ blocksize o
    → b ≢ c
    → (b + 12 + len ≤ c) ⊎ (c + 12 + len' ≤ b)
same_page o a b len c len' x y fits fits' differ = elim (blocks_apart o a b c x y differ) [
  | inl l ↦ inl (omega (arith, l, fits))
  | inr l ↦ inr (omega (arith, l, fits'))
]

other_page :
    (o a b len o' a' c len' : ℕ)
    → o < 8
    → o' < 8
    → a % 4096 ≡ 0
    → a' % 4096 ≡ 0
    → IsBlock o a b
    → IsBlock o' a' c
    → len + 12 ≤ blocksize o
    → len' + 12 ≤ blocksize o'
    → a ≢ a'
    → (b + 12 + len ≤ c) ⊎ (c + 12 + len' ≤ b)
other_page o a b len o' a' c len' k l m n x y fits fits' differ =
    let (low, high) = IsBlock-page o a b k x in
    let (low', high') = IsBlock-page o' a' c l y in
    elim (dec_lt a a') [
      | yes p ↦ inl (omega (arith, low, high, low', high', fits, p, m, n))
      | no p ↦ inr (omega (arith, low, high, low', high', fits', p, m, n, differ))
    ]

-- Two blocks in use lie apart, with their headers.
pub used_blocks_apart :
    (h : Kheap) (b len c len' : ℕ)
    → IsHeap h
    → h.bh_length b ≡ some len
    → h.bh_length c ≡ some len'
    → b ≢ c
    → (b + 12 + len ≤ c) ⊎ (c + 12 + len' ≤ b)
used_blocks_apart h b len c len' heap e d differ =
    let ub = heap.used b len e in
    let uc = heap.used c len' d in
    let pb = heap.pages ub.used_page ub.used_order ub.used_order_of in
    let pc = heap.pages uc.used_page uc.used_order uc.used_order_of in
    elim (Bool-cases (ub.used_page == uc.used_page)) [
      | inl same ↦
          let page = (==_iff ub.used_page uc.used_page).0 same in
          let its : h.order ub.used_page ≡ some uc.used_order =
            subst (λ a. h.order a ≡ some uc.used_order) (sym page) uc.used_order_of in
          let order : uc.used_order ≡ ub.used_order = some_inj (sym its ∙ ub.used_order_of) in
          same_page ub.used_order ub.used_page b len c len' ub.used_place
            (subst (λ o. IsBlock o ub.used_page c) order
              (subst (λ a. IsBlock uc.used_order a c) (sym page) uc.used_place))
            ub.used_fits (subst (λ o. len' + 12 ≤ blocksize o) order uc.used_fits) differ
      | inr other ↦
          other_page ub.used_order ub.used_page b len uc.used_order uc.used_page c len' pb.1 pc.1
            pb.0 pc.0 ub.used_place uc.used_place ub.used_fits uc.used_fits
            (not_eq ub.used_page uc.used_page other)
    ]

pub All-imp : {P Q : ℕ → Type 0} (xs : List ℕ) → ((x : ℕ) → P x → Q x) → All P xs → All Q xs
All-imp [] f h = tt
All-imp (x ∷ xs) f (here, rest) = (f x here, All-imp xs f rest)

pub All-and :
    {P Q R : ℕ → Type 0} (xs : List ℕ)
    → ((x : ℕ) → P x → Q x → R x)
    → All P xs
    → All Q xs
    → All R xs
All-and [] f h k = tt
All-and (x ∷ xs) f (here, rest) (here', rest') = (f x here here', All-and xs f rest rest')

-- Free blocks of two pages are two blocks.
pub free_apart :
    (h : Kheap) (a b a' c : ℕ) → IsHeap h → IsFree h a b → IsFree h a' c → a ≢ a' → (b == c) ≡ false
free_apart h a b a' c heap x y differ =
    let px = heap.pages a x.free_order x.free_page in
    let py = heap.pages a' y.free_order y.free_page in
    let bx = page_of_block x.free_order a b px.1 px.0 x.free_place in
    let by_c = page_of_block y.free_order a' c py.1 py.0 y.free_place in
    elim (Bool-cases (b == c)) [
      | inl e ↦
          let same = (==_iff b c).0 e in
          absurd (differ (sym bx ∙ ap (λ k. k / 4096 * 4096) same ∙ by_c))
      | inr e ↦ e
    ]
