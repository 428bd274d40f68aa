-- ===== src/Paging/Copy.antt =====
-- kernel/mmu.c: one round of the loop of table_clone.
use native.Mathlib.Decide.{dec_lt}
use bingos.Common.{
  ℕ, suc, ◌≤◌, ◌<◌, ◌≡◌, ◌≢◌, refl, sym, ap, subst, ◌∙◌, Bool, true, false, Option, none, some,
  ◌==◌, ==_iff, ==_refl, if◌then◌else◌, arith, inl, inr, Bool-cases,
}
use bingos.Frame.{Frames, alloc_frame, is_used}
use bingos.Frame.Alloc.{IsLeastFree}
use bingos.Paging.{Page, blank, clone_flags}

-- The page of a clone, in a frame: the flags of the source, present and for the user.
pub cloned_page : Page → ℕ → Page
cloned_page src n = record src { present = true; user = true; addr = n }

-- What the loop has made of the indices from `lo` to `hi`: the others are as before, pages without a
-- frame are left, and each other page is in a frame that was free, holds what the source's frame
-- holds, and is no other page's. The frames that were in use hold what they held.
pub record IsClone (lo hi : ℕ) (src tabl : ℕ → Page) (f : Frames) (contents : ℕ → ℕ)
    (tabl' : ℕ → Page) (f' : Frames) (contents' : ℕ → ℕ) : Type 0 where
  pub below : (j : ℕ) → j < lo → tabl' j ≡ tabl j
  pub skipped : (j : ℕ) → lo ≤ j → j < hi → ((src j).addr == 0) ≡ true → tabl' j ≡ tabl j
  pub copied :
      (j : ℕ)
      → lo ≤ j
      → j < hi
      → ((src j).addr == 0) ≡ false
      → (tabl' j ≡ cloned_page (src j) (tabl' j).addr)
        × (is_used f (tabl' j).addr ≡ false)
        × (is_used f' (tabl' j).addr ≡ true)
        × (contents' (tabl' j).addr ≡ contents (src j).addr)
  pub apart :
      (j k : ℕ)
      → lo ≤ j
      → j < k
      → k < hi
      → ((src j).addr == 0) ≡ false
      → ((src k).addr == 0) ≡ false
      → (tabl' j).addr ≢ (tabl' k).addr
  pub kept : (b : ℕ) → is_used f b ≡ true → (is_used f' b ≡ true) × (contents' b ≡ contents b)

-- The pages with a frame have one that is in use.
abbrev pub AllUsed : (ℕ → Page) → Frames → Type 0
AllUsed src f = (j : ℕ) → ((src j).addr == 0) ≡ false → is_used f (src j).addr ≡ true

-- A clone, or frames that were all in use when one more was wanted.
unfoldable pub CloneOutcome :
    ℕ
    → ℕ
    → (ℕ → Page)
    → (ℕ → Page)
    → Frames
    → (ℕ → ℕ)
    → Option ((ℕ → Page) × Frames × (ℕ → ℕ))
    → Type 0
CloneOutcome lo hi src tabl f contents none =
    (g : Frames) × (alloc_frame g ≡ none) × ((b : ℕ) → is_used f b ≡ true → is_used g b ≡ true)
CloneOutcome lo hi src tabl f contents (some (tabl', f', contents')) =
    IsClone lo hi src tabl f contents tabl' f' contents'

pub done :
    (hi : ℕ) (src tabl : ℕ → Page) (f : Frames) (contents : ℕ → ℕ)
    → IsClone hi hi src tabl f contents tabl f contents
done hi src tabl f contents = record {
  below = λ j h. refl;
  skipped = λ j l h e. refl;
  copied = λ j l h e. absurd (omega arith);
  apart = λ j k l m h d e. absurd (omega arith);
  kept = λ b u. (u, refl);
}

pub skip_one :
    (i hi : ℕ) (src tabl : ℕ → Page) (f : Frames) (contents : ℕ → ℕ)
    → ((src i).addr == 0) ≡ true
    → (o : Option ((ℕ → Page) × Frames × (ℕ → ℕ))) → CloneOutcome (suc i) hi src tabl f contents o
    → CloneOutcome i hi src tabl f contents o
unfolding CloneOutcome
skip_one i hi src tabl f contents z none h = h
skip_one i hi src tabl f contents z (some (tabl', f', contents')) h = record {
  below = λ j l. h.below j (omega arith);
  skipped =
      λ j l r e. elim (dec_lt i j) [ yes p ↦ h.skipped j p r e | no p ↦ h.below j (omega arith) ];
  copied = λ j l r e. elim (dec_lt i j) [
    | yes p ↦ h.copied j p r e
    | no p ↦ absurd (mapped j (omega arith) e)
  ];
  apart = λ j k l r m d e. elim (dec_lt i j) [
    | yes p ↦ h.apart j k p r m d e
    | no p ↦ absurd (mapped j (omega arith) d)
  ];
  kept = h.kept;
}
  where
    mapped : (j : ℕ) → j ≡ i → ((src j).addr == 0) ≡ false → ⊥
    mapped j d e = let e' = subst (λ k. ((src k).addr == 0) ≡ false) d e in ground (arith, z, e')

-- The page that page_map makes of a blank one in a frame, for a clone.
unfoldable pub new_page : ℕ → Page
new_page n = record blank { present = true; user = true; addr = n }

to_true : (b : Bool) → (if b then true else true) ≡ true
to_true true = refl
to_true false = refl

to_same : (b : Bool) → (if b then true else false) ≡ b
to_same true = refl
to_same false = refl

pub clone_flags-new_page : (src : Page) (n : ℕ) → clone_flags src (new_page n) ≡ cloned_page src n
unfolding clone_flags new_page cloned_page
clone_flags-new_page src n = by_flags src.present src.rw src.user src.accessed src.dirty
  where
    by_flags :
        (p r u a d : Bool)
        → ◌≡◌ {A = Page}
            (record {
              present = if p then true else true;
              rw = if r then true else false;
              user = if u then true else true;
              accessed = if a then true else false;
              dirty = if d then true else false;
              addr = n;
            })
            (record { present = true; rw = r; user = true; accessed = a; dirty = d; addr = n })
    by_flags p r u a d = rw (to_true p, to_true u, to_same r, to_same a, to_same d) refl

-- A frame that is handed out, against the frames before and after.
module _ (n : ℕ) (f g : Frames) (free : is_used f n ≡ false)
    (used : (b : ℕ) → is_used g b ≡ (if b == n then true else is_used f b)) where
  pub still_used : (b : ℕ) → is_used f b ≡ true → is_used g b ≡ true
  still_used b u = used b ∙ elim (Bool-cases (b == n)) [ inl e ↦ rw e refl | inr e ↦ rw e u ]

  not_new : (b : ℕ) → is_used f b ≡ true → (b == n) ≡ false
  not_new b u = elim (Bool-cases (b == n)) [
    | inl e ↦ absurd (clash (subst (λ k. is_used f k ≡ true) ((==_iff b n).0 e) u))
    | inr e ↦ e
  ]
    where
      clash : is_used f n ≡ true → ⊥
      clash u' = ground (arith, free, u')

  unused_before : (b : ℕ) → is_used g b ≡ false → is_used f b ≡ false
  unused_before b u = elim (Bool-cases (is_used f b)) [
    | inl e ↦ let e' = still_used b e in absurd (ground (arith, u, e'))
    | inr e ↦ e
  ]

  new_used : is_used g n ≡ true
  new_used = used n ∙ rw (==_refl n) refl

pub copy_one :
    (i hi n : ℕ) (src tabl tabl1 : ℕ → Page) (f g : Frames) (contents contents1 : ℕ → ℕ)
    → IsLeastFree f (some (n, g))
    → AllUsed src f
    → ((src i).addr == 0) ≡ false
    → ((j : ℕ) → tabl1 j ≡ (if j == i then cloned_page (src i) n else tabl j))
    → ((b : ℕ) → contents1 b ≡ (if b == n then contents (src i).addr else contents b))
    → (o : Option ((ℕ → Page) × Frames × (ℕ → ℕ))) → CloneOutcome (suc i) hi src tabl1 g contents1 o
    → CloneOutcome i hi src tabl f contents o
unfolding CloneOutcome IsLeastFree cloned_page
copy_one i hi n src tabl tabl1 f g contents contents1 (range, free, least, used, count, size)
      sources m t1 c1 none (last, full, kept) =
    (last, full, λ b u. kept b (still_used n f g free used b u))
copy_one i hi n src tabl tabl1 f g contents contents1 (range, free, least, used, count, size)
      sources m t1 c1 (some (tabl', f', contents')) h =
    record {
      below = λ j l. h.below j (omega arith) ∙ elsewhere j (ground arith);
      skipped = λ j l r e. elim (dec_lt i j) [
        | yes p ↦ h.skipped j p r e ∙ elsewhere j (ground arith)
        | no p ↦ absurd (mapped j (omega arith) e)
      ];
      copied = λ j l r e. elim (dec_lt i j) [
        | yes p ↦
            let (same, unused, taken, content) = h.copied j p r e in
            (
              same,
              unused_before n f g free used (tabl' j).addr unused,
              taken,
              content ∙ old_contents (src j).addr (sources j e),
            )
        | no p ↦ let d : i ≡ j = omega arith in subst AtPage d at_i
      ];
      apart = λ j k l r q d e. elim (dec_lt i j) [
        | yes p ↦ h.apart j k p r q d e
        | no p ↦
            let s : i ≡ j = omega arith in
            subst (λ j'. (tabl' j').addr ≢ (tabl' k).addr) s
              (λ same. differs k (h.copied k (omega arith) q e).1 same)
      ];
      kept =
          λ b u. let k = h.kept b (still_used n f g free used b u) in (k.0, k.1 ∙ old_contents b u);
    }
  where
    elsewhere : (j : ℕ) → (j == i) ≡ false → tabl1 j ≡ tabl j
    elsewhere j e = t1 j ∙ rw e refl

    old_contents : (b : ℕ) → is_used f b ≡ true → contents1 b ≡ contents b
    old_contents b u = c1 b ∙ rw (not_new n f g free used b u) refl

    mapped : (j : ℕ) → j ≡ i → ((src j).addr == 0) ≡ true → ⊥
    mapped j d e = let e' = subst (λ k. ((src k).addr == 0) ≡ true) d e in ground (arith, m, e')

    page_i : tabl' i ≡ cloned_page (src i) n
    page_i = h.below i (omega arith) ∙ t1 i ∙ rw (==_refl i) refl

    addr_i : (tabl' i).addr ≡ n
    addr_i = ap (λ p. p.addr) page_i

    AtPage : ℕ → Type 0
    AtPage j =
        (tabl' j ≡ cloned_page (src j) (tabl' j).addr)
        × (is_used f (tabl' j).addr ≡ false)
        × (is_used f' (tabl' j).addr ≡ true)
        × (contents' (tabl' j).addr ≡ contents (src j).addr)

    at_i : AtPage i
    at_i =
        let held = h.kept n (new_used n f g free used) in
        subst
          (λ a.
            (tabl' i ≡ cloned_page (src i) a)
            × (is_used f a ≡ false)
            × (is_used f' a ≡ true)
            × (contents' a ≡ contents (src i).addr))
          (sym addr_i) (page_i, free, held.0, held.1 ∙ c1 n ∙ rw (==_refl n) refl)

    differs : (k : ℕ) → is_used g (tabl' k).addr ≡ false → (tabl' i).addr ≡ (tabl' k).addr → ⊥
    differs k unused same =
        let taken : is_used g (tabl' k).addr ≡ true =
          subst (λ a. is_used g a ≡ true) (sym addr_i ∙ same) (new_used n f g free used) in
        ground (arith, unused, taken)
