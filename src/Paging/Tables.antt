-- ===== src/Paging/Tables.antt =====
-- kernel/mmu.c: the pages that get_page finds and makes.
use bingos.Common.{
  ℕ, ◌/◌, ◌%◌, ◌^◌, ◌<◌, ◌≡◌, ◌⊎◌, refl, sym, subst, ◌∙◌, true, false, ◌&&◌, Option, none, some,
  ◌==◌, ==_iff, ==_refl, if◌then◌else◌, arith, inl, inr, Bool-cases, Option-cases,
}
use bingos.Paging.{
  Page, PageDir, Memory, blank, page_table_index, page_directory_index, new_table, set_table,
  get_page,
}

-- The frame of an address, by the tables of the directory: where the page is present.
unfoldable pub frame_of : PageDir → Memory → ℕ → Option ℕ
frame_of pd m virt = elim (pd.tabls (page_directory_index virt)) [
  | none ↦ none
  | some t ↦ let p = m.tables t (page_table_index virt) in if p.present then some p.addr else none
]

-- The page number of an address in an address space of 2 ^ 20 pages.
unfoldable pub page_number : ℕ → ℕ
page_number virt = virt / 2 ^ 12 % 2 ^ 20

-- A table is at one index of a directory at most, and was given out before.
pub record IsDirectory (pd : PageDir) (m : Memory) : Type 0 where
  pub old : (k t : ℕ) → pd.tabls k ≡ some t → t < m.next
  pub once : (k l t : ℕ) → pd.tabls k ≡ some t → pd.tabls l ≡ some t → k ≡ l

halves :
    (a b : ℕ)
    → (a % 1048576 == b % 1048576) ≡ (a / 1024 % 1024 == b / 1024 % 1024 && a % 1024 == b % 1024)
halves a b = ground arith

pub same_page :
    (v w : ℕ)
    → (page_number v == page_number w) ≡ (
        page_directory_index v == page_directory_index w
        && page_table_index v == page_table_index w)
unfolding page_number
same_page v w =
    let a : v / 2 ^ 22 ≡ v / 2 ^ 12 / 1024 = omega arith in
    let b : w / 2 ^ 22 ≡ w / 2 ^ 12 / 1024 = omega arith in
    rw (a, b) (halves (v / 2 ^ 12) (w / 2 ^ 12))

-- The page of an address, blank where there is no table for it.
unfoldable pub page_at : PageDir → Memory → ℕ → Page
page_at pd m virt = elim (pd.tabls (page_directory_index virt)) [
  | none ↦ blank
  | some t ↦ m.tables t (page_table_index virt)
]

-- What get_page leaves: a page of the table of the address, which is the page that was there, with
-- all the frames found as before.
pub record GotPage (virt t i : ℕ) (pd pd' : PageDir) (m m' : Memory) : Type 0 where
  pub its_table : pd'.tabls (page_directory_index virt) ≡ some t
  pub its_index : i ≡ page_table_index virt
  pub its_page : m'.tables t i ≡ page_at pd m virt
  pub same_frames : m'.frames ≡ m.frames
  pub same_map : (w : ℕ) → frame_of pd' m' w ≡ frame_of pd m w
  pub valid : IsDirectory pd' m'

unfoldable pub PageOutcome : ℕ → PageDir → Memory → Option (ℕ × ℕ) × PageDir × Memory → Type 0
PageOutcome virt pd m (none, pd', m') = ⊥
PageOutcome virt pd m (some (t, i), pd', m') = GotPage virt t i pd pd' m m'

found_table :
    (virt t : ℕ) (pd : PageDir) (m : Memory)
    → IsDirectory pd m
    → pd.tabls (page_directory_index virt) ≡ some t
    → GotPage virt t (page_table_index virt) pd pd m m
unfolding page_at
found_table virt t pd m valid e = record {
  its_table = e;
  its_index = refl;
  its_page = rw (e, page_at) refl;
  same_frames = refl;
  same_map = λ w. refl;
  valid = valid;
}

some_inj : {a b : ℕ} → some a ≡ some b → a ≡ b
some_inj h = ground arith

-- The table at an index of a directory with a new table.
added :
    (i k t : ℕ) (pd : PageDir) (m : Memory)
    → (if k == i then some m.next else pd.tabls k) ≡ some t
    → (k ≡ i) × (t ≡ m.next) ⊎ (pd.tabls k ≡ some t)
added i k t pd m h = elim (Bool-cases (k == i)) [
  | inl e ↦ let h' = rw e at h in inl ((==_iff k i).0 e, sym (some_inj h'))
  | inr e ↦ inr (rw e at h)
]

new_table-IsDirectory :
    (phys : ℕ → ℕ) (i : ℕ) (pd : PageDir) (m : Memory)
    → IsDirectory pd m
    → IsDirectory (set_table phys i m.next pd) (new_table m)
unfolding set_table new_table
new_table-IsDirectory phys i pd m valid = record {
  old = λ k t h. elim (added i k t pd m h) [
    | inl (a, b) ↦ omega (arith, b)
    | inr a ↦ let l = valid.old k t a in omega (arith, l)
  ];
  once = λ k l t h j. elim (added i k t pd m h) [
    | inl (a, b) ↦ elim (added i l t pd m j) [
      | inl (c, d) ↦ a ∙ sym c
      | inr c ↦ let n = valid.old l t c in absurd (omega (arith, n, b))
    ]
    | inr a ↦ elim (added i l t pd m j) [
      | inl (c, d) ↦ let n = valid.old k t a in absurd (omega (arith, n, d))
      | inr c ↦ valid.once k l t a c
    ]
  ];
}

new_table_map :
    (phys : ℕ → ℕ) (virt w : ℕ) (pd : PageDir) (m : Memory)
    → IsDirectory pd m
    → pd.tabls (page_directory_index virt) ≡ none
    → frame_of (set_table phys (page_directory_index virt) m.next pd) (new_table m) w
      ≡ frame_of pd m w
unfolding set_table new_table frame_of
new_table_map phys virt w pd m valid e =
    elim (Bool-cases (page_directory_index w == page_directory_index virt)) [
      | inl d ↦
          let same = (==_iff (page_directory_index w) (page_directory_index virt)).0 d in
          let e' : pd.tabls (page_directory_index w) ≡ none =
            subst (λ k. pd.tabls k ≡ none) (sym same) e in
          rw (d, ==_refl m.next, e', frame_of) refl
      | inr d ↦ elim (Option-cases (pd.tabls (page_directory_index w))) [
        | inl n ↦ rw (d, n, frame_of) refl
        | inr (t, n) ↦
            let less = valid.old (page_directory_index w) t n in
            let other : (t == m.next) ≡ false = ground (arith, less) in
            rw (d, n, other, frame_of) refl
      ]
    ]

made_table :
    (phys : ℕ → ℕ) (virt : ℕ) (pd : PageDir) (m : Memory)
    → IsDirectory pd m
    → pd.tabls (page_directory_index virt) ≡ none
    → GotPage virt m.next
        (page_table_index virt)
        pd
        (set_table phys (page_directory_index virt) m.next pd)
        m
        (new_table m)
unfolding page_at set_table new_table frame_of
made_table phys virt pd m valid e = record {
  its_table = rw (==_refl (page_directory_index virt)) refl;
  its_index = refl;
  its_page = rw (e, ==_refl m.next, page_at) refl;
  same_frames = refl;
  same_map = λ w. new_table_map phys virt w pd m valid e;
  valid = new_table-IsDirectory phys (page_directory_index virt) pd m valid;
}

pub get_page-PageOutcome :
    (phys : ℕ → ℕ) (virt : ℕ) (pd : PageDir) (m : Memory)
    → IsDirectory pd m
    → PageOutcome virt pd m (get_page phys virt true pd m)
unfolding PageOutcome get_page
get_page-PageOutcome phys virt pd m valid =
    elim (Option-cases (pd.tabls (page_directory_index virt))) [
      | inl e ↦ rw (e, get_page) (made_table phys virt pd m valid e)
      | inr (t, e) ↦ rw (e, get_page) (found_table virt t pd m valid e)
    ]
