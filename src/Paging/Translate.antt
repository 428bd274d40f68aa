-- ===== src/Paging/Translate.antt =====
-- kernel/mmu.c: the map from addresses to frames that the page tables are.
use bingos.Common.{
  ◌*◌, ◌%◌, ◌^◌, ◌≤◌, ℕ, ◌≡◌, ◌≢◌, ◌⊎◌, refl, sym, subst, ◌∙◌, Bool, true, false, not, Option, none,
  some, ◌==◌, ==_iff, ==_refl, if◌then◌else◌, arith, inl, inr, Bool-cases, Option-cases,
}
use bingos.Frame.{Frames, alloc_frame}
use bingos.Frame.Alloc.{IsLeastFree, alloc_frame-IsLeastFree}
use bingos.Paging.{
  Page, PageDir, Memory, blank, page_table_index, page_directory_index, set_page, get_page,
  page_map, map_address,
}
use bingos.Paging.Tables.{
  frame_of, page_number, IsDirectory, same_page, page_at, GotPage, PageOutcome,
  get_page-PageOutcome,
}

-- A page that is written into a table, against the frames that are found.
set_page-frame_of :
    (virt w t : ℕ) (pd : PageDir) (m : Memory) (p : Page)
    → IsDirectory pd m
    → pd.tabls (page_directory_index virt) ≡ some t
    → frame_of pd (set_page t (page_table_index virt) p m) w ≡ (
        if page_number w == page_number virt
        then (if p.present then some p.addr else none)
        else frame_of pd m w)
unfolding set_page frame_of
set_page-frame_of virt w t pd m p valid e =
    elim (Bool-cases (page_directory_index w == page_directory_index virt)) [
      | inl d ↦
          let same = (==_iff (page_directory_index w) (page_directory_index virt)).0 d in
          let e' : pd.tabls (page_directory_index w) ≡ some t =
            subst (λ k. pd.tabls k ≡ some t) (sym same) e in
          elim (Bool-cases (page_table_index w == page_table_index virt)) [
            | inl b ↦ rw (same_page w virt, e', ==_refl t, d, b, frame_of) refl
            | inr b ↦ rw (same_page w virt, e', ==_refl t, d, b, frame_of) refl
          ]
      | inr d ↦ elim (Option-cases (pd.tabls (page_directory_index w))) [
        | inl n ↦ rw (same_page w virt, n, d, frame_of) refl
        | inr (u, n) ↦ rw (same_page w virt, n, other u n d, d, frame_of) refl
      ]
    ]
  where
    other :
        (u : ℕ)
        → pd.tabls (page_directory_index w) ≡ some u
        → (page_directory_index w == page_directory_index virt) ≡ false
        → (u == t) ≡ false
    other u n d = elim (Bool-cases (u == t)) [
      | inl s ↦
          let n' = subst (λ k. pd.tabls (page_directory_index w) ≡ some k) ((==_iff u t).0 s) n in
          let same = valid.once (page_directory_index w) (page_directory_index virt) t n' e in
          let same' = (==_iff (page_directory_index w) (page_directory_index virt)).1 same in
          absurd (ground (arith, d, same'))
      | inr s ↦ s
    ]

-- What map_address leaves: an address whose page had no frame is at the frame that alloc_frame gave,
-- one that had keeps it, and every other address is where it was. It fails when no frame is left.
unfoldable pub Mapped : ℕ → PageDir → Memory → Option (PageDir × Memory) → Type 0
Mapped virt pd m none = ((page_at pd m virt).addr ≡ 0) × (alloc_frame m.frames ≡ none)
Mapped virt pd m (some (pd', m')) =
    IsDirectory pd' m'
    × ((w : ℕ) → (page_number w == page_number virt) ≡ false → frame_of pd' m' w ≡ frame_of pd m w)
    × (((page_at pd m virt).addr ≡ 0)
          × ((n : ℕ) × (alloc_frame m.frames ≡ some (n, m'.frames))
              × (frame_of pd' m' virt ≡ some n))
        ⊎ ((page_at pd m virt).addr ≢ 0)
          × (m'.frames ≡ m.frames)
          × (frame_of pd' m' virt ≡ frame_of pd m virt))

set_page-IsDirectory :
    (t i : ℕ) (pd : PageDir) (m : Memory) (p : Page)
    → IsDirectory pd m
    → IsDirectory pd (set_page t i p m)
unfolding set_page
set_page-IsDirectory t i pd m p valid = record { old = valid.old; once = valid.once }

-- A page written where get_page found it.
written :
    (virt t n : ℕ) (pd pd' : PageDir) (m m' : Memory) (p : Page) (g : Frames)
    → GotPage virt t (page_table_index virt) pd pd' m m'
    → p.present ≡ true
    → p.addr ≡ n
    → alloc_frame m.frames ≡ some (n, g)
    → (page_at pd m virt).addr ≡ 0
    → Mapped virt pd m (some (pd', set_page t (page_table_index virt) p (record m' { frames = g })))
unfolding Mapped set_page frame_of
written virt t n pd pd' m m' p g got present addr found z =
    let m'' = record m' { frames = g } in
    let valid : IsDirectory pd' m'' = record { old = got.valid.old; once = got.valid.once } in
    let map : (w : ℕ)
        → frame_of pd' (set_page t (page_table_index virt) p m'') w ≡ (
            if page_number w == page_number virt
            then (if p.present then some p.addr else none)
            else frame_of pd' m'' w) =
      λ w. set_page-frame_of virt w t pd' m'' p valid got.its_table in
    (
      set_page-IsDirectory t (page_table_index virt) pd' m'' p valid,
      λ w e. map w ∙ rw e (got.same_map w),
      inl (z, (n, found, map virt ∙ rw (==_refl (page_number virt), present, addr) refl)),
    )

-- A page that had a frame is written back as it was.
kept :
    (virt t : ℕ) (pd pd' : PageDir) (m m' : Memory)
    → GotPage virt t (page_table_index virt) pd pd' m m'
    → (page_at pd m virt).addr ≢ 0
    → Mapped virt pd m (
        some (
          pd',
          set_page t
              (page_table_index virt)
              (m'.tables t (page_table_index virt))
              (record m' { frames = m'.frames }),
        ))
unfolding Mapped set_page frame_of
kept virt t pd pd' m m' got z =
    let p = m'.tables t (page_table_index virt) in
    let map : (w : ℕ)
        → frame_of pd' (set_page t (page_table_index virt) p m') w ≡ (
            if page_number w == page_number virt
            then (if p.present then some p.addr else none)
            else frame_of pd' m' w) =
      λ w. set_page-frame_of virt w t pd' m' p got.valid got.its_table in
    let here : (if p.present then some p.addr else none) ≡ frame_of pd' m' virt =
      rw (got.its_table, frame_of) refl in
    (
      set_page-IsDirectory t (page_table_index virt) pd' m' p got.valid,
      λ w e. map w ∙ rw e (got.same_map w),
      inr (
        z,
        got.same_frames,
        map virt ∙ rw (==_refl (page_number virt), here) (got.same_map virt),
      ),
    )

map_got :
    (virt t : ℕ) (kernel writable : Bool) (pd pd' : PageDir) (m m' : Memory)
    → m.frames.max_frames * 32 ≤ 2 ^ 20
    → GotPage virt t (page_table_index virt) pd pd' m m'
    → Mapped virt pd m
        (elim (page_map (m'.tables t (page_table_index virt)) kernel writable m'.frames) [
          | none ↦ none
          | some (p, f) ↦
              some (pd', set_page t (page_table_index virt) p (record m' { frames = f }))
        ])
unfolding page_map Mapped IsLeastFree
map_got virt t kernel writable pd pd' m m' small got =
    let i = page_table_index virt in
    let here = got.its_page in
    elim (Bool-cases ((page_at pd m virt).addr == 0)) [
      | inl z ↦
          let a = (==_iff (page_at pd m virt).addr 0).0 z in
          elim (Option-cases (alloc_frame m.frames)) [
            | inl full ↦ rw (here, got.same_frames, z, full, page_map) (a, full)
            | inr ((n, g), found) ↦
                let low =
                  (subst (IsLeastFree m.frames) found (alloc_frame-IsLeastFree m.frames)).0 in
                let whole : n % 2 ^ 20 ≡ n = omega (arith, low, small) in
                rw (here, got.same_frames, z, found, page_map)
                  (written virt t n pd pd' m m'
                    (record blank {
                      rw = writable;
                      user = not kernel;
                      present = true;
                      addr = n % 2 ^ 20;
                    })
                    g got refl whole found a)
          ]
      | inr z ↦
          let z' : ((m'.tables t i).addr == 0) ≡ false = rw here z in
          rw (z', page_map) (kept virt t pd pd' m m' got (differs (page_at pd m virt).addr z))
    ]
  where
    differs : (a : ℕ) → (a == 0) ≡ false → a ≢ 0
    differs a z e = ground arith

-- Mapping an address through get_page and page_map is an update of the map from page numbers to
-- frames at one page: the address gets the frame that alloc_frame hands out, or keeps the one it
-- has, and every other page is where it was, whether a page table was made or not. Frames have 20
-- bits.
pub map_address-Mapped :
    (phys : ℕ → ℕ) (virt : ℕ) (kernel writable : Bool) (pd : PageDir) (m : Memory)
    → IsDirectory pd m
    → m.frames.max_frames * 32 ≤ 2 ^ 20
    → Mapped virt pd m (map_address phys virt kernel writable pd m)
unfolding map_address PageOutcome
map_address-Mapped phys virt kernel writable pd m valid small =
    by_page (get_page phys virt true pd m) (get_page-PageOutcome phys virt pd m valid)
  where
    by_page :
        (r : Option (ℕ × ℕ) × PageDir × Memory)
        → PageOutcome virt pd m r
        → Mapped virt pd m (elim r.0 [
          | none ↦ none
          | some (t, i) ↦ elim (page_map (r.2.tables t i) kernel writable r.2.frames) [
            | none ↦ none
            | some (p, f) ↦ some (r.1, set_page t i p (record r.2 { frames = f }))
          ]
        ])
    by_page (none, pd', m') h = elim h [ ]
    by_page (some (t, i), pd', m') h =
        let got : GotPage virt t (page_table_index virt) pd pd' m m' =
          subst (λ k. GotPage virt t k pd pd' m m') h.its_index h in
        subst
          (λ k. Mapped virt pd m (elim (page_map (m'.tables t k) kernel writable m'.frames) [
            | none ↦ none
            | some (p, f) ↦ some (pd', set_page t k p (record m' { frames = f }))
          ]))
          (sym h.its_index) (map_got virt t kernel writable pd pd' m m' small got)
