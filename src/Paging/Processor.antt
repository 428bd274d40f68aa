-- ===== src/Paging/Processor.antt =====
-- kernel/mmu.c: the map that the processor reads, through the entries of a directory.
use bingos.Common.{
  ℕ, suc, ◌*◌, ◌/◌, ◌%◌, ◌^◌, ◌≤◌, ◌<◌, ◌≡◌, ◌≢◌, ◌⊎◌, refl, sym, ◌∙◌, Bool, true, false, Option,
  none, some, ◌==◌, if◌then◌else◌, arith, inl, inr, Bool-cases, Option-cases,
}
use bingos.Frame.{Frames, alloc_frame}
use bingos.Paging.{
  Page, PagedEntry, PageDir, Memory, page_table_index, page_directory_index, set_page, new_table,
  set_table, get_page, page_map, map_address,
}
use bingos.Paging.Tables.{frame_of, page_number, IsDirectory, page_at}
use bingos.Paging.Translate.{Mapped, map_address-Mapped}

-- The frame of an address as the processor finds it: by the entry of the directory, where it is
-- present, the table in the frame of this entry, which `table_at` names, and the page, where it is
-- present.
unfoldable pub translate : (ℕ → Option ℕ) → PageDir → Memory → ℕ → Option ℕ
translate table_at pd m virt =
    let e = pd.entries (page_directory_index virt) in
    if e.present
    then (elim (table_at e.addr) [
      | none ↦ none
      | some t ↦
          let p = m.tables t (page_table_index virt) in if p.present then some p.addr else none
    ])
    else none

-- The entry of a table, or of no table.
unfoldable pub EntryFor : (ℕ → ℕ) → Option ℕ → PagedEntry → Type 0
EntryFor phys none e = e.present ≡ false
EntryFor phys (some t) e =
    (e.present ≡ true) × (e.rw ≡ true) × (e.user ≡ true) × (e.addr ≡ phys t / 2 ^ 12 % 2 ^ 20)

-- The entries are those of the tables.
unfoldable pub EntriesAgree : (ℕ → ℕ) → PageDir → Type 0
EntriesAgree phys pd = (k : ℕ) → EntryFor phys (pd.tabls k) (pd.entries k)

translate-frame_of :
    (phys : ℕ → ℕ) (table_at : ℕ → Option ℕ) (bound : ℕ) (pd : PageDir) (m : Memory) (w : ℕ)
    → ((t : ℕ) → t < bound → table_at (phys t / 2 ^ 12 % 2 ^ 20) ≡ some t)
    → IsDirectory pd m
    → m.next ≤ bound
    → EntriesAgree phys pd
    → translate table_at pd m w ≡ frame_of pd m w
unfolding translate frame_of EntriesAgree EntryFor
translate-frame_of phys table_at bound pd m w placed valid low agree =
    by_table (pd.tabls (page_directory_index w)) refl (agree (page_directory_index w))
  where
    by_table :
        (o : Option ℕ)
        → pd.tabls (page_directory_index w) ≡ o
        → EntryFor phys o (pd.entries (page_directory_index w))
        → translate table_at pd m w ≡ frame_of pd m w
    by_table none e off = rw (translate, off, frame_of, e) refl
    by_table (some t) e (on, writable, user, addr) =
        let old = valid.old (page_directory_index w) t e in
        let at = placed t (omega (arith, old, low)) in
        rw (translate, on, addr, at, frame_of, e) refl

-- What map_address leaves of the entries, and how many tables it makes.
Settled : (ℕ → ℕ) → Memory → Option (PageDir × Memory) → Type 0
Settled phys m none = Unit
Settled phys m (some (pd', m')) = EntriesAgree phys pd' × (m'.next ≤ suc m.next)

set_table-EntriesAgree :
    (phys : ℕ → ℕ) (i t : ℕ) (pd : PageDir)
    → EntriesAgree phys pd
    → EntriesAgree phys (set_table phys i t pd)
unfolding set_table EntriesAgree EntryFor
set_table-EntriesAgree phys i t pd agree k = elim (Bool-cases (k == i)) [
  | inl e ↦ rw e (refl, refl, refl, refl)
  | inr e ↦ rw e (agree k)
]

get_page-EntriesAgree :
    (phys : ℕ → ℕ) (virt : ℕ) (pd : PageDir) (m : Memory)
    → EntriesAgree phys pd
    → EntriesAgree phys (get_page phys virt true pd m).1
      × ((get_page phys virt true pd m).2.next ≤ suc m.next)
unfolding get_page new_table
get_page-EntriesAgree phys virt pd m agree =
    elim (Option-cases (pd.tabls (page_directory_index virt))) [
      | inl e ↦
          rw (e, get_page)
            (set_table-EntriesAgree phys (page_directory_index virt) m.next pd agree, omega arith)
      | inr (t, e) ↦ rw (e, get_page) (agree, omega arith)
    ]

map_address-Settled :
    (phys : ℕ → ℕ) (virt : ℕ) (kernel writable : Bool) (pd : PageDir) (m : Memory)
    → EntriesAgree phys pd
    → Settled phys m (map_address phys virt kernel writable pd m)
unfolding map_address Settled set_page
map_address-Settled phys virt kernel writable pd m agree =
    by_page (get_page phys virt true pd m) (get_page-EntriesAgree phys virt pd m agree)
  where
    by_frame :
        (t i : ℕ) (pd' : PageDir) (m' : Memory) (o : Option (Page × Frames))
        → EntriesAgree phys pd' × (m'.next ≤ suc m.next)
        → Settled phys m (elim o [
          | none ↦ none
          | some (p, f) ↦ some (pd', set_page t i p (record m' { frames = f }))
        ])
    by_frame t i pd' m' none h = tt
    by_frame t i pd' m' (some (p, f)) h = h

    by_page :
        (r : Option (ℕ × ℕ) × PageDir × Memory)
        → EntriesAgree phys r.1 × (r.2.next ≤ suc m.next)
        → Settled phys m (elim r.0 [
          | none ↦ none
          | some (t, i) ↦ elim (page_map (r.2.tables t i) kernel writable r.2.frames) [
            | none ↦ none
            | some (p, f) ↦ some (r.1, set_page t i p (record r.2 { frames = f }))
          ]
        ])
    by_page (none, pd', m') h = tt
    by_page (some (t, i), pd', m') h =
        by_frame t i pd' m' (page_map (m'.tables t i) kernel writable m'.frames) h

-- What map_address leaves for the processor: an address whose page had no frame is at the frame that
-- alloc_frame gave, one that had keeps it, and every other address is where it was. It fails when no
-- frame is left.
pub Translated :
    (ℕ → ℕ) → (ℕ → Option ℕ) → ℕ → PageDir → Memory → Option (PageDir × Memory) → Type 0
Translated phys table_at virt pd m none =
    ((page_at pd m virt).addr ≡ 0) × (alloc_frame m.frames ≡ none)
Translated phys table_at virt pd m (some (pd', m')) =
    IsDirectory pd' m'
    × EntriesAgree phys pd'
    × ((w : ℕ)
        → (page_number w == page_number virt) ≡ false
        → translate table_at pd' m' w ≡ translate table_at pd m w)
    × (((page_at pd m virt).addr ≡ 0)
          × ((n : ℕ) × (alloc_frame m.frames ≡ some (n, m'.frames))
              × (translate table_at pd' m' virt ≡ some n))
        ⊎ ((page_at pd m virt).addr ≢ 0)
          × (m'.frames ≡ m.frames)
          × (translate table_at pd' m' virt ≡ translate table_at pd m virt))

-- Mapping an address through get_page and page_map is an update at one page of the map from page
-- numbers to frames that the processor reads through the entries of the directory: the address gets
-- the frame that alloc_frame hands out, or keeps the one it has, and every other page is where it was,
-- whether a page table was made or not. The entries stay those of the tables. Frames have 20 bits, and
-- the tables, with the one that may be made, are in frames of their own.
pub map_address-Translated :
    (phys : ℕ → ℕ) (table_at : ℕ → Option ℕ) (virt : ℕ) (kernel writable : Bool) (pd : PageDir)
    (m : Memory)
    → IsDirectory pd m
    → EntriesAgree phys pd
    → m.frames.max_frames * 32 ≤ 2 ^ 20
    → ((t : ℕ) → t < suc m.next → table_at (phys t / 2 ^ 12 % 2 ^ 20) ≡ some t)
    → Translated phys table_at virt pd m (map_address phys virt kernel writable pd m)
unfolding Translated Mapped Settled
map_address-Translated phys table_at virt kernel writable pd m valid agree small placed =
    both (map_address phys virt kernel writable pd m)
      (map_address-Mapped phys virt kernel writable pd m valid small)
      (map_address-Settled phys virt kernel writable pd m agree)
  where
    before : (w : ℕ) → translate table_at pd m w ≡ frame_of pd m w
    before w = translate-frame_of phys table_at (suc m.next) pd m w placed valid (omega arith) agree

    both :
        (o : Option (PageDir × Memory))
        → Mapped virt pd m o
        → Settled phys m o
        → Translated phys table_at virt pd m o
    both none failed settled = failed
    both (some (pd', m')) (valid', others, here) (agree', next) =
        let after : (w : ℕ) → translate table_at pd' m' w ≡ frame_of pd' m' w =
          λ w. translate-frame_of phys table_at (suc m.next) pd' m' w placed valid' next agree' in
        (
          valid',
          agree',
          λ w e. after w ∙ others w e ∙ sym (before w),
          elim here [
            | inl (z, (n, found, at)) ↦ inl (z, (n, found, after virt ∙ at))
            | inr (z, same, at) ↦ inr (z, same, after virt ∙ at ∙ sym (before virt))
          ],
        )
