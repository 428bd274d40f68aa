-- ===== src/Mmap.antt =====
-- kernel/mmap.c: the areas of a process and its break.
--
-- The list of areas is that of the process; `tables` tells which regions of 1024 pages have a page
-- table and `pages` which page numbers are mapped, behind get_page, page_map and page_unmap of
-- kernel/mmu.c. Addresses have 32 bits. A loop over the pages that does not end, and the failed ASSERT
-- of page_unmap for a page without a table, are `none`. kmalloc does not fail.
pub mod Areas
pub mod Pages
mod Tests
use bingos.Common.{
  ℕ, zero, suc, ◌+◌, ◌-◌, ◌*◌, ◌/◌, ◌%◌, ◌^◌, ◌≤◌, ◌<◌, Bool, true, false, ◌||◌, ◌&&◌, Option, none,
  some, List, [], ◌∷◌, ltb, leb, ◌==◌, if◌then◌else◌,
}

pub record VmArea : Type 0 where
  pub vm_start : ℕ
  pub vm_end : ℕ

pub record Process : Type 0 where
  pub mmap : List VmArea
  pub brk : ℕ
  pub tables : ℕ → Bool
  pub pages : ℕ → Bool

pub page_align : ℕ → ℕ
page_align addr = (addr + 4095) % 2 ^ 32 / 4096 * 4096

pub insert_vm : VmArea → List VmArea → List VmArea
insert_vm area [] = area ∷ []
insert_vm area (i ∷ is) =
    let rest = insert_vm area is in if ltb area.vm_start i.vm_start then area ∷ i ∷ is else i ∷ rest

-- The loop of `do_munmap` over the areas.
pub remove_overlapping : ℕ → ℕ → List VmArea → List VmArea
remove_overlapping addr end [] = []
remove_overlapping addr end (i ∷ is) =
    let rest = remove_overlapping addr end is in
    if leb end i.vm_start || leb i.vm_end addr then i ∷ rest else rest

-- Whether that loop takes an area out.
pub removes : ℕ → ℕ → List VmArea → Bool
removes addr end [] = false
removes addr end (i ∷ is) =
    let rest = removes addr end is in if leb end i.vm_start || leb i.vm_end addr then rest else true

-- The loops over pages: `left` pages from page `k` are mapped or unmapped.
pub set_pages : Bool → ℕ → ℕ → (ℕ → Bool) → ℕ → Bool
set_pages mapped zero k pages = pages
set_pages mapped (suc left) k pages =
    set_pages mapped left (suc k) (λ j. if j == k then mapped else pages j)

-- Whether `get_page` finds a table for each of `left` pages from page `k`.
pub has_tables : ℕ → ℕ → (ℕ → Bool) → Bool
has_tables zero k tables = true
has_tables (suc left) k tables = tables (k / 1024) && has_tables left (suc k) tables

-- The tables that `get_page` makes for `left` pages from page `k`.
pub make_tables : ℕ → ℕ → (ℕ → Bool) → ℕ → Bool
make_tables zero k tables = tables
make_tables (suc left) k tables =
    make_tables left (suc k) (λ j. if j == k / 1024 then true else tables j)

-- The number of pages that the loop of `do_munmap` goes over.
pub unmap_count : ℕ → ℕ → ℕ
unmap_count addr len = if ltb (addr + len) (2 ^ 32) then len / 4096 else 0

pub do_munmap : ℕ → ℕ → Process → Option Process
unfolding has_tables unmap_count
do_munmap addr size p =
    let end = (addr + size) % 2 ^ 32 in
    let count = unmap_count addr (page_align size) in
    if page_align size == 0
    then some p
    else if removes addr end p.mmap
    then if has_tables count (addr / 4096) p.tables
      then some (record p {
        mmap = remove_overlapping addr end p.mmap;
        pages = set_pages false count (addr / 4096) p.pages;
      })
      else none
    else some p

-- The loop that maps the pages of `do_mmap`, which includes the address behind the area.
pub map_area : ℕ → ℕ → Process → Option Process
unfolding make_tables
map_area addr len p =
    if leb (2 ^ 32) (addr + len)
    then some p
    else if leb (2 ^ 32) (addr + len + 4096)
    then none
    else some (record p {
      tables = make_tables (suc (len / 4096)) (addr / 4096) p.tables;
      pages = set_pages true (suc (len / 4096)) (addr / 4096) p.pages;
    })

pub do_mmap : ℕ → ℕ → Process → Option Process
unfolding map_area page_align
do_mmap addr size p =
    let len = page_align size in
    let area : VmArea = record { vm_start = addr; vm_end = (addr + len) % 2 ^ 32 } in
    if len == 0 then some p else elim (do_munmap addr len p) [
      | none ↦ none
      | some q ↦ elim (map_area addr len q) [
        | none ↦ none
        | some r ↦ some (record r { mmap = insert_vm area r.mmap })
      ]
    ]

-- `sys_brk`: the address returned and the process; `free` is what free_pages returns, as an int.
pub sys_brk : ℕ → ℕ → Process → Option (ℕ × Process)
unfolding page_align
sys_brk free brk p =
    let newbrk = page_align brk in
    let oldbrk = page_align p.brk in
    if ltb brk p.brk
    then some (p.brk, p)
    else if oldbrk == newbrk
    then some (brk, record p { brk = brk })
    else if leb brk p.brk
    then elim (do_munmap newbrk ((oldbrk + 2 ^ 32 - newbrk) % 2 ^ 32) (record p { brk = brk })) [
      | none ↦ none
      | some q ↦ some (brk, q)
    ]
    else if leb (2 ^ 31) free
    then some (p.brk, p)
    else elim (do_mmap oldbrk ((newbrk + 2 ^ 32 - oldbrk) % 2 ^ 32) (record p { brk = brk })) [
      | none ↦ none
      | some q ↦ some (brk, q)
    ]

-- The areas are sorted, not empty, and do not overlap, from an address on.
pub IsApart : ℕ → List VmArea → Type 0
IsApart low [] = Unit
IsApart low (i ∷ is) = (low ≤ i.vm_start) × (i.vm_start < i.vm_end) × IsApart i.vm_end is

pub IsValid : Process → Type 0
IsValid p = IsApart 0 p.mmap
