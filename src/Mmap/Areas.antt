-- ===== src/Mmap/Areas.antt =====
-- kernel/mmap.c: the areas stay sorted and apart.
use bingos.Common.{
  ◌++◌, ◌/◌, ◌⊎◌, ℕ, ◌+◌, ◌%◌, ◌^◌, ◌≤◌, ◌≡◌, true, false, ◌||◌, Option, none, some, List, [], ◌∷◌,
  leb,
}
use bingos.Mmap.{VmArea, Process, page_align, removes, has_tables, unmap_count, IsValid}

-- No area reaches into the range from `addr` to `end`.
IsClear : ℕ → ℕ → List VmArea → Type 0
IsClear addr end [] = Unit
IsClear addr end (i ∷ is) = ((leb end i.vm_start || leb i.vm_end addr) ≡ true) × IsClear addr end is

-- What do_munmap leaves: valid areas, none of which reaches into the range; it fails where an area does
-- and a page of the range has no table.
pub UnmapOutcome : ℕ → ℕ → Process → Option Process → Type 0
UnmapOutcome addr size p none =
    (removes addr ((addr + size) % 2 ^ 32) p.mmap ≡ true)
    × (has_tables (unmap_count addr (page_align size)) (addr / 4096) p.tables ≡ false)
UnmapOutcome addr size p (some q) =
    IsValid q × ((page_align size ≡ 0) ⊎ IsClear addr ((addr + size) % 2 ^ 32) q.mmap)

-- The same, with a clear range where it is not empty.
Cleared : ℕ → ℕ → Process → Option Process → Type 0
Cleared addr size p none =
    (removes addr ((addr + size) % 2 ^ 32) p.mmap ≡ true)
    × (has_tables (unmap_count addr (page_align size)) (addr / 4096) p.tables ≡ false)
Cleared addr size p (some q) = IsValid q × IsClear addr ((addr + size) % 2 ^ 32) q.mmap

-- The outcomes of do_mmap on the areas: it fails where do_munmap does, and where its loop does not end.
pub MmapOutcome : ℕ → ℕ → Process → Option Process → Type 0
MmapOutcome addr len p none = Cleared addr len p none ⊎ (2 ^ 32 ≤ addr + len + 4096)
MmapOutcome addr len p (some q) =
    IsValid q
    × ((len ≡ 0)
        ⊎ ((ys : List VmArea) × (zs : List VmArea) × (q.mmap
              ≡ ys ++ (record { vm_start = addr; vm_end = addr + len } ∷ zs))))
