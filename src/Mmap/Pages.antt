-- ===== src/Mmap/Pages.antt =====
-- kernel/mmap.c: which pages are mapped.
use bingos.Common.{
  refl, ℕ, zero, suc, ◌+◌, ◌/◌, ◌%◌, ◌^◌, ◌<◌, ◌≡◌, ◌≢◌, Bool, true, false, ◌&&◌, some, ltb, leb,
  ◌==◌, if◌then◌else◌, arith,
}
use bingos.Mmap.{
  VmArea, Process, page_align, insert_vm, set_pages, do_munmap, do_mmap, map_area, make_tables,
}

set_pages_lem :
    (mapped : Bool) (n k : ℕ) (pages : ℕ → Bool) (j : ℕ)
    → set_pages mapped n k pages j ≡ (if leb k j && ltb j (k + n) then mapped else pages j)
unfolding set_pages
set_pages_lem mapped zero k pages j = ground arith
set_pages_lem mapped (suc n) k pages j =
    rw (set_pages_lem mapped n (suc k) (λ i. if i == k then mapped else pages i) j) (ground arith)

-- do_mmap of a range that is not empty and ends a page below the top of memory, whose old maps are
-- taken out, succeeds and maps its pages and the one behind it; every other page is as do_munmap of the
-- range leaves it.
pub do_mmap-pages :
    (addr size : ℕ) (p r : Process)
    → page_align size ≢ 0
    → addr + page_align size + 4096 < 2 ^ 32
    → do_munmap addr (page_align size) p ≡ some r
    → (q : Process) × (do_mmap addr size p ≡ some q)
      × ((j : ℕ)
          → q.pages j ≡ (
              if leb (addr / 4096) j && ltb j (addr / 4096 + suc (page_align size / 4096))
              then true
              else r.pages j))
unfolding do_mmap map_area
do_mmap-pages addr size p r n room cleared =
    let len = page_align size in
    let some_size : (page_align size == 0) ≡ false = ground (arith, n) in
    let inside : leb (2 ^ 32) (addr + len) ≡ false = ground arith in
    let ends : leb (2 ^ 32) (addr + len + 4096) ≡ false = ground arith in
    let area : VmArea = record { vm_start = addr; vm_end = (addr + len) % 2 ^ 32 } in
    (
      record r {
        mmap = insert_vm area r.mmap;
        tables = make_tables (suc (len / 4096)) (addr / 4096) r.tables;
        pages = set_pages true (suc (len / 4096)) (addr / 4096) r.pages;
      },
      rw (some_size, cleared, inside, ends) refl,
      set_pages_lem true (suc (len / 4096)) (addr / 4096) r.pages,
    )
