-- ===== src/Mmap/Tests.antt =====
-- kernel/mmap.c: runs on two areas.
use bingos.Common.{◌==◌, ℕ, ◌≡◌, refl, true, false, none, some, [], ◌∷◌}
use bingos.Mmap.{
  Process, page_align, insert_vm, remove_overlapping, removes, set_pages, do_munmap, do_mmap,
  sys_brk, map_area, unmap_count, has_tables, make_tables,
}

abbrev two_areas : Process
two_areas = record {
  mmap =
      record { vm_start = 4096; vm_end = 12288 } ∷ record { vm_start = 40960; vm_end = 45056 } ∷ [];
  brk = 8192;
  tables = λ r. r == 0;
  pages = λ k. false;
}

-- The area that is overlapped in part is gone.
abbrev one_replaced : Process
one_replaced = record {
  mmap =
      record { vm_start = 8192; vm_end = 12288 } ∷ record { vm_start = 40960; vm_end = 45056 } ∷ [];
  brk = 8192;
  tables = make_tables 2 2 (λ r. r == 0);
  pages = set_pages true 2 2 (set_pages false 1 2 (λ k. false));
}

do_mmap-two_areas : do_mmap 8192 100 two_areas ≡ some one_replaced
unfolding do_mmap do_munmap map_area unmap_count has_tables remove_overlapping removes page_align
    insert_vm
do_mmap-two_areas = refl

sys_brk-down : sys_brk 10 4096 two_areas ≡ some (8192, two_areas)
unfolding sys_brk
sys_brk-down = refl

sys_brk-up : ◌≡◌ {A = ℕ} (elim (sys_brk 10 8193 two_areas) [ none ↦ 0 | some (r, p) ↦ p.brk ]) 8193
unfolding sys_brk do_mmap do_munmap map_area removes page_align
sys_brk-up = refl

-- The page at 4 MB has no table: the ASSERT of page_unmap fails.
munmap-table : do_munmap 0x9000 0x400000 two_areas ≡ none
unfolding do_munmap unmap_count has_tables removes page_align
munmap-table = refl
