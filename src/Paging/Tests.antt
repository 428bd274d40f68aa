-- ===== src/Paging/Tests.antt =====
-- kernel/mmu.c: a directory with one table.
use bingos.Common.{
  ap, ◌/◌, ◌%◌, ◌^◌, ℕ, ◌*◌, ◌<◌, ◌≡◌, refl, Bool, true, false, none, some, ◌==◌, ==_iff,
  if◌then◌else◌, arith,
}
use bingos.Frame.{
  store, bitmap_set, bitmap_test, first_clear, first_frame_from, get_first_frame, alloc_frame,
  get_frame,
}
use bingos.Paging.{
  PageDir, Memory, blank, empty_dir, set_page, new_table, set_table, get_page, page_map, page_unmap,
  page_identical_map, get_physaddr, map_address,
}
use bingos.Paging.Tables.{IsDirectory, frame_of}
use bingos.Paging.Processor.{EntryFor, EntriesAgree, Translated, map_address-Translated}

-- The first three frames are in use, of 32.
abbrev memory : Memory
memory = record {
  tables = λ t i.
      if t == 0
      then (if i == 5 then record blank { present = true; rw = true; addr = 2 } else blank)
      else blank;
  next = 1;
  frames = record {
    frame_map = λ i. if i == 0 then 7 else 0;
    used_frames = 3;
    max_frames = 1;
    placement_addr = 0;
  };
  contents = λ b. b * 100;
}

abbrev dir : PageDir
unfolding set_table
dir = set_table (λ t. 4096 * t) 0 0 empty_dir

-- Page 5 is in frame 2; page 6 gets frame 3, and an address of another table a new one.
map-page :
    (elim (map_address (λ t. 4096 * t) 0x6000 false true dir memory) [
      | none ↦ none
      | some (pd, m) ↦ frame_of pd m 0x6123
    ])
    ≡ some 3
unfolding map_address get_page page_map alloc_frame get_first_frame first_frame_from first_clear
    bitmap_set store set_page frame_of set_table
map-page = refl

map-table :
    (elim (map_address (λ t. 4096 * t) 0x400000 false true dir memory) [
      | none ↦ none
      | some (pd, m) ↦ frame_of pd m 0x400123
    ])
    ≡ some 3
unfolding map_address get_page page_map alloc_frame get_first_frame first_frame_from first_clear
    bitmap_set store set_page frame_of set_table new_table
map-table = refl

-- The address of page 5 is right at its start, and nowhere else.
physaddr-start : get_physaddr 0x5000 dir memory ≡ some 0x2000
unfolding get_physaddr set_table
physaddr-start = refl

physaddr-behind : get_physaddr 0x5001 dir memory ≡ some 0x4000
unfolding get_physaddr set_table
physaddr-behind = refl

-- A page that is unmapped stays present, at frame 0.
unmapped : (page_unmap (record blank { present = true; addr = 2 }) memory.frames).0.present ≡ true
unfolding page_unmap
unmapped = refl

identical :
    (elim (page_identical_map blank true false 0x4000 memory.frames) [
      | none ↦ none
      | some (p, f) ↦ some p.addr
    ])
    ≡ some 4
unfolding page_identical_map get_frame bitmap_test bitmap_set store
identical = refl

dir-IsDirectory : IsDirectory dir memory
unfolding set_table
dir-IsDirectory = record {
  old = λ k t h. first k t (k == 0) h;
  once = λ k l t h j.
      same k l ((==_iff k 0).0 (zero_of (k == 0) h)) ((==_iff l 0).0 (zero_of (l == 0) j));
}
  where
    first : (k t : ℕ) (b : Bool) → (if b then some 0 else none) ≡ some t → t < 1
    first k t true h = ground arith
    first k t false h = absurd (ground arith)

    zero_of : {t : ℕ} (b : Bool) → (if b then some 0 else none) ≡ some t → b ≡ true
    zero_of true h = refl
    zero_of false h = absurd (ground arith)

    same : (k l : ℕ) → k ≡ 0 → l ≡ 0 → k ≡ l
    same k l h j = omega arith

dir-EntriesAgree : EntriesAgree (λ t. 4096 * t) dir
unfolding EntriesAgree EntryFor set_table
dir-EntriesAgree k = by_index (k == 0)
  where
    by_index :
        (b : Bool)
        → EntryFor
            (λ t. 4096 * t)
            (if b then some 0 else none)
            (if b
              then record {
                present = true;
                rw = true;
                user = true;
                addr = 4096 * 0 / 2 ^ 12 % 2 ^ 20;
              }
              else record { present = false; rw = false; user = false; addr = 0 })
    by_index true = (refl, refl, refl, refl)
    by_index false = refl

map_address-Translated_example :
    Translated
      (λ t. 4096 * t)
      (λ n. some n)
      0x6000
      dir
      memory
      (map_address (λ t. 4096 * t) 0x6000 false true dir memory)
map_address-Translated_example =
    map_address-Translated (λ t. 4096 * t) (λ n. some n) 0x6000 false true dir memory
      dir-IsDirectory dir-EntriesAgree (omega arith) (λ t l. placed t l)
  where
    placed : (t : ℕ) → t < 2 → some (4096 * t / 2 ^ 12 % 2 ^ 20) ≡ some t
    placed t l = ap some (omega (arith, l))
