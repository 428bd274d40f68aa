-- ===== src/Paging.antt =====
-- kernel/mmu.c: page directories, page tables and the pages of an address space.
--
-- A page table is named by a number; kmalloc_i gives out the next one, zeroed by the callers, at the
-- physical address that `phys` tells. `contents` is what the frames of physical memory hold, which
-- copy_page_physical copies. A failed ASSERT and a PANIC are `none`. The bits that nothing sets
-- (write through, cache disabled, global, size) are left out; the addresses in entries have 20 bits. The switches of the page directory are
-- writes of control registers.
pub mod Tables
pub mod Translate
pub mod Processor
pub mod Copy
pub mod Clone
mod Tests
use bingos.Common.{
  ℕ, zero, suc, ◌+◌, ◌-◌, ◌*◌, ◌/◌, ◌%◌, ◌^◌, Bool, true, false, not, ◌&&◌, ◌||◌, Option, none,
  some, ◌>>=◌, ◌>>◌, ltb, leb, ◌==◌, if◌then◌else◌,
}
use bingos.Frame.{Frames, alloc_frame, get_frame, free_frame}

-- `page_t`
pub record Page : Type 0 where
  pub present : Bool
  pub rw : Bool
  pub user : Bool
  pub accessed : Bool
  pub dirty : Bool
  pub addr : ℕ

-- `paged_entry_t`
pub record PagedEntry : Type 0 where
  pub present : Bool
  pub rw : Bool
  pub user : Bool
  pub addr : ℕ

-- `page_dir_t`: the tables by their names, and the entries that the processor reads.
pub record PageDir : Type 0 where
  pub tabls : ℕ → Option ℕ
  pub entries : ℕ → PagedEntry

-- The page tables, the table that kmalloc_i gives out next, and physical memory.
pub record Memory : Type 0 where
  pub tables : ℕ → ℕ → Page
  pub next : ℕ
  pub frames : Frames
  pub contents : ℕ → ℕ

abbrev pub blank : Page
blank = record {
  present = false;
  rw = false;
  user = false;
  accessed = false;
  dirty = false;
  addr = 0;
}

abbrev pub page_table_index : ℕ → ℕ
page_table_index virt = virt / 2 ^ 12 % 1024

abbrev pub page_directory_index : ℕ → ℕ
page_directory_index virt = virt / 2 ^ 22 % 1024

-- `tables[t].pages[i] = page`
pub set_page : ℕ → ℕ → Page → Memory → Memory
set_page t i page m = record m { tables = λ u j. if u == t && j == i then page else m.tables u j }

-- A new table, all of whose pages are zero.
pub new_table : Memory → Memory
new_table m = record m {
  tables = λ u j. if u == m.next then blank else m.tables u j;
  next = m.next + 1;
}

-- The directory with a table at an index, and the entry for it.
pub set_table : (ℕ → ℕ) → ℕ → ℕ → PageDir → PageDir
set_table phys i t pd = record {
  tabls = λ k. if k == i then some t else pd.tabls k;
  entries = λ k.
      if k == i
      then record { present = true; rw = true; user = true; addr = phys t / 2 ^ 12 % 2 ^ 20 }
      else pd.entries k;
}

-- `get_page`: the table and the index of the page, or `none` for NULL.
pub get_page : (ℕ → ℕ) → ℕ → Bool → PageDir → Memory → Option (ℕ × ℕ) × PageDir × Memory
unfolding new_table set_table
get_page phys virt make pd m = elim (pd.tabls (page_directory_index virt)) [
  | some t ↦ (some (t, page_table_index virt), pd, m)
  | none ↦
      if make
      then (
        some (m.next, page_table_index virt),
        set_table phys (page_directory_index virt) m.next pd,
        new_table m,
      )
      else (none, pd, m)
]

-- `page_map` on a page that is not NULL: the page and the frames after it.
pub page_map : Page → Bool → Bool → Frames → Option (Page × Frames)
page_map page kernel writable f =
    if page.addr == 0
    then (elim (alloc_frame f) [
      | none ↦ none
      | some (n, g) ↦
          some (
            record blank { rw = writable; user = not kernel; present = true; addr = n % 2 ^ 20 },
            g,
          )
    ])
    else some (page, f)

pub page_unmap : Page → Frames → Page × Frames
page_unmap page f = (record page { addr = 0 }, free_frame page.addr f)

pub page_identical_map : Page → Bool → Bool → ℕ → Frames → Option (Page × Frames)
page_identical_map page kernel writable virt f =
    if page.addr == 0
    then (elim (get_frame (virt / 2 ^ 12) f) [
      | none ↦ none
      | some g ↦ some (
        record blank {
          rw = writable;
          user = not kernel;
          present = true;
          addr = virt / 2 ^ 12 % 2 ^ 20;
        },
        g,
      )
    ])
    else some (page, f)

-- `get_physaddr`, of a page of the kernel's directory; the shift is by the sum.
pub get_physaddr : ℕ → PageDir → Memory → Option ℕ
get_physaddr virtualaddr kernel_pd m = elim (kernel_pd.tabls (virtualaddr / 2 ^ 22)) [
  | none ↦ none
  | some t ↦ some (
      (m.tables t (virtualaddr / 2 ^ 12 % 1024)).addr
      * 2 ^ ((12 + virtualaddr % 2 ^ 12) % 32)
      % 2 ^ 32)
]

-- What `get_page` with `make` and `page_map` do to an address, as the callers put them together.
pub map_address : (ℕ → ℕ) → ℕ → Bool → Bool → PageDir → Memory → Option (PageDir × Memory)
unfolding set_page
map_address phys virt kernel writable pd m =
    let (page, pd', m') = get_page phys virt true pd m in
    elim page [
      | none ↦ none
      | some (t, i) ↦ elim (page_map (m'.tables t i) kernel writable m'.frames) [
        | none ↦ none
        | some (p, f) ↦ some (pd', set_page t i p (record m' { frames = f }))
      ]
    ]

-- The page that `table_clone` makes of a page, in the frame that page_map gave it.
pub clone_flags : Page → Page → Page
clone_flags src page = record page {
  present = if src.present then true else page.present;
  rw = if src.rw then true else page.rw;
  user = if src.user then true else page.user;
  accessed = if src.accessed then true else page.accessed;
  dirty = if src.dirty then true else page.dirty;
}

-- The loop of `table_clone` from index `i`, with `left` indices left: the pages of the clone, the
-- frames and what they hold.
pub clone_from :
    ℕ → ℕ → (ℕ → Page) → (ℕ → Page) → Frames → (ℕ → ℕ) → Option ((ℕ → Page) × Frames × (ℕ → ℕ))
clone_from zero i src tabl f contents = some (tabl, f, contents)
clone_from (suc left) i src tabl f contents =
    let skip = clone_from left (suc i) src tabl f contents in
    if (src i).addr == 0 then skip else (elim (page_map (tabl i) false false f) [
      | none ↦ none
      | some (p, g) ↦
          clone_from left (suc i) src (λ j. if j == i then clone_flags (src i) p else tabl j) g
            (λ b. if b == p.addr then contents (src i).addr else contents b)
    ])

-- `table_clone`: the new table, which is the one that kmalloc_i gave out.
pub table_clone : ℕ → Memory → Option (ℕ × Memory)
table_clone src m = elim (clone_from 1024 0 (m.tables src) (λ i. blank) m.frames m.contents) [
  | none ↦ none
  | some (tabl, f, contents) ↦ some (
    m.next,
    record {
      tables = λ u j. if u == m.next then tabl j else m.tables u j;
      next = m.next + 1;
      frames = f;
      contents = contents;
    },
  )
]

-- Whether two directories have the same table at an index.
pub shared : Option ℕ → Option ℕ → Bool
shared none none = true
shared none (some u) = false
shared (some t) none = false
shared (some t) (some u) = t == u

-- The loop of `page_dir_clone`: the tables of the kernel are shared, the others cloned.
pub dir_clone_from :
    (ℕ → ℕ) → PageDir → ℕ → ℕ → PageDir → PageDir → Memory → Option (PageDir × Memory)
dir_clone_from phys kernel_pd zero i src dir m = some (dir, m)
dir_clone_from phys kernel_pd (suc left) i src dir m =
    let skip = dir_clone_from phys kernel_pd left (suc i) src dir m in
    let same =
      dir_clone_from phys kernel_pd left (suc i) src
        (record {
          tabls = λ k. if k == i then src.tabls i else dir.tabls k;
          entries = λ k. if k == i then src.entries i else dir.entries k;
        })
        m in
    elim (src.tabls i) [
      | none ↦ skip
      | some t ↦ if shared (kernel_pd.tabls i) (some t) then same else (elim (table_clone t m) [
        | none ↦ none
        | some (u, m') ↦ dir_clone_from phys kernel_pd left (suc i) src (set_table phys i u dir) m'
      ])
    ]

-- A directory without tables.
abbrev pub empty_dir : PageDir
empty_dir = record {
  tabls = λ k. none;
  entries = λ k. record { present = false; rw = false; user = false; addr = 0 };
}

pub page_dir_clone : (ℕ → ℕ) → PageDir → PageDir → Memory → Option (PageDir × Memory)
unfolding dir_clone_from
page_dir_clone phys kernel_pd src m = dir_clone_from phys kernel_pd 1024 0 src empty_dir m
