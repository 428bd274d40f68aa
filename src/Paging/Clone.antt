-- ===== src/Paging/Clone.antt =====
-- kernel/mmu.c: the copy of a page table, in frames of its own.
use bingos.Common.{ℕ, ◌≡◌, true, false, Option, none, some, ◌==◌}
use bingos.Frame.{Frames, alloc_frame, is_used}
use bingos.Paging.{Memory, blank}
use bingos.Paging.Copy.{IsClone}

-- The clone that `table_clone` made of a table, and what it left as it was.
pub IsTableClone : ℕ → Memory → Option (ℕ × Memory) → Type 0
IsTableClone src m none =
    (g : Frames) × (alloc_frame g ≡ none)
    × ((b : ℕ) → is_used m.frames b ≡ true → is_used g b ≡ true)
IsTableClone src m (some (t, m')) =
    (t ≡ m.next)
    × ((u j : ℕ) → (u == t) ≡ false → m'.tables u j ≡ m.tables u j)
    × IsClone 0 1024 (m.tables src) (λ j. blank) m.frames m.contents (m'.tables t) m'.frames
        m'.contents
