-- ===== src/Malloc/Tests.antt =====
-- libc/malloc.c: runs on a small heap.
use bingos.Common.{◌⊎◌, ℕ, ◌+◌, ◌≤◌, ◌≡◌, refl, true, false, none, some, [], ◌∷◌, arith}
use bingos.Malloc.{
  Heap, take_free, malloc, release, free, block_size, memcpy, realloc, memset, calloc, owned,
  IsValid, meta_size,
}
use bingos.Malloc.Laws.{
  IsAllocated, malloc-IsAllocated, FreeOutcome, free-FreeOutcome, malloc-apart,
}

abbrev empty_heap : Heap
empty_heap = record { blocks = []; brk = 4096; memory = λ a. a }

-- A free block of 32 bytes and one of 8 bytes in use.
abbrev two_blocks : Heap
two_blocks = record {
  blocks =
      record { addr = 4096; size = 32; free = true; magic = 0 }
      ∷ record { addr = 4144; size = 8; free = false; magic = 0 }
      ∷ [];
  brk = 4168;
  memory = λ a. a;
}

malloc-empty : (malloc 10 empty_heap).0 ≡ 4112
unfolding malloc take_free
malloc-empty = refl

malloc-reuses : (malloc 10 two_blocks).0 ≡ 4112
unfolding malloc take_free
malloc-reuses = refl

free-unknown : free 5 two_blocks ≡ none
unfolding free release
free-unknown = refl

calloc-zero : (calloc 3 4 two_blocks).1.memory 4113 ≡ 0
unfolding calloc memset malloc take_free
calloc-zero = refl

-- The bytes move with the block: byte 3 of the block at 4160.
realloc-copies :
    ◌≡◌ {A = ℕ}
      (elim (realloc 4160 20 two_blocks) [ none ↦ 0 | some (p, h) ↦ h.memory (p + 3) ])
      4163
unfolding realloc block_size memcpy malloc take_free free release
realloc-copies = refl

two_blocks-IsValid : IsValid two_blocks
unfolding IsValid
two_blocks-IsValid = (omega arith, (omega arith, omega arith))

malloc-IsAllocated_example : IsAllocated 10 two_blocks (malloc 10 two_blocks)
malloc-IsAllocated_example =
    malloc-IsAllocated 10 two_blocks two_blocks-IsValid (omega arith) (omega arith)

free-FreeOutcome_example : FreeOutcome 4160 two_blocks (free 4160 two_blocks)
free-FreeOutcome_example = free-FreeOutcome 4160 two_blocks two_blocks-IsValid

second_owned : owned 4160 two_blocks.blocks ≡ some 8
unfolding owned
second_owned = refl

malloc-apart_example :
    (((malloc 20 two_blocks).0 + 20 + meta_size ≤ 4160)
      ⊎ (4160 + 8 + meta_size ≤ (malloc 20 two_blocks).0))
    × ((malloc 20 two_blocks).0 + 20 ≤ (malloc 20 two_blocks).1.brk)
malloc-apart_example =
    malloc-apart 20 two_blocks 4160 8 two_blocks-IsValid (omega arith) (omega arith) second_owned
