-- ===== src/Malloc.antt =====
-- libc/malloc.c on the sbrk of libc/syscall.c: the chain of blocks of the process heap.
--
-- The chain from `_base` is the list of its blocks, each with the address of its header; a header has
-- 16 bytes. The headers are kept apart from the bytes, and NULL is 0. A pointer that malloc did not
-- return is `none`. Page faults and the mapping of pages are the kernel's: a brk that does not wrap
-- around succeeds.
pub mod Blocks
pub mod Release
pub mod Laws
mod Tests
use bingos.Common.{
  ℕ, zero, suc, ◌+◌, ◌-◌, ◌*◌, ◌%◌, ◌^◌, ◌≤◌, ◌<◌, ◌≡◌, Bool, true, false, ◌&&◌, Option, none, some,
  List, [], ◌∷◌, ◌++◌, ltb, leb, ◌==◌, if◌then◌else◌,
}

abbrev pub meta_size : ℕ
meta_size = 16

pub record Block : Type 0 where
  pub addr : ℕ
  pub size : ℕ
  pub free : Bool
  pub magic : ℕ

pub record Heap : Type 0 where
  pub blocks : List Block
  pub brk : ℕ
  pub memory : ℕ → ℕ

-- `sbrk`: the old break, and the state. `sys_brk` refuses a break below the old one.
pub sbrk : ℕ → Heap → ℕ × Heap
sbrk increment h =
    let next = (h.brk + increment) % 2 ^ 32 in
    (h.brk, if ltb next h.brk then h else record h { brk = next })

-- `find_free_block`, with the block it finds taken: its address and the new chain.
pub take_free : ℕ → List Block → Option (ℕ × List Block)
take_free size [] = none
take_free size (b ∷ bs) =
    let rest = take_free size bs in
    if b.free && leb size b.size
    then some (b.addr, record b { free = false; magic = 2004318071 } ∷ bs)
    else elim rest [ none ↦ none | some (addr, bs') ↦ some (addr, b ∷ bs') ]

-- `request_space`: the address of the block that is put at the end of the chain, or NULL.
pub request_space : ℕ → Heap → ℕ × Heap
unfolding sbrk
request_space size h =
    let block = h.brk in
    let request = sbrk ((size + meta_size) % 2 ^ 32) h in
    if request.0 == 2 ^ 32 - 1 then (0, request.1) else (
      block,
      record request.1 {
        blocks =
            h.blocks
            ++ (record { addr = block; size = size; free = false; magic = 873625686 } ∷ []);
      },
    )

-- `block + 1`
pub pointer_of : ℕ × Heap → ℕ × Heap
pointer_of (block, h) = (if block == 0 then 0 else block + meta_size, h)

pub malloc : ℕ → Heap → ℕ × Heap
unfolding request_space pointer_of
malloc size h = if size == 0 then (0, h) else elim (take_free size h.blocks) [
  | none ↦ pointer_of (request_space size h)
  | some (addr, bs) ↦ (addr + meta_size, record h { blocks = bs })
]

-- The block of a pointer marked as free.
pub release : ℕ → List Block → Option (List Block)
release ptr [] = none
release ptr (b ∷ bs) =
    let rest = release ptr bs in
    if b.addr + meta_size == ptr
    then some (record b { free = true; magic = 1431655765 } ∷ bs)
    else elim rest [ none ↦ none | some bs' ↦ some (b ∷ bs') ]

pub free : ℕ → Heap → Option Heap
free ptr h =
    if ptr == 0
    then some h
    else elim (release ptr h.blocks) [ none ↦ none | some bs ↦ some (record h { blocks = bs }) ]

-- `get_block_ptr(ptr)->size`
pub block_size : ℕ → List Block → Option ℕ
block_size ptr [] = none
block_size ptr (b ∷ bs) =
    let rest = block_size ptr bs in if b.addr + meta_size == ptr then some b.size else rest

pub memcpy : ℕ → ℕ → ℕ → Heap → Heap
memcpy dst src count h = record h {
  memory = λ a. if leb dst a && ltb a (dst + count) then h.memory (src + (a - dst)) else h.memory a;
}

pub memset : ℕ → ℕ → ℕ → Heap → Heap
memset dst val count h = record h {
  memory = λ a. if leb dst a && ltb a (dst + count) then val else h.memory a;
}

pub realloc : ℕ → ℕ → Heap → Option (ℕ × Heap)
realloc ptr size h = if ptr == 0 then some (malloc size h) else elim (block_size ptr h.blocks) [
  | none ↦ none
  | some old ↦
      if leb size old
      then some (ptr, h)
      else let out = malloc size h in
        if out.0 == 0 then some (0, out.1) else elim (free ptr (memcpy out.0 ptr old out.1)) [
          | none ↦ none
          | some h' ↦ some (out.0, h')
        ]
]

-- `calloc` sets the memory without a test for NULL.
pub calloc : ℕ → ℕ → Heap → ℕ × Heap
calloc nelem elsize h =
    let size = nelem * elsize % 2 ^ 32 in
    let out = malloc size h in (out.0, memset out.0 0 size out.1)

-- The size of the block that a pointer owns, none when the pointer owns nothing.
pub owned : ℕ → List Block → Option ℕ
owned ptr [] = none
owned ptr (b ∷ bs) =
    let rest = owned ptr bs in
    if b.addr + meta_size == ptr then (if b.free then none else some b.size) else rest

-- The blocks of a chain lie behind one another between two addresses.
pub IsChain : ℕ → List Block → ℕ → Type 0
IsChain low [] high = low ≤ high
IsChain low (b ∷ bs) high = (low ≤ b.addr) × IsChain (b.addr + meta_size + b.size) bs high

-- The blocks of the heap lie behind one another from address 1 to the break.
pub IsValid : Heap → Type 0
unfolding IsChain
IsValid h = IsChain 1 h.blocks h.brk
