-- ===== src/Ext2/Block.antt =====
-- modules/ext2.c: the blocks of a file, and the groups of a file system.
use native.Mathlib.Nat.{div-add-mod', mod-lt, mul_comm}
use bingos.Common.{
  ℕ, zero, suc, ◌+◌, ◌-◌, ◌*◌, ◌/◌, ◌%◌, ◌^◌, ◌≤◌, ◌<◌, ◌≡◌, ◌⊎◌, refl, true, false, Option, none,
  some, ltb, ◌==◌, if◌then◌else◌, arith, inl, inr, Bool-cases,
}
use bingos.Ext2.Location.{divide-pos}
use bingos.Ext2.{
  Buffer, u32, Ext2, Inode, divide, ext2_read_block, ext2_get_block_number, ext2_inode_read_block,
  set_up,
}

-- The bytes that are read of block `index` of a file: those of the block on the disk that the inode
-- names, or what the buffer held where the inode names none.
pub block_bytes : Ext2 → Inode → ℕ → Buffer → Buffer
block_bytes fs inode index buf k =
    if inode.i_block index == 0
    then buf k
    else if ltb k fs.block_size
    then fs.disk (inode.i_block index * fs.block_size % 2 ^ 32 + k)
    else buf k

pub DirectRead : Ext2 → Inode → ℕ → Buffer → Option (ℕ × Buffer) → Type 0
DirectRead fs inode index buf none = fs.block_size < 512
DirectRead fs inode index buf (some (nr, out)) =
    (inode.i_sectors / (fs.block_size / 512) < index)
      × (nr ≡ 0)
      × ((k : ℕ) → k < fs.block_size → out k ≡ 0)
    ⊎ (nr ≡ inode.i_block index) × ((k : ℕ) → out k ≡ block_bytes fs inode index buf k)

direct_block :
    (fs : Ext2) (inode : Inode) (index : ℕ)
    → index < 12
    → ext2_get_block_number fs inode index ≡ some (inode.i_block index)
unfolding ext2_get_block_number
direct_block fs inode index h = let e : ltb index 12 ≡ true = ground arith in rw e refl

ext2_read_block-block_bytes :
    (fs : Ext2) (inode : Inode) (index : ℕ) (buf : Buffer) (k : ℕ)
    → ext2_read_block fs (inode.i_block index) buf k ≡ block_bytes fs inode index buf k
unfolding ext2_read_block block_bytes
ext2_read_block-block_bytes fs inode index buf k = elim (Bool-cases (inode.i_block index == 0)) [
  | inl e ↦ rw e refl
  | inr e ↦ rw e refl
]

-- A read of one of the first twelve blocks of a file either zeroes the buffer, where the block lies
-- behind the sectors of the file, or returns the number that the inode names, with the bytes of that
-- block, or with the buffer as it was where the inode names none.
pub ext2_inode_read_block-DirectRead :
    (fs : Ext2) (inode : Inode) (index : ℕ) (buf : Buffer)
    → index < 12
    → DirectRead fs inode index buf (ext2_inode_read_block fs inode index buf)
unfolding DirectRead block_bytes divide ext2_inode_read_block
ext2_inode_read_block-DirectRead fs inode index buf h =
    elim (Bool-cases (fs.block_size / 512 == 0)) [
      | inl e ↦
          let z : fs.block_size / 512 ≡ 0 = ground arith in
          let none_found : divide inode.i_sectors (fs.block_size / 512) ≡ none =
            rw (z, divide) refl in
          rw (none_found, ext2_inode_read_block) (omega arith)
      | inr e ↦
          let some_found : divide inode.i_sectors (fs.block_size / 512)
              ≡ some (inode.i_sectors / (fs.block_size / 512)) =
            divide-pos inode.i_sectors (fs.block_size / 512) (ground arith) in
          elim (Bool-cases (ltb (inode.i_sectors / (fs.block_size / 512)) index)) [
            | inl t ↦
                rw (some_found, t, ext2_inode_read_block)
                  (inl (ground arith, refl, λ k l. zeroed k l))
            | inr t ↦
                let direct : ext2_get_block_number fs inode index ≡ some (inode.i_block index) =
                  direct_block fs inode index h in
                rw (some_found, t, direct, ext2_inode_read_block)
                  (inr (refl, ext2_read_block-block_bytes fs inode index buf))
          ]
    ]
  where
    zeroed : (k : ℕ) → k < fs.block_size → (if ltb k fs.block_size then 0 else buf k) ≡ 0
    zeroed k l = let e : ltb k fs.block_size ≡ true = ground arith in rw e refl

far :
    (index : ℕ)
    → 268 ≤ index
    → index < 65548
    → ltb ((index + 4294967296 - (index - 1) * 256 % 4294967296) % 4294967296) 1024 ≡ false
far index h k =
    let small : (index - 1) * 256 % 4294967296 ≡ (index - 1) * 256 = omega arith in
    let place : (index + 4294967296 - (index - 1) * 256) % 4294967296
        ≡ index + 4294967296 - (index - 1) * 256 =
      omega arith in
    rw (small, place) (ground arith)

-- In a file system with blocks of 1024 bytes, the number of a block behind a doubly indirect one is
-- read from behind the end of the buffer, whatever the file holds.
pub ext2_get_block_number-double_indirect :
    (fs : Ext2) (inode : Inode) (index : ℕ)
    → fs.block_size ≡ 1024
    → fs.pointers_per_block ≡ 256
    → 268 ≤ index
    → index < 65548
    → ext2_get_block_number fs inode index ≡ none
unfolding ext2_get_block_number
ext2_get_block_number-double_indirect fs inode index size pointers low high =
    let a : ltb index 12 ≡ false = ground arith in
    let b : ltb index 268 ≡ false = ground arith in
    let c : ltb index 65548 ≡ true = ground arith in
    let d : ltb ((index - 268) / 256) 1024 ≡ true = ground arith in
    rw (size, pointers, a, b, c, d, far index low high) refl

u32-bound : (buf : Buffer) (k : ℕ) → u32 buf k < 2 ^ 32
u32-bound buf k = omega arith

zero_or_not : (a : ℕ) → (a ≡ 0) ⊎ (1 ≤ a)
zero_or_not zero = inl refl
zero_or_not (suc a) = inr (omega arith)

-- The groups that `set_up` counts, for `b` blocks in groups of `n`.
groups_of : ℕ → ℕ → ℕ
groups_of b n = if ltb (n * (b / n) % 2 ^ 32) b then (b / n + 1) % 2 ^ 32 else b / n

-- Groups of `n` blocks that hold `b` blocks, with none to spare.
pub Covers : ℕ → ℕ → ℕ → Type 0
Covers count n b = (b ≤ count * n) × (count * n < b + n)

le_mul : (g n : ℕ) → 1 ≤ n → g ≤ g * n
le_mul g zero h = absurd (omega arith)
le_mul g (suc m) h = grind arith

one_more :
    (g r b n : ℕ)
    → 1 ≤ n
    → g * n + r ≡ b
    → r < n
    → b < 2 ^ 32
    → g * n < b
    → Covers ((g + 1) % 2 ^ 32) n b
unfolding Covers
one_more g r b n h e rest size less =
    let l = le_mul g n h in
    let small : (g + 1) % 2 ^ 32 ≡ g + 1 = omega (arith, l) in
    let next : (g + 1) * n ≡ g * n + n = grind arith in rw (small, next) (omega arith, omega arith)

groups_of-Covers : (b n : ℕ) → 1 ≤ n → b < 2 ^ 32 → Covers (groups_of b n) n b
unfolding groups_of Covers
groups_of-Covers b n h size =
    let whole = div-add-mod' b n in
    let rest : b % n < n = mod-lt b h in
    let comm : n * (b / n) ≡ b / n * n = mul_comm n (b / n) in
    let small : b / n * n % 2 ^ 32 ≡ b / n * n = omega (arith, whole) in
    elim (Bool-cases (ltb (b / n * n) b)) [
      | inl e ↦ rw (comm, small, e) (one_more (b / n) (b % n) b n h whole rest size (ground arith))
      | inr e ↦ rw (comm, small, e) (ground (arith, whole), ground (arith, whole))
    ]

Covers-none : (count n b : ℕ) → Covers count n b → count ≡ 0 → b ≡ 0
unfolding Covers
Covers-none count n b (low, high) z = let low' = rw z at low in omega (arith, low')

pub Groups : Buffer → Option Ext2 → Type 0
Groups sb none = (u32 sb 32 ≡ 0) ⊎ (u32 sb 4 ≡ 0) ⊎ (1024 * 2 ^ (u32 sb 24 % 32) % 2 ^ 32 ≡ 0)
Groups sb (some fs) = Covers fs.block_group_count (u32 sb 32) (u32 sb 4)

-- ext2_do_mount counts the groups that hold the blocks of the file system, the last perhaps in part;
-- it divides by zero only for a group or a file system without blocks, or a block size that wraps to 0.
pub set_up-Groups : (disk memory sb : Buffer) → Groups sb (set_up disk memory sb)
unfolding Groups set_up groups_of divide
set_up-Groups disk memory sb =
    let n = u32 sb 32 in
    let b = u32 sb 4 in
    let size = 1024 * 2 ^ (u32 sb 24 % 32) % 2 ^ 32 in
    elim (zero_or_not n) [
      | inl z ↦ rw (z, set_up) (inl z)
      | inr p ↦
          let covers = groups_of-Covers b n p (u32-bound sb 4) in
          elim (zero_or_not (groups_of b n)) [
            | inl z ↦
                rw (divide-pos b n p, z, divide, set_up)
                  (inr (inl (Covers-none (groups_of b n) n b covers z)))
            | inr q ↦ elim (zero_or_not size) [
              | inl z ↦
                  rw (divide-pos b n p, divide-pos (u32 sb 0) (groups_of b n) q, z, divide, set_up)
                    (inr (inr z))
              | inr r ↦
                  rw
                    (
                      divide-pos b n p,
                      divide-pos (u32 sb 0) (groups_of b n) q,
                      divide-pos (32 * groups_of b n % 2 ^ 32) size r,
                      set_up,
                    )
                    covers
            ]
          ]
    ]
