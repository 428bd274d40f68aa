-- ===== src/Ext2/Location.antt =====
-- modules/ext2.c: where ext2_read_inode finds an inode.
use native.Mathlib.Nat.{
  mul_comm, mul-add-div, div-eq_of_lt, div-div-eq-div-mul, div-add-mod', mod-lt,
}
use bingos.Common.{
  ℕ, zero, suc, ◌+◌, ◌-◌, ◌*◌, ◌/◌, ◌%◌, ◌^◌, ◌≤◌, ◌<◌, ◌≡◌, refl, ap, false, Option, some, ltb,
  ◌==◌, true, arith,
}
use bingos.Ext2.{
  Buffer, u32, Ext2, Inode, divide, inode_at, inode_place, ext2_read_block, ext2_read_inode,
}

pub divide-pos : (a b : ℕ) → 1 ≤ b → divide a b ≡ some (a / b)
unfolding divide
divide-pos a zero h = absurd (omega arith)
divide-pos a (suc b) h = refl

left_over :
    (i a r : ℕ)
    → a + r ≡ i
    → i * 128 < 2 ^ 32
    → (i + 2 ^ 32 - a % 2 ^ 32) % 2 ^ 32 * 128 % 2 ^ 32 ≡ r * 128
left_over i a r e h =
    let small : a % 2 ^ 32 ≡ a = omega arith in
    let rest : (i + 2 ^ 32 - a) % 2 ^ 32 ≡ r = omega arith in rw (small, rest) (omega arith)

place :
    (fs : Ext2) (q group i : ℕ)
    → 1 ≤ q
    → fs.inode_size ≡ 128
    → fs.block_size ≡ 128 * q
    → i * 128 < 2 ^ 32
    → u32 fs.block_groups (group * 32 + 8) + i / q < 2 ^ 32
    → inode_place fs group (i + 1)
      ≡ some (u32 fs.block_groups (group * 32 + 8) + i / q, i % q * 128)
unfolding inode_place
place fs q group i h size block small fits =
    let table = u32 fs.block_groups (group * 32 + 8) in
    let before : (i + 1 + 2 ^ 32 - 1) % 2 ^ 32 ≡ i = omega arith in
    let span : i * 128 % 2 ^ 32 ≡ i * 128 = omega arith in
    let which : i * 128 / (128 * q) ≡ i / q =
      rw (← div-div-eq-div-mul (i * 128) 128 q) (ap (λ k. k / q) (omega arith)) in
    let per : 128 * q / 128 ≡ q = omega arith in
    let wrap : (table + i / q) % 2 ^ 32 ≡ table + i / q = omega (arith, fits) in
    rw
      (
        before,
        size,
        block,
        span,
        divide-pos (i * 128) (128 * q) (omega arith),
        which,
        divide-pos (128 * q) 128 (omega arith),
        per,
        wrap,
        left_over i (i / q * q) (i % q) (div-add-mod' i q) small,
      )
      refl

address : (table q i : ℕ) → (table + i / q) * (128 * q) + i % q * 128 ≡ table * (128 * q) + i * 128
address table q i = let d = div-add-mod' i q in ring (i / q) (i % q) d
  where
    ring :
        (a r : ℕ) → a * q + r ≡ i → (table + a) * (128 * q) + r * 128 ≡ table * (128 * q) + i * 128
    ring a r d = grind arith

inside : (q i : ℕ) → 1 ≤ q → i % q * 128 + 128 ≤ 128 * q
inside q i h = let l : i % q < q = mod-lt i h in omega (arith, l)

-- Where an inode is read: the fields come from a buffer whose 128 bytes from `offset` are those of the
-- disk that lie `i` inodes behind the start of the group's table.
pub ReadAt : Ext2 → ℕ → ℕ → Option Inode → Type 0
ReadAt fs table i r =
    (buf : Buffer) × (offset : ℕ) × (r ≡ some (inode_at buf offset))
    × ((j : ℕ) → j < 128 → buf (offset + j) ≡ fs.disk (table * fs.block_size + i * 128 + j))

block_bytes :
    (fs : Ext2) (block offset start j : ℕ)
    → 1 ≤ block
    → (block + 1) * fs.block_size ≤ 2 ^ 32
    → 1 ≤ fs.block_size
    → block * fs.block_size + offset ≡ start
    → offset + j < fs.block_size
    → ext2_read_block fs block fs.memory (offset + j) ≡ fs.disk (start + j)
unfolding ext2_read_block
block_bytes fs block offset start j some_block low some_size at inner =
    let z : (block == 0) ≡ false = ground arith in
    let l : ltb (offset + j) fs.block_size ≡ true = ground arith in
    let next : (block + 1) * fs.block_size ≡ block * fs.block_size + fs.block_size = grind arith in
    let whole : block * fs.block_size % 2 ^ 32 ≡ block * fs.block_size =
      omega (arith, low, next, some_size) in
    let place : block * fs.block_size + (offset + j) ≡ start + j = omega (arith, at) in
    rw (z, l, whole, place) refl

-- ext2_read_inode of an inode that is not the last of its group reads it from the bytes of the disk
-- where the format puts it, for inodes of 128 bytes, blocks that hold a number of them, and a table of
-- inodes that is not in block 0 and ends below 2 ^ 32.
pub ext2_read_inode-ReadAt :
    (fs : Ext2) (q group i : ℕ)
    → 1 ≤ q
    → fs.inode_size ≡ 128
    → fs.block_size ≡ 128 * q
    → i + 1 < fs.inodes_per_group
    → group ≤ fs.block_group_count
    → i * 128 < 2 ^ 32
    → 1 ≤ u32 fs.block_groups (group * 32 + 8)
    → (u32 fs.block_groups (group * 32 + 8) + i / q + 1) * fs.block_size ≤ 2 ^ 32
    → ReadAt fs
        (u32 fs.block_groups (group * 32 + 8))
        i
        (ext2_read_inode fs (group * fs.inodes_per_group + (i + 1)))
unfolding ext2_read_inode ReadAt
ext2_read_inode-ReadAt fs q group i h size block inner range small some_table low =
    let fits : u32 fs.block_groups (group * 32 + 8) + i / q < 2 ^ 32 =
      below (u32 fs.block_groups (group * 32 + 8) + i / q) fs.block_size (rw block (omega arith))
        low in
    let n = fs.inodes_per_group in
    let pos : 0 < n = omega arith in
    let which : (group * n + (i + 1)) / n ≡ group =
      rw (mul_comm group n, mul-add-div pos group (i + 1), div-eq_of_lt inner) (omega arith) in
    let rest : group * n + (i + 1) - group * n ≡ i + 1 = omega arith in
    let known : ltb fs.block_group_count group ≡ false = ground arith in
    let table = u32 fs.block_groups (group * 32 + 8) in
    let at = rw (← block) at (address table q i) in
    let inner' = rw (← block) at (inside q i h) in
    (
      ext2_read_block fs (table + i / q) fs.memory,
      i % q * 128,
      rw
          (
            divide-pos (group * n + (i + 1)) n (omega arith),
            which,
            known,
            rest,
            place fs q group i h size block small fits,
            ext2_read_inode,
          )
          refl,
      λ j l.
          block_bytes fs (table + i / q) (i % q * 128) (table * fs.block_size + i * 128) j
            (omega (arith, some_table)) low (omega (arith, block, h)) at (omega (arith, inner')),
    )
  where
    below : (b s : ℕ) → 1 ≤ s → (b + 1) * s ≤ 2 ^ 32 → b < 2 ^ 32
    below b (suc s) p l =
        let e : (b + 1) * suc s ≡ b + 1 + (b + 1) * s = grind arith in omega (arith, e, l)
    below b zero p l = absurd (omega arith)
