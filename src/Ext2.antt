-- ===== src/Ext2.antt =====
-- modules/ext2.c: an ext2 file system on a block device.
--
-- A buffer is a function from offsets to bytes; what stands behind its end is memory too. `disk` is
-- what the block device holds, and a read of it is taken to succeed. `memory` is what a buffer that
-- kmalloc returns holds before it is written. A division by zero is `none`. Addresses and block
-- numbers wrap at 32 bits. Memory that kmalloc returns is never NULL.
pub mod Location
pub mod Block
pub mod Directory
pub mod Layout
mod Tests
use Prim.Native.Nat.{bit_and, bit_or}
use bingos.Common.{
  ℕ, zero, suc, ◌+◌, ◌-◌, ◌*◌, ◌/◌, ◌%◌, ◌^◌, ◌≤◌, ◌<◌, ◌≡◌, Bool, true, false, not, ◌&&◌, ◌||◌,
  Option, none, some, ◌>>=◌, ◌>>◌, List, [], ◌∷◌, length, ltb, leb, ◌==◌, if◌then◌else◌,
}
use bingos.Common.Names.{Name, name_eq}

abbrev pub Buffer : Type 0
Buffer = ℕ → ℕ

-- Numbers of one, two and four bytes in a buffer, the least byte first.
abbrev pub u8 : Buffer → ℕ → ℕ
u8 buf k = buf k % 256

abbrev pub u16 : Buffer → ℕ → ℕ
u16 buf k = u8 buf k + u8 buf (k + 1) * 256

abbrev pub u32 : Buffer → ℕ → ℕ
u32 buf k = u16 buf k + u16 buf (k + 2) * 65536

-- An unsigned division.
pub divide : ℕ → ℕ → Option ℕ
divide a zero = none
divide a (suc b) = some (a / suc b)

-- The fields of `ext2_fs_t` that the functions read, with the block device behind it.
pub record Ext2 : Type 0 where
  pub disk : Buffer
  pub memory : Buffer
  pub block_groups : Buffer
  pub block_size : ℕ
  pub pointers_per_block : ℕ
  pub inodes_per_group : ℕ
  pub block_group_count : ℕ
  pub inode_size : ℕ
  pub bgd_block_span : ℕ
  pub bgd_offset : ℕ

abbrev pub ext2_direct_blocks : ℕ
ext2_direct_blocks = 12

abbrev pub sectorsize : ℕ
sectorsize = 512

abbrev pub ext2_super_magic : ℕ
ext2_super_magic = 0xEF53

-- The fields of `ext2_inode_t` that are read, by their places in the structure.
pub record Inode : Type 0 where
  pub i_mode : ℕ
  pub i_uid : ℕ
  pub i_size : ℕ
  pub i_gid : ℕ
  pub i_links_count : ℕ
  pub i_sectors : ℕ
  pub i_block : ℕ → ℕ

pub inode_at : Buffer → ℕ → Inode
inode_at buf k = record {
  i_mode = u16 buf k;
  i_uid = u16 buf (k + 2);
  i_size = u32 buf (k + 4);
  i_gid = u16 buf (k + 24);
  i_links_count = u16 buf (k + 26);
  i_sectors = u32 buf (k + 28);
  i_block = λ i. u32 buf (k + 40 + i * 4);
}

-- `ext2_dir_entry_t`
pub record Dentry : Type 0 where
  pub inode : ℕ
  pub rec_len : ℕ
  pub name : Name

-- `len` bytes of a buffer.
pub bytes : ℕ → Buffer → ℕ → List ℕ
bytes zero buf k = []
bytes (suc len) buf k = u8 buf k ∷ bytes len buf (k + 1)

pub dentry_at : Buffer → ℕ → Dentry
unfolding bytes
dentry_at buf k = record {
  inode = u32 buf k;
  rec_len = u16 buf (k + 4);
  name = bytes (u8 buf (k + 6)) buf (k + 8);
}

-- The buffer after `ext2_read_block`; block 0 is E_BADBLOCK and leaves it.
pub ext2_read_block : Ext2 → ℕ → Buffer → Buffer
ext2_read_block fs block_no buf = if block_no == 0 then buf else (λ k.
    if ltb k fs.block_size then fs.disk ((block_no * fs.block_size) % 2 ^ 32 + k) else buf k)

-- `ext2_get_block_number`, or `none` where the memory behind a buffer is read. The pointers
-- of an indirect block are read as bytes.
pub ext2_get_block_number : Ext2 → Inode → ℕ → Option ℕ
unfolding ext2_read_block
ext2_get_block_number fs inode index =
    let pointers = fs.pointers_per_block in
    let get : Buffer → ℕ → Option ℕ =
      λ buf k. if ltb k fs.block_size then some (u8 buf k) else none in
    if ltb index ext2_direct_blocks
    then some (inode.i_block index)
    else if ltb index (pointers + ext2_direct_blocks)
    then get (ext2_read_block fs (inode.i_block 12) fs.memory) (index - ext2_direct_blocks)
    else if ltb index ((pointers * pointers + ext2_direct_blocks) % 2 ^ 32)
    then (do
      let buf = ext2_read_block fs (inode.i_block 13) fs.memory
      iblock ← get buf ((index - (pointers + ext2_direct_blocks)) / pointers)
      get (ext2_read_block fs iblock buf) (
          (index
            + 2 ^ 32
            - (index - (pointers + ext2_direct_blocks) / pointers) * pointers % 2 ^ 32)
          % 2 ^ 32))
    else if ltb index ((pointers * pointers * pointers + ext2_direct_blocks) % 2 ^ 32)
    then (do
      let buf = ext2_read_block fs (inode.i_block 14) fs.memory
      let square = pointers * pointers % 2 ^ 32
      let b3 = (index + 2 ^ 32 - (ext2_direct_blocks + pointers + square) % 2 ^ 32) % 2 ^ 32
      b4 ← divide b3 square
      block4 ← get buf b4
      get (ext2_read_block fs block4 buf) (b3 - b4 * square))
    else some 0

-- `ext2_inode_read_block`: the number of the block and the buffer.
pub ext2_inode_read_block : Ext2 → Inode → ℕ → Buffer → Option (ℕ × Buffer)
ext2_inode_read_block fs inode block buf =
    elim (divide inode.i_sectors (fs.block_size / sectorsize)) [
      | none ↦ none
      | some blocks ↦
          if ltb blocks block then some (0, λ k. if ltb k fs.block_size then 0 else buf k) else (do
            real ← ext2_get_block_number fs inode block
            some (real, ext2_read_block fs real buf))
    ]

-- The block of an inode and its place in that block, as `ext2_refresh_inode` finds them; the group is
-- in range.
pub inode_place : Ext2 → ℕ → ℕ → Option (ℕ × ℕ)
inode_place fs group ino = do
  let before = (ino + 2 ^ 32 - 1) % 2 ^ 32
  block_offset ← divide (before * fs.inode_size % 2 ^ 32) fs.block_size
  per_block ← divide fs.block_size fs.inode_size
  some (
    (u32 fs.block_groups (group * 32 + 8) + block_offset) % 2 ^ 32,
    (before + 2 ^ 32 - block_offset * per_block % 2 ^ 32) % 2 ^ 32 * fs.inode_size % 2 ^ 32,
  )

-- `ext2_read_inode` and `ext2_refresh_inode`: an inode in fresh memory, read where the group is in
-- range.
pub ext2_read_inode : Ext2 → ℕ → Option Inode
unfolding inode_at ext2_read_block
ext2_read_inode fs ino = elim (divide ino fs.inodes_per_group) [
  | none ↦ none
  | some group ↦ if ltb fs.block_group_count group then some (inode_at fs.memory 0) else (do
    (block, offset) ← inode_place fs group (ino - group * fs.inodes_per_group)
    some (inode_at (ext2_read_block fs block fs.memory) offset))
]

-- The fields of `vfs_node_t` that `ext2_root` and `ext2_create_node` write. The first writes the
-- operations too, the second leaves them NULL.
pub record Fnode : Type 0 where
  pub inode : ℕ
  pub name : Name
  pub uid : ℕ
  pub gid : ℕ
  pub length : ℕ
  pub mask : ℕ
  pub nlink : ℕ
  pub flags : ℕ
  pub has_finddir : Bool

pub ext2_create_node : Inode → Dentry → Fnode
ext2_create_node inode dentry = record {
  inode = dentry.inode;
  name = dentry.name;
  uid = inode.i_uid;
  gid = inode.i_gid;
  length = inode.i_size;
  mask = inode.i_mode % 4096;
  nlink = inode.i_links_count;
  flags = 0;
  has_finddir = false;
}

-- `(inode->i_mode & bits) == bits`
pub has_mode : Inode → ℕ → Bool
has_mode inode bits = bit_and inode.i_mode bits == bits

-- `ext2_root`, on an inode; `none` where it returns 0.
pub ext2_root : Inode → Option Fnode
unfolding has_mode
ext2_root inode =
    let flag : ℕ → ℕ → ℕ → ℕ =
      λ bits flag flags. if has_mode inode bits then bit_or flags flag else flags in
    if has_mode inode 0x8000 || not (has_mode inode 0x4000)
    then none
    else some (record {
      inode = 2;
      name = 47 ∷ [];
      uid = inode.i_uid;
      gid = inode.i_gid;
      length = inode.i_size;
      mask = inode.i_mode % 4096;
      nlink = inode.i_links_count;
      flags = bit_or (flag 0xA000 6 (flag 0x1000 5 (flag 0x2000 3 (flag 0x6000 4 0)))) 2;
      has_finddir = true;
    })

-- The outcome of a search of a directory. `endless` is a search that has not ended on its fuel, and
-- `fault` one that divides by zero or reads behind an indirect block.
pub data Search : Type 0 where
  found : Dentry → Search
  absent : Search
  fault : Search
  endless : Search

-- Where a search is: the block, its number, the place in it and the place in the directory.
pub record Cursor : Type 0 where
  pub block : Buffer
  pub block_nr : ℕ
  pub dir_offset : ℕ
  pub total_offset : ℕ

-- The head of the loop of `ext2_finddir`: the next block is read at the end of one.
pub next_block : Ext2 → Inode → Cursor → Option Cursor
next_block fs inode c =
    if leb fs.block_size c.dir_offset
    then (do
      let nr = (c.block_nr + 1) % 256
      read ← ext2_inode_read_block fs inode nr c.block
      some (record c { block = read.1; block_nr = nr; dir_offset = c.dir_offset - fs.block_size }))
    else some c

-- `dentry->inode == 0 || strlen(name) != dentry->name_len`, and the comparison of the names.
pub matches : Name → Dentry → Bool
matches name d = not (d.inode == 0 || not (length name == length d.name)) && name_eq d.name name

pub advance : ℕ → Cursor → Cursor
advance len c = record c {
  dir_offset = (c.dir_offset + len) % 2 ^ 32;
  total_offset = (c.total_offset + len) % 2 ^ 32;
}

-- The loop of `ext2_finddir` over the records of a directory, on fuel. The copy of `rec_len` bytes that
-- it makes of the record it finds is the record, where `rec_len` has room for its name.
pub find_from : ℕ → Ext2 → Inode → Name → Cursor → Search
find_from zero fs inode name c = endless
find_from (suc fuel) fs inode name c =
    if ltb c.total_offset inode.i_size
    then (elim (next_block fs inode c) [
      | none ↦ fault
      | some c' ↦
          let d = dentry_at c'.block c'.dir_offset in
          let rest = find_from fuel fs inode name (advance d.rec_len c') in
          if matches name d then found d else rest
    ])
    else absent

-- The search of a directory from its first block.
pub search_dir : ℕ → Ext2 → Inode → Name → Search
search_dir fuel fs inode name = elim (ext2_inode_read_block fs inode 0 fs.memory) [
  | none ↦ fault
  | some read ↦
      find_from fuel fs inode name
        (record { block = read.1; block_nr = 0; dir_offset = 0; total_offset = 0 })
]

-- `ext2_finddir` on the inode number of a directory; `found` with the node, by its fields.
pub ext2_finddir : ℕ → Ext2 → ℕ → Name → Option (Option Fnode)
ext2_finddir fuel fs ino name = elim (ext2_read_inode fs ino) [
  | none ↦ none
  | some inode ↦ elim (search_dir fuel fs inode name) [
    | found d ↦ (do target ← ext2_read_inode fs d.inode; some (some (ext2_create_node target d)))
    | absent ↦ some none
    | fault ↦ none
    | endless ↦ none
  ]
]

-- The loop of `ext2_do_mount` that loads the group descriptors, with the number of blocks left.
pub load_groups : ℕ → ℕ → Ext2 → Ext2
unfolding ext2_read_block
load_groups zero i fs = fs
load_groups (suc left) i fs =
    let block =
      ext2_read_block fs (fs.bgd_offset + i) (λ k. fs.block_groups (fs.block_size * i + k)) in
    load_groups left (suc i) (record fs {
      block_groups = λ k.
          if ltb k (fs.block_size * i) then fs.block_groups k else block (k - fs.block_size * i);
    })

-- The file system that `ext2_do_mount` sets up from a superblock, without its group descriptors.
pub set_up : Buffer → Buffer → Buffer → Option Ext2
set_up disk memory sb = do
  let block_size = 1024 * 2 ^ (u32 sb 24 % 32) % 2 ^ 32
  groups ← divide (u32 sb 4) (u32 sb 32)
  let count = if ltb (u32 sb 32 * groups % 2 ^ 32) (u32 sb 4) then (groups + 1) % 2 ^ 32 else groups
  per_group ← divide (u32 sb 0) count
  span ← divide (32 * count % 2 ^ 32) block_size
  some (record {
    disk = disk;
    memory = memory;
    block_groups = memory;
    block_size = block_size;
    pointers_per_block = block_size / 4;
    inodes_per_group = per_group;
    block_group_count = count;
    inode_size = 128;
    bgd_block_span = (span + 1) % 256;
    bgd_offset = if ltb 1024 block_size then 1 else 2;
  })

-- `ext2_do_mount`: `some none` where it returns NULL.
pub ext2_do_mount : Buffer → Buffer → Option (Option (Ext2 × Fnode))
unfolding set_up load_groups ext2_read_inode ext2_root
ext2_do_mount disk memory =
    let sb : Buffer = λ k. if ltb k 1024 then disk (1024 + k) else memory k in
    if u16 sb 56 == ext2_super_magic
    then (do
      fs ← set_up disk memory sb
      let fs' = load_groups fs.bgd_block_span 0 fs
      root ← ext2_read_inode fs' 2
      some (elim (ext2_root root) [ none ↦ none | some n ↦ some (fs', n) ]))
    else some none
