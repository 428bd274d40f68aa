-- ===== src/Ext2/Tests.antt =====
-- modules/ext2.c: a small disk with a directory of two records.
use bingos.Common.{
  ℕ, zero, suc, ◌%◌, ◌<◌, true, ltb, inl, ◌+◌, ◌*◌, ◌≡◌, refl, false, Option, none, some, List, [],
  ◌∷◌, ◌==◌, if◌then◌else◌, arith,
}
use bingos.Common.Names.{name_eq}
use bingos.Ext2.{
  Buffer, u8, Ext2, Inode, Dentry, Fnode, endless, divide, inode_at, bytes, dentry_at,
  ext2_read_block, ext2_get_block_number, ext2_inode_read_block, inode_place, ext2_read_inode,
  ext2_create_node, has_mode, ext2_root, next_block, matches, advance, find_from, search_dir,
  ext2_finddir, load_groups, set_up, ext2_do_mount,
}
use bingos.Ext2.Location.{ReadAt, ext2_read_inode-ReadAt}
use bingos.Ext2.Directory.{named, first_named, start, node_for, find_from-endless}
use bingos.Ext2.Layout.{Holds, RecordAt, Records, number, slice, ext2_finddir-first_named}
use bingos.Ext2.Block.{
  DirectRead, ext2_inode_read_block-DirectRead, ext2_get_block_number-double_indirect, Groups,
  set_up-Groups,
}

pick : List (ℕ × ℕ) → Buffer
pick [] k = 0
pick ((at_k, byte) ∷ rest) k = let other = pick rest k in if k == at_k then byte else other

-- The superblock in block 1, a group descriptor in block 2, inodes from block 5 on and the root
-- directory in block 7.
abbrev image : List (ℕ × ℕ)
image =
    (1024, 16)
    ∷ (1028, 64)
    ∷ (1056, 64)
    ∷ (1080, 0x53)
    ∷ (1081, 0xEF)
    ∷ (2056, 5)
    ∷ (5248, 0xED)
    ∷ (5249, 0x41)
    ∷ (5252, 24)
    ∷ (5276, 2)
    ∷ (5288, 7)
    ∷ (6660, 100)
    ∷ (7168, 12)
    ∷ (7172, 12)
    ∷ (7174, 1)
    ∷ (7176, 97)
    ∷ (7180, 13)
    ∷ (7184, 12)
    ∷ (7186, 2)
    ∷ (7188, 98)
    ∷ (7189, 99)
    ∷ []

abbrev disk : Buffer
unfolding pick
disk = pick image

abbrev small_fs : Ext2
small_fs = record {
  disk = disk;
  memory = λ k. 0;
  block_groups = λ k. if k == 8 then 5 else 0;
  block_size = 1024;
  pointers_per_block = 256;
  inodes_per_group = 16;
  block_group_count = 1;
  inode_size = 128;
  bgd_block_span = 1;
  bgd_offset = 2;
}

abbrev root_block : Buffer
unfolding ext2_read_block
root_block = ext2_read_block small_fs 7 (λ k. 0)

abbrev root_dir : Inode
unfolding inode_at ext2_read_block
root_dir = inode_at (ext2_read_block small_fs 5 (λ k. 0)) 128

finddir-second :
    ext2_finddir 25 small_fs 2 (98 ∷ 99 ∷ [])
    ≡ some (
        some (record {
          inode = 13;
          name = 98 ∷ 99 ∷ [];
          uid = 0;
          gid = 0;
          length = 100;
          mask = 0;
          nlink = 0;
          flags = 0;
          has_finddir = false;
        }))
unfolding ext2_finddir ext2_read_inode divide inode_place inode_at ext2_read_block search_dir
    ext2_inode_read_block ext2_get_block_number find_from next_block dentry_at bytes matches advance
    ext2_create_node pick name_eq
finddir-second = refl

finddir-missing : ext2_finddir 25 small_fs 2 (97 ∷ 97 ∷ []) ≡ some none
unfolding ext2_finddir ext2_read_inode divide inode_place inode_at ext2_read_block search_dir
    ext2_inode_read_block ext2_get_block_number find_from next_block dentry_at bytes matches advance
    ext2_create_node pick name_eq
finddir-missing = refl

abbrev records : List Dentry
records =
    record { inode = 12; rec_len = 12; name = 97 ∷ [] }
    ∷ record { inode = 13; rec_len = 12; name = 98 ∷ 99 ∷ [] }
    ∷ []

root_dir-read : ext2_read_inode small_fs 2 ≡ some root_dir
unfolding ext2_read_inode divide inode_place inode_at ext2_read_block pick
root_dir-read = refl

root_block-read : ext2_inode_read_block small_fs root_dir 0 (λ k. 0) ≡ some (7, root_block)
unfolding ext2_inode_read_block divide ext2_get_block_number ext2_read_block inode_at pick
root_block-read = refl

abbrev content : ℕ → Buffer
unfolding pick
content q k = disk (7168 + k) % 256

root_dir-Holds : Holds small_fs root_dir content
unfolding Holds inode_at ext2_read_block pick ext2_inode_read_block divide ext2_get_block_number
root_dir-Holds zero buf inside = (7, ext2_read_block small_fs 7 buf, refl, same)
  where
    same : (k : ℕ) → k < 1024 → u8 (ext2_read_block small_fs 7 buf) k ≡ content 0 k
    same k low = let e : ltb k 1024 ≡ true = ground arith in rw e refl
root_dir-Holds (suc q) buf inside = absurd (omega (arith, inside))

root_dir-Records : Records content 1024 24 0 0 records
unfolding Records RecordAt number slice pick
root_dir-Records = (
  omega arith,
  (refl, refl, refl, omega arith),
  inl (omega arith, (omega arith, (refl, refl, refl, omega arith), inl (omega arith, omega arith))),
)

ext2_finddir-first_named_example :
    ext2_finddir (suc root_dir.i_size) small_fs 2 (98 ∷ 99 ∷ [])
    ≡ node_for small_fs (first_named (98 ∷ 99 ∷ []) records)
unfolding inode_at ext2_read_block pick
ext2_finddir-first_named_example =
    ext2_finddir-first_named small_fs 2 (98 ∷ 99 ∷ []) root_dir content records root_dir-read
      root_dir-Holds (λ q k. omega arith) (omega arith) (omega arith) (omega arith) (omega arith)
      root_dir-Records

-- Behind the two records the block holds zeros, and a record of length 0.
find_from-endless_example :
    find_from 1000 small_fs
      (record root_dir { i_size = 1024 })
      (100 ∷ [])
      (record (start root_block) { dir_offset = 24; total_offset = 24 })
    ≡ endless
unfolding dentry_at bytes named name_eq pick start inode_at ext2_read_block
find_from-endless_example =
    find_from-endless 1000 small_fs (record root_dir { i_size = 1024 }) (100 ∷ [])
      (record (start root_block) { dir_offset = 24; total_offset = 24 }) (omega arith) (omega arith)
      (omega arith) (omega arith) no_length other
  where
    no_length : (dentry_at root_block 24).rec_len ≡ 0
    no_length = refl

    other : named (100 ∷ []) (dentry_at root_block 24) ≡ false
    other = refl

ext2_read_inode-ReadAt_example : ReadAt small_fs 5 12 (ext2_read_inode small_fs (0 * 16 + (12 + 1)))
ext2_read_inode-ReadAt_example =
    ext2_read_inode-ReadAt small_fs 8 0 12 (omega arith) refl refl (omega arith) (omega arith)
      (omega arith) (omega arith) (omega arith)

ext2_inode_read_block-DirectRead_example :
    DirectRead small_fs root_dir 0 (λ k. 0) (ext2_inode_read_block small_fs root_dir 0 (λ k. 0))
ext2_inode_read_block-DirectRead_example =
    ext2_inode_read_block-DirectRead small_fs root_dir 0 (λ k. 0) (omega arith)

ext2_get_block_number-double_indirect_example : ext2_get_block_number small_fs root_dir 268 ≡ none
ext2_get_block_number-double_indirect_example =
    ext2_get_block_number-double_indirect small_fs root_dir 268 refl refl (omega arith)
      (omega arith)

set_up-Groups_example : Groups (λ k. disk (1024 + k)) (set_up disk (λ k. 0) (λ k. disk (1024 + k)))
set_up-Groups_example = set_up-Groups disk (λ k. 0) (λ k. disk (1024 + k))

mounted : Option (Option (Ext2 × Fnode)) → ℕ
mounted none = 0
mounted (some none) = 1
mounted (some (some (fs, root))) = fs.inodes_per_group + root.flags

-- The image is mounted, with one group of 16 inodes.
mount-image : mounted (ext2_do_mount disk (λ k. 0)) ≡ 18
unfolding mounted ext2_do_mount set_up load_groups ext2_read_inode divide inode_place inode_at
    ext2_read_block ext2_root has_mode pick
mount-image = refl
