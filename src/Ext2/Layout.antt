-- ===== src/Ext2/Layout.antt =====
-- modules/ext2.c: the records of a directory as the format lays them out, and what ext2_finddir finds.
use native.Mathlib.Decide.{dec_lt}
use bingos.Common.{
  ℕ, zero, suc, ◌+◌, ◌-◌, ◌*◌, ◌%◌, ◌^◌, ◌≤◌, ◌<◌, ◌≡◌, ◌⊎◌, refl, ◌∙◌, true, false, some, List, [],
  ◌∷◌, leb, arith, inl, inr, sym,
}
use bingos.Common.Names.{Name}
use bingos.Ext2.{
  Buffer, u8, Ext2, Inode, Dentry, Cursor, bytes, dentry_at, ext2_inode_read_block, next_block,
  advance, ext2_read_inode, ext2_finddir,
}
use bingos.Ext2.Directory.{Listed, first_named, start, node_for, ext2_finddir-Listed}

-- A number of `n` bytes, the least first, and a string of `n` bytes.
unfoldable pub number : ℕ → Buffer → ℕ → ℕ
number zero b k = 0
number (suc n) b k = b k + 256 * number n b (k + 1)

unfoldable pub slice : ℕ → Buffer → ℕ → Name
slice zero b k = []
slice (suc n) b k = b k ∷ slice n b (k + 1)

-- A record of the format at byte `k` of a block: the inode in four bytes, the length of the record in
-- two, the length of the name in one, a type, and the name. The record has room for the name.
unfoldable pub RecordAt : Buffer → ℕ → Dentry → Type 0
RecordAt b k d =
    (d.inode ≡ number 4 b k)
    × (d.rec_len ≡ number 2 b (k + 4))
    × (d.name ≡ slice (b (k + 6)) b (k + 8))
    × (8 + b (k + 6) ≤ d.rec_len)

-- The records of a directory from byte `r` of its block `q` on, of which `content` has the bytes: a
-- record ends in its block, the next one follows it or starts the next block, and they fill the size.
unfoldable pub Records : (ℕ → Buffer) → ℕ → ℕ → ℕ → ℕ → List Dentry → Type 0
Records content block_size size q r [] = size ≤ q * block_size + r
Records content block_size size q r (d ∷ ds) =
    (q * block_size + r < size)
    × RecordAt (content q) r d
    × ((r + d.rec_len < block_size) × Records content block_size size q (r + d.rec_len) ds
        ⊎ (r + d.rec_len ≡ block_size) × Records content block_size size (suc q) 0 ds)

-- The blocks of the directory are read, with these bytes.
unfoldable pub Holds : Ext2 → Inode → (ℕ → Buffer) → Type 0
Holds fs dir content =
    (q : ℕ) (buf : Buffer)
    → q * fs.block_size < dir.i_size
    → (nr : ℕ) × (b : Buffer) × (ext2_inode_read_block fs dir q buf ≡ some (nr, b))
      × ((k : ℕ) → k < fs.block_size → u8 b k ≡ content q k)

bytes-slice :
    (n : ℕ) (b c : Buffer) (k size : ℕ)
    → k + n ≤ size
    → ((i : ℕ) → i < size → u8 b i ≡ c i)
    → bytes n b k ≡ slice n c k
unfolding bytes slice
bytes-slice zero b c k size fits same = refl
bytes-slice (suc n) b c k size fits same =
    let rest = bytes-slice n b c (k + 1) size (omega (arith, fits)) same in
    rw (same k (omega (arith, fits)), rest) refl

number-four :
    (b : Buffer) (k : ℕ)
    → number 4 b k ≡ b k + b (k + 1) * 256 + (b (k + 2) + b (k + 2 + 1) * 256) * 65536
unfolding number
number-four b k = grind arith

number-two : (b : Buffer) (k : ℕ) → number 2 b k ≡ b k + b (k + 1) * 256
unfolding number
number-two b k = grind arith

dentry_at-RecordAt :
    (b c : Buffer) (k size : ℕ) (d : Dentry)
    → RecordAt c k d
    → k + d.rec_len ≤ size
    → ((i : ℕ) → i < size → u8 b i ≡ c i)
    → dentry_at b k ≡ d
unfolding dentry_at RecordAt
dentry_at-RecordAt b c k size d (inode, rec_len, name, room) fits same =
    let b0 = same k (omega (arith, fits, room)) in
    let b1 = same (k + 1) (omega (arith, fits, room)) in
    let b2 = same (k + 2) (omega (arith, fits, room)) in
    let b3 = same (k + 2 + 1) (omega (arith, fits, room)) in
    let b4 = same (k + 4) (omega (arith, fits, room)) in
    let b5 = same (k + 4 + 1) (omega (arith, fits, room)) in
    let b6 = same (k + 6) (omega (arith, fits, room)) in
    let text = bytes-slice (c (k + 6)) b c (k + 8) size (omega (arith, fits, room)) same in
    whole (rw (b0, b1, b2, b3) (sym (number-four c k) ∙ sym inode))
      (rw (b4, b5) (sym (number-two c (k + 4)) ∙ sym rec_len)) (rw b6 (text ∙ sym name))
  where
    whole :
        {i l : ℕ} {n : Name}
        → i ≡ d.inode
        → l ≡ d.rec_len
        → n ≡ d.name
        → record { inode = i; rec_len = l; name = n } ≡ d
    whole i l n = rw (i, l, n) refl

-- Where a cursor is: at byte `r` of block `q`, which is in its buffer, or at the end of the block in
-- front of block `q`.
InBlock : Ext2 → (ℕ → Buffer) → ℕ → ℕ → Cursor → Type 0
InBlock fs content q r c =
    (c.total_offset ≡ q * fs.block_size + r)
    × (c.dir_offset ≡ r)
    × (c.block_nr ≡ q)
    × ((k : ℕ) → k < fs.block_size → u8 c.block k ≡ content q k)

AtEnd : Ext2 → ℕ → ℕ → Cursor → Type 0
AtEnd fs q r c =
    (c.total_offset ≡ q * fs.block_size + r)
    × (r ≡ 0)
    × (c.dir_offset ≡ fs.block_size)
    × (c.block_nr + 1 ≡ q)

below_256 : (q size : ℕ) → q * size < 256 * size → q < 256
below_256 q size h = elim (dec_lt q 256) [
  | yes l ↦ l
  | no l ↦
      let e : q * size ≡ 256 * size + (q - 256) * size = more (q - 256) (omega arith) in
      absurd (omega (arith, e, h))
]
  where
    more : (d : ℕ) → q ≡ 256 + d → q * size ≡ 256 * size + d * size
    more d e = rw e (grind arith)

next_block-InBlock :
    (fs : Ext2) (dir : Inode) (content : ℕ → Buffer) (q r : ℕ) (c : Cursor)
    → Holds fs dir content
    → dir.i_size ≤ 256 * fs.block_size
    → q * fs.block_size + r < dir.i_size
    → r < fs.block_size
    → InBlock fs content q r c ⊎ AtEnd fs q r c
    → (c' : Cursor) × (next_block fs dir c ≡ some c') × InBlock fs content q r c'
unfolding next_block InBlock AtEnd Holds
next_block-InBlock fs dir content q r c holds blocks inside low (inl (total, off, nr, same)) =
    let stay : leb fs.block_size c.dir_offset ≡ false = ground arith in
    (c, rw (stay, next_block) refl, (total, off, nr, same))
next_block-InBlock fs dir content q r c holds blocks inside low (inr (total, first, off, nr)) =
    let over : leb fs.block_size c.dir_offset ≡ true = ground arith in
    let (block, b, read, same) = holds q c.block (omega (arith, inside)) in
    let q_low = below_256 q fs.block_size (omega (arith, inside, blocks)) in
    let number : (c.block_nr + 1) % 256 ≡ q = omega (arith, nr, q_low) in
    (
      record c { block = b; block_nr = q; dir_offset = c.dir_offset - fs.block_size },
      rw (over, number, read, next_block) refl,
      (total, omega (arith, off, first), refl, same),
    )

total_of :
    (fs : Ext2) (content : ℕ → Buffer) (q r : ℕ) (c : Cursor)
    → InBlock fs content q r c ⊎ AtEnd fs q r c
    → c.total_offset ≡ q * fs.block_size + r
unfolding InBlock AtEnd
total_of fs content q r c (inl at) = at.0
total_of fs content q r c (inr at) = at.0

rec_len-short :
    (b : Buffer) (k : ℕ) (d : Dentry) → ((j : ℕ) → b j < 256) → RecordAt b k d → d.rec_len < 65536
unfolding RecordAt
rec_len-short b k d byte (inode, rec_len, name, room) =
    let low = byte (k + 4) in
    let high = byte (k + 4 + 1) in
    let e = number-two b (k + 4) in omega (arith, rec_len, e, low, high)

-- A cursor that goes on by a record of a block stays in the block.
advance-InBlock :
    (fs : Ext2) (content : ℕ → Buffer) (q r len : ℕ) (c : Cursor)
    → InBlock fs content q r c
    → r + len < fs.block_size
    → fs.block_size < 2 ^ 32
    → q * fs.block_size + r + len < 2 ^ 32
    → InBlock fs content q (r + len) (advance len c)
unfolding InBlock advance
advance-InBlock fs content q r len c (total, off, nr, same) below small range =
    (omega (arith, total, range), omega (arith, off, below, small), nr, same)

-- The last record of a block takes it to the end of the block.
advance-AtEnd :
    (fs : Ext2) (content : ℕ → Buffer) (q r len : ℕ) (c : Cursor)
    → InBlock fs content q r c
    → r + len ≡ fs.block_size
    → fs.block_size < 2 ^ 32
    → q * fs.block_size + r + len < 2 ^ 32
    → AtEnd fs (suc q) 0 (advance len c)
unfolding InBlock AtEnd advance
advance-AtEnd fs content q r len c (total, off, nr, same) full small range =
    let next : suc q * fs.block_size ≡ q * fs.block_size + fs.block_size = grind arith in
    (
      omega (arith, total, range, next, full),
      refl,
      omega (arith, off, full, small),
      omega (arith, nr),
    )

rec_len-room : (b : Buffer) (k : ℕ) (d : Dentry) → RecordAt b k d → 8 ≤ d.rec_len
unfolding RecordAt
rec_len-room b k d (inode, rec_len, name, room) = omega (arith, room)

dentry_at-InBlock :
    (fs : Ext2) (content : ℕ → Buffer) (q r : ℕ) (c : Cursor) (d : Dentry)
    → InBlock fs content q r c
    → RecordAt (content q) r d
    → r + d.rec_len ≤ fs.block_size
    → dentry_at c.block c.dir_offset ≡ d
unfolding InBlock
dentry_at-InBlock fs content q r c d (total, off, nr, same) here fits =
    rw off (dentry_at-RecordAt c.block (content q) r fs.block_size d here fits same)

Records-Listed :
    (fs : Ext2) (dir : Inode) (content : ℕ → Buffer) (q r : ℕ) (c : Cursor) (ds : List Dentry)
    → Holds fs dir content
    → dir.i_size ≤ 256 * fs.block_size
    → fs.block_size < 2 ^ 32
    → dir.i_size + 65536 ≤ 2 ^ 32
    → ((k j : ℕ) → content k j < 256)
    → InBlock fs content q r c ⊎ AtEnd fs q r c
    → Records content fs.block_size dir.i_size q r ds
    → Listed fs dir c ds
unfolding Records Listed
Records-Listed fs dir content q r c [] holds blocks small range byte at records =
    rw (total_of fs content q r c at) records
Records-Listed fs dir content q r c (d ∷ ds) holds blocks small range byte at
      (inside, here, further) =
    let room = rec_len-room (content q) r d here in
    let short = rec_len-short (content q) r d (byte q) here in
    let fits : r + d.rec_len ≤ fs.block_size = elim further [
      | inl (below, more) ↦ omega (arith, below)
      | inr (full, more) ↦ omega (arith, full)
    ] in
    let (c', next, place) =
      next_block-InBlock fs dir content q r c holds blocks inside (omega (arith, room, fits)) at in
    let e = total_of fs content q r c at in
    let end : q * fs.block_size + r + d.rec_len < 2 ^ 32 = omega (arith, inside, short, range) in
    (
      omega (arith, inside, e),
      c',
      next,
      dentry_at-InBlock fs content q r c' d place here fits,
      omega (arith, room),
      short,
      elim further [
        | inl (below, more) ↦
            Records-Listed fs dir content q (r + d.rec_len) (advance d.rec_len c') ds holds blocks
              small range byte
              (inl (advance-InBlock fs content q r d.rec_len c' place below small end)) more
        | inr (full, more) ↦
            Records-Listed fs dir content (suc q) 0 (advance d.rec_len c') ds holds blocks small
              range byte (inr (advance-AtEnd fs content q r d.rec_len c' place full small end)) more
      ],
    )

-- ext2_finddir ends on a directory that is laid out as the format says, and finds what a search of
-- the list of its records finds: the node of the first record in use that has the name, or NULL where
-- there is none. `content` has the bytes of the blocks, of which `Records` reads the records with their
-- lengths, one after another and block after block, up to the size; each record has room for its name,
-- so that none has the length 0. Conditions: the inode and the blocks are read, the directory is not
-- empty and has at most 256 blocks (the number of a block is a `uint8_t`), and the offsets fit 32 bits.
pub ext2_finddir-first_named :
    (fs : Ext2) (ino : ℕ) (name : Name) (dir : Inode) (content : ℕ → Buffer) (ds : List Dentry)
    → ext2_read_inode fs ino ≡ some dir
    → Holds fs dir content
    → ((q k : ℕ) → content q k < 256)
    → 0 < dir.i_size
    → dir.i_size ≤ 256 * fs.block_size
    → dir.i_size + 65536 ≤ 2 ^ 32
    → fs.block_size < 2 ^ 32
    → Records content fs.block_size dir.i_size 0 0 ds
    → ext2_finddir (suc dir.i_size) fs ino name ≡ node_for fs (first_named name ds)
unfolding Holds InBlock start
ext2_finddir-first_named fs ino name dir content ds read holds byte some_bytes blocks range small
      records =
    let (nr, block, first, same) = holds 0 fs.memory (omega (arith, some_bytes)) in
    ext2_finddir-Listed fs ino name dir nr block ds read first range (
      Records-Listed fs dir content 0 0 (start block) ds holds blocks small range byte
        (inl (omega arith, refl, refl, same)) records)
