-- ===== src/Ext2/Directory.antt =====
-- modules/ext2.c: what ext2_finddir finds in a directory, and when it does not end.
use bingos.Common.{
  ℕ, zero, suc, ◌+◌, ◌-◌, ◌%◌, ◌^◌, ◌≤◌, ◌<◌, ◌≡◌, refl, Bool, true, false, not, ◌&&◌, ◌||◌, Option,
  none, ◌>>=◌, some, List, [], ◌∷◌, length, ltb, leb, ◌==◌, ==_refl, if◌then◌else◌, arith, inl, inr,
  Bool-cases,
}
use bingos.Common.Names.{Name, name_eq, name_eq→≡}
use bingos.Ext2.{
  Buffer, Ext2, Inode, Dentry, Fnode, Cursor, Search, found, absent, fault, endless, dentry_at,
  next_block, matches, advance, find_from, search_dir, ext2_read_inode, ext2_inode_read_block,
  ext2_create_node, ext2_finddir,
}

-- Whether a record is in use and has a name.
unfoldable pub named : Name → Dentry → Bool
named name d = not (d.inode == 0) && name_eq d.name name

matches-named : (name : Name) (d : Dentry) → matches name d ≡ named name d
unfolding matches named
matches-named name d = elim (Bool-cases (name_eq d.name name)) [
  | inl e ↦
      let same = name_eq→≡ d.name name e in
      let len : (length name == length d.name) ≡ true = rw same (==_refl (length name)) in
      rw (len, e) (by_inode (d.inode == 0))
  | inr e ↦ rw e (neither (d.inode == 0) (length name == length d.name))
]
  where
    by_inode : (b : Bool) → (not (b || not true) && true) ≡ (not b && true)
    by_inode true = refl
    by_inode false = refl

    neither : (b c : Bool) → (not (b || not c) && false) ≡ (not b && false)
    neither true c = refl
    neither false true = refl
    neither false false = refl

-- The first record in use with a name.
pub first_named : Name → List Dentry → Option Dentry
first_named name [] = none
first_named name (d ∷ ds) = let rest = first_named name ds in if named name d then some d else rest

-- The records of a directory from a cursor on: each has a length that is not 0, and they end at its
-- size.
unfoldable pub Listed : Ext2 → Inode → Cursor → List Dentry → Type 0
Listed fs inode c [] = inode.i_size ≤ c.total_offset
Listed fs inode c (d ∷ ds) =
    (c.total_offset < inode.i_size)
    × (c' : Cursor) × (next_block fs inode c ≡ some c')
    × (dentry_at c'.block c'.dir_offset ≡ d)
    × (1 ≤ d.rec_len)
    × (d.rec_len < 65536)
    × Listed fs inode (advance d.rec_len c') ds

total_or : ℕ → Option Cursor → ℕ
total_or total none = total
total_or total (some c) = c.total_offset

next_block-total_or :
    (fs : Ext2) (inode : Inode) (c : Cursor)
    → total_or c.total_offset (next_block fs inode c) ≡ c.total_offset
unfolding next_block total_or
next_block-total_or fs inode c = elim (Bool-cases (leb fs.block_size c.dir_offset)) [
  | inl t ↦
      rw (t, next_block) (moved (ext2_inode_read_block fs inode ((c.block_nr + 1) % 256) c.block))
  | inr t ↦ rw (t, next_block) refl
]
  where
    moved :
        (o : Option (ℕ × Buffer))
        → total_or c.total_offset (
            o >>= (λ read. some (record c {
              block = read.1;
              block_nr = (c.block_nr + 1) % 256;
              dir_offset = c.dir_offset - fs.block_size;
            })))
          ≡ c.total_offset
    moved none = refl
    moved (some read) = refl

next_block-total_offset :
    (fs : Ext2) (inode : Inode) (c c' : Cursor)
    → next_block fs inode c ≡ some c'
    → c'.total_offset ≡ c.total_offset
unfolding total_or
next_block-total_offset fs inode c c' e = rw e at (next_block-total_or fs inode c)

outcome : Option Dentry → Search
outcome none = absent
outcome (some d) = found d

further :
    (total total' len fuel size : ℕ)
    → total < size
    → total' ≡ total
    → 1 ≤ len
    → len < 65536
    → size + 65536 ≤ 2 ^ 32
    → size < suc fuel + total
    → size < fuel + (total' + len) % 2 ^ 32
further total total' len fuel size inside same long short small enough =
    let e : (total' + len) % 2 ^ 32 ≡ total + len = omega arith in rw e (omega arith)

find_from-first_named :
    (fuel : ℕ) (fs : Ext2) (inode : Inode) (name : Name) (c : Cursor) (ds : List Dentry)
    → inode.i_size + 65536 ≤ 2 ^ 32
    → 1 ≤ fuel
    → inode.i_size < fuel + c.total_offset
    → Listed fs inode c ds
    → find_from fuel fs inode name c ≡ outcome (first_named name ds)
unfolding find_from first_named outcome Listed advance
find_from-first_named zero fs inode name c [] small one enough listed = absurd (omega arith)
find_from-first_named zero fs inode name c (d ∷ ds) small one enough listed = absurd (omega arith)
find_from-first_named (suc fuel) fs inode name c [] small one enough listed =
    let e : ltb c.total_offset inode.i_size ≡ false = ground arith in rw e refl
find_from-first_named (suc fuel) fs inode name c (d ∷ ds) small one enough
      (inside, c', next, here, long, short, listed) =
    let e : ltb c.total_offset inode.i_size ≡ true = ground arith in
    let same = next_block-total_offset fs inode c c' next in
    let rest =
      find_from-first_named fuel fs inode name (advance d.rec_len c') ds small (omega arith)
        (further c.total_offset c'.total_offset d.rec_len fuel inode.i_size inside same long short
          small enough)
        listed in
    rw (e, next, here, matches-named name d, rest) (by_name (named name d))
  where
    by_name :
        (b : Bool)
        → (if b then found d else outcome (first_named name ds))
          ≡ outcome (if b then some d else first_named name ds)
    by_name true = refl
    by_name false = refl

-- The cursor at the start of a directory.
unfoldable pub start : Buffer → Cursor
start block = record { block = block; block_nr = 0; dir_offset = 0; total_offset = 0 }

-- The node that is made for a record, or NULL.
pub node_for : Ext2 → Option Dentry → Option (Option Fnode)
node_for fs none = some none
node_for fs (some d) = elim (ext2_read_inode fs d.inode) [
  | none ↦ none
  | some target ↦ some (some (ext2_create_node target d))
]

-- ext2_finddir on the records that its own cursor goes over.
pub ext2_finddir-Listed :
    (fs : Ext2) (ino : ℕ) (name : Name) (dir : Inode) (nr : ℕ) (block : Buffer) (ds : List Dentry)
    → ext2_read_inode fs ino ≡ some dir
    → ext2_inode_read_block fs dir 0 fs.memory ≡ some (nr, block)
    → dir.i_size + 65536 ≤ 2 ^ 32
    → Listed fs dir (start block) ds
    → ext2_finddir (suc dir.i_size) fs ino name ≡ node_for fs (first_named name ds)
unfolding ext2_finddir search_dir node_for outcome start
ext2_finddir-Listed fs ino name dir nr block ds read first small listed =
    let e =
      find_from-first_named (suc dir.i_size) fs dir name (start block) ds small (omega arith)
        (omega arith) listed in
    let search : search_dir (suc dir.i_size) fs dir name ≡ outcome (first_named name ds) =
      rw (first, search_dir) e in
    rw (read, search, ext2_finddir) (by_record (first_named name ds))
  where
    by_record :
        (o : Option Dentry)
        → elim (outcome o) [
          | found d ↦
              ext2_read_inode fs d.inode >>= (λ target. some (some (ext2_create_node target d)))
          | absent ↦ some none
          | fault ↦ none
          | endless ↦ none
        ]
          ≡ node_for fs o
    by_record none = refl
    by_record (some d) = refl

advance-zero : (c : Cursor) → c.dir_offset < 2 ^ 32 → c.total_offset < 2 ^ 32 → advance 0 c ≡ c
unfolding advance
advance-zero c h k =
    let off : (c.dir_offset + 0) % 2 ^ 32 ≡ c.dir_offset = omega arith in
    let total : (c.total_offset + 0) % 2 ^ 32 ≡ c.total_offset = omega arith in rw (off, total) refl

-- A record of length 0 that is not the one searched for keeps the loop of ext2_finddir where it is,
-- so that it does not end, however long it runs.
pub find_from-endless :
    (fuel : ℕ) (fs : Ext2) (dir : Inode) (name : Name) (c : Cursor)
    → c.total_offset < dir.i_size
    → dir.i_size < 2 ^ 32
    → c.dir_offset < fs.block_size
    → fs.block_size ≤ 2 ^ 32
    → (dentry_at c.block c.dir_offset).rec_len ≡ 0
    → named name (dentry_at c.block c.dir_offset) ≡ false
    → find_from fuel fs dir name c ≡ endless
unfolding find_from next_block
find_from-endless zero fs dir name c inside size place width len other = refl
find_from-endless (suc fuel) fs dir name c inside size place width len other =
    let e : ltb c.total_offset dir.i_size ≡ true = ground arith in
    let stay : leb fs.block_size c.dir_offset ≡ false = ground arith in
    let rest = find_from-endless fuel fs dir name c inside size place width len other in
    let here : next_block fs dir c ≡ some c = rw (stay, next_block) refl in
    rw (e, here, matches-named name (dentry_at c.block c.dir_offset), other, len)
      (rw (advance-zero c (omega arith) (omega arith)) rest)
