-- ===== src/Descriptors.antt =====
-- fs/open.c and fs/read_write.c: the file descriptors of a process.
--
-- A node is named by its address; NULL is none. What vfs_lookup finds and what the operations of a node
-- answer are arguments: they are fs/fs.c's and the file systems'. A NULL pointer that is followed and
-- an access behind the table are `none`. Descriptors that are passed in are not negative.
pub mod Laws
mod Tests
use bingos.Common.{
  ℕ, zero, suc, ◌+◌, ◌-◌, ◌%◌, ◌^◌, ◌≤◌, ◌<◌, Bool, true, false, ◌&&◌, Option, none, some, List, [],
  ◌∷◌, ltb, leb, ◌==◌, if◌then◌else◌,
}

abbrev pub nr_open : ℕ
nr_open = 256

-- The table of the current process, and the offset of every node.
pub record Table : Type 0 where
  pub entries : ℕ → Option ℕ
  pub length : ℕ
  pub offset : ℕ → ℕ

-- What a call returns: a value or the negation of an error number.
pub data Result : Type 0 where
  ok : ℕ → Result
  error : ℕ → Result

abbrev pub emfile : ℕ
emfile = 24

abbrev pub ebadf : ℕ
ebadf = 9

pub is_some : Option ℕ → Bool
is_some none = false
is_some (some n) = true

-- The loop of `do_open` for the first entry that is NULL, from `fd`.
pub free_from : ℕ → ℕ → (ℕ → Option ℕ) → ℕ
unfolding is_some
free_from zero fd entries = fd
free_from (suc left) fd entries =
    let rest = free_from left (suc fd) entries in if is_some (entries fd) then rest else fd

pub set_entry : ℕ → Option ℕ → ℕ → Table → Table
set_entry fd node length t = record t {
  entries = λ i. if i == fd then node else t.entries i;
  length = length;
}

-- `do_open`, with the node that the lookup finds. `vfs_open` follows a NULL node.
pub do_open : Option ℕ → Table → Option (Result × Table)
do_open node t =
    let fd = free_from nr_open 0 t.entries in
    if leb nr_open fd then some (error emfile, t) else elim node [
      | none ↦ none
      | some n ↦ some (ok fd, set_entry fd (some n) ((t.length + 1) % 2 ^ 32) t)
    ]

-- `sys_close`; the result is what `vfs_close` of the node returns.
pub sys_close : (ℕ → Result) → ℕ → Table → Option (Result × Table)
sys_close vfs_close fd t =
    if ltb nr_open fd
    then some (error ebadf, t)
    else if fd == nr_open
    then none
    else elim (t.entries fd) [
      | none ↦ some (error ebadf, t)
      | some n ↦ some (vfs_close n, set_entry fd none ((t.length + 2 ^ 32 - 1) % 2 ^ 32) t)
    ]

pub validate_fd : ℕ → Table → Bool
unfolding is_some
validate_fd fd t = ltb fd t.length && is_some (t.entries fd)

-- `sys_read`: `vfs_read` answers for a node, an offset and a count.
pub sys_read : (ℕ → ℕ → ℕ → ℕ) → ℕ → ℕ → Table → Result × Table
unfolding validate_fd
sys_read vfs_read fd count t = elim (if validate_fd fd t then t.entries fd else none) [
  | none ↦ (error 1, t)
  | some n ↦
      let nread = vfs_read n (t.offset n) count in
      (
        ok nread,
        record t { offset = λ m. if m == n then (t.offset n + nread) % 2 ^ 32 else t.offset m },
      )
]

-- `sys_write` leaves the offset as it is.
pub sys_write : (ℕ → ℕ → ℕ → ℕ) → ℕ → ℕ → Table → Result
unfolding validate_fd
sys_write vfs_write fd size t = elim (if validate_fd fd t then t.entries fd else none) [
  | none ↦ error 1
  | some n ↦ ok (vfs_write n (t.offset n) size)
]

-- `sys_readdir`: 0 where there is an entry, and 1 at the end.
pub sys_readdir : (ℕ → ℕ → Bool) → ℕ → ℕ → Table → Result
unfolding validate_fd
sys_readdir vfs_readdir fd index t = elim (if validate_fd fd t then t.entries fd else none) [
  | none ↦ error 1
  | some n ↦ if vfs_readdir n index then ok 0 else ok 1
]
