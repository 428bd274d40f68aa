-- ===== src/Devfs.antt =====
-- fs/devfs.c: the table of devices below /dev.
--
-- The table is the list of the registered nodes, of which the operations read the name and the inode
-- number; `nr_dev_count` is its length. NULL is none. What stands in the table behind its nodes is not
-- known: where readdir follows a pointer there, its result is `fault`.
pub mod Laws
mod Tests
use bingos.Common.{
  ℕ, zero, suc, ◌+◌, ◌-◌, ◌%◌, ◌^◌, Bool, true, false, Option, none, some, List, [], ◌∷◌, ◌++◌,
  length, get_elem?, ltb, leb, ◌==◌, if◌then◌else◌,
}
use bingos.Common.Names.{Name, name_eq}

-- The part of `vfs_node_t` that is read, with the address of the node.
pub record Device : Type 0 where
  pub address : ℕ
  pub name : Name
  pub inode : ℕ

abbrev pub nr_dev_max : ℕ
nr_dev_max = 32

-- The result, 0 or -1 as `none`, and the new table.
pub devfs_register : Device → List Device → Option ℕ × List Device
devfs_register target devs =
    if leb nr_dev_max (length devs) then (none, devs) else (some 0, devs ++ (target ∷ []))

pub devfs_finddir : List Device → Name → Option Device
devfs_finddir [] name = none
devfs_finddir (d ∷ devs) name =
    let rest = devfs_finddir devs name in if name_eq name d.name then some d else rest

pub data Entry : Type 0 where
  dirent : Name → ℕ → Entry
  null : Entry
  fault : Entry

-- The bound is computed as an unsigned number, so that it is 2 ^ 32 - 1 for the empty table.
pub devfs_readdir : List Device → ℕ → Entry
devfs_readdir devs index =
    if ltb ((length devs + 2 ^ 32 - 1) % 2 ^ 32) index
    then null
    else (elim (get_elem? devs index) [ none ↦ fault | some d ↦ dirent d.name d.inode ])

-- The test of the first five characters of a path against "/dev/": what is behind them.
pub behind_dev : Name → Name → Option Name
behind_dev [] path = some path
behind_dev (c ∷ prefix) [] = none
behind_dev (c ∷ prefix) (p ∷ path) =
    let rest = behind_dev prefix path in if p == c then rest else none

-- The loop of `devfs_fetch_device`.
pub fetch_loop : List Device → Name → Option Device
fetch_loop [] dev = none
fetch_loop (d ∷ devs) dev =
    let rest = fetch_loop devs dev in if name_eq d.name dev then some d else rest

pub devfs_fetch_device : List Device → Name → Option Device
devfs_fetch_device devs path = elim (behind_dev (47 ∷ 100 ∷ 101 ∷ 118 ∷ 47 ∷ []) path) [
  | none ↦ none
  | some dev ↦ fetch_loop devs dev
]
