-- ===== src/Vfs/Tests.antt =====
-- fs/fs.c: paths resolved on a small tree.
use bingos.Common.{ℕ, ◌+◌, ◌≡◌, refl, none, some, List, [], ◌∷◌, length}
use bingos.Common.Names.{name_eq}
use bingos.Vfs.Mount.{IsUpdate, vfs_mount-IsUpdate}
use bingos.Vfs.Point.{IsMountPoint, get_mount_point-IsMountPoint}
use bingos.Vfs.Resolve.{last_name, resolve-last, vfs_lookup-vfs_mount}
use bingos.Vfs.{
  resolve, Vfs, Directory, end, entry, split, find_child, get_mount_point, walk, drop_last_empty,
  vfs_mount, vfs_finddir, vfs_lookup, vfs_init,
}

-- "/dev/tty" and "/usr/a/b".
abbrev tty_path : List ℕ
tty_path = 47 ∷ 100 ∷ 47 ∷ 116 ∷ []

abbrev mounted : Vfs
mounted = record {
  vfs_root = 1;
  children = entry (100 ∷ []) none (entry (116 ∷ []) (some 7) end end) end;
}

abbrev directories : ℕ → Directory
directories i = record {
  flags = 2;
  finddir = some (λ name. some (100 + length name));
  readdir = none;
}

vfs_mount-tty : vfs_mount tty_path 7 (vfs_init 1) ≡ some (some mounted)
unfolding vfs_mount vfs_init split
vfs_mount-tty = refl

vfs_lookup-tty : vfs_lookup directories [] mounted tty_path ≡ some 7
unfolding vfs_lookup split find_child name_eq
vfs_lookup-tty = refl

vfs_lookup-beyond : vfs_lookup directories (9 ∷ []) mounted tty_path ≡ some 101
unfolding vfs_lookup split find_child name_eq vfs_finddir
vfs_lookup-beyond = refl

split-tty : drop_last_empty (split (100 ∷ 47 ∷ 116 ∷ [])) ≡ (100 ∷ []) ∷ (116 ∷ []) ∷ []
unfolding split drop_last_empty
split-tty = refl

vfs_mount-IsUpdate_example :
    IsUpdate 7 (100 ∷ []) ((116 ∷ []) ∷ []) (vfs_init 1).children mounted.children
vfs_mount-IsUpdate_example =
    vfs_mount-IsUpdate (100 ∷ 47 ∷ 116 ∷ []) 7 (vfs_init 1) mounted (100 ∷ []) ((116 ∷ []) ∷ [])
      split-tty vfs_mount-tty

get_mount_point-IsMountPoint_example :
    IsMountPoint mounted
      ((100 ∷ []) ∷ (116 ∷ []) ∷ (120 ∷ []) ∷ [])
      (get_mount_point mounted ((100 ∷ []) ∷ (116 ∷ []) ∷ (120 ∷ []) ∷ []))
get_mount_point-IsMountPoint_example =
    get_mount_point-IsMountPoint mounted ((100 ∷ []) ∷ (116 ∷ []) ∷ (120 ∷ []) ∷ [])

split_tty : split (100 ∷ 47 ∷ 116 ∷ []) ≡ (100 ∷ []) ∷ (116 ∷ []) ∷ []
unfolding split
split_tty = refl

whole_path : drop_last_empty ((100 ∷ []) ∷ (116 ∷ []) ∷ []) ≡ (100 ∷ []) ∷ (116 ∷ []) ∷ []
unfolding drop_last_empty
whole_path = refl

vfs_lookup-vfs_mount_example : vfs_lookup directories [] mounted tty_path ≡ some 7
vfs_lookup-vfs_mount_example =
    vfs_lookup-vfs_mount directories 100 (47 ∷ 116 ∷ []) 7 (vfs_init 1) mounted (100 ∷ [])
      ((116 ∷ []) ∷ []) split_tty whole_path vfs_mount-tty

-- "/d/t/x/y": the directory "x" is skipped.
point_below :
    get_mount_point mounted ((100 ∷ []) ∷ (116 ∷ []) ∷ (120 ∷ []) ∷ (121 ∷ 122 ∷ []) ∷ [])
    ≡ record { last = 7; mount_path = (120 ∷ []) ∷ (121 ∷ 122 ∷ []) ∷ []; mount_depth = 2 }
unfolding get_mount_point walk find_child name_eq
point_below = refl

resolve-last_example :
    resolve directories [] mounted ((100 ∷ []) ∷ (116 ∷ []) ∷ (120 ∷ []) ∷ (121 ∷ 122 ∷ []) ∷ [])
    ≡ vfs_finddir directories mounted 7 (last_name (120 ∷ []) ((121 ∷ 122 ∷ []) ∷ []))
resolve-last_example =
    resolve-last directories [] mounted
      ((100 ∷ []) ∷ (116 ∷ []) ∷ (120 ∷ []) ∷ (121 ∷ 122 ∷ []) ∷ []) 7 120 2 []
      ((121 ∷ 122 ∷ []) ∷ []) point_below refl
