-- ===== src/Vfs/Resolve.antt =====
-- fs/fs.c: what a path resolves to, at a mount point and below it.
use native.Mathlib.Decide.{dec_lt}
use bingos.Common.{
  ℕ, suc, ◌+◌, ◌-◌, ◌≡◌, refl, sym, subst, ap, ◌∙◌, true, false, Option, none, some, List, [], ◌∷◌,
  ◌==◌, length, take, drop, arith,
}
use bingos.Common.Names.{Name, name_eq_refl}
use bingos.Vfs.{
  Vfs, Directory, file_at, get_mount_point, MountPoint, resolve, front, vfs_lookup,
  vfs_lookup_internal, find_loop, vfs_finddir, vfs_mount, split, drop_last_empty,
}
use bingos.Vfs.Names.{rest_eq}
use bingos.Vfs.Mount.{IsUpdate, vfs_mount-IsUpdate}
use bingos.Vfs.Point.{file_of, IsMountPoint, get_mount_point-IsMountPoint}

take-all : (path : List Name) → take (length path) path ≡ path
take-all [] = refl
take-all (n ∷ ns) = ap (λ k. n ∷ k) (take-all ns)

drop-all : (path : List Name) → drop (length path) path ≡ []
drop-all [] = refl
drop-all (n ∷ ns) = drop-all ns

point-of-mounted :
    (v : Vfs) (path : List Name) (file : ℕ) (r : MountPoint)
    → file_of v path ≡ some file
    → IsMountPoint v path r
    → (r.last ≡ file) × (r.mount_path ≡ [])
unfolding IsMountPoint
point-of-mounted v path file r e (n, p, at, rest, low, high, longer) =
    elim (dec_lt n (length path)) [
      | yes h ↦
          let gone = ap (file_of v) (sym (take-all path)) ∙ longer (length path) h (omega arith) in
          absurd (ground (arith, e, gone))
      | no h ↦
          let d : n ≡ length path = omega arith in
          let at' = subst (λ k. file_of v (take k path) ≡ some r.last) d at in
          let rest' = subst (λ k. r.mount_path ≡ drop k path) d rest in
          (some_inj (sym at' ∙ ap (file_of v) (take-all path) ∙ e), rest' ∙ drop-all path)
    ]
  where
    some_inj : {a b : ℕ} → some a ≡ some b → a ≡ b
    some_inj h = ground arith

-- A path at which a file is mounted resolves to that file, when the byte behind the copy of the path
-- is 0.
pub resolve-mounted :
    (directory : ℕ → Directory) (v : Vfs) (path : List Name) (file : ℕ)
    → file_of v path ≡ some file
    → resolve directory [] v path ≡ some file
unfolding resolve vfs_lookup_internal front
resolve-mounted directory v path file e =
    let at =
      point-of-mounted v path file (get_mount_point v path) e
        (get_mount_point-IsMountPoint v path) in
    rw (at.1, at.0)

rest_eq_refl : (ns : List Name) → rest_eq ns ns ≡ true
unfolding rest_eq
rest_eq_refl [] = refl
rest_eq_refl (n ∷ ns) = rw (name_eq_refl n, rest_eq_refl ns)

-- After a mount that succeeds at a path without an empty last component, the same path resolves to the
-- file mounted, when the byte behind the copy of the path is 0.
pub vfs_lookup-vfs_mount :
    (directory : ℕ → Directory) (c : ℕ) (path : List ℕ) (file : ℕ) (v v' : Vfs) (name : Name)
    (rest : List Name)
    → split (c ∷ path) ≡ name ∷ rest
    → drop_last_empty (name ∷ rest) ≡ name ∷ rest
    → vfs_mount (47 ∷ c ∷ path) file v ≡ some (some v')
    → vfs_lookup directory [] v' (47 ∷ c ∷ path) ≡ some file
unfolding vfs_lookup IsUpdate file_of
vfs_lookup-vfs_mount directory c path file v v' name rest s d h =
    let update = vfs_mount-IsUpdate (c ∷ path) file v v' name rest (ap drop_last_empty s ∙ d) h in
    let here : file_at name rest v'.children ≡ some file =
      update name rest ∙ rw (name_eq_refl name, rest_eq_refl rest) in
    rw s (resolve-mounted directory v' (name ∷ rest) file here)

-- The last component of a path.
pub last_name : Name → List Name → Name
last_name name [] = name
last_name name (next ∷ rest) = last_name next rest

find_loop-last :
    (directory : ℕ → Directory) (v : Vfs) (node : ℕ) (name : Name) (rest : List Name)
    (ret : Option ℕ)
    → find_loop directory v node (name ∷ rest) (length (name ∷ rest)) ret
      ≡ vfs_finddir directory v node (last_name name rest)
unfolding find_loop last_name
find_loop-last directory v node name [] ret = refl
find_loop-last directory v node name (next ∷ rest) ret =
    find_loop-last directory v node next rest (vfs_finddir directory v node name)

-- The length of a path is not 0.
some_left : (n : ℕ) → (suc n == 0) ≡ false
some_left n = ground arith

-- Below a mount point at which the mount tree ends, every component is looked up in the root of the
-- mounted file system: the path resolves to what that root has under the last component, and the
-- directories on the way are not entered.
pub resolve-last :
    (directory : ℕ → Directory) (beyond : Name) (v : Vfs) (path : List Name) (node c depth : ℕ)
    (cs : Name) (rest : List Name)
    → get_mount_point v path
      ≡ record { last = node; mount_path = (c ∷ cs) ∷ rest; mount_depth = depth }
    → length path ≡ length ((c ∷ cs) ∷ rest) + depth
    → resolve directory beyond v path ≡ vfs_finddir directory v node (last_name (c ∷ cs) rest)
unfolding resolve vfs_lookup_internal front
resolve-last directory beyond v path node c depth cs rest e len =
    let left : length path - depth ≡ suc (length rest) = omega arith in
    rw (e, left, some_left (length rest)) (find_loop-last directory v node (c ∷ cs) rest none)
