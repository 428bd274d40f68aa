-- ===== src/Vfs.antt =====
-- fs/fs.c and common/tree.c: the tree of mount points and the resolution of paths.
--
-- A path is the list of its bytes without the terminating NUL. A vfs_node_t is named by a number, its
-- address, and what its finddir and readdir answer is a parameter: they belong to the file systems.
-- The tree is kept as the children of its root; `end` and `entry` are a node's array of children,
-- and each child has its own children. Its fields are the name (of the tree node and of the
-- vfs_entry_t, which are the same) and entry->file. A write behind an array, of names or of
-- children, is `none`.
pub mod Names
pub mod Mount
pub mod Point
pub mod Resolve
mod Tests
use bingos.Common.Names.{Name, name_eq}
use bingos.Common.{
  ℕ, zero, suc, ◌+◌, ◌-◌, ◌%◌, Bool, true, false, ◌&&◌, Option, none, some, List, [], ◌∷◌, ltb,
  ◌==◌, if◌then◌else◌, length,
}

pub data Children : Type 0 where
  end : Children
  entry : Name → Option ℕ → Children → Children → Children

pub record Vfs : Type 0 where
  pub vfs_root : ℕ
  pub children : Children

abbrev pub max_tree_children : ℕ
max_tree_children = 10

-- The components that are left when every '/' is overwritten by NUL.
pub split : List ℕ → List Name
split [] = [] ∷ []
split (c ∷ cs) = elim (split cs) [
  | [] ↦ [] ∷ []
  | n ∷ ns ↦ if c == 47 then [] ∷ n ∷ ns else (c ∷ n) ∷ ns
]

-- The loop over node->children for a name: the child's file and children.
pub find_child : Name → Children → Option (Option ℕ × Children)
find_child name end = none
find_child name (entry n file below rest) =
    let found = find_child name rest in if name_eq n name then some (file, below) else found

-- What the loop of `vfs_get_mount_point` returns: the node, what is left of the path behind its mount
-- point, and the depth.
pub record MountPoint : Type 0 where
  pub last : ℕ
  pub mount_path : List Name
  pub mount_depth : ℕ

pub walk : List Name → Children → MountPoint → MountPoint
walk [] children at = at
walk (name ∷ rest) children at = elim (find_child name children) [
  | none ↦ at
  | some (none, below) ↦ walk rest below (record at { mount_depth = suc at.mount_depth })
  | some (some file, below) ↦
      walk rest below (record { last = file; mount_path = rest; mount_depth = suc at.mount_depth })
]

pub get_mount_point : Vfs → List Name → MountPoint
get_mount_point v path =
    walk path v.children (record { last = v.vfs_root; mount_path = path; mount_depth = 0 })

-- `tree_node_insert` of the components that are missing, the last with the file mounted.
pub new_path : ℕ → Name → List Name → Children
new_path file name [] = entry name (some file) end end
new_path file name (next ∷ rest) = entry name none (new_path file next rest) end

-- Names are kept in 64 bytes, with their NUL.
pub fits : Name → List Name → Bool
fits name [] = ltb (length name) 64
fits name (next ∷ rest) = ltb (length name) 64 && fits next rest

-- The loop of `vfs_mount` from one node, `index` its child looked at.
pub mount_below : ℕ → Name → List Name → ℕ → Children → Option Children
unfolding fits new_path
mount_below file name rest index end =
    if ltb index max_tree_children && fits name rest then some (new_path file name rest) else none
mount_below file name rest index (entry n f below siblings) =
    let others = mount_below file name rest (suc index) siblings in
    let inside : Option Children = elim rest [
      | [] ↦ some (entry n (some file) below siblings)
      | next ∷ rest' ↦ elim (mount_below file next rest' 0 below) [
        | none ↦ none
        | some below' ↦ some (entry n f below' siblings)
      ]
    ] in
    if name_eq n name
    then inside
    else elim others [ none ↦ none | some siblings' ↦ some (entry n f below siblings') ]

-- A '/' at the end of the path makes no component.
pub drop_last_empty : List Name → List Name
drop_last_empty [] = []
drop_last_empty ([] ∷ []) = []
drop_last_empty ((c ∷ cs) ∷ []) = (c ∷ cs) ∷ []
drop_last_empty (n ∷ m ∷ ns) = n ∷ drop_last_empty (m ∷ ns)

-- `vfs_mount`: `none` is a write behind an array, `some none` a refused path.
pub vfs_mount : List ℕ → ℕ → Vfs → Option (Option Vfs)
unfolding mount_below drop_last_empty
vfs_mount [] file v = some none
vfs_mount (c ∷ path) file v =
    if c == 47
    then elim (drop_last_empty (split path)) [
      | [] ↦ some none
      | name ∷ rest ↦ elim (mount_below file name rest 0 v.children) [
        | none ↦ none
        | some children' ↦ some (some (record v { children = children' }))
      ]
    ]
    else some none

-- What the file systems answer for a directory's node: finddir and readdir, where it has one.
pub record Directory : Type 0 where
  pub flags : ℕ
  pub finddir : Option (Name → Option ℕ)
  pub readdir : Option (ℕ → Option Name)

module _ (directory : ℕ → Directory) where
  pub vfs_finddir : Vfs → ℕ → Name → Option ℕ
  vfs_finddir v node name =
      if node == v.vfs_root
      then elim (find_child name v.children) [ none ↦ none | some (file, _) ↦ file ]
      else if (directory node).flags % 8 == 2
      then elim (directory node).finddir [ none ↦ none | some find ↦ find name ]
      else none

  -- The loop of `vfs_lookup_internal`: each component is looked up in the same node.
  pub find_loop : Vfs → ℕ → List Name → ℕ → Option ℕ → Option ℕ
  find_loop v node path zero ret = ret
  find_loop v node [] (suc depth) ret = none
  find_loop v node (name ∷ path) (suc depth) ret =
      find_loop v node path depth (vfs_finddir v node name)

  -- The string at the front of the path. At its end that is `beyond`, the memory behind the copy of
  -- the path.
  pub front : Name → List Name → Name
  front beyond [] = beyond
  front beyond (name ∷ path) = name

  pub vfs_lookup_internal : Name → Vfs → ℕ → List Name → ℕ → Option ℕ
  unfolding find_loop front
  vfs_lookup_internal beyond v node path depth = elim (front beyond path) [
    | [] ↦ some node
    | c ∷ cs ↦ if depth == 0 then vfs_finddir v node (c ∷ cs) else find_loop v node path depth none
  ]

  -- What `vfs_lookup` does with the components.
  pub resolve : Name → Vfs → List Name → Option ℕ
  unfolding vfs_lookup_internal get_mount_point walk
  resolve beyond v path =
      let at = get_mount_point v path in
      vfs_lookup_internal beyond v at.last at.mount_path (length path - at.mount_depth)

  pub vfs_lookup : Name → Vfs → List ℕ → Option ℕ
  unfolding resolve
  vfs_lookup beyond v [] = none
  vfs_lookup beyond v (c ∷ []) = if c == 47 then some v.vfs_root else none
  vfs_lookup beyond v (c ∷ d ∷ path) = if c == 47 then resolve beyond v (split (d ∷ path)) else none

  -- `vfs_readdir`: the outer Option is an index behind the children, the inner one the end.
  pub vfs_readdir : Vfs → ℕ → ℕ → Option (Option Name)
  vfs_readdir v node index =
      if node == v.vfs_root
      then nth_child index v.children
      else if (directory node).flags % 8 == 2
      then elim (directory node).readdir [ none ↦ some none | some read ↦ some (read index) ]
      else some none
    where
      nth_child : ℕ → Children → Option (Option Name)
      nth_child zero end = some none
      nth_child (suc i) end = none
      nth_child zero (entry n f below rest) = some (some n)
      nth_child (suc i) (entry n f below rest) = nth_child i rest

pub vfs_init : ℕ → Vfs
vfs_init root = record { vfs_root = root; children = end }

-- The file mounted at exactly a path: the finite map that the tree stands for.
pub file_at : Name → List Name → Children → Option ℕ
file_at name rest end = none
file_at name rest (entry n f below siblings) =
    let others = file_at name rest siblings in
    let inside : Option ℕ = elim rest [ [] ↦ f | next ∷ rest' ↦ file_at next rest' below ] in
    if name_eq n name then inside else others
