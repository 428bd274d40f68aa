-- ===== src/Vfs/Mount.antt =====
-- fs/fs.c: mounting, as an update of the map from paths to files.
use bingos.Common.{
  ℕ, suc, ◌≡◌, subst, ap, ◌∙◌, Bool, true, false, ◌&&◌, Option, none, some, List, [], ◌∷◌, inl, inr,
  Bool-cases, if◌then◌else◌, ltb, arith,
}
use bingos.Common.Names.{Name, name_eq, name_eq→≡, name_eq_sym}
use bingos.Vfs.{
  Vfs, Children, end, entry, new_path, fits, mount_below, vfs_mount, file_at, max_tree_children,
  split, drop_last_empty,
}
use bingos.Vfs.Names.{rest_eq}

file_at-new_path :
    (file : ℕ) (name : Name) (rest : List Name) (q : Name) (qs : List Name)
    → file_at q qs (new_path file name rest)
      ≡ (if name_eq name q && rest_eq rest qs then some file else none)
unfolding file_at new_path rest_eq
file_at-new_path file name [] q [] = elim (Bool-cases (name_eq name q)) [
  | inl e ↦ rw e
  | inr e ↦ rw e
]
file_at-new_path file name [] q (r ∷ rs) = elim (Bool-cases (name_eq name q)) [
  | inl e ↦ rw e
  | inr e ↦ rw e
]
file_at-new_path file name (next ∷ rest) q [] = elim (Bool-cases (name_eq name q)) [
  | inl e ↦ rw e
  | inr e ↦ rw e
]
file_at-new_path file name (next ∷ rest) q (r ∷ rs) =
    let ih = file_at-new_path file next rest r rs in
    elim (Bool-cases (name_eq name q)) [ inl e ↦ rw (e, ih) | inr e ↦ rw e ]

-- A map that answers as before but for one path, which now has the file.
unfoldable pub IsUpdate : ℕ → Name → List Name → Children → Children → Type 0
IsUpdate file name rest t t' =
    (q : Name) (qs : List Name)
    → file_at q qs t' ≡ (if name_eq name q && rest_eq rest qs then some file else file_at q qs t)

Updates : ℕ → Name → List Name → Children → Option Children → Type 0
Updates file name rest t none = Unit
Updates file name rest t (some t') = IsUpdate file name rest t t'

Updates-new_path :
    (file : ℕ) (name : Name) (rest : List Name) (room : Bool)
    → Updates file name rest end (if room then some (new_path file name rest) else none)
unfolding Updates IsUpdate file_at
Updates-new_path file name rest false = tt
Updates-new_path file name rest true = file_at-new_path file name rest

Updates-here :
    (file : ℕ) (name : Name) (f : Option ℕ) (below sib : Children)
    → IsUpdate file name [] (entry name f below sib) (entry name (some file) below sib)
unfolding IsUpdate file_at rest_eq
Updates-here file name f below sib q [] = elim (Bool-cases (name_eq name q)) [
  | inl e ↦ rw e
  | inr e ↦ rw e
]
Updates-here file name f below sib q (r ∷ rs) = elim (Bool-cases (name_eq name q)) [
  | inl e ↦ rw e
  | inr e ↦ rw e
]

Updates-inside :
    (file : ℕ) (name next : Name) (rest : List Name) (f : Option ℕ) (below sib : Children)
    (o : Option Children)
    → Updates file next rest below o
    → Updates file name
        (next ∷ rest)
        (entry name f below sib)
        (elim o [ none ↦ none | some below' ↦ some (entry name f below' sib) ])
unfolding Updates IsUpdate file_at rest_eq
Updates-inside file name next rest f below sib none h = tt
Updates-inside file name next rest f below sib (some below') h = go
  where
    go : IsUpdate file name (next ∷ rest) (entry name f below sib) (entry name f below' sib)
    go q [] = elim (Bool-cases (name_eq name q)) [ inl e ↦ rw e | inr e ↦ rw e ]
    go q (r ∷ rs) = elim (Bool-cases (name_eq name q)) [ inl e ↦ rw (e, h r rs) | inr e ↦ rw e ]

Updates-sibling :
    (file : ℕ) (name : Name) (rest : List Name) (n : Name) (f : Option ℕ) (below sib : Children)
    (o : Option Children)
    → name_eq n name ≡ false
    → Updates file name rest sib o
    → Updates file name rest
        (entry n f below sib)
        (elim o [ none ↦ none | some sib' ↦ some (entry n f below sib') ])
unfolding Updates IsUpdate file_at
Updates-sibling file name rest n f below sib none d h = tt
Updates-sibling file name rest n f below sib (some sib') d h = go
  where
    go : IsUpdate file name rest (entry n f below sib) (entry n f below sib')
    go q qs = elim (Bool-cases (name_eq n q)) [
      | inl e ↦
          let other : name_eq name q ≡ false =
            subst (λ k. name_eq name k ≡ false) (name_eq→≡ n q e) (name_eq_sym name n ∙ d) in
          rw (e, other)
      | inr e ↦ rw (e, h q qs)
    ]

Updates-entry :
    (file : ℕ) (name : Name) (f : Option ℕ) (below sib : Children) (rest : List Name)
    → ((next : Name) (rest' : List Name)
        → Updates file next rest' below (mount_below file next rest' 0 below))
    → Updates file name rest (entry name f below sib) (elim rest [
      | [] ↦ some (entry name (some file) below sib)
      | next ∷ rest' ↦ elim (mount_below file next rest' 0 below) [
        | none ↦ none
        | some below' ↦ some (entry name f below' sib)
      ]
    ])
unfolding Updates
Updates-entry file name f below sib [] ih = Updates-here file name f below sib
Updates-entry file name f below sib (next ∷ rest') ih =
    Updates-inside file name next rest' f below sib (mount_below file next rest' 0 below)
      (ih next rest')

Updates-same :
    (t : Children) (o : Option Children) (file : ℕ) (n name : Name) (rest : List Name)
    → name_eq n name ≡ true
    → Updates file n rest t o
    → Updates file name rest t o
Updates-same t o file n name rest e h = subst (λ k. Updates file k rest t o) (name_eq→≡ n name e) h

mount_below-Updates :
    (file : ℕ) (name : Name) (rest : List Name) (index : ℕ) (t : Children)
    → Updates file name rest t (mount_below file name rest index t)
unfolding mount_below
mount_below-Updates file name rest index end =
    Updates-new_path file name rest (ltb index max_tree_children && fits name rest)
mount_below-Updates file name rest index (entry n f below sib) =
    elim (Bool-cases (name_eq n name)) [
      | inl e ↦ rw e (
          Updates-same _ _ file n name rest e (
            Updates-entry file n f below sib rest
              (λ next rest'. mount_below-Updates file next rest' 0 below)))
      | inr e ↦ rw e (
          Updates-sibling file name rest n f below sib (mount_below file name rest (suc index) sib)
            e (mount_below-Updates file name rest (suc index) sib))
    ]

-- `vfs_mount` behind the splitting of the path.
attempt : List Name → ℕ → Vfs → Option (Option Vfs)
attempt path file v = elim path [
  | [] ↦ some none
  | name ∷ rest ↦ elim (mount_below file name rest 0 v.children) [
    | none ↦ none
    | some children' ↦ some (some (record v { children = children' }))
  ]
]

mounted :
    (file : ℕ) (v v' : Vfs) (name : Name) (rest : List Name) (o : Option Children)
    → Updates file name rest v.children o
    → ◌≡◌ {A = Option (Option Vfs)}
        (elim o [ none ↦ none | some children' ↦ some (some (record v { children = children' })) ])
        (some (some v'))
    → IsUpdate file name rest v.children v'.children
unfolding Updates
mounted file v v' name rest none u h = absurd (ground arith)
mounted file v v' name rest (some c) u h =
    let e : c ≡ v'.children = ap inner h in subst (IsUpdate file name rest v.children) e u
  where
    inner : Option (Option Vfs) → Children
    inner none = end
    inner (some none) = end
    inner (some (some w)) = w.children

-- A mount that succeeds changes the map from paths to files at one path only, that of the mount point.
pub vfs_mount-IsUpdate :
    (path : List ℕ) (file : ℕ) (v v' : Vfs) (name : Name) (rest : List Name)
    → drop_last_empty (split path) ≡ name ∷ rest
    → vfs_mount (47 ∷ path) file v ≡ some (some v')
    → IsUpdate file name rest v.children v'.children
unfolding vfs_mount attempt
vfs_mount-IsUpdate path file v v' name rest d h =
    mounted file v v' name rest (mount_below file name rest 0 v.children)
      (mount_below-Updates file name rest 0 v.children)
      (subst (λ k. attempt k file v ≡ some (some v')) d h)
