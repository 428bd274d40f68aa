-- ===== src/Vfs/Point.antt =====
-- fs/fs.c: the mount point of a path is the longest prefix of it that has a file.
use bingos.Common.{
  ℕ, zero, suc, ◌+◌, ◌≤◌, ◌<◌, ◌≡◌, refl, sym, ap, ◌∙◌, ◌⊎◌, Option, none, some, List, [], ◌∷◌, inl,
  inr, Bool-cases, length, take, drop, arith,
}
use bingos.Common.Names.{Name, name_eq}
use bingos.Vfs.{Vfs, Children, end, entry, find_child, file_at, walk, MountPoint, get_mount_point}

-- The file at a path below a node that has the file `f` itself.
file_in : Option ℕ → Children → List Name → Option ℕ
file_in f children [] = f
file_in f children (name ∷ rest) = file_at name rest children

-- The file at a path: the root's is the root node.
unfoldable pub file_of : Vfs → List Name → Option ℕ
unfolding file_in
file_of v path = file_in (some v.vfs_root) v.children path

file_at-find_child :
    (name : Name) (rest : List Name) (t : Children)
    → file_at name rest t
      ≡ elim (find_child name t) [ none ↦ none | some (f, below) ↦ file_in f below rest ]
unfolding file_at find_child file_in
file_at-find_child name rest end = refl
file_at-find_child name [] (entry n f below sib) = elim (Bool-cases (name_eq n name)) [
  | inl e ↦ rw e
  | inr e ↦ rw (e, file_at-find_child name [] sib)
]
file_at-find_child name (r ∷ rs) (entry n f below sib) = elim (Bool-cases (name_eq n name)) [
  | inl e ↦ rw e
  | inr e ↦ rw (e, file_at-find_child name (r ∷ rs) sib)
]

-- No prefix of the path longer than `n` has a file.
NoneLonger : Option ℕ → Children → List Name → ℕ → Type 0
NoneLonger f t path n = (m : ℕ) → n < m → m ≤ length path → file_in f t (take m path) ≡ none

-- Where the walk of a path ends, from where it starts.
Walked : Option ℕ → Children → List Name → MountPoint → MountPoint → Type 0
Walked f t path at r =
    (at.mount_depth ≤ r.mount_depth)
    × (r.mount_depth ≤ at.mount_depth + length path)
    × (((r.last ≡ at.last) × (r.mount_path ≡ at.mount_path) × NoneLonger f t path 0)
        ⊎ ((n : ℕ) × (n < length path)
            × (at.mount_depth + suc n ≤ r.mount_depth)
            × (file_in f t (take (suc n) path) ≡ some r.last)
            × (r.mount_path ≡ drop (suc n) path)
            × NoneLonger f t path (suc n)))

file_at-found :
    (t below : Children) (name : Name) (rest : List Name) (g : Option ℕ)
    → find_child name t ≡ some (g, below)
    → file_at name rest t ≡ file_in g below rest
file_at-found t below name rest g e = rw (file_at-find_child name rest t, e)

NoneLonger-absent :
    (f : Option ℕ) (t : Children) (name : Name) (rest : List Name)
    → find_child name t ≡ none
    → NoneLonger f t (name ∷ rest) 0
unfolding NoneLonger file_in
NoneLonger-absent f t name rest e zero p q = absurd (omega arith)
NoneLonger-absent f t name rest e (suc m) p q = rw (file_at-find_child name (take m rest) t, e)

NoneLonger-step :
    (f g : Option ℕ) (t below : Children) (name : Name) (rest : List Name) (n : ℕ)
    → find_child name t ≡ some (g, below)
    → NoneLonger g below rest n
    → NoneLonger f t (name ∷ rest) (suc n)
unfolding NoneLonger file_in
NoneLonger-step f g t below name rest n e h zero p q = absurd (omega arith)
NoneLonger-step f g t below name rest n e h (suc m) p q =
    file_at-found t below name (take m rest) g e ∙ h m (omega arith) (omega arith)

NoneLonger-none :
    (f g : Option ℕ) (t below : Children) (name : Name) (rest : List Name)
    → find_child name t ≡ some (g, below)
    → g ≡ none
    → NoneLonger g below rest 0
    → NoneLonger f t (name ∷ rest) 0
unfolding NoneLonger file_in
NoneLonger-none f g t below name rest e e' h zero p q = absurd (omega arith)
NoneLonger-none f g t below name rest e e' h (suc zero) p q = file_at-found t below name [] g e ∙ e'
NoneLonger-none f g t below name rest e e' h (suc (suc m)) p q =
    NoneLonger-step f g t below name rest 0 e h (suc (suc m)) (omega arith) q

-- What is known of a path below a child says where the path itself ends.
Walked-child :
    (f g : Option ℕ) (t below : Children) (name : Name) (rest : List Name) (at next r : MountPoint)
    → find_child name t ≡ some (g, below)
    → next.mount_depth ≡ suc at.mount_depth
    → ((g ≡ none) × (next.last ≡ at.last) × (next.mount_path ≡ at.mount_path))
      ⊎ ((g ≡ some next.last) × (next.mount_path ≡ rest))
    → Walked g below rest next r
    → Walked f t (name ∷ rest) at r
unfolding Walked file_in
Walked-child f g t below name rest at next r e d (inl (none_here, l, p))
      (low, high, inl (l', p', none_longer)) =
    (
      omega arith,
      omega arith,
      inl (l' ∙ l, p' ∙ p, NoneLonger-none f g t below name rest e none_here none_longer),
    )
Walked-child f g t below name rest at next r e d (inr (here, p))
      (low, high, inl (l', p', none_longer)) =
    (
      omega arith,
      omega arith,
      inr (
        0,
        omega arith,
        omega arith,
        file_at-found t below name [] g e ∙ here ∙ ap some (sym l'),
        p' ∙ p,
        NoneLonger-step f g t below name rest 0 e none_longer,
      ),
    )
Walked-child f g t below name rest at next r e d c
      (low, high, inr (n, p, q, last, path, none_longer)) =
    (
      omega arith,
      omega arith,
      inr (
        suc n,
        omega arith,
        omega arith,
        file_at-found t below name (take (suc n) rest) g e ∙ last,
        path,
        NoneLonger-step f g t below name rest (suc n) e none_longer,
      ),
    )

Walked-name :
    (f : Option ℕ) (t : Children) (name : Name) (rest : List Name) (at : MountPoint)
    (o : Option (Option ℕ × Children))
    → find_child name t ≡ o
    → ((g : Option ℕ) (below : Children) (next : MountPoint)
        → Walked g below rest next (walk rest below next))
    → Walked f t (name ∷ rest) at (elim o [
      | none ↦ at
      | some (none, below) ↦ walk rest below (record at { mount_depth = suc at.mount_depth })
      | some (some file, below) ↦
          walk rest below
            (record { last = file; mount_path = rest; mount_depth = suc at.mount_depth })
    ])
unfolding Walked
Walked-name f t name rest at none e ih =
    (omega arith, omega arith, inl (refl, refl, NoneLonger-absent f t name rest e))
Walked-name f t name rest at (some (none, below)) e ih =
    let next = record at { mount_depth = suc at.mount_depth } in
    Walked-child f none t below name rest at next (walk rest below next) e refl
      (inl (refl, refl, refl)) (ih none below next)
Walked-name f t name rest at (some (some file, below)) e ih =
    let next : MountPoint = record {
      last = file;
      mount_path = rest;
      mount_depth = suc at.mount_depth;
    } in
    Walked-child f (some file) t below name rest at next (walk rest below next) e refl
      (inr (refl, refl)) (ih (some file) below next)

walk_lem :
    (f : Option ℕ) (t : Children) (path : List Name) (at : MountPoint)
    → Walked f t path at (walk path t at)
unfolding walk Walked NoneLonger
walk_lem f t [] at = (omega arith, omega arith, inl (refl, refl, λ m p q. absurd (omega arith)))
walk_lem f t (name ∷ rest) at =
    Walked-name f t name rest at (find_child name t) refl
      (λ g below next. walk_lem g below rest next)

-- The node of the longest prefix of a path that has a file, and what is left of the path behind it.
-- The depth lies between the lengths of the prefix and of the path.
unfoldable pub IsMountPoint : Vfs → List Name → MountPoint → Type 0
IsMountPoint v path r =
    (n : ℕ) × (n ≤ length path)
    × (file_of v (take n path) ≡ some r.last)
    × (r.mount_path ≡ drop n path)
    × (n ≤ r.mount_depth)
    × (r.mount_depth ≤ length path)
    × ((m : ℕ) → n < m → m ≤ length path → file_of v (take m path) ≡ none)

-- vfs_get_mount_point finds the longest prefix of the path that has a file, the root if there is no
-- other, and what is left of the path behind that prefix.
pub get_mount_point-IsMountPoint :
    (v : Vfs) (path : List Name) → IsMountPoint v path (get_mount_point v path)
unfolding get_mount_point IsMountPoint Walked NoneLonger file_of
get_mount_point-IsMountPoint v path = go (walk_lem (some v.vfs_root) v.children path start)
  where
    start : MountPoint
    start = record { last = v.vfs_root; mount_path = path; mount_depth = 0 }

    go :
        Walked (some v.vfs_root) v.children path start (walk path v.children start)
        → IsMountPoint v path (walk path v.children start)
    go (low, high, inl (l, p, h)) =
        (0, omega arith, ap some (sym l), p, omega arith, omega arith, h)
    go (low, high, inr (n, less, depth, l, p, h)) =
        (suc n, omega arith, l, p, omega arith, omega arith, h)
