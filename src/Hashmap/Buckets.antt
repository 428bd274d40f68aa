-- ===== src/Hashmap/Buckets.antt =====
-- common/hashmap.c: one bucket as a finite map.
use bingos.Common.Names.{Name, name_eq, name_eq→≡, name_eq_sym}
use bingos.Common.{
  ℕ, ◌≡◌, refl, sym, subst, ◌∙◌, Bool, true, false, not, Option, none, some, [], ◌∷◌, inl, inr,
  Bool-cases, if◌then◌else◌,
}
use bingos.Hashmap.{Bucket, set_in, get_in, delete_in, delete_behind}

pub set_in-get_in : (key : Name) (value : ℕ) (b : Bucket) → (set_in key value b).0 ≡ get_in key b
unfolding set_in get_in
set_in-get_in key value [] = refl
set_in-get_in key value ((k, x) ∷ es) = elim (Bool-cases (name_eq k key)) [
  | inl e ↦ rw e
  | inr e ↦ rw (e, set_in-get_in key value es)
]

-- Two names that are both equal or not to a third.
apart : (k key q : Name) → name_eq k key ≡ false → name_eq k q ≡ true → name_eq key q ≡ false
apart k key q d e = subst (λ n. name_eq key n ≡ false) (name_eq→≡ k q e) (name_eq_sym key k ∙ d)

pub get_in-set_in :
    (key : Name) (value : ℕ) (b : Bucket) (q : Name)
    → get_in q (set_in key value b).1 ≡ (if name_eq key q then value else get_in q b)
unfolding set_in get_in
get_in-set_in key value [] q = refl
get_in-set_in key value ((k, x) ∷ es) q = elim (Bool-cases (name_eq k key)) [
  | inl e ↦ rw (e, name_eq→≡ k key e) (same (name_eq key q))
  | inr e ↦ elim (Bool-cases (name_eq k q)) [
    | inl e' ↦ rw (e, e', apart k key q e e')
    | inr e' ↦ rw (e, e', get_in-set_in key value es q)
  ]
]
  where
    same :
        (t : Bool)
        → (if t then value else get_in q es) ≡ (if t then value else (if t then x else get_in q es))
    same true = refl
    same false = refl

-- No key stands twice in a bucket.
pub Fresh : Name → Bucket → Type 0
Fresh key [] = Unit
Fresh key ((k, x) ∷ es) = (name_eq k key ≡ false) × Fresh key es

pub IsDistinct : Bucket → Type 0
IsDistinct [] = Unit
IsDistinct ((k, x) ∷ es) = Fresh k es × IsDistinct es

Fresh-get_in : (key q : Name) (b : Bucket) → Fresh key b → name_eq key q ≡ true → get_in q b ≡ 0
unfolding Fresh get_in
Fresh-get_in key q [] f e = refl
Fresh-get_in key q ((k, x) ∷ es) f e =
    let d : name_eq k q ≡ false = subst (λ n. name_eq k n ≡ false) (name_eq→≡ key q e) f.0 in
    rw (d, Fresh-get_in key q es f.1 e)

Fresh-set_in :
    (k key : Name) (value : ℕ) (b : Bucket)
    → name_eq key k ≡ false
    → Fresh k b
    → Fresh k (set_in key value b).1
unfolding Fresh set_in
Fresh-set_in k key value [] d f = (d, tt)
Fresh-set_in k key value ((n, x) ∷ es) d f = elim (Bool-cases (name_eq n key)) [
  | inl e ↦ rw e (f.0, f.1)
  | inr e ↦ rw e (f.0, Fresh-set_in k key value es d f.1)
]

pub set_in-IsDistinct :
    (key : Name) (value : ℕ) (b : Bucket) → IsDistinct b → IsDistinct (set_in key value b).1
unfolding IsDistinct set_in Fresh
set_in-IsDistinct key value [] h = (tt, tt)
set_in-IsDistinct key value ((n, x) ∷ es) h = elim (Bool-cases (name_eq n key)) [
  | inl e ↦ rw e (h.0, h.1)
  | inr e ↦
      rw e (
        Fresh-set_in n key value es (name_eq_sym key n ∙ e) h.0,
        set_in-IsDistinct key value es h.1,
      )
]

-- Whether a bucket holds one entry, of another key.
unfoldable pub alone : Name → Bucket → Bool
alone key [] = false
alone key ((k, x) ∷ []) = not (name_eq k key)
alone key ((k, x) ∷ e ∷ es) = false

-- What a deletion leaves of a bucket: the key has no value, every other key has its old one.
unfoldable pub Deleted : Name → Bucket → Option (ℕ × Bucket) → Type 0
Deleted key b none = Unit
Deleted key b (some (out, b')) =
    (out ≡ get_in key b)
    × ((q : Name) → get_in q b' ≡ (if name_eq key q then 0 else get_in q b))
    × ((k : Name) → Fresh k b → Fresh k b')
    × IsDistinct b'

Deleted-here :
    (key k : Name) (x : ℕ) (es : Bucket)
    → name_eq k key ≡ true
    → IsDistinct ((k, x) ∷ es)
    → Deleted key ((k, x) ∷ es) (some (x, es))
unfolding Deleted IsDistinct get_in Fresh
Deleted-here key k x es e h = (rw e, others, λ n f. f.1, h.1)
  where
    others :
        (q : Name)
        → get_in q es ≡ (if name_eq key q then 0 else (if name_eq k q then x else get_in q es))
    others q = elim (Bool-cases (name_eq key q)) [
      | inl e' ↦
          rw e'
            (Fresh-get_in k q es h.0 (subst (λ n. name_eq n q ≡ true) (sym (name_eq→≡ k key e)) e'))
      | inr e' ↦ rw (e', subst (λ n. name_eq n q ≡ false) (sym (name_eq→≡ k key e)) e')
    ]

Deleted-behind :
    (key k : Name) (x : ℕ) (es : Bucket) (o : Option (ℕ × Bucket))
    → name_eq k key ≡ false
    → IsDistinct ((k, x) ∷ es)
    → Deleted key es o
    → Deleted key
        ((k, x) ∷ es)
        (elim o [ none ↦ none | some (out, es') ↦ some (out, (k, x) ∷ es') ])
unfolding Deleted IsDistinct get_in Fresh
Deleted-behind key k x es none e h d = tt
Deleted-behind key k x es (some (out, es')) e h d =
    (rw (e, d.0), others, λ n f. (f.0, d.2 n f.1), (d.2 k h.0, d.3))
  where
    others :
        (q : Name)
        → (if name_eq k q then x else get_in q es')
          ≡ (if name_eq key q then 0 else (if name_eq k q then x else get_in q es))
    others q = elim (Bool-cases (name_eq k q)) [
      | inl e' ↦ rw (e', apart k key q e e')
      | inr e' ↦ rw (e', d.1 q)
    ]

Deleted-absent : (key : Name) → Deleted key [] (some (0, []))
unfolding Deleted IsDistinct get_in Fresh
Deleted-absent key =
    (refl, λ q. elim (Bool-cases (name_eq key q)) [ inl e ↦ rw e | inr e ↦ rw e ], λ k f. f, tt)

delete_behind-Deleted :
    (key : Name) (b : Bucket) → IsDistinct b → Deleted key b (delete_behind key b)
unfolding delete_behind Deleted IsDistinct
delete_behind-Deleted key [] h = nothing key
  where
    nothing : (key : Name) → Deleted key [] none
    nothing key = tt
delete_behind-Deleted key ((k, x) ∷ []) h = elim (Bool-cases (name_eq k key)) [
  | inl e ↦ rw e (Deleted-here key k x [] e h)
  | inr e ↦ rw e (Deleted-behind key k x [] (some (0, [])) e h (Deleted-absent key))
]
delete_behind-Deleted key ((k, x) ∷ n ∷ es) h = elim (Bool-cases (name_eq k key)) [
  | inl e ↦ rw e (Deleted-here key k x (n ∷ es) e h)
  | inr e ↦ rw e (
      Deleted-behind key k x (n ∷ es) (delete_behind key (n ∷ es)) e h
        (delete_behind-Deleted key (n ∷ es) (behind h)))
]
  where
    behind : IsDistinct ((k, x) ∷ n ∷ es) → IsDistinct (n ∷ es)
    behind h = h.1

pub delete_in-Deleted : (key : Name) (b : Bucket) → IsDistinct b → Deleted key b (delete_in key b)
unfolding delete_in IsDistinct
delete_in-Deleted key [] h = Deleted-absent key
delete_in-Deleted key ((k, x) ∷ es) h = elim (Bool-cases (name_eq k key)) [
  | inl e ↦ rw e (Deleted-here key k x es e h)
  | inr e ↦
      rw e (Deleted-behind key k x es (delete_behind key es) e h (delete_behind-Deleted key es h.1))
]

pub empty-IsDistinct : IsDistinct []
unfolding IsDistinct
empty-IsDistinct = tt

delete_behind-found :
    (key : Name) (e : Name × ℕ) (es : Bucket)
    → (r : ℕ × Bucket) × (delete_behind key (e ∷ es) ≡ some r)
unfolding delete_behind
delete_behind-found key (k, x) [] = ((if name_eq k key then (x, []) else (0, (k, x) ∷ [])), refl)
delete_behind-found key (k, x) (e ∷ es) =
    let (r, behind) = delete_behind-found key e es in
    elim (Bool-cases (name_eq k key)) [
      | inl t ↦ ((x, e ∷ es), rw t refl)
      | inr t ↦ ((r.0, (k, x) ∷ r.1), rw (t, behind) refl)
    ]

-- The deletion fails where a bucket holds one entry, of another key, and nowhere else.
unfoldable pub Fails : Name → Bucket → Option (ℕ × Bucket) → Type 0
Fails key b none = alone key b ≡ true
Fails key b (some r) = alone key b ≡ false

pub delete_in-Fails : (key : Name) (b : Bucket) → Fails key b (delete_in key b)
unfolding delete_in alone Fails delete_behind
delete_in-Fails key [] = refl
delete_in-Fails key ((k, x) ∷ []) = elim (Bool-cases (name_eq k key)) [
  | inl t ↦ rw t (rw t refl)
  | inr t ↦ rw t (rw t refl)
]
delete_in-Fails key ((k, x) ∷ e ∷ es) =
    let (r, behind) = delete_behind-found key e es in
    elim (Bool-cases (name_eq k key)) [ inl t ↦ rw t refl | inr t ↦ rw (t, behind) refl ]
