-- ===== src/Hashmap/Laws.antt =====
-- common/hashmap.c: the table as a finite map from strings to values.
use bingos.Common.Names.{Name, name_eq, name_eq→≡}
use bingos.Common.{
  ℕ, ◌≡◌, refl, sym, subst, ap, ◌∙◌, ◌⊎◌, Bool, true, false, Option, none, some, inl, inr,
  Bool-cases, ◌==◌, ==_iff, ==_refl, if◌then◌else◌, arith,
}
use bingos.Hashmap.{
  Bucket, Hashmap, index_of, set_entry, set_in, get_in, delete_in, hashmap_set, hashmap_get,
  hashmap_delete, hashmap_create,
}
use bingos.Hashmap.Buckets.{
  IsDistinct, Deleted, delete_in-Fails, Fails, alone, set_in-get_in, get_in-set_in,
  set_in-IsDistinct, delete_in-Deleted, empty-IsDistinct,
}

-- No key stands twice in a bucket.
pub IsValid : Hashmap → Type 0
IsValid map = (i : ℕ) → IsDistinct (map.entries i)

pub hashmap_create-IsValid : (size : ℕ) → IsValid (hashmap_create size)
unfolding IsValid hashmap_create
hashmap_create-IsValid size i = empty-IsDistinct

set_entry-IsValid :
    (i : ℕ) (b : Bucket) (map : Hashmap) → IsDistinct b → IsValid map → IsValid (set_entry i b map)
unfolding IsValid set_entry
set_entry-IsValid i b map hb h j = elim (Bool-cases (j == i)) [
  | inl e ↦ rw e hb
  | inr e ↦ rw e (h j)
]

-- The value of a key, 0 when it has none.
value_of : Hashmap → Name → ℕ
value_of map q = get_in q (map.entries (index_of map q))

-- A bucket that changes at one key changes the table at that key.
value_of-set_entry :
    (key : Name) (v : ℕ) (b : Bucket) (map : Hashmap)
    → ((q : Name)
        → get_in q b ≡ (if name_eq key q then v else get_in q (map.entries (index_of map key))))
    → (q : Name)
    → value_of (set_entry (index_of map key) b map) q
      ≡ (if name_eq key q then v else value_of map q)
unfolding value_of set_entry index_of
value_of-set_entry key v b map h q = elim (Bool-cases (index_of map q == index_of map key)) [
  | inl e ↦
      let d : index_of map q ≡ index_of map key =
        (==_iff (index_of map q) (index_of map key)).0 e in
      rw (e, h q, d)
  | inr e ↦ rw (e, other e)
]
  where
    other : (index_of map q == index_of map key) ≡ false → name_eq key q ≡ false
    other e = elim (Bool-cases (name_eq key q)) [
      | inr e' ↦ e'
      | inl e' ↦
          let same =
            subst (λ n. (index_of map n == index_of map key) ≡ false) (sym (name_eq→≡ key q e'))
              e in
          absurd (grind (arith, same, ==_refl (index_of map key)))
    ]

hashmap_get-value_of :
    (map : Hashmap) (q : Name) → (map.size == 0) ≡ false → hashmap_get q map ≡ some (value_of map q)
unfolding hashmap_get value_of
hashmap_get-value_of map q e = rw e

-- What a table answers after one key has got a value.
pub IsUpdated : Name → ℕ → Hashmap → Hashmap → Type 0
IsUpdated key v map map' =
    (q : Name) → hashmap_get q map' ≡ (if name_eq key q then some v else hashmap_get q map)

set_entry-IsUpdated :
    (key : Name) (v : ℕ) (b : Bucket) (map : Hashmap)
    → (map.size == 0) ≡ false
    → ((q : Name)
        → get_in q b ≡ (if name_eq key q then v else get_in q (map.entries (index_of map key))))
    → IsUpdated key v map (set_entry (index_of map key) b map)
unfolding IsUpdated set_entry
set_entry-IsUpdated key v b map e h q =
    hashmap_get-value_of (set_entry (index_of map key) b map) q (size_kept e)
    ∙ ap some (value_of-set_entry key v b map h q)
    ∙ branches (name_eq key q)
  where
    size_kept : (map.size == 0) ≡ false → ((set_entry (index_of map key) b map).size == 0) ≡ false
    size_kept e = e

    branches :
        (t : Bool)
        → some (if t then v else value_of map q) ≡ (if t then some v else hashmap_get q map)
    branches true = refl
    branches false = sym (hashmap_get-value_of map q e)

-- The outcomes of hashmap_set.
pub SetOutcome : Name → ℕ → Hashmap → Option (ℕ × Hashmap) → Type 0
SetOutcome key v map none = map.size ≡ 0
SetOutcome key v map (some (out, map')) =
    (hashmap_get key map ≡ some out) × IsUpdated key v map map' × IsValid map'

-- hashmap_set returns the old value of the key and gives it the new one; every other key keeps its
-- value, and no key comes to stand twice. It fails only for a table of size 0.
pub hashmap_set-SetOutcome :
    (key : Name) (v : ℕ) (map : Hashmap)
    → IsValid map
    → SetOutcome key v map (hashmap_set key v map)
unfolding hashmap_set SetOutcome IsValid value_of
hashmap_set-SetOutcome key v map h = elim (Bool-cases (map.size == 0)) [
  | inl e ↦ rw e ((==_iff map.size 0).0 e)
  | inr e ↦ rw e (after e)
]
  where
    bucket : Bucket
    bucket = map.entries (index_of map key)

    after :
        (map.size == 0) ≡ false
        → SetOutcome key v map (
            some
              ((set_in key v bucket).0, set_entry (index_of map key) (set_in key v bucket).1 map))
    after e = (
      hashmap_get-value_of map key e ∙ ap some (sym (set_in-get_in key v bucket)),
      set_entry-IsUpdated key v (set_in key v bucket).1 map e (get_in-set_in key v bucket),
      set_entry-IsValid (index_of map key) (set_in key v bucket).1 map
          (set_in-IsDistinct key v bucket (h (index_of map key))) h,
    )

-- The outcomes of hashmap_delete.
pub DeleteOutcome : Name → Hashmap → Option (ℕ × Hashmap) → Type 0
DeleteOutcome key map none = (map.size ≡ 0) ⊎ (alone key (map.entries (index_of map key)) ≡ true)
DeleteOutcome key map (some (out, map')) =
    ((map.size == 0) ≡ false)
    × (alone key (map.entries (index_of map key)) ≡ false)
    × (hashmap_get key map ≡ some out)
    × IsUpdated key 0 map map'
    × IsValid map'

Deleted-DeleteOutcome :
    (key : Name) (map : Hashmap)
    → (map.size == 0) ≡ false
    → IsValid map
    → (o : Option (ℕ × Bucket)) → delete_in key (map.entries (index_of map key)) ≡ o
    → Deleted key (map.entries (index_of map key)) o
    → Fails key (map.entries (index_of map key)) o
    → DeleteOutcome key map (elim o [
      | none ↦ none
      | some (out, bucket) ↦ some (out, set_entry (index_of map key) bucket map)
    ])
unfolding DeleteOutcome Deleted Fails value_of
Deleted-DeleteOutcome key map e h none found d fails = inr fails
Deleted-DeleteOutcome key map e h (some (out, bucket)) found d fails = (
  e,
  fails,
  hashmap_get-value_of map key e ∙ ap some (sym d.0),
  set_entry-IsUpdated key 0 bucket map e d.1,
  set_entry-IsValid (index_of map key) bucket map d.3 h,
)

-- hashmap_delete returns the value of the key and takes it out; every other key keeps its value. It
-- fails for a table of size 0 and where the bucket of the key holds one entry, of another key, and
-- only there.
pub hashmap_delete-DeleteOutcome :
    (key : Name) (map : Hashmap) → IsValid map → DeleteOutcome key map (hashmap_delete key map)
unfolding hashmap_delete DeleteOutcome IsValid
hashmap_delete-DeleteOutcome key map h = elim (Bool-cases (map.size == 0)) [
  | inl e ↦ rw e (inl ((==_iff map.size 0).0 e))
  | inr e ↦
      let bucket = map.entries (index_of map key) in
      rw e (
        Deleted-DeleteOutcome key map e h (delete_in key bucket) refl
          (delete_in-Deleted key bucket (h (index_of map key))) (delete_in-Fails key bucket))
]
