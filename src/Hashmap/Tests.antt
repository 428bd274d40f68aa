-- ===== src/Hashmap/Tests.antt =====
-- common/hashmap.c: runs on a table of two buckets.
use bingos.Common.Names.{Name, name_eq}
use bingos.Common.{◌≡◌, refl, none, some, [], ◌∷◌}
use bingos.Hashmap.{
  hashmap_string_hash, hashmap_create, set_entry, index_of, set_in, hashmap_set, get_in,
  hashmap_get, delete_in, hashmap_delete, hashmap_begin_with,
}
use bingos.Hashmap.Laws.{
  hashmap_create-IsValid, SetOutcome, hashmap_set-SetOutcome, DeleteOutcome,
  hashmap_delete-DeleteOutcome,
}

-- "ext2"
abbrev ext2 : Name
ext2 = 101 ∷ 120 ∷ 116 ∷ 50 ∷ []

hash-ext2 : hashmap_string_hash ext2 ≡ 2528885905
unfolding hashmap_string_hash
hash-ext2 = refl

set-then-get :
    elim (hashmap_set ext2 7 (hashmap_create 2)) [
      | none ↦ none
      | some (out, map) ↦ hashmap_get ext2 map
    ]
    ≡ some 7
unfolding hashmap_set hashmap_get set_entry set_in get_in index_of hashmap_string_hash
    hashmap_create name_eq
set-then-get = refl

-- The only entry of the bucket has another key.
delete-unlucky : hashmap_delete ext2 (record { size = 1; entries = λ i. (([], 5) ∷ []) }) ≡ none
unfolding hashmap_delete delete_in name_eq
delete-unlucky = refl

begin_with-found :
    hashmap_begin_with (101 ∷ []) (record { size = 2; entries = λ i. ((ext2, 5) ∷ []) }) ≡ some 5
unfolding hashmap_begin_with
begin_with-found = refl

hashmap_set-SetOutcome_example :
    SetOutcome ext2 7 (hashmap_create 2) (hashmap_set ext2 7 (hashmap_create 2))
hashmap_set-SetOutcome_example =
    hashmap_set-SetOutcome ext2 7 (hashmap_create 2) (hashmap_create-IsValid 2)

hashmap_delete-DeleteOutcome_example :
    DeleteOutcome ext2 (hashmap_create 2) (hashmap_delete ext2 (hashmap_create 2))
hashmap_delete-DeleteOutcome_example =
    hashmap_delete-DeleteOutcome ext2 (hashmap_create 2) (hashmap_create-IsValid 2)
