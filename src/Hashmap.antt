-- ===== src/Hashmap.antt =====
-- common/hashmap.c: the table of buckets, with strings for keys.
--
-- A bucket is the list of its entries, and a value is a pointer: NULL is 0. A division by a size of 0
-- and a NULL pointer that is followed are `none`. Keys are copied when an entry is made, so an entry
-- owns its key. A character is signed.
pub mod Buckets
pub mod Laws
mod Tests
use bingos.Common.Names.{Name, name_eq}
use bingos.Common.{
  ℕ, zero, suc, ◌+◌, ◌-◌, ◌*◌, ◌%◌, ◌^◌, Bool, true, false, Option, none, some, List, [], ◌∷◌, ltb,
  leb, ◌==◌, if◌then◌else◌, ◌&&◌,
}

abbrev pub Bucket : Type 0
Bucket = List (Name × ℕ)

pub record Hashmap : Type 0 where
  pub size : ℕ
  pub entries : ℕ → Bucket

-- The loop of `hashmap_string_hash`, from a value.
pub hash_from : ℕ → Name → ℕ
hash_from hash [] = hash
hash_from hash (byte ∷ key) =
    let c = if ltb byte 128 then byte else 2 ^ 32 + byte - 2 ^ 8 in
    hash_from ((c + hash * 2 ^ 6 + hash * 2 ^ 16 + 2 ^ 32 - hash) % 2 ^ 32) key

pub hashmap_string_hash : Name → ℕ
unfolding hash_from
hashmap_string_hash key = hash_from 0 key

pub hashmap_create : ℕ → Hashmap
hashmap_create size = record { size = size; entries = λ i. [] }

-- `map->entries[i] = bucket`
pub set_entry : ℕ → Bucket → Hashmap → Hashmap
set_entry i bucket map = record map { entries = λ j. if j == i then bucket else map.entries j }

-- The bucket of a key.
pub index_of : Hashmap → Name → ℕ
index_of map key = hashmap_string_hash key % map.size

-- The loop of `hashmap_set`: the value that was there, and the new bucket.
pub set_in : Name → ℕ → Bucket → ℕ × Bucket
set_in key value [] = (0, (key, value) ∷ [])
set_in key value ((k, x) ∷ es) =
    let rest = set_in key value es in
    if name_eq k key then (x, (k, value) ∷ es) else (rest.0, (k, x) ∷ rest.1)

pub hashmap_set : Name → ℕ → Hashmap → Option (ℕ × Hashmap)
hashmap_set key value map =
    if map.size == 0
    then none
    else let out = set_in key value (map.entries (index_of map key)) in
      some (out.0, set_entry (index_of map key) out.1 map)

pub get_in : Name → Bucket → ℕ
get_in key [] = 0
get_in key ((k, x) ∷ es) = let rest = get_in key es in if name_eq k key then x else rest

pub hashmap_get : Name → Hashmap → Option ℕ
hashmap_get key map =
    if map.size == 0 then none else some (get_in key (map.entries (index_of map key)))

-- The second loop of `hashmap_delete`, which follows x before it tests it.
pub delete_behind : Name → Bucket → Option (ℕ × Bucket)
delete_behind key [] = none
delete_behind key ((k, x) ∷ []) = some (if name_eq k key then (x, []) else (0, (k, x) ∷ []))
delete_behind key ((k, x) ∷ e ∷ es) =
    let rest = delete_behind key (e ∷ es) in
    if name_eq k key
    then some (x, e ∷ es)
    else elim rest [ none ↦ none | some (out, es') ↦ some (out, (k, x) ∷ es') ]

pub delete_in : Name → Bucket → Option (ℕ × Bucket)
unfolding delete_behind
delete_in key [] = some (0, [])
delete_in key ((k, x) ∷ es) =
    if name_eq k key
    then some (x, es)
    else elim (delete_behind key es) [ none ↦ none | some (out, es') ↦ some (out, (k, x) ∷ es') ]

pub hashmap_delete : Name → Hashmap → Option (ℕ × Hashmap)
hashmap_delete key map =
    if map.size == 0 then none else elim (delete_in key (map.entries (index_of map key))) [
      | none ↦ none
      | some (out, bucket) ↦ some (out, set_entry (index_of map key) bucket map)
    ]

-- `memcmp(key, prefix, strlen(prefix))` is 0, and the key is not shorter.
pub begins : Name → Name → Bool
begins key [] = true
begins [] (p ∷ prefix) = false
begins (k ∷ key) (p ∷ prefix) = (k == p) && begins key prefix

pub begin_with_in : Name → Bucket → Option ℕ
unfolding begins
begin_with_in prefix [] = none
begin_with_in prefix ((k, x) ∷ es) =
    let rest = begin_with_in prefix es in if begins k prefix then some x else rest

-- The loop over the buckets, from bucket `i`. Without a match the function ends without a value.
pub begin_with_from : Name → ℕ → ℕ → Hashmap → Option ℕ
unfolding begin_with_in
begin_with_from prefix zero i map = none
begin_with_from prefix (suc left) i map = elim (begin_with_in prefix (map.entries i)) [
  | none ↦ begin_with_from prefix left (suc i) map
  | some x ↦ some x
]

pub hashmap_begin_with : Name → Hashmap → Option ℕ
unfolding begin_with_from
hashmap_begin_with prefix map = begin_with_from prefix map.size 0 map
