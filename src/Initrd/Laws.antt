-- ===== src/Initrd/Laws.antt =====
-- fs/initrd.c: a file that is found by its name is read where its header says.
use bingos.Common.{
  ℕ, zero, suc, ◌+◌, ◌-◌, ◌%◌, ◌^◌, ◌<◌, ◌≡◌, refl, sym, ap, ◌∙◌, subst, true, false, Option, none,
  some, List, [], ◌∷◌, get_elem?, ltb, if◌then◌else◌, take, drop, arith, inl, inr, Bool-cases,
}
use bingos.Common.Names.{Name, name_eq, name_eq→≡}
use bingos.Initrd.{
  FileHeader, RootNode, init_from, initrd_init, initrd_finddir, bytes_at, initrd_read,
}

-- The contents of a file.
unfoldable pub contents : (ℕ → ℕ) → FileHeader → List ℕ
contents mem h = bytes_at mem h.offset h.length

drop-bytes_at : (mem : ℕ → ℕ) (k a n : ℕ) → drop k (bytes_at mem a n) ≡ bytes_at mem (a + k) (n - k)
unfolding bytes_at
drop-bytes_at mem zero a n =
    let e : a + 0 ≡ a = omega arith in let d : n - 0 ≡ n = omega arith in rw (e, d) refl
drop-bytes_at mem (suc k) a zero = let e : 0 - suc k ≡ 0 = omega arith in rw e refl
drop-bytes_at mem (suc k) a (suc n) =
    let e : suc a + k ≡ a + suc k = omega arith in
    let d : suc n - suc k ≡ n - k = omega arith in
    rw d (drop-bytes_at mem k (suc a) n ∙ ap (λ b. bytes_at mem b (n - k)) e)

take-bytes_at :
    (mem : ℕ → ℕ) (k a n : ℕ)
    → take k (bytes_at mem a n) ≡ bytes_at mem a (if ltb n k then n else k)
unfolding bytes_at
take-bytes_at mem zero a n = let e : ltb n 0 ≡ false = ground arith in rw e refl
take-bytes_at mem (suc k) a zero = let e : ltb 0 (suc k) ≡ true = ground arith in rw e refl
take-bytes_at mem (suc k) a (suc n) = elim (Bool-cases (ltb n k)) [
  | inl e ↦
      let d : ltb (suc n) (suc k) ≡ true = ground arith in
      rw d (ap (λ s. mem a ∷ s) (take-bytes_at mem k (suc a) n ∙ rw e refl))
  | inr e ↦
      let d : ltb (suc n) (suc k) ≡ false = ground arith in
      rw d (ap (λ s. mem a ∷ s) (take-bytes_at mem k (suc a) n ∙ rw e refl))
]

initrd_read-contents :
    (mem : ℕ → ℕ) (file_headers : List FileHeader) (node : RootNode) (h : FileHeader)
    (offset size : ℕ)
    → get_elem? file_headers node.inode ≡ some h
    → offset + size < 2 ^ 32
    → initrd_read mem file_headers node offset size
      ≡ some (take size (drop offset (contents mem h)))
unfolding initrd_read contents bytes_at
initrd_read-contents mem file_headers node h offset size at range =
    let whole = drop-bytes_at mem offset h.offset h.length in
    let part = take-bytes_at mem size (h.offset + offset) (h.length - offset) in
    let sum : (offset + size) % 2 ^ 32 ≡ offset + size = omega (arith, range) in
    let slice = ap (λ s. take size s) whole ∙ part in
    elim (Bool-cases (ltb h.length offset)) [
      | inl e ↦
          let nothing : (if ltb (h.length - offset) size then h.length - offset else size) ≡ 0 =
            ground arith in
          rw (at, initrd_read, e) (ap some (sym (slice ∙ rw nothing refl)))
      | inr e ↦
          let same : ltb h.length (offset + size) ≡ ltb (h.length - offset) size = ground arith in
          rw (at, initrd_read, e, sum, same) (ap some (sym slice))
    ]

-- What a search finds in the nodes that are made of the headers of an image, with `i` headers in
-- front: a header of the name, the node and the header that initrd_init leave of it.
Found : ℕ → ℕ → List FileHeader → Name → List FileHeader → Option RootNode → Type 0
Found i location headers name file_headers none = Unit
Found i location headers name file_headers (some node) =
    (k : ℕ) × (h : FileHeader) × (node.inode ≡ i + k)
    × (get_elem? headers k ≡ some h)
    × (h.name ≡ name)
    × (node.node_length ≡ h.length)
    × (get_elem? file_headers k ≡ some (record h { offset = (h.offset + location) % 2 ^ 32 }))

init_from-Found :
    (i location : ℕ) (headers : List FileHeader) (name : Name)
    → Found i location headers name
        (init_from i location headers).0
        (initrd_finddir (init_from i location headers).1 name)
unfolding Found init_from initrd_finddir
init_from-Found i location [] name = tt
init_from-Found i location (h ∷ headers) name = elim (Bool-cases (name_eq name h.name)) [
  | inl e ↦ rw e (0, h, omega arith, refl, sym (name_eq→≡ name h.name e), refl, refl)
  | inr e ↦ rw e (
      later (initrd_finddir (init_from (suc i) location headers).1 name)
        (init_from-Found (suc i) location headers name))
]
  where
    later :
        (r : Option RootNode)
        → Found (suc i) location headers name (init_from (suc i) location headers).0 r
        → Found i location (h ∷ headers) name (init_from i location (h ∷ headers)).0 r
    later none f = tt
    later (some node) (k, g, place, at, named, len, left) =
        (suc k, g, omega (arith, place), at, named, len, left)

-- A node that finddir finds in the image by a name is that of a header of the image with that name,
-- and has its length; a read of it gives the part that is asked for and is there of the bytes that lie
-- at the offset of the header behind the start of the image, as long as offset and size add up to a
-- number of 32 bits.
pub initrd_finddir-initrd_read :
    (mem : ℕ → ℕ) (location : ℕ) (headers : List FileHeader) (name : Name) (node : RootNode)
    (offset size : ℕ)
    → initrd_finddir (initrd_init location headers).1 name ≡ some node
    → offset + size < 2 ^ 32
    → (k : ℕ) × (h : FileHeader) × (get_elem? headers k ≡ some h)
      × (h.name ≡ name)
      × (node.node_length ≡ h.length)
      × (initrd_read mem (initrd_init location headers).0 node offset size
          ≡ some (take size (drop offset (bytes_at mem ((h.offset + location) % 2 ^ 32) h.length))))
unfolding initrd_init Found contents
initrd_finddir-initrd_read mem location headers name node offset size found range =
    let (k, h, place, at, named, len, left) =
      subst (Found 0 location headers name (init_from 0 location headers).0) found
        (init_from-Found 0 location headers name) in
    let inode : node.inode ≡ k = omega (arith, place) in
    let header =
      subst
        (λ j.
          get_elem? (init_from 0 location headers).0 j
          ≡ some (record h { offset = (h.offset + location) % 2 ^ 32 }))
        (sym inode) left in
    (
      k,
      h,
      at,
      named,
      len,
      initrd_read-contents mem (init_from 0 location headers).0 node
          (record h { offset = (h.offset + location) % 2 ^ 32 }) offset size header range,
    )
