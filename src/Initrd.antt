-- ===== src/Initrd.antt =====
-- fs/initrd.c: the files of the image that the loader leaves in memory.
--
-- The headers of the image are a list, and the memory is the function from addresses to bytes.
-- initrd_init leaves the headers, with their offsets made addresses, and the nodes of the root, of
-- which the operations read the name, the inode number and the length. NULL is none; so is a read
-- behind the headers. readdir is the one of fs/devfs.c on the nodes, and not modelled again.
pub mod Laws
mod Tests
use bingos.Common.{
  ℕ, zero, suc, ◌+◌, ◌-◌, ◌%◌, ◌^◌, Bool, true, false, Option, none, some, List, [], ◌∷◌, get_elem?,
  ltb, if◌then◌else◌,
}
use bingos.Common.Names.{Name, name_eq}

pub record FileHeader : Type 0 where
  pub name : Name
  pub offset : ℕ
  pub length : ℕ

pub record RootNode : Type 0 where
  pub node_name : Name
  pub inode : ℕ
  pub node_length : ℕ

-- The loop of `initrd_init`, from the file `i` on.
pub init_from : ℕ → ℕ → List FileHeader → List FileHeader × List RootNode
init_from i location [] = ([], [])
init_from i location (h ∷ headers) =
    let (file_headers, root_nodes) = init_from (suc i) location headers in
    (
      record h { offset = (h.offset + location) % 2 ^ 32 } ∷ file_headers,
      record { node_name = h.name; inode = i; node_length = h.length } ∷ root_nodes,
    )

pub initrd_init : ℕ → List FileHeader → List FileHeader × List RootNode
initrd_init location headers = init_from 0 location headers

pub initrd_finddir : List RootNode → Name → Option RootNode
initrd_finddir [] name = none
initrd_finddir (n ∷ root_nodes) name =
    let rest = initrd_finddir root_nodes name in if name_eq name n.node_name then some n else rest

-- The bytes that `memcpy` copies.
pub bytes_at : (ℕ → ℕ) → ℕ → ℕ → List ℕ
bytes_at mem a zero = []
bytes_at mem a (suc n) = mem a ∷ bytes_at mem (suc a) n

-- The bytes that are read, of which the result is the number.
pub initrd_read : (ℕ → ℕ) → List FileHeader → RootNode → ℕ → ℕ → Option (List ℕ)
initrd_read mem file_headers node offset size = elim (get_elem? file_headers node.inode) [
  | none ↦ none
  | some header ↦
      if ltb header.length offset
      then some []
      else (let size' =
            if ltb header.length ((offset + size) % 2 ^ 32) then header.length - offset else size in
          some (bytes_at mem (header.offset + offset) size'))
]
