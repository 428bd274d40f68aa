-- ===== src/Initrd/Tests.antt =====
-- fs/initrd.c: an image with two files.
use bingos.Common.{◌^◌, ◌+◌, get_elem?, ℕ, ◌%◌, ◌≡◌, refl, some, List, [], ◌∷◌, take, drop, arith}
use bingos.Common.Names.{name_eq}
use bingos.Initrd.{
  FileHeader, RootNode, init_from, initrd_init, initrd_finddir, bytes_at, initrd_read,
}
use bingos.Initrd.Laws.{initrd_finddir-initrd_read}

abbrev image : List FileHeader
image =
    record { name = 97 ∷ []; offset = 100; length = 3 }
    ∷ record { name = 98 ∷ []; offset = 103; length = 5 }
    ∷ []

-- The byte at an address is its low byte.
abbrev mem : ℕ → ℕ
mem a = a % 256

abbrev file_b : RootNode
file_b = record { node_name = 98 ∷ []; inode = 1; node_length = 5 }

finddir-b : initrd_finddir (initrd_init 4096 image).1 (98 ∷ []) ≡ some file_b
unfolding initrd_finddir initrd_init init_from name_eq
finddir-b = refl

read-b : initrd_read mem (initrd_init 4096 image).0 file_b 3 4 ≡ some (106 ∷ 107 ∷ [])
unfolding initrd_read initrd_init init_from bytes_at
read-b = refl

initrd_finddir-initrd_read_example :
    (k : ℕ) × (h : FileHeader) × (get_elem? image k ≡ some h)
    × (h.name ≡ 98 ∷ [])
    × (file_b.node_length ≡ h.length)
    × (initrd_read mem (initrd_init 4096 image).0 file_b 3 4
        ≡ some (take 4 (drop 3 (bytes_at mem ((h.offset + 4096) % 2 ^ 32) h.length))))
initrd_finddir-initrd_read_example =
    initrd_finddir-initrd_read mem 4096 image (98 ∷ []) file_b 3 4 finddir-b (omega arith)
