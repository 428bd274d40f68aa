-- ===== src/Devfs/Tests.antt =====
-- fs/devfs.c: two devices.
use bingos.Common.{◌≡◌, refl, some, none, List, [], ◌∷◌, get_elem?, if◌then◌else◌, arith}
use bingos.Common.Names.{name_eq}
use bingos.Devfs.{
  Device, devfs_register, devfs_finddir, fault, devfs_readdir, behind_dev, fetch_loop,
  devfs_fetch_device,
}
use bingos.Devfs.Laws.{or_else, entry_at, devfs_register-devfs_finddir, devfs_readdir-entry_at}

abbrev kbd : Device
kbd = record { address = 0xc0001000; name = 107 ∷ []; inode = 3 }

abbrev hda : Device
hda = record { address = 0xc0002000; name = 104 ∷ []; inode = 4 }

fetch-kbd : devfs_fetch_device (hda ∷ kbd ∷ []) (47 ∷ 100 ∷ 101 ∷ 118 ∷ 47 ∷ 107 ∷ []) ≡ some kbd
unfolding devfs_fetch_device behind_dev fetch_loop name_eq
fetch-kbd = refl

-- The first entry of an empty table is read from behind it.
readdir-empty : devfs_readdir [] 0 ≡ fault
unfolding devfs_readdir
readdir-empty = refl

devfs_register-devfs_finddir_example :
    (devs' : List Device) × (devfs_register kbd (hda ∷ []) ≡ (some 0, devs'))
    × (devfs_finddir devs' (107 ∷ [])
        ≡ or_else
            (devfs_finddir (hda ∷ []) (107 ∷ []))
            (if name_eq (107 ∷ []) (107 ∷ []) then some kbd else none))
    × (devfs_fetch_device devs' (47 ∷ 100 ∷ 101 ∷ 118 ∷ 47 ∷ 107 ∷ [])
        ≡ devfs_finddir devs' (107 ∷ []))
devfs_register-devfs_finddir_example =
    devfs_register-devfs_finddir kbd (hda ∷ []) (107 ∷ []) (omega arith)

devfs_readdir-entry_at_example :
    devfs_readdir (hda ∷ kbd ∷ []) 2 ≡ entry_at (get_elem? (hda ∷ kbd ∷ []) 2)
devfs_readdir-entry_at_example =
    devfs_readdir-entry_at (hda ∷ kbd ∷ []) 2 (omega arith) (omega arith)
