-- ===== src/Devfs/Laws.antt =====
-- fs/devfs.c: what is registered is found, under its name and its path, and listed.
use bingos.Common.{
  ℕ, zero, suc, ◌+◌, ◌-◌, ◌%◌, ◌^◌, ◌≤◌, ◌<◌, ◌≡◌, refl, false, Option, none, some, List, [], ◌∷◌,
  ◌++◌, length, get_elem?, ltb, leb, if◌then◌else◌, arith, inl, inr, Bool-cases,
}
use bingos.Common.Names.{Name, name_eq, name_eq_sym}
use bingos.Devfs.{
  Device, devfs_register, devfs_finddir, Entry, dirent, null, devfs_readdir, behind_dev, fetch_loop,
  devfs_fetch_device,
}

-- A name that is looked up first in one place and then in another.
unfoldable pub or_else : Option Device → Option Device → Option Device
or_else none d = d
or_else (some d) e = some d

finddir-append :
    (devs : List Device) (target : Device) (name : Name)
    → devfs_finddir (devs ++ (target ∷ [])) name
      ≡ or_else (devfs_finddir devs name) (if name_eq name target.name then some target else none)
unfolding devfs_finddir or_else
finddir-append [] target name = refl
finddir-append (d ∷ devs) target name = elim (Bool-cases (name_eq name d.name)) [
  | inl e ↦ rw e refl
  | inr e ↦ rw e (finddir-append devs target name)
]

fetch_loop-finddir :
    (devs : List Device) (dev : Name) → fetch_loop devs dev ≡ devfs_finddir devs dev
unfolding fetch_loop devfs_finddir
fetch_loop-finddir [] dev = refl
fetch_loop-finddir (d ∷ devs) dev = rw (fetch_loop-finddir devs dev, name_eq_sym d.name dev) refl

-- A device is registered where fewer than 32 are. Then a name is found where it was found before, and
-- is the new device's where it was not and is its name; and the path that is /dev/ and a name fetches
-- the same device.
pub devfs_register-devfs_finddir :
    (target : Device) (devs : List Device) (name : Name)
    → length devs < 32
    → (devs' : List Device) × (devfs_register target devs ≡ (some 0, devs'))
      × (devfs_finddir devs' name
          ≡ or_else
              (devfs_finddir devs name)
              (if name_eq name target.name then some target else none))
      × (devfs_fetch_device devs' (47 ∷ 100 ∷ 101 ∷ 118 ∷ 47 ∷ name) ≡ devfs_finddir devs' name)
unfolding devfs_register devfs_fetch_device behind_dev
devfs_register-devfs_finddir target devs name room =
    let e : leb 32 (length devs) ≡ false = ground arith in
    (
      devs ++ (target ∷ []),
      rw e refl,
      finddir-append devs target name,
      fetch_loop-finddir (devs ++ (target ∷ [])) name,
    )

-- The entry of a place in the table, and NULL behind it.
unfoldable pub entry_at : Option Device → Entry
entry_at none = null
entry_at (some d) = dirent d.name d.inode

get_elem?-end : (devs : List Device) (i : ℕ) → length devs ≤ i → get_elem? devs i ≡ none
get_elem?-end [] i h = refl
get_elem?-end (d ∷ devs) zero h = absurd (omega arith)
get_elem?-end (d ∷ devs) (suc i) h = get_elem?-end devs i (omega arith)

get_elem?-in :
    (devs : List Device) (i : ℕ) → i < length devs → (d : Device) × (get_elem? devs i ≡ some d)
get_elem?-in [] i h = absurd (omega arith)
get_elem?-in (d ∷ devs) zero h = (d, refl)
get_elem?-in (d ∷ devs) (suc i) h = get_elem?-in devs i (omega arith)

-- In a table that is not empty, readdir gives the devices in the order in which they were registered
-- and NULL behind them, and follows no pointer behind them.
pub devfs_readdir-entry_at :
    (devs : List Device) (index : ℕ)
    → 1 ≤ length devs
    → length devs < 2 ^ 32
    → devfs_readdir devs index ≡ entry_at (get_elem? devs index)
unfolding devfs_readdir entry_at
devfs_readdir-entry_at devs index some_device range =
    let bound : (length devs + 2 ^ 32 - 1) % 2 ^ 32 ≡ length devs - 1 =
      omega (arith, some_device, range) in
    elim (Bool-cases (ltb (length devs - 1) index)) [
      | inl e ↦ rw (bound, e, get_elem?-end devs index (ground arith)) refl
      | inr e ↦ let (d, at) = get_elem?-in devs index (ground arith) in rw (bound, e, at) refl
    ]
