-- ===== src/Descriptors/Laws.antt =====
-- fs/open.c: which descriptor is given out, and closing it.
use native.Mathlib.Decide.{dec_lt}
use bingos.Common.{
  ℕ, zero, suc, ◌+◌, ◌%◌, ◌^◌, ◌≤◌, ◌<◌, ◌≡◌, refl, true, false, Option, none, some, leb, ◌==◌,
  if◌then◌else◌, arith, inl, inr, Bool-cases, ◌⊎◌,
}
use bingos.Descriptors.{
  nr_open, Table, Result, ok, error, emfile, is_some, free_from, set_entry, do_open,
}

-- What the search finds: the first entry that is NULL, or the end.
IsFirstFree : ℕ → ℕ → (ℕ → Option ℕ) → ℕ → Type 0
IsFirstFree left fd entries r =
    (fd ≤ r)
    × (r ≤ fd + left)
    × ((i : ℕ) → fd ≤ i → i < r → is_some (entries i) ≡ true)
    × ((r ≡ fd + left) ⊎ (is_some (entries r) ≡ false))

free_from-IsFirstFree :
    (left fd : ℕ) (entries : ℕ → Option ℕ) → IsFirstFree left fd entries (free_from left fd entries)
unfolding free_from IsFirstFree
free_from-IsFirstFree zero fd entries =
    (omega arith, omega arith, λ i p q. absurd (omega arith), inl (omega arith))
free_from-IsFirstFree (suc left) fd entries =
    let (low, high, used, found) = free_from-IsFirstFree left (suc fd) entries in
    elim (Bool-cases (is_some (entries fd))) [
      | inl e ↦ rw e (
        omega (arith, low),
        omega (arith, high),
        λ i p q. elim (dec_lt fd i) [
          | yes h ↦ used i h q
          | no h ↦ let d : i ≡ fd = omega arith in rw (d, e)
        ],
        elim found [ inl r ↦ inl (omega (arith, r)) | inr r ↦ inr r ],
      )
      | inr e ↦ rw e (omega arith, omega arith, λ i p q. absurd (omega arith), inr e)
    ]

-- The outcomes of do_open: a NULL file is followed where an entry is free, every entry is in use, or
-- the first free entry gets the file and the others stay.
pub OpenOutcome : Option ℕ → Table → Option (Result × Table) → Type 0
OpenOutcome file t none =
    (file ≡ none) × ((fd : ℕ) × (fd < nr_open) × (is_some (t.entries fd) ≡ false))
OpenOutcome file t (some (error e, t')) =
    (e ≡ emfile) × (t' ≡ t) × ((i : ℕ) → i < nr_open → is_some (t.entries i) ≡ true)
OpenOutcome file t (some (ok fd, t')) =
    (fd < nr_open)
    × (is_some (t.entries fd) ≡ false)
    × ((i : ℕ) → i < fd → is_some (t.entries i) ≡ true)
    × ((n : ℕ) × (file ≡ some n))
    × ((i : ℕ) → t'.entries i ≡ (if i == fd then file else t.entries i))
    × (t'.length ≡ (t.length + 1) % 2 ^ 32)

opened :
    (file : Option ℕ) (t : Table) (fd : ℕ)
    → IsFirstFree nr_open 0 t.entries fd
    → (leb nr_open fd) ≡ false
    → OpenOutcome file t (elim file [
      | none ↦ none
      | some n ↦ some (ok fd, set_entry fd (some n) ((t.length + 1) % 2 ^ 32) t)
    ])
unfolding IsFirstFree OpenOutcome set_entry
opened none t fd (low, high, used, found) e =
    (refl, (fd, ground arith, elim found [ inl r ↦ absurd (ground arith) | inr r ↦ r ]))
opened (some n) t fd (low, high, used, found) e = (
  ground arith,
  elim found [ inl r ↦ absurd (ground arith) | inr r ↦ r ],
  λ i p. used i (omega arith) p,
  (n, refl),
  λ i. refl,
  refl,
)

-- do_open gives out the first free descriptor, of a file that the lookup found, and puts the file in
-- its entry, leaving the others; it returns -EMFILE only when all are in use, and follows a NULL
-- pointer when an entry is free and the lookup found nothing, and only then.
pub do_open-OpenOutcome : (file : Option ℕ) (t : Table) → OpenOutcome file t (do_open file t)
unfolding do_open OpenOutcome IsFirstFree
do_open-OpenOutcome file t =
    let first = free_from-IsFirstFree nr_open 0 t.entries in
    elim (Bool-cases (leb nr_open (free_from nr_open 0 t.entries))) [
      | inl e ↦ rw e (full (free_from nr_open 0 t.entries) first e)
      | inr e ↦ rw e (opened file t (free_from nr_open 0 t.entries) first e)
    ]
  where
    full :
        (fd : ℕ)
        → IsFirstFree nr_open 0 t.entries fd
        → leb nr_open fd ≡ true
        → OpenOutcome file t (some (error emfile, t))
    full fd (low, high, used, found) e = (refl, refl, λ i p. used i (omega arith) (ground arith))
