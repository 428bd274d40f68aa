-- ===== src/Malloc/Release.antt =====
-- libc/malloc.c: what releasing a block does to a chain, and where the blocks that are owned lie.
use bingos.Common.{
  ℕ, ◌+◌, ◌≤◌, ◌<◌, ◌≡◌, refl, true, false, Option, none, some, List, [], ◌∷◌, ◌==◌, ==_iff,
  if◌then◌else◌, inl, inr, Bool-cases, arith,
}
use bingos.Malloc.{meta_size, Block, release, owned, IsChain}
use bingos.Malloc.Blocks.{IsChain-low}

-- The outcomes of a release.
unfoldable pub Released : ℕ → ℕ → List Block → ℕ → Option (List Block) → Type 0
Released ptr low bs high none = owned ptr bs ≡ none
Released ptr low bs high (some bs') =
    IsChain low bs' high × ((q : ℕ) → owned q bs' ≡ (if q == ptr then none else owned q bs))

Released-here :
    (ptr low high : ℕ) (b : Block) (bs : List Block)
    → IsChain low (b ∷ bs) high
    → (b.addr + meta_size == ptr) ≡ true
    → Released ptr low (b ∷ bs) high (some (record b { free = true; magic = 1431655765 } ∷ bs))
unfolding Released IsChain owned
Released-here ptr low high b bs h e = ((h.0, h.1), others)
  where
    others :
        (q : ℕ)
        → (if b.addr + meta_size == q then none else owned q bs) ≡ (
            if q == ptr
            then none
            else (if b.addr + meta_size == q
                then (if b.free then none else some b.size)
                else owned q bs))
    others q =
        let same : (b.addr + meta_size == q) ≡ (q == ptr) = ground arith in
        elim (Bool-cases (q == ptr)) [ inl e' ↦ rw (same, e') | inr e' ↦ rw (same, e') ]

Released-behind :
    (ptr low high : ℕ) (b : Block) (bs : List Block) (o : Option (List Block))
    → IsChain low (b ∷ bs) high
    → (b.addr + meta_size == ptr) ≡ false
    → Released ptr (b.addr + meta_size + b.size) bs high o
    → Released ptr low (b ∷ bs) high (elim o [ none ↦ none | some bs' ↦ some (b ∷ bs') ])
unfolding Released IsChain owned
Released-behind ptr low high b bs none h e r = rw (e, r)
Released-behind ptr low high b bs (some bs') h e r = ((h.0, r.0), others)
  where
    others :
        (q : ℕ)
        → (if b.addr + meta_size == q then (if b.free then none else some b.size) else owned q bs')
          ≡ (if q == ptr
              then none
              else (if b.addr + meta_size == q
                  then (if b.free then none else some b.size)
                  else owned q bs))
    others q = elim (Bool-cases (b.addr + meta_size == q)) [
      | inl e' ↦ let other : (q == ptr) ≡ false = ground arith in rw (e', other)
      | inr e' ↦ rw (e', r.1 q)
    ]

pub release-Released :
    (ptr low high : ℕ) (bs : List Block)
    → IsChain low bs high
    → Released ptr low bs high (release ptr bs)
unfolding release Released IsChain owned
release-Released ptr low high [] h = refl
release-Released ptr low high (b ∷ bs) h = elim (Bool-cases (b.addr + meta_size == ptr)) [
  | inl e ↦ rw e (Released-here ptr low high b bs h e)
  | inr e ↦ rw e (
      Released-behind ptr low high b bs (release ptr bs) h e
        (release-Released ptr (b.addr + meta_size + b.size) high bs h.1))
]

pub owned-bounds :
    (low high p s : ℕ) (bs : List Block)
    → IsChain low bs high
    → owned p bs ≡ some s
    → (low + meta_size ≤ p) × (p + s ≤ high)
unfolding IsChain owned
owned-bounds low high p s [] h e = absurd (ground arith)
owned-bounds low high p s (b ∷ bs) h e = elim (Bool-cases (b.addr + meta_size == p)) [
  | inl e' ↦
      let above = IsChain-low (b.addr + meta_size + b.size) high bs h.1 in
      ground (arith, h.0, above)
  | inr e' ↦
      let behind : owned p bs ≡ some s = grind (arith, e, e') in
      let ih = owned-bounds (b.addr + meta_size + b.size) high p s bs h.1 behind in
      (omega (arith, h.0, ih.0), ih.1)
]

-- Two blocks that are owned do not overlap: the header of the one above lies between them.
pub owned_apart :
    (low high p q s t : ℕ) (bs : List Block)
    → IsChain low bs high
    → owned p bs ≡ some s
    → owned q bs ≡ some t
    → p < q
    → p + s + meta_size ≤ q
unfolding IsChain owned
owned_apart low high p q s t [] h e e' l = absurd (ground arith)
owned_apart low high p q s t (b ∷ bs) h e e' l =
    let end = b.addr + meta_size + b.size in
    elim (Bool-cases (b.addr + meta_size == p)) [
      | inl here ↦
          let behind : owned q bs ≡ some t = ground arith in
          let bounds = owned-bounds end high q t bs h.1 behind in
          let size : s ≡ b.size = ground arith in
          omega (arith, bounds.0, size, (==_iff (b.addr + meta_size) p).0 here)
      | inr other ↦
          let behind : owned p bs ≡ some s = grind (arith, e, other) in
          let bounds = owned-bounds end high p s bs h.1 behind in
          let differ : (b.addr + meta_size == q) ≡ false = ground (arith, bounds.0) in
          let behind' : owned q bs ≡ some t = grind (arith, e', differ) in
          owned_apart end high p q s t bs h.1 behind behind' l
    ]
