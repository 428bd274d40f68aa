-- ===== src/Malloc/Blocks.antt =====
-- libc/malloc.c: what taking and adding a block does to a chain.
use bingos.Common.{
  ℕ, ◌+◌, ◌≤◌, ◌<◌, ◌≡◌, refl, true, false, ◌&&◌, Option, none, some, List, [], ◌∷◌, ◌++◌, leb,
  ◌==◌, ==_refl, if◌then◌else◌, inl, inr, Bool-cases, arith,
}
use bingos.Malloc.{meta_size, Block, take_free, owned, IsChain}

pub owned-above :
    (low high : ℕ) (bs : List Block) (ptr : ℕ)
    → IsChain low bs high
    → ptr < low + meta_size
    → owned ptr bs ≡ none
unfolding IsChain owned
owned-above low high [] ptr h p = refl
owned-above low high (b ∷ bs) ptr h p =
    let ih = owned-above (b.addr + meta_size + b.size) high bs ptr h.1 (omega (arith, h.0)) in
    let differ : (b.addr + meta_size == ptr) ≡ false = ground (arith, h.0) in rw (differ, ih)

-- The outcomes of the search for a free block.
unfoldable pub Taken : ℕ → ℕ → List Block → ℕ → Option (ℕ × List Block) → Type 0
Taken size low bs high none = Unit
Taken size low bs high (some (addr, bs')) =
    (low ≤ addr)
    × IsChain low bs' high
    × (owned (addr + meta_size) bs ≡ none)
    × ((s : ℕ) × (size ≤ s)
        × ((q : ℕ) → owned q bs' ≡ (if q == addr + meta_size then some s else owned q bs)))

eq_comm : (a b : ℕ) → (a == b) ≡ (b == a)
eq_comm a b = ground arith

Taken-here :
    (size low high : ℕ) (b : Block) (bs : List Block)
    → IsChain low (b ∷ bs) high
    → (b.free && leb size b.size) ≡ true
    → Taken size low
        (b ∷ bs)
        high
        (some (b.addr, record b { free = false; magic = 2004318071 } ∷ bs))
unfolding Taken IsChain owned
Taken-here size low high b bs h e =
    let is_free : b.free ≡ true = ground arith in
    let large : size ≤ b.size = ground arith in
    let same = ==_refl (b.addr + meta_size) in
    (h.0, (h.0, h.1), rw (same, is_free), (b.size, large, others is_free))
  where
    others :
        b.free ≡ true
        → (q : ℕ)
        → (if b.addr + meta_size == q then some b.size else owned q bs) ≡ (
            if q == b.addr + meta_size
            then some b.size
            else (if b.addr + meta_size == q
                then (if b.free then none else some b.size)
                else owned q bs))
    others f q = elim (Bool-cases (b.addr + meta_size == q)) [
      | inl e ↦ rw (eq_comm q (b.addr + meta_size), e)
      | inr e ↦ rw (eq_comm q (b.addr + meta_size), e)
    ]

Taken-behind :
    (size low high : ℕ) (b : Block) (bs : List Block) (o : Option (ℕ × List Block))
    → IsChain low (b ∷ bs) high
    → Taken size (b.addr + meta_size + b.size) bs high o
    → Taken size low
        (b ∷ bs)
        high
        (elim o [ none ↦ none | some (addr, bs') ↦ some (addr, b ∷ bs') ])
unfolding Taken IsChain owned
Taken-behind size low high b bs none h t = tt
Taken-behind size low high b bs (some (addr, bs')) h (above, chain, fresh, (s, large, map)) =
    let differ : (b.addr + meta_size == addr + meta_size) ≡ false = ground arith in
    (omega (arith, h.0), (h.0, chain), rw (differ, fresh), (s, large, others))
  where
    others :
        (q : ℕ)
        → (if b.addr + meta_size == q then (if b.free then none else some b.size) else owned q bs')
          ≡ (if q == addr + meta_size
              then some s
              else (if b.addr + meta_size == q
                  then (if b.free then none else some b.size)
                  else owned q bs))
    others q = elim (Bool-cases (b.addr + meta_size == q)) [
      | inl e ↦ let other : (q == addr + meta_size) ≡ false = ground arith in rw (e, other)
      | inr e ↦ rw (e, map q)
    ]

pub take_free-Taken :
    (size low high : ℕ) (bs : List Block)
    → IsChain low bs high
    → Taken size low bs high (take_free size bs)
unfolding take_free Taken IsChain
take_free-Taken size low high [] h = tt
take_free-Taken size low high (b ∷ bs) h = elim (Bool-cases (b.free && leb size b.size)) [
  | inl e ↦ rw e (Taken-here size low high b bs h e)
  | inr e ↦ rw e (
      Taken-behind size low high b bs (take_free size bs) h
        (take_free-Taken size (b.addr + meta_size + b.size) high bs h.1))
]

-- The outcome of a block added at the end of a chain that ends at `high`.
pub append-IsChain :
    (low high : ℕ) (bs : List Block) (b : Block)
    → IsChain low bs high
    → b.addr ≡ high
    → IsChain low (bs ++ (b ∷ [])) (high + meta_size + b.size)
unfolding IsChain
append-IsChain low high [] b h e = (omega (arith, h, e), omega (arith, e))
append-IsChain low high (c ∷ bs) b h e =
    (h.0, append-IsChain (c.addr + meta_size + c.size) high bs b h.1 e)

pub IsChain-low : (low high : ℕ) (bs : List Block) → IsChain low bs high → low ≤ high
unfolding IsChain
IsChain-low low high [] h = h
IsChain-low low high (b ∷ bs) h =
    omega (arith, h.0, IsChain-low (b.addr + meta_size + b.size) high bs h.1)

pub owned-end :
    (low high : ℕ) (bs : List Block) → IsChain low bs high → owned (high + meta_size) bs ≡ none
unfolding IsChain owned
owned-end low high [] h = refl
owned-end low high (b ∷ bs) h =
    let differ : (b.addr + meta_size == high + meta_size) ≡ false =
      ground (arith, IsChain-low (b.addr + meta_size + b.size) high bs h.1) in
    rw (differ, owned-end (b.addr + meta_size + b.size) high bs h.1)

pub owned-append :
    (low high : ℕ) (bs : List Block) (b : Block)
    → IsChain low bs high
    → b.addr ≡ high
    → b.free ≡ false
    → (q : ℕ)
    → owned q (bs ++ (b ∷ [])) ≡ (if q == high + meta_size then some b.size else owned q bs)
unfolding IsChain owned
owned-append low high [] b h e f q = rw (e, f, eq_comm q (high + meta_size))
owned-append low high (c ∷ bs) b h e f q =
    let ih = owned-append (c.addr + meta_size + c.size) high bs b h.1 e f q in
    elim (Bool-cases (c.addr + meta_size == q)) [
      | inl e' ↦
          let low_end = IsChain-low (c.addr + meta_size + c.size) high bs h.1 in
          let other : (q == high + meta_size) ≡ false = ground (arith, low_end) in rw (e', other)
      | inr e' ↦ rw (e', ih)
    ]
