-- ===== src/Malloc/Laws.antt =====
-- libc/malloc.c: what malloc and free do to the blocks that pointers own.
use native.Mathlib.Decide.{dec_lt}
use bingos.Common.{
  ℕ, ◌+◌, ◌-◌, ◌%◌, ◌^◌, ◌≤◌, ◌<◌, ◌≡◌, ◌≢◌, refl, subst, false, Option, none, some, List, [], ◌∷◌,
  ◌++◌, ltb, ◌==◌, ==_iff, ==_refl, sym, ◌∙◌, ◌⊎◌, if◌then◌else◌, inl, inr, Bool-cases, arith,
}
use bingos.Malloc.{
  meta_size, Block, Heap, sbrk, take_free, request_space, pointer_of, malloc, release, free, owned,
  IsChain, IsValid,
}
use bingos.Malloc.Release.{Released, release-Released, owned-bounds, owned_apart}
use bingos.Malloc.Blocks.{
  Taken, take_free-Taken, owned-above, IsChain-low, append-IsChain, owned-end, owned-append,
}

-- A pointer that owned nothing owns a block of at least `size` bytes, every other pointer owns what it
-- owned, and the chain is whole.
pub IsAllocated : ℕ → Heap → ℕ × Heap → Type 0
IsAllocated size h (p, h') =
    (owned p h.blocks ≡ none)
    × IsValid h'
    × ((s : ℕ) × (size ≤ s)
        × ((q : ℕ) → owned q h'.blocks ≡ (if q == p then some s else owned q h.blocks)))

-- The block that a request adds, where the break does not wrap around.
new_block : ℕ → Heap → Block
new_block size h = record { addr = h.brk; size = size; free = false; magic = 873625686 }

grown : ℕ → Heap → Heap
unfolding new_block
grown size h = record h {
  blocks = h.blocks ++ (new_block size h ∷ []);
  brk = h.brk + size + meta_size;
}

request_space-grown :
    (size : ℕ) (h : Heap)
    → h.brk + size + meta_size < 2 ^ 32
    → request_space size h ≡ (h.brk, grown size h)
unfolding request_space sbrk grown new_block
request_space-grown size h room =
    let whole : (size + meta_size) % 2 ^ 32 ≡ size + meta_size = omega arith in
    let next : (h.brk + (size + meta_size)) % 2 ^ 32 ≡ h.brk + size + meta_size = omega arith in
    let up : ltb (h.brk + size + meta_size) h.brk ≡ false = ground arith in
    let not_last : (h.brk == 2 ^ 32 - 1) ≡ false = ground arith in rw (whole, next, up, not_last)

request_space-IsAllocated :
    (size : ℕ) (h : Heap)
    → IsValid h
    → h.brk + size + meta_size < 2 ^ 32
    → IsAllocated size h (pointer_of (request_space size h))
unfolding IsValid IsAllocated pointer_of grown new_block
request_space-IsAllocated size h v room =
    let at : (h.brk == 0) ≡ false = ground (arith, IsChain-low 1 h.brk h.blocks v) in
    rw (request_space-grown size h room, at)
      (
        owned-end 1 h.brk h.blocks v,
        chain,
        (size, omega arith, owned-append 1 h.brk h.blocks (new_block size h) v refl refl),
      )
  where
    chain : IsChain 1 (h.blocks ++ (new_block size h ∷ [])) (h.brk + size + meta_size)
    chain =
        let e : h.brk + meta_size + size ≡ h.brk + size + meta_size = omega arith in
        subst (IsChain 1 (h.blocks ++ (new_block size h ∷ []))) e
          (append-IsChain 1 h.brk h.blocks (new_block size h) v refl)

Taken-IsAllocated :
    (size : ℕ) (h : Heap) (o : Option (ℕ × List Block))
    → Taken size 1 h.blocks h.brk o
    → IsAllocated size h (pointer_of (request_space size h))
    → IsAllocated size h (elim o [
      | none ↦ pointer_of (request_space size h)
      | some (addr, bs) ↦ (addr + meta_size, record h { blocks = bs })
    ])
unfolding Taken IsValid IsAllocated
Taken-IsAllocated size h none t r = r
Taken-IsAllocated size h (some (addr, bs)) t r = (t.2, t.1, t.3)

-- malloc of a positive size succeeds while the break does not wrap around: the pointer owned nothing
-- before and owns a block of at least the size, and every other pointer owns what it owned. The blocks
-- still lie behind one another.
pub malloc-IsAllocated :
    (size : ℕ) (h : Heap)
    → IsValid h
    → 0 < size
    → h.brk + size + meta_size < 2 ^ 32
    → IsAllocated size h (malloc size h)
unfolding malloc IsValid
malloc-IsAllocated size h v positive room =
    let some_size : (size == 0) ≡ false = ground arith in
    rw some_size (
      Taken-IsAllocated size h (take_free size h.blocks) (take_free-Taken size 1 h.brk h.blocks v)
        (request_space-IsAllocated size h v room))

-- The outcomes of free.
pub FreeOutcome : ℕ → Heap → Option Heap → Type 0
FreeOutcome ptr h none = (ptr ≢ 0) × (owned ptr h.blocks ≡ none)
FreeOutcome ptr h (some h') =
    IsValid h'
    × ((q : ℕ) → owned q h'.blocks ≡ (if q == ptr then none else owned q h.blocks))
    × (h'.brk ≡ h.brk)
    × (h'.memory ≡ h.memory)

Released-FreeOutcome :
    (ptr : ℕ) (h : Heap) (o : Option (List Block))
    → ptr ≢ 0
    → Released ptr 1 h.blocks h.brk o
    → FreeOutcome ptr h (elim o [ none ↦ none | some bs ↦ some (record h { blocks = bs }) ])
unfolding Released IsValid FreeOutcome
Released-FreeOutcome ptr h none p r = (p, r)
Released-FreeOutcome ptr h (some bs) p r = (r.0, r.1, refl, refl)

null-FreeOutcome : (ptr : ℕ) (h : Heap) → ptr ≡ 0 → IsValid h → FreeOutcome ptr h (some h)
unfolding FreeOutcome IsValid
null-FreeOutcome ptr h z v = (v, others, refl, refl)
  where
    others : (q : ℕ) → owned q h.blocks ≡ (if q == ptr then none else owned q h.blocks)
    others q = elim (Bool-cases (q == ptr)) [
      | inl e ↦ rw e (owned-above 1 h.brk h.blocks q v (omega (arith, z, (==_iff q ptr).0 e)))
      | inr e ↦ rw e
    ]

-- After free the pointer owns nothing and every other pointer owns what it owned; the blocks still lie
-- behind one another, and the break and the bytes are unchanged. It fails only for a pointer that is
-- not NULL and owns nothing.
pub free-FreeOutcome : (ptr : ℕ) (h : Heap) → IsValid h → FreeOutcome ptr h (free ptr h)
unfolding free IsValid
free-FreeOutcome ptr h v = elim (Bool-cases (ptr == 0)) [
  | inl e ↦ rw e (null-FreeOutcome ptr h ((==_iff ptr 0).0 e) v)
  | inr e ↦ rw e (
      Released-FreeOutcome ptr h (release ptr h.blocks) (λ z. absurd (ground arith))
        (release-Released ptr 1 h.brk h.blocks v))
]

-- The block that malloc gives lies apart from every block that a pointer owned before, with its header
-- behind one or in front of the other, and below the break, while the break does not wrap around.
pub malloc-apart :
    (size : ℕ) (h : Heap) (q t : ℕ)
    → IsValid h
    → 0 < size
    → h.brk + size + meta_size < 2 ^ 32
    → owned q h.blocks ≡ some t
    → (((malloc size h).0 + size + meta_size ≤ q) ⊎ (q + t + meta_size ≤ (malloc size h).0))
      × ((malloc size h).0 + size ≤ (malloc size h).1.brk)
unfolding IsAllocated IsValid
malloc-apart size h q t v positive room e =
    let (new, valid, block) = malloc-IsAllocated size h v positive room in
    let p = (malloc size h).0 in
    let h' = (malloc size h).1 in
    let (s, fits, owners) = block in
    let other : (q == p) ≡ false = apart p new in
    let its : owned p h'.blocks ≡ some s = owners p ∙ rw (==_refl p) refl in
    let old : owned q h'.blocks ≡ some t = owners q ∙ rw other e in
    let bounds = owned-bounds 1 h'.brk p s h'.blocks valid its in
    (
      elim (dec_lt p q) [
        | yes l ↦
            let a = owned_apart 1 h'.brk p q s t h'.blocks valid its old l in
            inl (omega (arith, a, fits))
        | no l ↦
            let m : q < p = ground arith in
            inr (owned_apart 1 h'.brk q p t s h'.blocks valid old its m)
      ],
      omega (arith, bounds, fits),
    )
  where
    clash : some t ≡ none → ⊥
    clash c = ground arith

    apart : (p : ℕ) → owned p h.blocks ≡ none → (q == p) ≡ false
    apart p new = elim (Bool-cases (q == p)) [
      | inl same ↦
          absurd
            (clash (sym (subst (λ k. owned k h.blocks ≡ some t) ((==_iff q p).0 same) e) ∙ new))
      | inr same ↦ same
    ]
