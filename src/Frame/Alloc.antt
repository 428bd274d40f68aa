-- ===== src/Frame/Alloc.antt =====
-- kernel/frame.c: which frame is handed out, and giving it back.
use bingos.Common.{
  ℕ, zero, suc, ◌+◌, ◌-◌, ◌*◌, ◌/◌, ◌%◌, ◌^◌, ◌≤◌, ◌<◌, ◌≡◌, refl, subst, ap, ◌∙◌, Bool, true,
  false, not, Option, none, some, ◌==◌, inl, inr, if◌then◌else◌, Bool-cases, ==_iff, arith,
}
use native.Mathlib.Decide.{dec_lt}
use bingos.Common.Bits.{bit, bit-complement, bit-zero}
use bingos.Frame.{
  store, Frames, bitmap_set, bitmap_test, is_used, first_clear, first_frame_from, get_first_frame,
  alloc_frame, free_frame,
}
use bingos.Frame.Bitmap.{is_used-set, is_used-unset, is_used-bit, test_zero}

-- A word with a clear bit is not full.
-- What the scan of a word finds: the first clear bit from `j`.
FoundBit : ℕ → ℕ → ℕ → Option ℕ → Type 0
FoundBit left j w none = (k : ℕ) → j ≤ k → k < j + left → (bit k w == 0) ≡ false
FoundBit left j w (some i) =
    (j ≤ i)
    × (i < j + left)
    × ((bit i w == 0) ≡ true)
    × ((k : ℕ) → j ≤ k → k < i → (bit k w == 0) ≡ false)

FoundBit-if :
    (left j w : ℕ) (t : Bool) (o : Option ℕ)
    → (bit j w == 0) ≡ t
    → FoundBit left (suc j) w o
    → FoundBit (suc left) j w (if t then some j else o)
unfolding FoundBit
FoundBit-if left j w true o e ih = (omega arith, omega arith, e, λ k p q. absurd (omega arith))
FoundBit-if left j w false none e ih = λ k p q. elim (dec_lt j k) [
  | yes h ↦ ih k h (omega arith)
  | no h ↦ let d : k ≡ j = omega arith in rw d e
]
FoundBit-if left j w false (some i) e ih = (
  omega (arith, ih.0),
  omega (arith, ih.1),
  ih.2,
  λ k p q. elim (dec_lt j k) [ yes h ↦ ih.3 k h q | no h ↦ let d : k ≡ j = omega arith in rw d e ],
)

first_clear_lem : (left j w : ℕ) → FoundBit left j w (first_clear left j w)
unfolding first_clear FoundBit
first_clear_lem zero j w = λ k p q. absurd (omega arith)
first_clear_lem (suc left) j w = rw (test_zero j w) (
    FoundBit-if left j w (bit j w == 0) (first_clear left (suc j) w) refl
      (first_clear_lem left (suc j) w))

full_word : (k : ℕ) → k < 32 → (bit k (2 ^ 32 - 1) == 0) ≡ false
full_word k h = ground (arith, bit-complement k 32 0 h (omega arith), bit-zero k)

-- What the scan of the words finds: the first free frame from word `i`.
FoundFrame : Frames → ℕ → ℕ → Option ℕ → Type 0
FoundFrame f left i none = (b : ℕ) → i * 32 ≤ b → b < (i + left) * 32 → is_used f b ≡ true
FoundFrame f left i (some n) =
    (i * 32 ≤ n)
    × (n < (i + left) * 32)
    × (is_used f n ≡ false)
    × ((b : ℕ) → i * 32 ≤ b → b < n → is_used f b ≡ true)

in_word :
    (f : Frames) (i b : ℕ) → b / 32 ≡ i → is_used f b ≡ not (bit (b % 32) (f.frame_map i) == 0)
in_word f i b e = rw (is_used-bit f b, e)

FoundFrame-full :
    (f : Frames) (left i : ℕ) (o : Option ℕ)
    → ((b : ℕ) → i * 32 ≤ b → b < suc i * 32 → is_used f b ≡ true)
    → FoundFrame f left (suc i) o
    → FoundFrame f (suc left) i o
unfolding FoundFrame
FoundFrame-full f left i none e ih = λ b p q. elim (dec_lt b (suc i * 32)) [
  | yes h ↦ e b p h
  | no h ↦ ih b (omega arith) (omega arith)
]
FoundFrame-full f left i (some n) e ih = (
  omega (arith, ih.0),
  omega (arith, ih.1),
  ih.2,
  λ b p q. elim (dec_lt b (suc i * 32)) [ yes h ↦ e b p h | no h ↦ ih.3 b (omega arith) q ],
)

used_word :
    (f : Frames) (i n : ℕ)
    → n ≤ 32
    → ((k : ℕ) → 0 ≤ k → k < n → (bit k (f.frame_map i) == 0) ≡ false)
    → (b : ℕ) → i * 32 ≤ b
    → b < i * 32 + n
    → is_used f b ≡ true
used_word f i n h e b p q =
    in_word f i b (omega arith) ∙ ap not (e (b % 32) (omega arith) (omega arith))

FoundFrame-word :
    (f : Frames) (left i : ℕ) (o rest : Option ℕ)
    → FoundBit 32 0 (f.frame_map i) o
    → FoundFrame f left (suc i) rest
    → FoundFrame f (suc left) i (elim o [ none ↦ rest | some j ↦ some (i * 32 + j) ])
unfolding FoundBit FoundFrame
FoundFrame-word f left i none rest e ih =
    FoundFrame-full f left i rest (λ b p q. used_word f i 32 (omega arith) e b p (omega arith)) ih
FoundFrame-word f left i (some j) rest e ih = (
  omega arith,
  omega (arith, e.1),
  in_word f i (i * 32 + j) (omega (arith, e.1)) ∙ free_bit,
  λ b p q. used_word f i j (omega (arith, e.1)) e.3 b p q,
)
  where
    free_bit : not (bit ((i * 32 + j) % 32) (f.frame_map i) == 0) ≡ false
    free_bit = let d : (i * 32 + j) % 32 ≡ j = omega (arith, e.1) in rw (d, e.2)

first_frame_from_lem :
    (f : Frames) (left i : ℕ) → FoundFrame f left i (first_frame_from left i f.frame_map)
unfolding first_frame_from FoundFrame
first_frame_from_lem f zero i = λ b p q. absurd (omega arith)
first_frame_from_lem f (suc left) i =
    let ih = first_frame_from_lem f left (suc i) in
    elim (Bool-cases (f.frame_map i == 2 ^ 32 - 1)) [
      | inl e ↦
          rw e (FoundFrame-full f left i (first_frame_from left (suc i) f.frame_map) (full e) ih)
      | inr e ↦ rw e (
          FoundFrame-word f left i (first_clear 32 0 (f.frame_map i))
            (first_frame_from left (suc i) f.frame_map) (first_clear_lem 32 0 (f.frame_map i)) ih)
    ]
  where
    full :
        (f.frame_map i == 2 ^ 32 - 1) ≡ true
        → (b : ℕ) → i * 32 ≤ b
        → b < suc i * 32
        → is_used f b ≡ true
    full e b p q =
        let d : f.frame_map i ≡ 2 ^ 32 - 1 = (==_iff (f.frame_map i) (2 ^ 32 - 1)).0 e in
        used_word f i 32 (omega arith) (λ k p q. rw d (full_word k q)) b p (omega arith)

-- What alloc_frame returns: the least free frame, marked in the new state, or nothing when every
-- frame that the bitmap is searched for is taken.
unfoldable pub IsLeastFree : Frames → Option (ℕ × Frames) → Type 0
IsLeastFree f none = (b : ℕ) → b < f.max_frames * 32 → is_used f b ≡ true
IsLeastFree f (some (n, g)) =
    (n < f.max_frames * 32)
    × (is_used f n ≡ false)
    × ((b : ℕ) → b < n → is_used f b ≡ true)
    × ((b : ℕ) → is_used g b ≡ (if b == n then true else is_used f b))
    × (g.used_frames ≡ (f.used_frames + 1) % 2 ^ 32)
    × (g.max_frames ≡ f.max_frames)

alloc-found :
    (f : Frames) (o : Option ℕ)
    → FoundFrame f f.max_frames 0 o
    → IsLeastFree f (elim o [
      | none ↦ none
      | some n ↦ some (n, record (bitmap_set n f) { used_frames = (f.used_frames + 1) % 2 ^ 32 })
    ])
unfolding FoundFrame IsLeastFree is_used bitmap_test bitmap_set store
alloc-found f none h = λ b p. h b (omega arith) (omega arith)
alloc-found f (some n) h =
    (omega (arith, h.1), h.2, λ b p. h.3 b (omega arith) p, is_used-set f n, refl, refl)

-- alloc_frame returns the least free frame, marks it and no other, and counts it; it fails only when
-- the frames below 32 * max_frames are all in use.
pub alloc_frame-IsLeastFree : (f : Frames) → IsLeastFree f (alloc_frame f)
unfolding alloc_frame IsLeastFree get_first_frame
alloc_frame-IsLeastFree f =
    let found = alloc-found f (get_first_frame f) (first_frame_from_lem f f.max_frames 0) in
    elim (Bool-cases (f.max_frames == 0)) [
      | inl e ↦ rw e (λ b p. absurd (ground arith))
      | inr e ↦ rw e found
    ]

kept :
    (f : Frames) (n b : ℕ)
    → is_used f n ≡ false
    → (if b == n then false else (if b == n then true else is_used f b)) ≡ is_used f b
kept f n b h = elim (Bool-cases (b == n)) [
  | inl e ↦ let d : b ≡ n = (==_iff b n).0 e in rw (e, d, h)
  | inr e ↦ rw e
]

freed :
    (f g : Frames) (n : ℕ)
    → f.used_frames < 2 ^ 32
    → IsLeastFree f (some (n, g))
    → ((b : ℕ) → is_used (free_frame n g) b ≡ is_used f b)
      × ((free_frame n g).used_frames ≡ f.used_frames)
unfolding free_frame IsLeastFree is_used bitmap_test
freed f g n s h = (λ b. is_used-unset g n b ∙ rw (h.3 b) (kept f n b h.1), (omega (arith, h.4, s)))

-- free_frame after alloc_frame: every frame is used or free as before, and the count is as before
-- when it was a 32-bit number.
pub free_frame-alloc_frame :
    (f g : Frames) (n : ℕ)
    → f.used_frames < 2 ^ 32
    → alloc_frame f ≡ some (n, g)
    → ((b : ℕ) → is_used (free_frame n g) b ≡ is_used f b)
      × ((free_frame n g).used_frames ≡ f.used_frames)
unfolding free_frame
free_frame-alloc_frame f g n s e =
    let h : IsLeastFree f (some (n, g)) = subst (IsLeastFree f) e (alloc_frame-IsLeastFree f) in
    freed f g n s h
