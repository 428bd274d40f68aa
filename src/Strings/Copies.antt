-- ===== src/Strings/Copies.antt =====
-- libc/string.c: what strncpy and strncat leave behind a string that is too long.
use bingos.Common.{
  ℕ, zero, suc, ◌+◌, ◌≤◌, ◌<◌, ◌≡◌, ◌≢◌, ◌⊎◌, refl, sym, ap, ◌∙◌, false, some, ◌==◌, ==_refl,
  if◌then◌else◌, arith, inl, inr, Bool-cases,
}
use bingos.Strings.{copy_some, find_end, strncat}

-- The loop writes between `cp` and `cp + num` only.
copy_some-frame :
    (num cp src a : ℕ) (mem : ℕ → ℕ)
    → (a < cp) ⊎ (cp + num ≤ a)
    → copy_some num cp src mem a ≡ mem a
unfolding copy_some
copy_some-frame zero cp src a mem out = refl
copy_some-frame (suc num) cp src a mem out =
    let other : (a == cp) ≡ false = ground arith in
    elim (Bool-cases (mem src == 0)) [
      | inl e ↦ rw (e, other) refl
      | inr e ↦ rw e (
          copy_some-frame num (suc cp) (suc src) a (λ b. if b == cp then mem src else mem b)
            (ground arith)
          ∙ rw other refl)
    ]

-- The bytes of a string of at least `num` bytes are copied, where the two do not overlap.
copy_some-copied :
    (num cp src : ℕ) (mem : ℕ → ℕ)
    → (cp + num ≤ src) ⊎ (src + num ≤ cp)
    → ((i : ℕ) → i < num → mem (src + i) ≢ 0)
    → (i : ℕ) → i < num
    → copy_some num cp src mem (cp + i) ≡ mem (src + i)
unfolding copy_some
copy_some-copied zero cp src mem apart bytes i l = absurd (omega arith)
copy_some-copied (suc num) cp src mem apart bytes i l =
    let mem' : ℕ → ℕ = λ b. if b == cp then mem src else mem b in
    let start : src + 0 ≡ src = omega arith in
    let here : mem (src + 0) ≢ 0 = bytes 0 (omega arith) in
    let more : (mem src == 0) ≡ false = not_zero (mem src) (rw start at here) in
    let same : (j : ℕ) → j < num → mem' (suc src + j) ≡ mem (src + suc j) = λ j k. source j k in
    let rest =
      copy_some-copied num (suc cp) (suc src) mem' (ground arith)
        (λ j k zero_byte. bytes (suc j) (omega (arith, k)) (sym (same j k) ∙ zero_byte)) in
    rw more (at i l rest more)
  where
    not_zero : (x : ℕ) → x ≢ 0 → (x == 0) ≡ false
    not_zero x h = ground arith

    source :
        (j : ℕ)
        → j < num
        → (if suc src + j == cp then mem src else mem (suc src + j)) ≡ mem (src + suc j)
    source j k =
        let other : (suc src + j == cp) ≡ false = ground arith in rw other (ap mem (omega arith))

    at :
        (k : ℕ)
        → k < suc num
        → ((j : ℕ)
            → j < num
            → copy_some num
                (suc cp)
                (suc src)
                (λ b. if b == cp then mem src else mem b)
                (suc cp + j)
              ≡ (if suc src + j == cp then mem src else mem (suc src + j)))
        → (mem src == 0) ≡ false
        → copy_some num (suc cp) (suc src) (λ b. if b == cp then mem src else mem b) (cp + k)
          ≡ mem (src + k)
    at zero k rest more =
        let here : cp + 0 ≡ cp = omega arith in
        let start : src + 0 ≡ src = omega arith in
        let mem' : ℕ → ℕ = λ b. if b == cp then mem src else mem b in
        let kept = copy_some-frame num (suc cp) (suc src) cp mem' (inl (omega arith)) in
        rw (here, start) (kept ∙ rw (==_refl cp) refl)
    at (suc j) k rest more =
        let next : cp + suc j ≡ suc cp + j = omega arith in
        rw next (rest j (omega (arith, k)) ∙ source j (omega (arith, k)))

-- strncat of a string of at least `num` bytes, which lies apart from the end of `dst`, copies `num`
-- bytes to the end of `dst`, and touches no other: the byte behind them is not set to NUL.
pub strncat-unterminated :
    (fuel dst src num cp : ℕ) (mem : ℕ → ℕ)
    → find_end fuel dst mem ≡ some cp
    → (cp + num ≤ src) ⊎ (src + num ≤ cp)
    → ((i : ℕ) → i < num → mem (src + i) ≢ 0)
    → (mem' : ℕ → ℕ) × (strncat fuel dst src num mem ≡ some mem')
      × ((i : ℕ) → i < num → mem' (cp + i) ≡ mem (src + i))
      × ((a : ℕ) → (a < cp) ⊎ (cp + num ≤ a) → mem' a ≡ mem a)
unfolding strncat
strncat-unterminated fuel dst src num cp mem at_end apart bytes = (
  copy_some num cp src mem,
  rw (strncat, at_end) refl,
  copy_some-copied num cp src mem apart bytes,
  λ a out. copy_some-frame num cp src a mem out,
)
