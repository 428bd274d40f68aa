-- ===== src/Pipe/Ring.antt =====
-- The ring of fs/pipe.c: its invariant, its two counts, and the bytes that it holds.
use bingos.Common.{
  ℕ, zero, suc, ◌+◌, ◌-◌, ◌<◌, ◌^◌, ◌≡◌, ◌≢◌, refl, List, [], ◌∷◌, ◌++◌, arith, ltb, if◌then◌else◌,
  length, get_or, set, length-set, get_or-set_self, get_or-set_ne,
}
use mathlib.Core.Path.{ap, ap₂, ◌∙◌}
use bingos.Pipe.{Pipe, next_index, available, unread, take_byte, put_byte}

-- The buffer has `size` bytes, and both pointers stay inside it.
pub record IsValid (p : Pipe) : Type 0 where
  pub storage : length p.buffer ≡ p.size
  pub small : p.size < 2 ^ 32
  pub read_in : p.read_ptr < p.size
  pub write_in : p.write_ptr < p.size

-- The two counts add up to the capacity, which is one byte less than the buffer: the pointers
-- never meet with unread bytes between them, and no subtraction wraps.
pub unread-add-available : {p : Pipe} → IsValid p → unread p + available p + 1 ≡ p.size
unfolding unread available
unread-add-available v = ground arith

-- The `n`-th index after `h`.
abbrev pub wrap : ℕ → ℕ → ℕ
wrap size k = if ltb k size then k else k - size

pub write_ptr-eq-wrap : {p : Pipe} → IsValid p → p.write_ptr ≡ wrap p.size (p.read_ptr + unread p)
unfolding unread
write_ptr-eq-wrap v = ground arith

module _ (buf : List ℕ) (size : ℕ) where
  -- The `n` bytes from index `h` on.
  abbrev pub window : ℕ → ℕ → List ℕ
  window h zero = []
  window h (suc n) = get_or buf h 0 ∷ window (next_index size h) n

  pub length-window : (h n : ℕ) → length (window h n) ≡ n
  length-window h zero = refl
  length-window h (suc n) = ap suc (length-window (next_index size h) n)

-- What has been written and not read, oldest first.
abbrev pub contents : Pipe → List ℕ
contents p = window p.buffer p.size p.read_ptr (unread p)

pub length-contents : (p : Pipe) → length (contents p) ≡ unread p
length-contents p = length-window p.buffer p.size p.read_ptr (unread p)

wrap-next :
    (size h n : ℕ)
    → size < 2 ^ 32
    → h < size
    → n < size
    → wrap size (h + suc n) ≡ wrap size (next_index size h + n)
wrap-next size h n s hh hn = ground arith

wrap-ne : (size h n : ℕ) → h < size → suc n < size → wrap size (h + suc n) ≢ h
wrap-ne size h n hh hn = ground arith

next_index-lt : (size h : ℕ) → size < 2 ^ 32 → h < size → next_index size h < size
next_index-lt size h s hh = ground arith

-- A write just behind a window makes it longer by that byte.
window-set :
    (buf : List ℕ) (size x n h i : ℕ)
    → length buf ≡ size
    → size < 2 ^ 32
    → h < size
    → n < size
    → i ≡ wrap size (h + n)
    → window (set buf i x) size h (suc n) ≡ window buf size h n ++ (x ∷ [])
window-set buf size x zero h i len small hh hn e =
    let at : i ≡ h = ground arith in
    ap (λ y. y ∷ [])
      (ap (λ j. get_or (set buf j x) h 0) at ∙ get_or-set_self buf h x 0 (omega arith))
window-set buf size x (suc n) h i len small hh hn e =
    ap₂ ◌∷◌ (get_or-set_ne buf i h x 0 (λ p. wrap-ne size h n hh hn (omega arith))) (
      window-set buf size x n (next_index size h) i len small (next_index-lt size h small hh)
        (omega arith) (e ∙ wrap-next size h n small hh (omega arith)))

-- Putting a byte into a ring that is not full keeps it valid and appends the byte.
pub put_byte-IsValid : {p : Pipe} (x : ℕ) → IsValid p → IsValid (put_byte p x)
unfolding put_byte
put_byte-IsValid {p} x v = ground (arith, length-set p.buffer p.write_ptr x)

pub unread-put_byte :
    {p : Pipe} (x : ℕ) → IsValid p → 0 < available p → unread (put_byte p x) ≡ unread p + 1
unfolding unread available put_byte
unread-put_byte x v h = ground arith

window-suc :
    (buf : List ℕ) (size h n m : ℕ) → m ≡ n + 1 → window buf size h m ≡ window buf size h (suc n)
window-suc buf size h n m e = let e' : m ≡ suc n = omega arith in ap (window buf size h) e'

pub contents-put_byte :
    {p : Pipe} (x : ℕ)
    → IsValid p
    → 0 < available p
    → contents (put_byte p x) ≡ contents p ++ (x ∷ [])
unfolding put_byte
contents-put_byte {p} x v h =
    window-suc _ p.size p.read_ptr (unread p) _ (unread-put_byte x v h)
    ∙ window-set p.buffer p.size x (unread p) p.read_ptr p.write_ptr v.storage v.small v.read_in
        (omega (arith, unread-add-available v)) (write_ptr-eq-wrap v)

-- Taking a byte out of a ring that is not empty keeps it valid and removes the oldest byte.
pub take_byte-IsValid : {p : Pipe} → IsValid p → IsValid (take_byte p).1
unfolding take_byte
take_byte-IsValid v = ground arith

pub unread-take_byte :
    {p : Pipe} → IsValid p → 0 < unread p → unread p ≡ suc (unread (take_byte p).1)
unfolding unread take_byte
unread-take_byte v h = ground arith

pub contents-take_byte :
    {p : Pipe} → IsValid p → 0 < unread p → contents p ≡ (take_byte p).0 ∷ contents (take_byte p).1
unfolding take_byte
contents-take_byte {p} v h = ap (window p.buffer p.size p.read_ptr) (unread-take_byte v h)
