-- ===== src/Common/Names.antt =====
-- libc/string.c: names, as the lists of their bytes without the NUL, and `!strcmp`.
use Prim.Native.Nat.{ℕ}
use mathlib.Core.Path.{◌≡◌, refl}
use mathlib.Core.Bool.{Bool, true, false, ◌&&◌}
use mathlib.Core.List.{List, [], ◌∷◌}
use native.Mathlib.Omega.{arith}
use bingos.Common.Tests.{◌==◌, ==_refl}

abbrev pub Name : Type 0
Name = List ℕ

-- `!strcmp(a, b)`
unfoldable pub name_eq : Name → Name → Bool
name_eq [] [] = true
name_eq [] (b ∷ bs) = false
name_eq (a ∷ xs) [] = false
name_eq (a ∷ xs) (b ∷ bs) = (a == b) && name_eq xs bs

pub name_eq_refl : (a : Name) → name_eq a a ≡ true
unfolding name_eq
name_eq_refl [] = refl
name_eq_refl (x ∷ a) = rw (==_refl x, name_eq_refl a)

pub name_eq→≡ : (a b : Name) → name_eq a b ≡ true → a ≡ b
unfolding name_eq
name_eq→≡ [] [] h = refl
name_eq→≡ [] (y ∷ b) h = absurd (ground arith)
name_eq→≡ (x ∷ a) [] h = absurd (ground arith)
name_eq→≡ (x ∷ a) (y ∷ b) h =
    let e : x ≡ y = ground arith in
    let es : name_eq a b ≡ true = ground arith in rw (e, name_eq→≡ a b es)

pub name_eq_sym : (a b : Name) → name_eq a b ≡ name_eq b a
unfolding name_eq
name_eq_sym [] [] = refl
name_eq_sym [] (y ∷ b) = refl
name_eq_sym (x ∷ a) [] = refl
name_eq_sym (x ∷ a) (y ∷ b) = rw (name_eq_sym a b) (ground arith)
