-- ===== src/Keyboard/Keys.antt =====
-- modules/kbd.c: which scan codes are the modifier keys, and the table's keys.
use bingos.Common.{
  ℕ, zero, suc, ◌+◌, ◌≡◌, refl, Bool, true, false, not, ◌&&◌, ◌||◌, some, List, [], ◌∷◌, ◌==◌,
  ==_iff, if◌then◌else◌, get_elem?, arith,
}
use bingos.Keyboard.{
  Keyboard, kkybrd_scancode_std, key_lshift, key_rshift, key_capslock, released, pressed, quiet,
  lit,
}

-- 1 for a shift key, 2 for caps lock and 0 for another key.
pub class_of_key : ℕ → ℕ
class_of_key key =
    if key == key_lshift || key == key_rshift then 1 else if key == key_capslock then 2 else 0

unfoldable pub class_of_code : ℕ → ℕ
class_of_code code = if code == 0x2a || code == 0x36 then 1 else if code == 0x3a then 2 else 0

agrees : List ℕ → ℕ → Bool
agrees [] code = true
agrees (key ∷ keys) code =
    let rest = agrees keys (suc code) in class_of_key key == class_of_code code && rest

and_left : (a b : Bool) → (a && b) ≡ true → a ≡ true
and_left true b h = refl
and_left false b h = h

and_right : (a b : Bool) → (a && b) ≡ true → b ≡ true
and_right true b h = h
and_right false b h = absurd (ground arith)

agrees-get_elem? :
    (keys : List ℕ) (code i key : ℕ)
    → agrees keys code ≡ true
    → get_elem? keys i ≡ some key
    → class_of_key key ≡ class_of_code (code + i)
unfolding agrees
agrees-get_elem? [] code i key h e = absurd (ground arith)
agrees-get_elem? (k ∷ keys) code zero key h e =
    let same : k ≡ key = ground arith in
    let z : code + 0 ≡ code = omega arith in
    let first = and_left (class_of_key k == class_of_code code) (agrees keys (suc code)) h in
    rw (← same, z) ((==_iff (class_of_key k) (class_of_code code)).0 first)
agrees-get_elem? (k ∷ keys) code (suc i) key h e =
    let next : suc code + i ≡ code + suc i = omega arith in
    rw (← next) (
      agrees-get_elem? keys (suc code) i key
        (and_right (class_of_key k == class_of_code code) (agrees keys (suc code)) h) e)

pub class_of_key-get_elem? :
    (i key : ℕ) → get_elem? kkybrd_scancode_std i ≡ some key → class_of_key key ≡ class_of_code i
unfolding agrees kkybrd_scancode_std class_of_key class_of_code
class_of_key-get_elem? i key e =
    let z : 0 + i ≡ i = omega arith in rw z at (agrees-get_elem? kkybrd_scancode_std 0 i key all e)
  where
    all : agrees kkybrd_scancode_std 0 ≡ true
    all = refl

pub released-shift :
    (key : ℕ) (s : Keyboard)
    → (released key s).state.shift ≡ (if class_of_key key == 1 then false else s.shift)
unfolding released class_of_key
released-shift key s = ground arith

pub released-capslock : (key : ℕ) (s : Keyboard) → (released key s).state.capslock ≡ s.capslock
unfolding released
released-capslock key s = ground arith

pub pressed-shift :
    (key : ℕ) (s : Keyboard)
    → (pressed key s).state.shift ≡ (if class_of_key key == 1 then true else s.shift)
unfolding pressed class_of_key quiet lit
pressed-shift key s = ground arith

pub pressed-capslock :
    (key : ℕ) (s : Keyboard)
    → (pressed key s).state.capslock
      ≡ (if class_of_key key == 2 then not s.capslock else s.capslock)
unfolding pressed class_of_key quiet lit
pressed-capslock key s = ground arith
