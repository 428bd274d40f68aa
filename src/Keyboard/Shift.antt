-- ===== src/Keyboard/Shift.antt =====
-- modules/kbd.c: the modifier keys and the letters that a list of bytes from the keyboard leaves.
use bingos.Common.{
  ℕ, zero, suc, ◌+◌, ◌-◌, ◌%◌, ◌≤◌, ◌<◌, ◌≡◌, refl, Bool, true, false, not, ◌&&◌, ◌||◌, Option,
  none, some, List, [], ◌∷◌, length, ltb, leb, ◌==◌, if◌then◌else◌, get_elem?, arith, inl, inr,
  Bool-cases, All,
}
use bingos.Keyboard.{
  key_lctrl, key_rctrl, key_lshift, key_rshift, key_lalt, key_ralt, key_capslock, key_kp_numlock,
  key_scrolllock, switch, shift_digit, shift_sign, Keyboard, Effect, kkybrd_scancode_std,
  kkybrd_key_to_ascii, released, pressed, quiet, kbd_callback, callbacks, append_written,
}
use bingos.Keyboard.Keys.{
  class_of_key, class_of_code, class_of_key-get_elem?, released-shift, released-capslock,
  pressed-shift, pressed-capslock,
}

in_list : (xs : List ℕ) (i : ℕ) → i < length xs → (x : ℕ) × (get_elem? xs i ≡ some x)
in_list [] i h = absurd (omega arith)
in_list (x ∷ xs) zero h = (x, refl)
in_list (x ∷ xs) (suc i) h = in_list xs i (omega arith)

-- A key of the table.
table_key : (i : ℕ) → i < 83 → (key : ℕ) × (get_elem? kkybrd_scancode_std i ≡ some key)
unfolding kkybrd_scancode_std
table_key i h = in_list kkybrd_scancode_std i h

-- A byte that presses or releases a key of the table, or the prefix of an extended code.
unfoldable pub is_known : ℕ → Bool
is_known code = code == 0xe0 || code == 0xe1 || ltb code 83 || (leb 128 code && ltb code 211)

-- Shift after a byte, and caps lock after a byte.
pub shift_step : ℕ → Bool → Bool
shift_step code b =
    if code == 0x2a || code == 0x36 then true else if code == 0xaa || code == 0xb6 then false else b

pub capslock_step : ℕ → Bool → Bool
capslock_step code b = if code == 0x3a then not b else b

Steps : ℕ → Keyboard → Option Effect → Type 0
Steps code s o =
    (e : Effect) × (o ≡ some e)
    × (e.state.shift ≡ shift_step code s.shift)
    × (e.state.capslock ≡ capslock_step code s.capslock)

prefix :
    (code : ℕ) (s : Keyboard)
    → (code == 0xe0 || code == 0xe1) ≡ true
    → (s.shift ≡ shift_step code s.shift) × (s.capslock ≡ capslock_step code s.capslock)
unfolding shift_step capslock_step
prefix code s h = (ground arith, ground arith)

class_of_code-release :
    (code : ℕ) (b : Bool)
    → 128 ≤ code
    → (if class_of_code (code - 128) == 1 then false else b) ≡ shift_step code b
unfolding class_of_code shift_step
class_of_code-release code b h = ground arith

class_of_code-press :
    (code : ℕ) (b : Bool)
    → code < 128
    → ((if class_of_code code == 1 then true else b) ≡ shift_step code b)
      × ((if class_of_code code == 2 then not b else b) ≡ capslock_step code b)
unfolding class_of_code shift_step capslock_step
class_of_code-press code b h = (ground arith, ground arith)

release_step :
    (key code : ℕ) (s : Keyboard)
    → class_of_key key ≡ class_of_code (code - 128)
    → 128 ≤ code
    → ((released key s).state.shift ≡ shift_step code s.shift)
      × ((released key s).state.capslock ≡ capslock_step code s.capslock)
unfolding capslock_step
release_step key code s e h =
    let other : (code == 0x3a) ≡ false = ground arith in
    (
      rw (released-shift key s, e) (class_of_code-release code s.shift h),
      rw (released-capslock key s, other) refl,
    )

press_step :
    (key code : ℕ) (s : Keyboard)
    → class_of_key key ≡ class_of_code code
    → code < 128
    → ((pressed key (record s { scancode = code })).state.shift ≡ shift_step code s.shift)
      × ((pressed key (record s { scancode = code })).state.capslock
          ≡ capslock_step code s.capslock)
press_step key code s e h =
    let t = record s { scancode = code } in
    (
      rw (pressed-shift key t, e) ((class_of_code-press code s.shift h).0),
      rw (pressed-capslock key t, e) ((class_of_code-press code s.capslock h).1),
    )

kbd_callback-Steps :
    (code : ℕ) (s : Keyboard) → is_known code ≡ true → Steps code s (kbd_callback 1 code s)
unfolding Steps kbd_callback is_known capslock_step quiet
kbd_callback-Steps code s h = elim (Bool-cases (code == 0xe0 || code == 0xe1)) [
  | inl e ↦ rw e (quiet s, refl, (prefix code s e).0, (prefix code s e).1)
  | inr e ↦ elim (Bool-cases (leb 128 code)) [
    | inl t ↦
        let (key, found) = table_key (code - 128) (ground arith) in
        rw (e, t, found)
          (
            released key s,
            refl,
            (release_step key code s (class_of_key-get_elem? (code - 128) key found)
                (ground arith)).0,
            (release_step key code s (class_of_key-get_elem? (code - 128) key found)
                (ground arith)).1,
          )
    | inr t ↦
        let (key, found) = table_key code (ground arith) in
        rw (e, t, found)
          (
            pressed key (record s { scancode = code }),
            refl,
            (press_step key code s (class_of_key-get_elem? code key found) (ground arith)).0,
            (press_step key code s (class_of_key-get_elem? code key found) (ground arith)).1,
          )
  ]
]

-- Shift and caps lock after the bytes of a list.
pub shift_after : List ℕ → Bool → Bool
shift_after [] b = b
shift_after (code ∷ codes) b = shift_after codes (shift_step code b)

pub capslock_after : List ℕ → Bool → Bool
capslock_after [] b = b
capslock_after (code ∷ codes) b = capslock_after codes (capslock_step code b)

-- The callbacks for bytes that are in the table all return, and leave shift as the last press or
-- release of a shift key set it, and caps lock toggled by each of its presses.
pub callbacks-shift :
    (codes : List ℕ) (s : Keyboard)
    → All (λ code. is_known code ≡ true) codes
    → (chars : List ℕ) × (t : Keyboard) × (callbacks codes s ≡ some (chars, t))
      × (t.shift ≡ shift_after codes s.shift)
      × (t.capslock ≡ capslock_after codes s.capslock)
unfolding callbacks shift_after capslock_after Steps
callbacks-shift [] s known = ([], s, refl, refl, refl)
callbacks-shift (code ∷ codes) s (here, known) =
    let (e, done, shift, capslock) = kbd_callback-Steps code s here in
    let (chars, t, rest, shift', capslock') = callbacks-shift codes e.state known in
    (
      append_written e.written chars,
      t,
      rw (done, rest, callbacks) refl,
      rw (← shift) shift',
      rw (← capslock) capslock',
    )

pressed-letter : (key : ℕ) (t : Keyboard) → b'a' ≤ key → key ≤ b'z' → pressed key t ≡ quiet t
unfolding pressed
pressed-letter key t low high =
    let a : (key == key_lctrl || key == key_rctrl) ≡ false = ground arith in
    let b : (key == key_lshift || key == key_rshift) ≡ false = ground arith in
    let c : (key == key_lalt || key == key_ralt) ≡ false = ground arith in
    let d : (key == key_capslock) ≡ false = ground arith in
    let e : (key == key_kp_numlock) ≡ false = ground arith in
    let f : (key == key_scrolllock) ≡ false = ground arith in rw (a, b, c, d, e, f) refl

-- No sign is a capital letter.
switch-capital : (k : ℕ) → 65 ≤ k → k ≤ 90 → switch shift_sign k ≡ k
unfolding switch
switch-capital k low high =
    let a : (k == b',') ≡ false = ground arith in
    let b : (k == b'.') ≡ false = ground arith in
    let c : (k == b'/') ≡ false = ground arith in
    let d : (k == b';') ≡ false = ground arith in
    let e : (k == 39) ≡ false = ground arith in
    let f : (k == b'[') ≡ false = ground arith in
    let g : (k == b']') ≡ false = ground arith in
    let h : (k == b'`') ≡ false = ground arith in
    let i : (k == b'-') ≡ false = ground arith in
    let j : (k == b'+') ≡ false = ground arith in
    let l : (k == 92) ≡ false = ground arith in rw (a, b, c, d, e, f, g, h, i, j, l) refl

key_to_ascii-letter :
    (key : ℕ) (t : Keyboard)
    → b'a' ≤ key
    → key ≤ b'z'
    → kkybrd_key_to_ascii t key ≡ (if t.shift || t.capslock then key - 32 else key)
unfolding kkybrd_key_to_ascii
key_to_ascii-letter key t low high =
    let byte : key % 256 ≡ key = omega arith in
    let ascii : leb key 127 ≡ true = ground arith in
    let letter : (leb b'a' key && leb key b'z') ≡ true = ground arith in
    let digit : (leb b'0' (key - 32) && leb (key - 32) b'9') ≡ false = ground arith in
    let sign = switch-capital (key - 32) (omega arith) (omega arith) in
    rw (byte, ascii, letter) (by_flags t.shift t.capslock digit sign)
  where
    by_flags :
        (shift capslock : Bool)
        → (leb b'0' (key - 32) && leb (key - 32) b'9') ≡ false
        → switch shift_sign (key - 32) ≡ key - 32
        → (let upper = if (shift || capslock) && true then key - 32 else key in
            if shift && not capslock
            then if leb b'0' upper && leb upper b'9'
              then switch shift_digit upper
              else switch shift_sign upper
            else upper)
          ≡ (if shift || capslock then key - 32 else key)
    by_flags true true digit sign = refl
    by_flags true false digit sign = rw (digit, sign) refl
    by_flags false true digit sign = refl
    by_flags false false digit sign = refl

released-letter :
    (key : ℕ) (t : Keyboard)
    → b'a' ≤ key
    → key ≤ b'z'
    → released key t ≡ record {
      state = t;
      written = some (if t.shift || t.capslock then key - 32 else key);
      lights = none;
    }
unfolding released
released-letter key t low high =
    let a : (key == key_lctrl || key == key_rctrl) ≡ false = ground arith in
    let b : (key == key_lshift || key == key_rshift) ≡ false = ground arith in
    let c : (key == key_lalt || key == key_ralt) ≡ false = ground arith in
    rw (a, b, c, key_to_ascii-letter key t low high) refl

-- A press and a release of the key of a letter write the letter once, as a capital if shift is held
-- or caps lock is on, and leave the modifiers and locks as they were.
pub callbacks-letter :
    (code key : ℕ) (s : Keyboard)
    → code < 83
    → get_elem? kkybrd_scancode_std code ≡ some key
    → b'a' ≤ key
    → key ≤ b'z'
    → callbacks (code ∷ (code + 128) ∷ []) s
      ≡ some ((if s.shift || s.capslock then key - 32 else key) ∷ [], record s { scancode = code })
unfolding callbacks kbd_callback append_written quiet
callbacks-letter code key s h found low high =
    let t = record s { scancode = code } in
    let a : (code == 0xe0 || code == 0xe1) ≡ false = ground arith in
    let b : leb 128 code ≡ false = ground arith in
    let c : (code + 128 == 0xe0 || code + 128 == 0xe1) ≡ false = ground arith in
    let d : leb 128 (code + 128) ≡ true = ground arith in
    let i : code + 128 - 128 ≡ code = omega arith in
    let down : kbd_callback 1 code s ≡ some (quiet t) =
      rw (a, b, found, pressed-letter key t low high, kbd_callback) refl in
    let up : kbd_callback 1 (code + 128) t
        ≡ some (record {
          state = t;
          written = some (if t.shift || t.capslock then key - 32 else key);
          lights = none;
        }) =
      rw (c, d, i, found, released-letter key t low high, kbd_callback) refl in
    rw (down, up, callbacks) refl
