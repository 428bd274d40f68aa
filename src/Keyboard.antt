-- ===== src/Keyboard.antt =====
-- modules/kbd.c: the keyboard, from scan codes to the characters in the keyboard's pipe.
--
-- A callback sees the status and the byte that the ports answer; what it writes into the pipe and
-- sends to the controller are results. The table of scan codes has 83 entries, and a code behind its
-- end is `none`.
pub mod Keys
pub mod Shift
mod Tests
use Prim.Native.Nat.{bit_and, bit_or}
use bingos.Common.{
  ℕ, zero, suc, ◌+◌, ◌-◌, ◌%◌, Bool, true, false, not, ◌&&◌, ◌||◌, Option, none, some, List, [],
  ◌∷◌, length, ltb, leb, ◌==◌, if◌then◌else◌, get_elem?,
}

-- The key codes that are not characters.
abbrev pub key_lshift : ℕ
key_lshift = 0x4002

abbrev pub key_lctrl : ℕ
key_lctrl = 0x4003

abbrev pub key_lalt : ℕ
key_lalt = 0x4004

abbrev pub key_rshift : ℕ
key_rshift = 0x4006

abbrev pub key_rctrl : ℕ
key_rctrl = 0x4007

abbrev pub key_ralt : ℕ
key_ralt = 0x4008

abbrev pub key_capslock : ℕ
key_capslock = 0x4001

abbrev pub key_kp_numlock : ℕ
key_kp_numlock = 0x300f

abbrev pub key_scrolllock : ℕ
key_scrolllock = 0x4010

abbrev pub key_unknown : ℕ
key_unknown = 0x4012

-- `_kkybrd_scancode_std`, in rows of eight scan codes.
pub kkybrd_scancode_std : List ℕ
kkybrd_scancode_std =
    key_unknown ∷ 0x1001 ∷ b'1' ∷ b'2' ∷ b'3' ∷ b'4' ∷ b'5' ∷ b'6' ∷ b'7' ∷ b'8' ∷ b'9' ∷ b'0'
    ∷ b'-' ∷ b'=' ∷ 8 ∷ 0x4000 ∷ b'q' ∷ b'w' ∷ b'e' ∷ b'r' ∷ b't' ∷ b'y' ∷ b'u' ∷ b'i' ∷ b'o' ∷ b'p'
    ∷ b'[' ∷ b']' ∷ 13 ∷ key_lctrl ∷ b'a' ∷ b's' ∷ b'd' ∷ b'f' ∷ b'g' ∷ b'h' ∷ b'j' ∷ b'k' ∷ b'l'
    ∷ b';' ∷ 39 ∷ b'`' ∷ key_lshift ∷ 92 ∷ b'z' ∷ b'x' ∷ b'c' ∷ b'v' ∷ b'b' ∷ b'n' ∷ b'm' ∷ b','
    ∷ b'.' ∷ b'/' ∷ key_rshift ∷ b'*' ∷ key_ralt ∷ b' ' ∷ key_capslock ∷ 0x1201 ∷ 0x1202 ∷ 0x1203
    ∷ 0x1204 ∷ 0x1205 ∷ 0x1206 ∷ 0x1207 ∷ 0x1208 ∷ 0x1209 ∷ 0x120a ∷ key_kp_numlock ∷ key_scrolllock
    ∷ 0x400c ∷ b'8' ∷ 0x400e ∷ b'2' ∷ b'3' ∷ b'0' ∷ b'.' ∷ key_unknown ∷ key_unknown ∷ key_unknown
    ∷ 0x120b ∷ 0x120b ∷ []

-- The static variables, but for the results of the self tests, which nothing reads.
pub record Keyboard : Type 0 where
  pub shift : Bool
  pub alt : Bool
  pub ctrl : Bool
  pub numlock : Bool
  pub scrolllock : Bool
  pub capslock : Bool
  pub scancode : ℕ

-- `num` and its like as numbers.
abbrev pub flag : Bool → ℕ
flag b = if b then 1 else 0

-- The byte that `kkybrd_set_leds` sends for the lights.
pub leds : Bool → Bool → Bool → ℕ
leds num caps scroll = if caps then bit_or (flag num) 4 else bit_and (flag num) 4

-- A `switch` that replaces a key, as the list of its cases.
pub switch : List (ℕ × ℕ) → ℕ → ℕ
switch [] key = key
switch ((old, new) ∷ cases) key = let rest = switch cases key in if key == old then new else rest

-- The `switch` on a digit with shift.
abbrev pub shift_digit : List (ℕ × ℕ)
shift_digit =
    (b'0', b')')
    ∷ (b'1', b'!')
    ∷ (b'2', b'@')
    ∷ (b'3', b'!')
    ∷ (b'4', b'#')
    ∷ (b'5', b'%')
    ∷ (b'6', b'^')
    ∷ (b'7', b'&')
    ∷ (b'8', b'*')
    ∷ (b'9', b'(')
    ∷ []

-- The `switch` on another character with shift; 39 is a quote, 34 a double quote and 92 a backslash.
abbrev pub shift_sign : List (ℕ × ℕ)
shift_sign =
    (b',', b'<')
    ∷ (b'.', b'>')
    ∷ (b'/', b'?')
    ∷ (b';', b':')
    ∷ (39, 34)
    ∷ (b'[', b'{')
    ∷ (b']', b'}')
    ∷ (b'`', b'~')
    ∷ (b'-', b'_')
    ∷ (b'+', b'=')
    ∷ (92, b'|')
    ∷ []

-- The character of a key code, whose low byte decides.
pub kkybrd_key_to_ascii : Keyboard → ℕ → ℕ
kkybrd_key_to_ascii s code =
    let key = code % 256 in
    let upper =
      if (s.shift || s.capslock) && (leb b'a' key && leb key b'z') then key - 32 else key in
    if leb key 127
    then if s.shift && not s.capslock
      then if leb b'0' upper && leb upper b'9'
        then switch shift_digit upper
        else switch shift_sign upper
      else upper
    else 0

-- What a callback leaves: the state, the character it wrote into the pipe and the lights it sent.
pub record Effect : Type 0 where
  pub state : Keyboard
  pub written : Option ℕ
  pub lights : Option ℕ

-- The branch of `kbd_callback` for the release of a key.
pub released : ℕ → Keyboard → Effect
released key s = record {
  state =
      if key == key_lctrl || key == key_rctrl
      then record s { ctrl = false }
      else if key == key_lshift || key == key_rshift
      then record s { shift = false }
      else if key == key_lalt || key == key_ralt
      then record s { alt = false }
      else s;
  written = some (kkybrd_key_to_ascii s key);
  lights = none;
}

pub lit : Keyboard → Effect
unfolding leds
lit s = record { state = s; written = none; lights = some (leds s.numlock s.capslock s.scrolllock) }

pub quiet : Keyboard → Effect
quiet s = record { state = s; written = none; lights = none }

-- The branch for the press of a key.
pub pressed : ℕ → Keyboard → Effect
pressed key s =
    if key == key_lctrl || key == key_rctrl
    then quiet (record s { ctrl = true })
    else if key == key_lshift || key == key_rshift
    then quiet (record s { shift = true })
    else if key == key_lalt || key == key_ralt
    then quiet (record s { alt = true })
    else if key == key_capslock
    then lit (record s { capslock = not s.capslock })
    else if key == key_kp_numlock
    then lit (record s { numlock = not s.numlock })
    else if key == key_scrolllock
    then lit (record s { scrolllock = not s.scrolllock })
    else quiet s

-- `kbd_callback`, with the status and the byte of the keyboard. A prefix of an extended code is
-- passed over, and forgotten.
pub kbd_callback : ℕ → ℕ → Keyboard → Option Effect
kbd_callback status code s =
    if bit_and status 1 == 0 || (code == 0xe0 || code == 0xe1)
    then some (quiet s)
    else if leb 128 code
    then (elim (get_elem? kkybrd_scancode_std (code - 128)) [
      | none ↦ none
      | some key ↦ some (released key s)
    ])
    else (elim (get_elem? kkybrd_scancode_std code) [
      | none ↦ none
      | some key ↦ some (pressed key (record s { scancode = code }))
    ])

pub append_written : Option ℕ → List ℕ → List ℕ
append_written none chars = chars
append_written (some c) chars = c ∷ chars

-- The callbacks for a list of bytes: what they wrote, and the state after them.
pub callbacks : List ℕ → Keyboard → Option (List ℕ × Keyboard)
callbacks [] s = some ([], s)
callbacks (code ∷ codes) s = elim (kbd_callback 1 code s) [
  | none ↦ none
  | some e ↦ elim (callbacks codes e.state) [
    | none ↦ none
    | some (chars, t) ↦ some (append_written e.written chars, t)
  ]
]
