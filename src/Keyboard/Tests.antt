-- ===== src/Keyboard/Tests.antt =====
-- modules/kbd.c: typing.
use bingos.Common.{
  ℕ, ◌+◌, ◌-◌, ◌||◌, ◌≡◌, refl, true, false, none, some, List, [], ◌∷◌, if◌then◌else◌, arith, All,
}
use bingos.Keyboard.{
  Keyboard, kkybrd_scancode_std, switch, kkybrd_key_to_ascii, leds, quiet, released, pressed,
  kbd_callback, callbacks, append_written,
}
use bingos.Keyboard.Shift.{is_known, shift_after, capslock_after, callbacks-shift, callbacks-letter}

abbrev idle : Keyboard
idle = record {
  shift = false;
  alt = false;
  ctrl = false;
  numlock = false;
  scrolllock = false;
  capslock = false;
  scancode = 0;
}

-- Shift and a; the release of shift writes a character too, the low byte of its key code.
typed-capital :
    callbacks (0x2a ∷ 0x1e ∷ 0x9e ∷ 0xaa ∷ []) idle
    ≡ some (b'A' ∷ 2 ∷ [], record idle { scancode = 0x1e })
unfolding callbacks kbd_callback kkybrd_scancode_std pressed released quiet kkybrd_key_to_ascii
    switch append_written
typed-capital = refl

-- Shift and 3 write what shift and 1 write.
typed-three : kkybrd_key_to_ascii (record idle { shift = true }) b'3' ≡ b'!'
unfolding kkybrd_key_to_ascii switch
typed-three = refl

-- F11 is behind the end of the table.
f11 : kbd_callback 1 0x57 idle ≡ none
unfolding kbd_callback kkybrd_scancode_std
f11 = refl

-- With caps lock on, the light of scroll lock shows num lock, and that of num lock is never lit.
leds-numlock : leds true true false ≡ 5
unfolding leds
leds-numlock = refl

callbacks-shift_example :
    (chars : List ℕ) × (t : Keyboard) × (callbacks (0x3a ∷ 0xba ∷ 0x2a ∷ []) idle ≡ some (chars, t))
    × (t.shift ≡ shift_after (0x3a ∷ 0xba ∷ 0x2a ∷ []) false)
    × (t.capslock ≡ capslock_after (0x3a ∷ 0xba ∷ 0x2a ∷ []) false)
unfolding is_known
callbacks-shift_example = callbacks-shift (0x3a ∷ 0xba ∷ 0x2a ∷ []) idle known
  where
    known : All (λ code. is_known code ≡ true) (0x3a ∷ 0xba ∷ 0x2a ∷ [])
    known = (refl, (refl, (refl, tt)))

callbacks-letter_example :
    callbacks (0x1e ∷ (0x1e + 128) ∷ []) idle
    ≡ some ((if false || false then b'a' - 32 else b'a') ∷ [], record idle { scancode = 0x1e })
unfolding kkybrd_scancode_std
callbacks-letter_example =
    callbacks-letter 0x1e b'a' idle (omega arith) refl (omega arith) (omega arith)
