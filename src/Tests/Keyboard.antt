-- ===== src/Tests/Keyboard.antt =====
-- Tests of the keyboard driver.
use jix.Base.{◌≡◌, refl, false, some, pos}
use jix.Fs.KeyMap.{normalmap}
use jix.Fs.Keyboard.{
  Flags, capslock, toggle_flag, shiftcode, togglecode, charcode, key_down, kbdgetc,
}

-- No flag is set.
abbrev clear : Flags
clear g = false

-- With the caps lock the key of `b` gives `b`, and the key of `1` gives a control character.
abbrev locked : Flags
locked = toggle_flag (some capslock) clear

key_b : (kbdgetc (some 0x30) locked).0 ≡ pos 98
unfolding kbdgetc key_down charcode normalmap shiftcode togglecode
key_b = refl

key_1 : (kbdgetc (some 0x02) locked).0 ≡ pos 17
unfolding kbdgetc key_down charcode normalmap shiftcode togglecode
key_1 = refl
