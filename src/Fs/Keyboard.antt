-- ===== src/Fs/Keyboard.antt =====
-- The keyboard driver: fs/kbd.c. What the controller has is a byte below 256, or none.
use jix.Base.{
  ℕ, ◌+◌, ◌-◌, ◌%◌, ◌^◌, Bool, true, false, not, ◌&&◌, ◌||◌, Option, none, some, leb, ◌==◌,
  if◌then◌else◌, ℤ, pos, minus_one, to_int,
}
use jix.Fs.KeyMap.{normalmap, shiftmap, ctlmap}

-- The flags of `shift`, and their bits.
pub data Flag : Type 0 where
  shift ctl alt capslock numlock scrolllock e0esc : Flag

abbrev pub flag_bit : Flag → ℕ
flag_bit shift = 1
flag_bit ctl = 2
flag_bit alt = 4
flag_bit capslock = 8
flag_bit numlock = 16
flag_bit scrolllock = 32
flag_bit e0esc = 64

abbrev pub Flags : Type 0
Flags = Flag → Bool

-- The flag, or 0, has the bit of `g`.
abbrev pub hits : Option Flag → Flag → Bool
hits none g = false
hits (some f) g = flag_bit f == flag_bit g

-- `shift |= f`, `shift &= ~f` and `shift ^= f`, for a flag or for 0.
abbrev pub set_flag : Option Flag → Flags → Flags
set_flag f s g = if hits f g then true else s g

abbrev pub clear_flag : Option Flag → Flags → Flags
clear_flag f s g = if hits f g then false else s g

abbrev pub toggle_flag : Option Flag → Flags → Flags
toggle_flag f s g = if hits f g then not (s g) else s g

unfoldable pub shiftcode : ℕ → Option Flag
shiftcode i =
    if i == 0x1D || i == 0x9D
    then some ctl
    else if i == 0x2A || i == 0x36
    then some shift
    else if i == 0x38 || i == 0xB8
    then some alt
    else none

unfoldable pub togglecode : ℕ → Option Flag
togglecode i =
    if i == 0x3A
    then some capslock
    else if i == 0x45
    then some numlock
    else if i == 0x46
    then some scrolllock
    else none

-- `charcode[shift & (CTL | SHIFT)]`.
unfoldable pub charcode : Flags → ℕ → ℕ
charcode s i = if s ctl then ctlmap i else if s shift then shiftmap i else normalmap i

-- The tests of the caps lock as they stand: `'a' >= c && c <= 'z'`, and `'A' >= c && c <= 'Z'`.
abbrev pub with_capslock : ℕ → ℕ
with_capslock c =
    if leb c 97 && leb c 122
    then (c + (2 ^ 32 - 32)) % 2 ^ 32
    else if leb c 65 && leb c 90
    then c + 32
    else c

-- A key that goes down, with the code that it has in the tables.
unfoldable pub key_down : ℕ → Flags → ℤ × Flags
key_down code s =
    let s' = toggle_flag (togglecode code) (set_flag (shiftcode code) s) in
    let c = charcode s' code in (to_int (if s' capslock then with_capslock c else c), s')

-- A key that goes up.
unfoldable pub key_up : ℕ → Flags → Flags
key_up byte s =
    let code = if s e0esc then byte else byte % 0x80 in
    clear_flag (some e0esc) (clear_flag (shiftcode code) s)

-- `kbdgetc`: what it returns, and the flags.
unfoldable pub kbdgetc : Option ℕ → Flags → ℤ × Flags
kbdgetc none s = (minus_one, s)
kbdgetc (some byte) s =
    if byte == 0xE0
    then (pos 0, set_flag (some e0esc) s)
    else if leb 0x80 byte
    then (pos 0, key_up byte s)
    else if s e0esc
    then key_down (byte + 0x80) (clear_flag (some e0esc) s)
    else key_down byte s
