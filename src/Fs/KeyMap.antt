-- ===== src/Fs/KeyMap.antt =====
-- The tables of keys: include/kbd.h. A table is the list of its first characters, and the characters
-- of single keys behind them; `NO`, 0, is the character of every other key.
use jix.Base.{ℕ, zero, suc, List, [], ◌∷◌, ltb, ◌==◌, if◌then◌else◌, length}

-- Entry `i` of a list, and 0 behind its end.
abbrev pub entry : List ℕ → ℕ → ℕ
entry [] i = 0
entry (x ∷ l) zero = x
entry (x ∷ l) (suc i) = entry l i

abbrev pub single : List (ℕ × ℕ) → ℕ → ℕ
single [] i = 0
single ((k, v) ∷ l) i = if k == i then v else single l i

abbrev pub key_table : List ℕ → List (ℕ × ℕ) → ℕ → ℕ
key_table low high i = if ltb i (length low) then entry low i else single high i

abbrev normalmap_low : List ℕ
normalmap_low =
    0 ∷ 27 ∷ 49 ∷ 50 ∷ 51 ∷ 52 ∷ 53 ∷ 54 ∷ 55 ∷ 56 ∷ 57 ∷ 48 ∷ 45 ∷ 61 ∷ 8 ∷ 9 ∷ 113 ∷ 119 ∷ 101
    ∷ 114 ∷ 116 ∷ 121 ∷ 117 ∷ 105 ∷ 111 ∷ 112 ∷ 91 ∷ 93 ∷ 10 ∷ 0 ∷ 97 ∷ 115 ∷ 100 ∷ 102 ∷ 103 ∷ 104
    ∷ 106 ∷ 107 ∷ 108 ∷ 59 ∷ 39 ∷ 96 ∷ 0 ∷ 92 ∷ 122 ∷ 120 ∷ 99 ∷ 118 ∷ 98 ∷ 110 ∷ 109 ∷ 44 ∷ 46 ∷ 47
    ∷ 0 ∷ 42 ∷ 0 ∷ 32 ∷ 0 ∷ 0 ∷ 0 ∷ 0 ∷ 0 ∷ 0 ∷ 0 ∷ 0 ∷ 0 ∷ 0 ∷ 0 ∷ 0 ∷ 0 ∷ 55 ∷ 56 ∷ 57 ∷ 45 ∷ 52
    ∷ 53 ∷ 54 ∷ 43 ∷ 49 ∷ 50 ∷ 51 ∷ 48 ∷ 46 ∷ 0 ∷ 0 ∷ 0 ∷ 0 ∷ []

abbrev normalmap_high : List (ℕ × ℕ)
normalmap_high =
    (0x9c, 10)
    ∷ (0xb5, 47)
    ∷ (0xc8, 226)
    ∷ (0xd0, 227)
    ∷ (0xc9, 230)
    ∷ (0xd1, 231)
    ∷ (0xcb, 228)
    ∷ (0xcd, 229)
    ∷ (0x97, 224)
    ∷ (0xcf, 225)
    ∷ (0xd2, 232)
    ∷ (0xd3, 233)
    ∷ []

unfoldable pub normalmap : ℕ → ℕ
normalmap = key_table normalmap_low normalmap_high

abbrev shiftmap_low : List ℕ
shiftmap_low =
    0 ∷ 27 ∷ 33 ∷ 64 ∷ 35 ∷ 36 ∷ 37 ∷ 94 ∷ 38 ∷ 42 ∷ 40 ∷ 41 ∷ 95 ∷ 43 ∷ 8 ∷ 9 ∷ 81 ∷ 87 ∷ 69 ∷ 82
    ∷ 84 ∷ 89 ∷ 85 ∷ 73 ∷ 79 ∷ 80 ∷ 123 ∷ 125 ∷ 10 ∷ 0 ∷ 65 ∷ 83 ∷ 68 ∷ 70 ∷ 71 ∷ 72 ∷ 74 ∷ 75 ∷ 76
    ∷ 58 ∷ 34 ∷ 126 ∷ 0 ∷ 124 ∷ 90 ∷ 88 ∷ 67 ∷ 86 ∷ 66 ∷ 78 ∷ 77 ∷ 60 ∷ 62 ∷ 63 ∷ 0 ∷ 42 ∷ 0 ∷ 32
    ∷ 0 ∷ 0 ∷ 0 ∷ 0 ∷ 0 ∷ 0 ∷ 0 ∷ 0 ∷ 0 ∷ 0 ∷ 0 ∷ 0 ∷ 0 ∷ 55 ∷ 56 ∷ 57 ∷ 45 ∷ 52 ∷ 53 ∷ 54 ∷ 43 ∷ 49
    ∷ 50 ∷ 51 ∷ 48 ∷ 46 ∷ 0 ∷ 0 ∷ 0 ∷ 0 ∷ []

abbrev shiftmap_high : List (ℕ × ℕ)
shiftmap_high =
    (0x9c, 10)
    ∷ (0xb5, 47)
    ∷ (0xc8, 226)
    ∷ (0xd0, 227)
    ∷ (0xc9, 230)
    ∷ (0xd1, 231)
    ∷ (0xcb, 228)
    ∷ (0xcd, 229)
    ∷ (0x97, 224)
    ∷ (0xcf, 225)
    ∷ (0xd2, 232)
    ∷ (0xd3, 233)
    ∷ []

unfoldable pub shiftmap : ℕ → ℕ
shiftmap = key_table shiftmap_low shiftmap_high

abbrev ctlmap_low : List ℕ
ctlmap_low =
    0 ∷ 0 ∷ 0 ∷ 0 ∷ 0 ∷ 0 ∷ 0 ∷ 0 ∷ 0 ∷ 0 ∷ 0 ∷ 0 ∷ 0 ∷ 0 ∷ 0 ∷ 0 ∷ 17 ∷ 23 ∷ 5 ∷ 18 ∷ 20 ∷ 25 ∷ 21
    ∷ 9 ∷ 15 ∷ 16 ∷ 0 ∷ 0 ∷ 13 ∷ 0 ∷ 1 ∷ 19 ∷ 4 ∷ 6 ∷ 7 ∷ 8 ∷ 10 ∷ 11 ∷ 12 ∷ 0 ∷ 0 ∷ 0 ∷ 0 ∷ 28 ∷ 26
    ∷ 24 ∷ 3 ∷ 22 ∷ 2 ∷ 14 ∷ 13 ∷ 0 ∷ 0 ∷ 239 ∷ 0 ∷ 0 ∷ []

abbrev ctlmap_high : List (ℕ × ℕ)
ctlmap_high =
    (0x9c, 13)
    ∷ (0xb5, 239)
    ∷ (0xc8, 226)
    ∷ (0xd0, 227)
    ∷ (0xc9, 230)
    ∷ (0xd1, 231)
    ∷ (0xcb, 228)
    ∷ (0xcd, 229)
    ∷ (0x97, 224)
    ∷ (0xcf, 225)
    ∷ (0xd2, 232)
    ∷ (0xd3, 233)
    ∷ []

unfoldable pub ctlmap : ℕ → ℕ
ctlmap = key_table ctlmap_low ctlmap_high
