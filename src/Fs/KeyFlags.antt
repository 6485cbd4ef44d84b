-- ===== src/Fs/KeyFlags.antt =====
-- The flags of the keyboard driver over the presses of a key: fs/kbd.c.
use jix.Base.{
  ℕ, ◌+◌, ◌%◌, ◌<◌, ◌≡◌, refl, ap, ◌∙◌, ◌≢◌, ◌⊎◌, inl, inr, Bool, true, false, not, ◌||◌, none,
  some, arith, leb, ◌==◌, if◌then◌else◌, Bool-cases,
}
use jix.Fs.Keyboard.{
  Flag, e0esc, shift, ctl, alt, capslock, numlock, scrolllock, Flags, hits, set_flag, toggle_flag,
  shiftcode, togglecode, key_down, key_up, kbdgetc,
}

toggle-cases :
    (d : ℕ)
    → (togglecode d ≡ none)
      ⊎ ((shiftcode d ≡ none)
          × ((togglecode d ≡ some capslock)
              ⊎ (togglecode d ≡ some numlock)
              ⊎ (togglecode d ≡ some scrolllock)))
unfolding togglecode shiftcode
toggle-cases d = elim (Bool-cases (d == 0x3A)) [
  | inl e ↦ let e' : d ≡ 0x3A = ground arith in rw e' (inr (refl, inl refl))
  | inr ne ↦ elim (Bool-cases (d == 0x45)) [
    | inl e ↦ let e' : d ≡ 0x45 = ground arith in rw e' (inr (refl, inr (inl refl)))
    | inr ne' ↦ elim (Bool-cases (d == 0x46)) [
      | inl e ↦ let e' : d ≡ 0x46 = ground arith in rw e' (inr (refl, inr (inr refl)))
      | inr ne2 ↦ inl (rw (ne, ne', ne2) refl)
    ]
  ]
]

-- No table has the escape.
toggle-e0 : (d : ℕ) → hits (togglecode d) e0esc ≡ false
toggle-e0 d = elim (toggle-cases d) [
  | inl n ↦ rw n refl
  | inr (z, inl c) ↦ rw c refl
  | inr (z, inr (inl c)) ↦ rw c refl
  | inr (z, inr (inr c)) ↦ rw c refl
]

shift-e0 : (d : ℕ) → hits (shiftcode d) e0esc ≡ false
unfolding shiftcode
shift-e0 d = elim (Bool-cases (d == 0x1D || d == 0x9D)) [
  | inl e ↦ rw e refl
  | inr ne ↦ elim (Bool-cases (d == 0x2A || d == 0x36)) [
    | inl e ↦ rw (ne, e) refl
    | inr ne' ↦ elim (Bool-cases (d == 0x38 || d == 0xB8)) [
      | inl e ↦ rw (ne, ne', e) refl
      | inr ne2 ↦ rw (ne, ne', ne2) refl
    ]
  ]
]

-- A key is not in both tables.
apart : (d : ℕ) (g : Flag) → hits (shiftcode d) g ≡ true → hits (togglecode d) g ≡ false
apart d g h = elim (toggle-cases d) [
  | inl n ↦ rw n refl
  | inr (z, c) ↦ let h' : hits none g ≡ true = rw z at h in absurd (cc)
]

e0-only : (g : Flag) → hits (some e0esc) g ≡ true → g ≡ e0esc
e0-only shift h = absurd (cc)
e0-only ctl h = absurd (cc)
e0-only alt h = absurd (cc)
e0-only capslock h = absurd (cc)
e0-only numlock h = absurd (cc)
e0-only scrolllock h = absurd (cc)
e0-only e0esc h = refl

-- A flag set, toggled and cleared, by whether it is the escape, the key's own flag, or toggled.
settled :
    (e s t v : Bool)
    → (e ≡ true → (t ≡ false) × (v ≡ false))
    → (s ≡ true → (t ≡ false) × (v ≡ false))
    → (if e
        then false
        else if s
        then false
        else if t
        then not (if s then true else v)
        else if s
        then true
        else v)
      ≡ (if t then not v else v)
settled true s t v he hs = let (a, b) = he refl in rw (a, b) refl
settled false true t v he hs = let (a, b) = hs refl in rw (a, b) refl
settled false false t v he hs = refl

-- No escape waits, and the key is up.
pub record IsUp (d : ℕ) (s : Flags) : Type 0 where
  pub plain : s e0esc ≡ false
  pub own : (g : Flag) → hits (shiftcode d) g ≡ true → s g ≡ false

-- The flags behind a key that goes down and up.
abbrev pub typed : ℕ → Flags → Flags
typed d s = let (r, s') = kbdgetc (some d) s in let (r', s2) = kbdgetc (some (d + 0x80)) s' in s2

module _ (d : ℕ) (s : Flags) (lt : d < 0x80) (ne : d ≢ 0x60) (up : IsUp d s) where
  abbrev down : Flags
  down = toggle_flag (togglecode d) (set_flag (shiftcode d) s)

  down-plain : down e0esc ≡ false
  down-plain = rw (toggle-e0 d, shift-e0 d) up.plain

  kbdgetc-down : (kbdgetc (some d) s).1 ≡ down
  unfolding kbdgetc key_down
  kbdgetc-down =
      let a : (d == 0xE0) ≡ false = ground arith in
      let b : leb 0x80 d ≡ false = ground arith in rw (a, b, up.plain) refl

  kbdgetc-up : (g : Flag) → (kbdgetc (some (d + 0x80)) down).1 g ≡ toggle_flag (togglecode d) s g
  unfolding kbdgetc key_up
  kbdgetc-up g =
      let a : (d + 0x80 == 0xE0) ≡ false = ground arith in
      let b : leb 0x80 (d + 0x80) ≡ true = ground arith in
      let c : (d + 0x80) % 0x80 ≡ d = omega arith in
      rw (a, b, down-plain, c)
        (settled (hits (some e0esc) g) (hits (shiftcode d) g) (hits (togglecode d) g) (s g)
          (λ h. let e = e0-only g h in rw e (toggle-e0 d, up.plain))
          (λ h. (apart d g h, up.own g h)))

  typed-toggled : (g : Flag) → typed d s g ≡ toggle_flag (togglecode d) s g
  typed-toggled g =
      ap (λ (k : Flags). (kbdgetc (some (d + 0x80)) k).1 g) kbdgetc-down ∙ kbdgetc-up g

typed-IsUp : (d : ℕ) (s : Flags) → d < 0x80 → d ≢ 0x60 → IsUp d s → IsUp d (typed d s)
typed-IsUp d s lt ne up = record {
  plain = typed-toggled d s lt ne up e0esc ∙ rw (toggle-e0 d) up.plain;
  own = λ g h. typed-toggled d s lt ne up g ∙ rw (apart d g h) (up.own g h);
}

toggle_twice :
    (h v : Bool) → (if h then not (if h then not v else v) else if h then not v else v) ≡ v
toggle_twice true true = refl
toggle_twice true false = refl
toggle_twice false v = refl

-- A key with a code below 0x80, not 0x60, whose release is the escape's byte, that goes down and up
-- twice while no escape waits and its own flag is clear, leaves every flag as it was; after the first
-- time the flags are as before but for the lock that the key has in the table, which is the other way.
pub kbdgetc-twice :
    (d : ℕ) (s : Flags) (g : Flag)
    → d < 0x80
    → d ≢ 0x60
    → IsUp d s
    → (typed d s g ≡ toggle_flag (togglecode d) s g) × (typed d (typed d s) g ≡ s g)
kbdgetc-twice d s g lt ne up =
    let once = typed-toggled d s lt ne up g in
    let twice = typed-toggled d (typed d s) lt ne (typed-IsUp d s lt ne up) g in
    (
      once,
      twice
          ∙ ap (λ v. if hits (togglecode d) g then not v else v) once
          ∙ toggle_twice (hits (togglecode d) g) (s g),
    )
