-- ===== src/Fs/TtyScreen.antt =====
-- What fs/tty.c writes to the screen: nothing outside the video memory.
use jix.Base.{ℕ, ◌+◌, ◌*◌, ◌≤◌, ◌<◌, ◌≡◌, refl, ◌∙◌, ◌≢◌, List, [], ◌∷◌, arith}
use jix.Fs.Tty.{
  Tty, cols, screen_size, newline, backspace, cell, put_char, scroll, tty_putc, tty_write,
}

-- From `t` to `t'` the cursor stays on the screen, and memory outside the screen is as before.
pub record StaysOn (t t' : Tty) : Type 0 where
  pub on_screen : t'.pos < screen_size
  pub outside : (x : ℕ) → screen_size ≤ x → t'.base x ≡ t.base x

StaysOn-trans : {t u v : Tty} → StaysOn t u → StaysOn u v → StaysOn t v
StaysOn-trans h g = record {
  on_screen = g.on_screen;
  outside = λ x le. g.outside x le ∙ h.outside x le;
}

put_char-bound : (ch : ℕ) (t : Tty) → t.pos < screen_size → (put_char ch t).pos ≤ screen_size
unfolding put_char
put_char-bound ch t lt = ground arith

put_char-outside :
    (ch : ℕ) (t : Tty) (x : ℕ)
    → t.pos < screen_size
    → screen_size ≤ x
    → (put_char ch t).base x ≡ t.base x
unfolding put_char
put_char-outside ch t x lt le = ground arith

-- One character, at any position on the screen, keeps the cursor on the screen and writes nothing
-- outside it.
pub tty_putc-StaysOn : (ch : ℕ) (t : Tty) → t.pos < screen_size → StaysOn t (tty_putc ch t)
unfolding tty_putc scroll
tty_putc-StaysOn ch t lt = record {
  on_screen = let b = put_char-bound ch t lt in ground arith;
  outside = λ x le.
      let b = put_char-bound ch t lt in let o = put_char-outside ch t x lt le in ground arith;
}

-- `tty_write` of any bytes keeps a cursor that is on the screen there and writes nothing outside it.
pub tty_write-StaysOn : (s : List ℕ) (t : Tty) → t.pos < screen_size → StaysOn t (tty_write s t)
unfolding tty_write
tty_write-StaysOn [] t lt = record { on_screen = lt; outside = λ x le. refl }
tty_write-StaysOn (c ∷ s) t lt =
    let h = tty_putc-StaysOn c t lt in
    StaysOn-trans h (tty_write-StaysOn s (tty_putc c t) h.on_screen)

-- A printable character appears at the cursor in the current colour, unless the screen then scrolls,
-- and the cursor moves behind it.
pub tty_putc_shows :
    (ch : ℕ) (t : Tty)
    → ch ≢ newline
    → ch ≢ backspace
    → t.pos + 1 < 23 * cols
    → ((tty_putc ch t).base t.pos ≡ cell ch t.color)
      × ((tty_putc ch t).pos ≡ t.pos + 1)
      × ((x : ℕ) → x ≢ t.pos → (tty_putc ch t).base x ≡ t.base x)
unfolding tty_putc scroll put_char
tty_putc_shows ch t nn nb room = (ground arith, ground arith, λ x ne. ground arith)
