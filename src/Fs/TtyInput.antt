-- ===== src/Fs/TtyInput.antt =====
-- The input queue of fs/tty.c: typed codes go in at `ttyintr` and come out at `tty_read`.
use jix.Base.{
  ℕ, zero, suc, ◌+◌, ◌-◌, ◌%◌, ◌^◌, ◌<◌, ◌≡◌, refl, sym, ap, ap₂, ◌∙◌, ◌≢◌, inl, inr, Bool, true,
  false, not, ◌&&◌, List, [], ◌∷◌, ◌++◌, arith, ltb, ◌==◌, if◌then◌else◌, Bool-cases, update,
  update_self, update-ne,
}
use jix.Kernel.State.{Kernel}
use jix.Fs.Tty.{
  Tty, screen_size, buf_size, backspace, ctrl_c, echoes, by_line, put_char, scroll, tty_putc, store,
  type_char, type_code, ttyintr,
}
use jix.Fs.TtyScreen.{tty_putc-StaysOn}

-- The queue has room for one more byte than it will hold, and the cursor is on the screen.
pub record IsValid (t : Tty) : Type 0 where
  pub head_in : t.buf_head < buf_size
  pub count_in : t.count < buf_size
  pub on_screen : t.pos < screen_size

-- The `n` bytes from index `h` on, going round at the end of the buffer.
abbrev pub window : (ℕ → ℕ) → ℕ → ℕ → List ℕ
window b h zero = []
window b h (suc n) = b h ∷ window b ((h + 1) % buf_size) n

-- The bytes that wait to be read, the oldest first.
abbrev pub pending : Tty → List ℕ
pending t = window t.in_buf t.buf_head t.count

-- A list without its last byte: what a backspace leaves.
abbrev pub drop_last : List ℕ → List ℕ
drop_last [] = []
drop_last (x ∷ []) = []
drop_last (x ∷ (y ∷ l)) = x ∷ drop_last (y ∷ l)

window-put :
    (b : ℕ → ℕ) (h n x i : ℕ)
    → h < buf_size
    → n < buf_size
    → i ≡ (h + n) % buf_size
    → window (update b i x) h (suc n) ≡ window b h n ++ (x ∷ [])
window-put b h zero x i lt room e = let at : i ≡ h = omega arith in rw at (rw (update_self b h x))
window-put b h (suc n) x i lt room e =
    let ne : i ≢ h = omega arith in
    let next = window-put b ((h + 1) % buf_size) n x i (omega arith) (omega arith) (omega arith) in
    ap₂ (λ a l. a ∷ l) (update-ne b i h x ne) next

window-drop_last : (b : ℕ → ℕ) (h n : ℕ) → window b h n ≡ drop_last (window b h (suc n))
window-drop_last b h zero = refl
window-drop_last b h (suc n) = ap (λ l. b h ∷ l) (window-drop_last b ((h + 1) % buf_size) n)

pending-store : (c : ℕ) (t : Tty) → IsValid t → pending (store c t) ≡ pending t ++ (c ∷ [])
unfolding store
pending-store c t v =
    let up : (t.count + 1) % 2 ^ 32 ≡ suc t.count = omega (arith, v.count_in) in
    rw up (window-put t.in_buf t.buf_head t.count c _ v.head_in v.count_in (omega arith))

-- Echoing leaves the queue alone.
pending-tty_putc :
    (c : ℕ) (t : Tty)
    → ((tty_putc c t).in_buf ≡ t.in_buf)
      × ((tty_putc c t).buf_head ≡ t.buf_head)
      × ((tty_putc c t).count ≡ t.count)
unfolding tty_putc scroll put_char
pending-tty_putc c t = ground arith

-- What one code from the keyboard does to the bytes that wait.
abbrev pub typed : ℕ → Tty → List ℕ
typed c t =
    if c == ctrl_c
    then pending t
    else if c == backspace && by_line t
    then drop_last (pending t)
    else if not (c == 0) && ltb t.count (buf_size - 1)
    then pending t ++ (c ∷ [])
    else pending t

store-IsValid : (c : ℕ) (t : Tty) → IsValid t → t.count < buf_size - 1 → IsValid (store c t)
unfolding store
store-IsValid c t v room = record {
  head_in = v.head_in;
  count_in = omega arith;
  on_screen = v.on_screen;
}

tty_putc-pending :
    (c : ℕ) (t : Tty) → IsValid t → IsValid (tty_putc c t) × (pending (tty_putc c t) ≡ pending t)
tty_putc-pending c t v =
    let (b, h, n) = pending-tty_putc c t in
    let s = tty_putc-StaysOn c t v.on_screen in
    (
      record {
        head_in = omega (arith, v.head_in);
        count_in = omega (arith, v.count_in);
        on_screen = s.on_screen;
      },
      rw (b, h, n) refl,
    )

-- The same where the echo is switched on or off.
echo-pending :
    (e : Bool) (c : ℕ) (t : Tty)
    → IsValid t
    → IsValid (if e then tty_putc c t else t)
      × (pending (if e then tty_putc c t else t) ≡ pending t)
echo-pending true c t v = tty_putc-pending c t v
echo-pending false c t v = (v, refl)

pending-type_char :
    (chan c : ℕ) (t : Tty) (k : Kernel)
    → IsValid t
    → IsValid (type_char chan c t k).0
      × (pending (type_char chan c t k).0 ≡ (
          if not (c == 0) && ltb t.count (buf_size - 1) then pending t ++ (c ∷ []) else pending t))
unfolding type_char
pending-type_char chan c t k v = elim (Bool-cases (not (c == 0) && ltb t.count (buf_size - 1))) [
  | inr full ↦ rw (full, type_char) (v, refl)
  | inl room ↦
      let v1 = store-IsValid c t v (room_of t c room) in
      let (v2, e) = echo-pending (echoes t) c (store c t) v1 in
      rw (room, type_char) (v2, e ∙ pending-store c t v)
]
  where
    room_of :
        (t : Tty) (c : ℕ)
        → (not (c == 0) && ltb t.count (buf_size - 1)) ≡ true
        → t.count < buf_size - 1
    room_of t c h = ground arith

-- Taking back the last byte.
erase-pending :
    (t : Tty)
    → IsValid t
    → t.count ≢ 0
    → IsValid (record t { count = t.count - 1 })
      × (pending (record t { count = t.count - 1 }) ≡ drop_last (pending t))
erase-pending t v ne =
    let up : t.count ≡ suc (t.count - 1) = omega arith in
    (
      record { head_in = v.head_in; count_in = omega (arith, v.count_in); on_screen = v.on_screen },
      window-drop_last t.in_buf t.buf_head (t.count - 1)
          ∙ ap (λ n. drop_last (window t.in_buf t.buf_head n)) (sym up),
    )

drop_last-empty : (t : Tty) → (t.count == 0) ≡ true → pending t ≡ drop_last (pending t)
drop_last-empty t e =
    let z : t.count ≡ 0 = ground arith in
    ap (window t.in_buf t.buf_head) z ∙ ap (λ n. drop_last (window t.in_buf t.buf_head n)) (sym z)

count-echo : (e : Bool) (c : ℕ) (t : Tty) → (if e then tty_putc c t else t).count ≡ t.count
count-echo true c t = (pending-tty_putc c t).2
count-echo false c t = refl

-- One code from the keyboard, on a valid terminal: Ctrl-C and NUL do nothing; a backspace, where input goes by lines,
-- takes back the last byte that waits; any other code is queued behind them, unless the buffer
-- already holds all but one of its places. The terminal stays valid.
pub type_code-typed :
    (chan c : ℕ) (t : Tty) (k : Kernel)
    → IsValid t
    → IsValid (type_code chan c t k).0 × (pending (type_code chan c t k).0 ≡ typed c t)
unfolding type_code
type_code-typed chan c t k v = elim (Bool-cases (c == ctrl_c)) [
  | inl stop ↦ rw (stop, type_code) (v, refl)
  | inr go ↦ elim (Bool-cases (c == backspace && by_line t)) [
    | inr other ↦ rw (go, other, type_code) (pending-type_char chan c t k v)
    | inl back ↦ elim (Bool-cases (t.count == 0)) [
      | inl empty ↦ simp (go, back, empty, type_code) (v, drop_last-empty t empty)
      | inr some_left ↦
          let t1 : Tty = if echoes t then tty_putc backspace t else t in
          let (v1, e1) = echo-pending (echoes t) backspace t v in
          let n1 = count-echo (echoes t) backspace t in
          let ne : t.count ≢ 0 = ground arith in
          let (v2, e2) = erase-pending t1 v1 (λ z. ne (sym n1 ∙ z)) in
          simp (go, back, some_left, type_code) (v2, e2 ∙ ap drop_last e1)
    ]
  ]
]

-- A valid terminal stays valid over any codes from the keyboard: the queue never overflows, and the
-- cursor stays on the screen.
pub ttyintr-IsValid :
    (chan : ℕ) (cs : List ℕ) (t : Tty) (k : Kernel) → IsValid t → IsValid (ttyintr chan cs t k).0
unfolding ttyintr
ttyintr-IsValid chan [] t k v = v
ttyintr-IsValid chan (c ∷ cs) t k v =
    ttyintr-IsValid chan cs (type_code chan c t k).0 (type_code chan c t k).1
      (type_code-typed chan c t k v).0
