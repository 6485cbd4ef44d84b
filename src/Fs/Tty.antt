-- ===== src/Fs/Tty.antt =====
-- The terminal: fs/tty.c, on the `struct s_tty` of include/tty.h. The ports of the cursor are left
-- out, and what `kbdgetc` returns comes as a list of codes.
use jix.Base.{
  ℕ, zero, suc, ◌+◌, ◌-◌, ◌*◌, ◌/◌, ◌%◌, ◌^◌, Bool, true, false, not, ◌&&◌, ◌||◌, List, [], ◌∷◌,
  ltb, leb, ◌==◌, if◌then◌else◌, length, update, ℤ, pos, minus_one, minus_two, to_int, to_u32,
}
use jix.Kernel.State.{Kernel}
use jix.Kernel.Proc.{wake_up}

abbrev pub buf_size : ℕ
buf_size = 1024

abbrev pub cols : ℕ
cols = 80

-- 24 lines of 80 characters: the video memory that the driver uses.
abbrev pub screen_size : ℕ
screen_size = 24 * cols

abbrev pub newline : ℕ
newline = 10

abbrev pub backspace : ℕ
backspace = 8

-- `C('C')` and `C('D')`.
abbrev pub ctrl_c : ℕ
ctrl_c = 3

abbrev pub ctrl_d : ℕ
ctrl_d = 4

abbrev pub default_color : ℕ
default_color = 7

-- `struct s_tty`, with `current_color`.
pub record Tty : Type 0 where
  pub base : ℕ → ℕ
  pub pos : ℕ
  pub in_buf : ℕ → ℕ
  pub buf_head : ℕ
  pub count : ℕ
  pub mode : ℕ
  pub color : ℕ

-- `tty.mode & TTY_ECHO` and `tty.mode & TTY_LINE`.
abbrev pub echoes : Tty → Bool
echoes t = t.mode % 2 == 1

abbrev pub by_line : Tty → Bool
by_line t = t.mode / 2 % 2 == 1

-- `(ch & 0xff) | (color << 8)`, as a `u16`: the two parts share no bit.
abbrev pub cell : ℕ → ℕ → ℕ
cell ch color = ch % 256 + color % 256 * 256

unfoldable pub tty_init : (ℕ → ℕ) → (ℕ → ℕ) → Tty
tty_init base in_buf = record {
  base = base;
  pos = 0;
  in_buf = in_buf;
  buf_head = 0;
  count = 0;
  mode = 3;
  color = default_color;
}

-- The first part of `tty_putc`: the character.
unfoldable pub put_char : ℕ → Tty → Tty
put_char ch t =
    if ch == newline
    then record t { pos = t.pos + (cols - t.pos % cols) }
    else if ch == backspace && ltb 0 t.pos
    then record t { pos = t.pos - 1; base = update t.base (t.pos - 1) (cell 32 t.color) }
    else record t { base = update t.base t.pos (cell ch t.color); pos = t.pos + 1 }

-- `memcpy(tty.base, tty.base + 80, …)` and the `memset` behind it, with the new position `pos`.
abbrev pub scrolled : (ℕ → ℕ) → ℕ → ℕ → ℕ
scrolled base p x =
    if leb p x && ltb x screen_size
    then 0
    else if ltb x (23 * cols)
    then base (x + cols)
    else base x

-- The rest of `tty_putc`: scrolling.
unfoldable pub scroll : Tty → Tty
scroll t =
    if leb (23 * cols) t.pos
    then record t { pos = t.pos - cols; base = scrolled t.base (t.pos - cols) }
    else t

unfoldable pub tty_putc : ℕ → Tty → Tty
tty_putc ch t = scroll (put_char ch t)

unfoldable pub tty_cls : Tty → Tty
tty_cls t = record t {
  base = λ x. if ltb x screen_size then cell 32 default_color else t.base x;
  pos = 0;
}

unfoldable pub tty_gotoxy : ℕ → ℕ → Tty → ℤ × Tty
tty_gotoxy x y t =
    if ltb 79 x || ltb 23 y then (minus_one, t) else (pos 0, record t { pos = y * cols + x })

-- `MAKE_COLOR` of two `u8`, cut to a `u8`.
unfoldable pub tty_setcolor : ℕ → ℕ → Tty → Tty
tty_setcolor back front t = record t { color = (back % 16 * 16 + front % 16) % 256 }

unfoldable pub tty_setmode : ℕ → Tty → Tty
tty_setmode mode t = record t { mode = mode % 4 }

-- The calls of fs/do_fs.c on the terminal.
unfoldable pub do_gotoxy : ℕ → ℕ → Tty → ℤ × Tty
do_gotoxy x y t = tty_gotoxy x y t

unfoldable pub do_ttymode : ℕ → Tty → ℤ × Tty
do_ttymode mode t = (pos 0, tty_setmode mode t)

unfoldable pub do_ttycolor : ℤ → ℤ → Tty → ℤ × Tty
do_ttycolor back front t = (pos 0, tty_setcolor (to_u32 back) (to_u32 front) t)

unfoldable pub do_cls : Tty → ℤ × Tty
do_cls t = (pos 0, tty_cls t)

-- `tty_write`.
unfoldable pub tty_write : List ℕ → Tty → Tty
tty_write [] t = t
tty_write (c ∷ s) t = tty_write s (tty_putc c t)

-- `tty.buf_head = (tty.buf_head + 1) % BUFSIZE; tty.count--;`.
unfoldable pub eat : Tty → Tty
eat t = record t { buf_head = (t.buf_head + 1) % buf_size; count = (t.count + 2 ^ 32 - 1) % 2 ^ 32 }

-- The loop of `tty_read`, with `n` bytes left; `fresh` is `n == target`. The bytes that it stores.
unfoldable pub read_from : ℕ → Bool → Tty → List ℕ × Tty
read_from zero fresh t = ([], t)
read_from (suc n) fresh t =
    let (d, t') = read_from n false (eat t) in
    let c = t.in_buf t.buf_head in
    if t.count == 0
    then ([], t)
    else if c == ctrl_d
    then ([], if fresh then eat t else t)
    else (c ∷ d, t')

-- `tty_read`: its result, the bytes stored, the terminal, and whether the caller is to sleep.
unfoldable pub tty_read : ℕ → Tty → ℤ × List ℕ × Tty × Bool
tty_read n t =
    if t.count == 0
    then (minus_two, [], t, true)
    else (let (d, t') = read_from n true t in (to_int (length d), d, t', false))

-- `tty.in_buf[(tty.buf_head + tty.count++) % BUFSIZE] = c`.
unfoldable pub store : ℕ → Tty → Tty
store c t = record t {
  in_buf = update t.in_buf ((t.buf_head + t.count) % 2 ^ 32 % buf_size) c;
  count = (t.count + 1) % 2 ^ 32;
}

-- The default branch of `ttyintr`, at the label `L1`; `chan` is `&tty`.
unfoldable pub type_char : ℕ → ℕ → Tty → Kernel → Tty × Kernel
type_char chan c t k =
    if not (c == 0) && ltb t.count (buf_size - 1)
    then (let t1 = store c t in
        let t2 = if echoes t then tty_putc c t1 else t1 in
        (t2, if (c == newline || c == ctrl_d) || not (by_line t) then wake_up chan k else k))
    else (t, k)

-- One round of the loop of `ttyintr`.
unfoldable pub type_code : ℕ → ℕ → Tty → Kernel → Tty × Kernel
type_code chan c t k =
    if c == ctrl_c
    then (t, k)
    else if c == backspace && by_line t
    then (if t.count == 0
        then (t, k)
        else (let t1 = if echoes t then tty_putc backspace t else t in
            (record t1 { count = t1.count - 1 }, k)))
    else type_char chan c t k

-- `ttyintr`: the list holds what `kbdgetc` returns until it returns -1.
unfoldable pub ttyintr : ℕ → List ℕ → Tty → Kernel → Tty × Kernel
ttyintr chan [] t k = (t, k)
ttyintr chan (c ∷ cs) t k = let (t', k') = type_code chan c t k in ttyintr chan cs t' k'
