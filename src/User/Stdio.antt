-- ===== src/User/Stdio.antt =====
-- Buffered input and output of programs: lib/stdio.c with include/stdio.h. A character is its byte;
-- `buf` is the block from `malloc`, or NULL, and `ptr` an index in it. `none` is a write or a read
-- through a pointer that is NULL.
use jix.Base.{
  ℕ, zero, suc, ◌+◌, Bool, true, false, not, ◌&&◌, ◌||◌, Option, none, some, List, [], ◌∷◌, leb,
  ◌==◌, if◌then◌else◌, length, update, ℤ, pos, negsuc, minus_one,
}

-- `enum _flag`, one field for each bit of `flag`.
pub record Flags : Type 0 where
  pub read : Bool
  pub write : Bool
  pub eof : Bool
  pub err : Bool

-- `_IOFBF`, `_IOLBF` and `_IONBF`.
pub data BufMode : Type 0 where
  full line unbuffered : BufMode

-- `struct _IO_FILE`.
pub record File : Type 0 where
  pub buf : Option (ℕ → ℕ)
  pub ptr : ℕ
  pub cnt : ℤ
  pub flag : Flags
  pub buf_mode : BufMode
  pub fd : ℕ

abbrev pub buf_size : ℕ
buf_size = 1000

abbrev pub open_max : ℕ
open_max = 20

abbrev pub eof_result : ℤ
eof_result = minus_one

-- The system calls and the allocator that the library stands on. `read` also gives the bytes that it
-- stores, `malloc` what is in the block, or NULL.
pub record Sys (S : Type 0) : Type 0 where
  pub open_file : List ℕ → Bool → S → ℤ × S
  pub close : ℕ → S → S
  pub write : ℕ → List ℕ → S → ℤ × S
  pub read : ℕ → ℕ → S → (ℤ × List ℕ) × S
  pub malloc : ℕ → S → Option (ℕ → ℕ) × S
  pub free : S → S

abbrev pub int_eq : ℤ → ℕ → Bool
int_eq (pos a) b = a == b
int_eq (negsuc a) b = false

abbrev pub at_least : ℤ → ℕ → Bool
at_least (pos a) b = leb b a
at_least (negsuc a) b = false

-- `cnt++` and `cnt--`.
abbrev pub plus_one : ℤ → ℤ
plus_one (pos a) = pos (a + 1)
plus_one (negsuc zero) = pos 0
plus_one (negsuc (suc a)) = negsuc a

abbrev pub less_one : ℤ → ℤ
less_one (pos zero) = negsuc 0
less_one (pos (suc a)) = pos a
less_one (negsuc a) = negsuc (a + 1)

-- The first bytes of a block, and a block with bytes put at its start.
abbrev pub bytes : (ℕ → ℕ) → ℕ → ℕ → List ℕ
bytes b i zero = []
bytes b i (suc n) = b i ∷ bytes b (i + 1) n

abbrev pub store : (ℕ → ℕ) → ℕ → List ℕ → ℕ → ℕ
store b i [] = b
store b i (c ∷ cs) = store (update b i c) (i + 1) cs

-- `== EOF`, of an `int`.
abbrev pub is_eof : ℤ → Bool
is_eof (pos n) = false
is_eof (negsuc n) = n == 0

abbrev pub to_nat : ℤ → ℕ
to_nat (pos n) = n
to_nat (negsuc n) = 0

abbrev pub add_err : Bool → Flags → Flags
add_err ok fl = if ok then fl else record fl { err = true }

-- `(flag & (_ERR | _EOF | _WRITE)) != _WRITE`.
abbrev pub can_write : Flags → Bool
can_write fl = fl.write && not (fl.err || fl.eof)

abbrev pub can_read : Flags → Bool
can_read fl = fl.read && not (fl.err || fl.eof)

-- `fp->cnt++; *fp->ptr++ = c;`.
unfoldable pub put_at : Option (ℕ → ℕ) → ℕ → File → Option File
put_at none c f = none
put_at (some b) c f =
    some (record f { buf = some (update b f.ptr c); ptr = f.ptr + 1; cnt = plus_one f.cnt })

unfoldable pub put_into : {S : Type 0} → ℕ → File × S → Option (File × S)
put_into c (f, s) = elim (put_at f.buf c f) [ none ↦ none | some f1 ↦ some (f1, s) ]

module _ {S : Type 0} (sys : Sys S) where
  -- `fflush` with a buffer: its test, and the write.
  unfoldable pub flush_out : (ℕ → ℕ) → File → S → Flags × S
  flush_out b f s =
      let (n, s1) = sys.write f.fd (bytes b 0 (to_nat f.cnt)) s in
      if f.flag.write && not (int_eq f.cnt 0)
      then (add_err (int_eq n (to_nat f.cnt)) f.flag, s1)
      else (f.flag, s)

  unfoldable pub flush_with : Option (ℕ → ℕ) → File → S → File × S
  flush_with none f s =
      let (b, s1) = sys.malloc 1024 s in (record f { buf = b; ptr = 0; cnt = pos 0 }, s1)
  flush_with (some b) f s =
      let (fl, s1) = flush_out b f s in (record f { flag = fl; cnt = pos 0; ptr = 0 }, s1)

  unfoldable pub fflush : File → S → File × S
  fflush f s = flush_with f.buf f s

  -- The part of `fputc` that both kinds of buffer share.
  unfoldable pub put_buffered : ℕ → File → S → Option (File × S)
  put_buffered c f s = put_into c (if at_least f.cnt buf_size then fflush f s else (f, s))

  unfoldable pub put_mode : BufMode → ℕ → File → S → Option (File × S)
  put_mode unbuffered c f s =
      let (n, s1) = sys.write f.fd (c ∷ []) s in
      some (record f { flag = add_err (int_eq n 1) f.flag }, s1)
  put_mode line c f s = elim (put_buffered c f s) [
    | none ↦ none
    | some r ↦ some (if c == 10 then fflush r.0 r.1 else r)
  ]
  put_mode full c f s = put_buffered c f s

  unfoldable pub fputc : ℕ → File → S → Option (ℤ × File × S)
  fputc c f s =
      if can_write f.flag
      then elim (put_mode f.buf_mode c f s) [ none ↦ none | some r ↦ some (pos c, r.0, r.1) ]
      else some (minus_one, f, s)

  -- The loop of `fputs` on a buffered file, after `n` characters.
  unfoldable pub put_chars : List ℕ → ℕ → File → S → Option (ℤ × File × S)
  put_chars [] n f s = some (pos n, f, s)
  put_chars (c ∷ cs) n f s = elim (fputc c f s) [
    | none ↦ none
    | some r ↦ if is_eof r.0 then some (pos n, r.1, r.2) else put_chars cs (n + 1) r.1 r.2
  ]

  -- `fputs`, of a string without its NUL.
  unfoldable pub put_string : BufMode → List ℕ → File → S → Option (ℤ × File × S)
  put_string unbuffered cs f s =
      let (r, s1) = sys.write f.fd cs s in
      let fl = add_err (not (int_eq r (length cs))) f.flag in
      some (if fl.err then minus_one else pos (length cs), record f { flag = fl }, s1)
  put_string line cs f s = put_chars cs 0 f s
  put_string full cs f s = put_chars cs 0 f s

  unfoldable pub fputs : List ℕ → File → S → Option (ℤ × File × S)
  fputs cs f s = put_string f.buf_mode cs f s
