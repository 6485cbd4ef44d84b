-- ===== src/User/StdioInput.antt =====
-- Input and the table of files of lib/stdio.c: `ffill`, `fgetc`, `fgets`, `fopen` and `fclose`.
use jix.Base.{
  ℕ, zero, suc, ◌+◌, ◌%◌, ◌^◌, Bool, true, false, not, ◌&&◌, ◌||◌, Option, none, some, List, ◌==◌,
  if◌then◌else◌, find_from, update, ℤ, pos, negsuc, is_neg, to_u32,
}
use jix.User.Stdio.{
  Flags, full, File, buf_size, open_max, eof_result, Sys, int_eq, at_least, less_one, store,
  can_read, fflush,
}

-- `ffill`, from the buffer on, with what `read` has returned.
unfoldable pub filled : (ℕ → ℕ) → File → ℤ × List ℕ → File
filled b f (n, cs) =
    let fl = f.flag in
    record f {
      buf = some (store b 0 cs);
      ptr = 0;
      cnt = n;
      flag =
          if is_neg n
          then record fl { err = true }
          else if int_eq n 0
          then record fl { eof = true }
          else fl;
    }

-- `cnt-- > 0 ? *ptr++ : EOF`.
unfoldable pub take_first : (ℕ → ℕ) → File → ℤ × File
take_first b f =
    if at_least f.cnt 1
    then (pos (b f.ptr), record f { cnt = less_one f.cnt; ptr = f.ptr + 1 })
    else (eof_result, record f { cnt = less_one f.cnt })

-- `cnt--; *ptr++`.
unfoldable pub get_at : Option (ℕ → ℕ) → File → Option (ℤ × File)
get_at none f = none
get_at (some b) f = some (pos (b f.ptr), record f { cnt = less_one f.cnt; ptr = f.ptr + 1 })

module _ {S : Type 0} (sys : Sys S) where
  -- `ffill` with its buffer.
  unfoldable pub fill_with : Option (ℕ → ℕ) → File → S → Option (ℤ × File × S)
  fill_with none f s = if f.flag.read then none else some (eof_result, f, s)
  fill_with (some b) f s =
      let (r, s1) = sys.read f.fd buf_size s in
      let c = take_first (store b 0 r.1) (filled b f r) in
      if f.flag.read then some (c.0, c.1, s1) else some (eof_result, record f { buf = some b }, s)

  unfoldable pub ffill : File → S → Option (ℤ × File × S)
  ffill f s = elim f.buf [
    | some b ↦ fill_with (some b) f s
    | none ↦ let (b, s1) = sys.malloc buf_size s in fill_with b (record f { buf = b; ptr = 0 }) s1
  ]

  -- `fgetc` once it has looked at `stdout`.
  unfoldable pub get_char : File → S → Option (ℤ × File × S)
  get_char f s =
      if can_read f.flag
      then if at_least f.cnt 1
        then elim (get_at f.buf f) [ none ↦ none | some r ↦ some (r.0, r.1, s) ]
        else ffill f s
      else some (eof_result, f, s)

-- `_iob`, and what the system has behind it.
pub record Streams (S : Type 0) : Type 0 where
  pub iob : ℕ → File
  pub sys : S

abbrev pub stdin : ℕ
stdin = 0

abbrev pub stdout : ℕ
stdout = 1

module _ {S : Type 0} (sys : Sys S) where
  abbrev pub on_file : ℕ → (File → S → File × S) → Streams S → Streams S
  on_file i op st = let (f, s) = op (st.iob i) st.sys in record { iob = update st.iob i f; sys = s }

  -- `fgetc` of the file at `_iob + i`.
  unfoldable pub fgetc : ℕ → Streams S → Option (ℤ × Streams S)
  fgetc i st =
      let st1 =
        if (i == stdin) && not (int_eq (st.iob stdout).cnt 0)
        then on_file stdout (fflush sys) st
        else st in
      elim (get_char sys (st1.iob i) st1.sys) [
        | none ↦ none
        | some r ↦ some (r.0, record { iob = update st1.iob i r.1; sys = r.2 })
      ]

  -- The loop of `fopen`.
  abbrev pub is_used : File → Bool
  is_used f = f.flag.read || f.flag.write

  -- `fopen`, for a mode that begins with `mode`, 114 for `r` or 119 for `w`.
  unfoldable pub fopen : List ℕ → ℕ → Streams S → Option ℕ × Streams S
  fopen name mode st =
      let writing = mode == 119 in
      let (fd, s1) = sys.open_file name writing st.sys in
      let st1 = record st { sys = s1 } in
      if writing || (mode == 114)
      then elim (find_from (λ i. not (is_used (st.iob i))) open_max 0) [
        | none ↦ (none, st)
        | some i ↦ elim fd [
          | negsuc e ↦ (none, st1)
          | pos n ↦
              let f : File = record {
                buf = none;
                ptr = 0;
                cnt = if writing then pos buf_size else pos 0;
                flag = record { read = not writing; write = writing; eof = false; err = false };
                buf_mode = full;
                fd = n;
              } in
              (some i, record st1 { iob = update st1.iob i f })
        ]
      ]
      else (none, st)

  unfoldable pub fclose : ℕ → Streams S → Streams S
  fclose i st =
      let f = st.iob i in
      let s1 = sys.close f.fd st.sys in
      let s2 : S = elim f.buf [ none ↦ s1 | some b ↦ sys.free s1 ] in
      let closed : Flags = record { read = false; write = false; eof = false; err = false } in
      record { iob = update st.iob i (record f { flag = closed }); sys = s2 }

  -- The loop of `fgets`, which has put `n` characters to `dst`; the end of the loop is where `n` stops.
  unfoldable pub gets_from : ℕ → ℕ → ℕ → (ℕ → ℕ) → Streams S → Option (ℕ × (ℕ → ℕ) × Streams S)
  gets_from i zero n dst st = some (n, dst, st)
  gets_from i (suc k) n dst st = elim (fgetc i st) [
    | none ↦ none
    | some r ↦
        let c = to_u32 r.0 % 2 ^ 8 in
        let rest = gets_from i k (n + 1) (update dst n c) r.1 in
        if (c == 10) || (c == 255) then some (n, update dst n c, r.1) else rest
  ]

  -- `fgets`: whether the result is not NULL, and the characters at `s`. A `char` that is `EOF` is the
  -- byte 255.
  unfoldable pub fgets : ℕ → ℕ → (ℕ → ℕ) → Streams S → Option (Bool × (ℕ → ℕ) × Streams S)
  fgets i len dst st = elim (gets_from i len 0 dst st) [
    | none ↦ none
    | some r ↦
        let d = r.1 in
        if d 0 == 255
        then some (false, d, r.2)
        else some (true, update d (if d r.0 == 255 then r.0 else r.0 + 1) 0, r.2)
  ]
