-- ===== src/Tests/Stdio.antt =====
-- Tests of buffered input and output.
use jix.Base.{
  ℕ, zero, suc, ◌≡◌, refl, ap, false, none, some, List, [], ◌∷◌, ◌++◌, arith, length, take, drop,
  pos,
}
use jix.User.Stdio.{full, line, File, Sys, fputs, fflush, buf_size}
use jix.User.StdioInput.{get_char}
use jix.User.StdioSent.{TakesAll, writing, fresh, Holds}
use jix.User.StdioPuts.{fputs-fflush}
use jix.User.StdioGets.{GivesAll, reading, in_buffer, ToCome, get_char-Next}

-- A system that is the characters sent to it, or still to be read from it.
abbrev tape : Sys (List ℕ)
tape = record {
  open_file = λ name writing s. (pos 3, s);
  close = λ fd s. s;
  write = λ fd cs s. (pos (length cs), s ++ cs);
  read = λ fd n s. ((pos (length (take n s)), take n s), drop n s);
  malloc = λ n s. (some (λ i. 0), s);
  free = λ s. s;
}

abbrev all_sent : ℕ → List ℕ → List ℕ
all_sent fd s = s

tape-TakesAll : TakesAll tape all_sent
tape-TakesAll = record {
  all = λ fd cs s. refl;
  sent = λ fd cs s. refl;
  block = λ n s. (λ i. 0, refl);
  quiet = λ fd n s. refl;
}

-- A file from `fopen`, for writing, and one with a buffer.
abbrev new_file : File
new_file = record {
  buf = none;
  ptr = 0;
  cnt = pos buf_size;
  flag = writing;
  buf_mode = line;
  fd = 1;
}

fputs-fflush_example :
    (f1 : File) × (s1 : List ℕ) × (fputs tape (104 ∷ 105 ∷ 10 ∷ 104 ∷ []) new_file []
      ≡ some (pos 4, f1, s1))
    × Holds tape all_sent tape-TakesAll line 1 (104 ∷ 105 ∷ 10 ∷ 104 ∷ []) f1 s1
    × (all_sent 1 (fflush tape f1 s1).1 ≡ 104 ∷ 105 ∷ 10 ∷ 104 ∷ [])
fputs-fflush_example =
    fputs-fflush tape all_sent tape-TakesAll 1 line (104 ∷ 105 ∷ 10 ∷ 104 ∷ []) new_file [] [] refl
      (record { waits = []; pending = fresh 0; total = refl })

take-drop : (n : ℕ) (s : List ℕ) → s ≡ take n s ++ drop n s
take-drop zero s = refl
take-drop (suc n) [] = refl
take-drop (suc n) (c ∷ s) = ap (λ l. c ∷ l) (take-drop n s)

take-nothing : (n : ℕ) (s : List ℕ) → take (suc n) s ≡ [] → s ≡ []
take-nothing n [] e = refl
take-nothing n (c ∷ s) e = absurd (ground arith)

tape-GivesAll : GivesAll tape all_sent
tape-GivesAll = record {
  got = λ fd n s. take n s;
  result = λ fd n s. refl;
  in_order = λ fd n s. take-drop n s;
  some_more = λ fd s e. take-nothing 999 s e;
  block = λ n s. (λ i. 0, refl);
  quiet = λ fd n s. refl;
}

-- One character is in the buffer, and one on the tape.
abbrev half_read : File
half_read = record {
  buf = some (λ i. 104);
  ptr = 2;
  cnt = pos 1;
  flag = reading false;
  buf_mode = full;
  fd = 3;
}

get_char-Next_example :
    (f : File) × (s : List ℕ) × (get_char tape half_read (105 ∷ []) ≡ some (pos 104, f, s))
    × ToCome tape all_sent tape-GivesAll 3 (105 ∷ []) f s
get_char-Next_example =
    get_char-Next tape all_sent tape-GivesAll 3 half_read (105 ∷ []) (104 ∷ 105 ∷ [])
      (record { waits = 104 ∷ []; unread = in_buffer (λ i. 104) 2 1 full; total = refl })
