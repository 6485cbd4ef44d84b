-- ===== src/User/StdioGets.antt =====
-- What a program gets from a file of lib/stdio.c of the characters that the system has for it.
use jix.Base.{
  ℕ, zero, suc, ◌+◌, ◌<◌, ◌≡◌, refl, sym, ap, ◌∙◌, Bool, true, false, Option, none, some, List, [],
  ◌∷◌, ◌++◌, arith, leb, ◌==◌, length, update, update_self, update-ne, ℤ, pos,
}
use jix.User.Stdio.{Flags, BufMode, File, buf_size, eof_result, Sys, bytes, store}
use jix.User.StdioInput.{filled, take_first, fill_with, ffill, get_at, get_char}

-- A system with memory that gives the characters `rest` of a file in order, at least one when asked
-- for some while there are any.
pub record GivesAll {S : Type 0} (sys : Sys S) (rest : ℕ → S → List ℕ) : Type 0 where
  pub got : ℕ → ℕ → S → List ℕ
  pub result : (fd n : ℕ) (s : S) → (sys.read fd n s).0 ≡ (pos (length (got fd n s)), got fd n s)
  pub in_order : (fd n : ℕ) (s : S) → rest fd s ≡ got fd n s ++ rest fd (sys.read fd n s).1
  pub some_more : (fd : ℕ) (s : S) → got fd buf_size s ≡ [] → rest fd s ≡ []
  pub block : (n : ℕ) (s : S) → (b : ℕ → ℕ) × ((sys.malloc n s).0 ≡ some b)
  pub quiet : (fd n : ℕ) (s : S) → rest fd (sys.malloc n s).1 ≡ rest fd s

abbrev pub reading : Bool → Flags
reading at_end = record { read = true; write = false; eof = at_end; err = false }

-- A file open for reading with the characters of the list in its buffer.
pub data Unread (fd : ℕ) : File → List ℕ → Type 0 where
  no_buffer :
      (p : ℕ) (md : BufMode)
      → Unread fd
          (record {
            buf = none;
            ptr = p;
            cnt = pos 0;
            flag = reading false;
            buf_mode = md;
            fd = fd;
          })
          []
  in_buffer :
      (b : ℕ → ℕ) (p n : ℕ) (md : BufMode)
      → Unread fd
          (record {
            buf = some b;
            ptr = p;
            cnt = pos n;
            flag = reading false;
            buf_mode = md;
            fd = fd;
          })
          (bytes b p n)

store-before : (b : ℕ → ℕ) (i j : ℕ) (cs : List ℕ) → j < i → store b i cs j ≡ b j
store-before b i j [] lt = refl
store-before b i j (c ∷ cs) lt =
    store-before (update b i c) (i + 1) j cs (omega arith) ∙ update-ne b i j c (omega arith)

bytes-store : (b : ℕ → ℕ) (i : ℕ) (cs : List ℕ) → bytes (store b i cs) i (length cs) ≡ cs
bytes-store b i [] = refl
bytes-store b i (c ∷ cs) =
    let first : store (update b i c) (i + 1) cs i ≡ c =
      store-before (update b i c) (i + 1) i cs (omega arith) ∙ update_self b i c in
    rw (first, bytes-store (update b i c) (i + 1) cs) refl

module _ {S : Type 0} (sys : Sys S) (rest : ℕ → S → List ℕ) (law : GivesAll sys rest) (fd : ℕ) where
  -- The characters `t` are still to come from the file `f` and the system `s`.
  pub record ToCome (t : List ℕ) (f : File) (s : S) : Type 0 where
    pub waits : List ℕ
    pub unread : Unread fd f waits
    pub total : waits ++ rest fd s ≡ t

  -- The next character of `t`, or the end of the file for good.
  abbrev pub Next : List ℕ → Option (ℤ × File × S) → Type 0
  Next [] r = (f : File) × (s : S) × (r ≡ some (eof_result, f, s)) × (f.flag ≡ reading true)
  Next (c ∷ t) r = (f : File) × (s : S) × (r ≡ some (pos c, f, s)) × ToCome t f s

  -- `ffill` with the buffer `b`, where `cs` is what `read` gives.
  fill-Next :
      (b : ℕ → ℕ) (p : ℕ) (md : BufMode) (s : S) (t : List ℕ)
      → rest fd s ≡ t
      → Next t (
          fill_with sys
            (some b)
            (record {
              buf = some b;
              ptr = p;
              cnt = pos 0;
              flag = reading false;
              buf_mode = md;
              fd = fd;
            })
            s)
  unfolding fill_with filled take_first
  fill-Next b p md s t e = go (law.got fd buf_size s) refl
    where
      f0 : File
      f0 = record {
        buf = some b;
        ptr = p;
        cnt = pos 0;
        flag = reading false;
        buf_mode = md;
        fd = fd;
      }

      go : (cs : List ℕ) → law.got fd buf_size s ≡ cs → Next t (fill_with sys (some b) f0 s)
      go [] got =
          let ended : t ≡ [] = sym e ∙ law.some_more fd s got in
          rw (law.result fd buf_size s, got, ended) (_, _, refl, refl)
      go (c ∷ cs) got =
          let s1 = (sys.read fd buf_size s).1 in
          let more : t ≡ c ∷ (cs ++ rest fd s1) =
            sym e ∙ law.in_order fd buf_size s ∙ ap (λ l. l ++ rest fd s1) got in
          let first : store b 0 (c ∷ cs) 0 ≡ c =
            store-before (update b 0 c) 1 0 cs (omega arith) ∙ update_self b 0 c in
          let held = store b 0 (c ∷ cs) in
          let next : File = record {
            buf = some held;
            ptr = 1;
            cnt = pos (length cs);
            flag = reading false;
            buf_mode = md;
            fd = fd;
          } in
          let some_there : leb 1 (length (c ∷ cs)) ≡ true = ground arith in
          let not_end : (length (c ∷ cs) == 0) ≡ false = ground arith in
          rw (law.result fd buf_size s, got, more, some_there, not_end)
            (
              next,
              s1,
              ap (λ x. some (pos x, next, s1)) first,
              record {
                waits = bytes held 1 (length cs);
                unread = in_buffer held 1 (length cs) md;
                total = ap (λ l. l ++ rest fd s1) (bytes-store (update b 0 c) 1 cs);
              },
            )

  -- `get_char`, which is `fgetc` after its flush of stdout, from a file with the characters `t` to come,
  -- in its buffer and in the system: it returns the first of them and leaves the others to come; where there is none it returns EOF and marks the
  -- end of the file.
  pub get_char-Next : (f : File) (s : S) (t : List ℕ) → ToCome t f s → Next t (get_char sys f s)
  unfolding get_char ffill get_at
  get_char-Next f s t h = go f h.waits h.unread h.total
    where
      go :
          (f : File) (ws : List ℕ)
          → Unread fd f ws
          → ws ++ rest fd s ≡ t
          → Next t (get_char sys f s)
      go _ _ (no_buffer p md) e =
          let (b, there) = law.block buf_size s in
          rw there (fill-Next b 0 md (sys.malloc buf_size s).1 t (law.quiet fd buf_size s ∙ e))
      go _ _ (in_buffer b p zero md) e = fill-Next b p md s t e
      go _ _ (in_buffer b p (suc n) md) e =
          let more : t ≡ b p ∷ (bytes b (p + 1) n ++ rest fd s) = sym e in
          let some_there : leb 1 (suc n) ≡ true = ground arith in
          rw (more, some_there)
            (
              record {
                buf = some b;
                ptr = p + 1;
                cnt = pos n;
                flag = reading false;
                buf_mode = md;
                fd = fd;
              },
              s,
              refl,
              record { waits = bytes b (p + 1) n; unread = in_buffer b (p + 1) n md; total = refl },
            )
