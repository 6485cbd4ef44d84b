-- ===== src/User/StdioPuts.antt =====
-- `fputc` and `fputs` of lib/stdio.c on a buffered file.
use jix.Base.{
  ℕ, suc, ◌+◌, ◌≡◌, refl, sym, ap, inl, inr, Bool, true, false, Option, none, some, List, [], ◌∷◌,
  ◌++◌, arith, ◌==◌, if◌then◌else◌, Bool-cases, length, ℤ, pos, append_assoc, append-nil,
}
use jix.User.Stdio.{
  BufMode, full, line, unbuffered, File, Sys, fflush, put_mode, fputc, put_chars, put_string, fputs,
  is_eof,
}
use jix.User.StdioSent.{
  TakesAll, Pending, fresh, buffered, Holds, Puts, put_buffered-Holds, fflush-Holds,
}

-- `_IOFBF` or `_IOLBF`.
abbrev pub has_buffer : BufMode → Bool
has_buffer full = true
has_buffer line = true
has_buffer unbuffered = false

module _ {S : Type 0} (sys : Sys S) (out : ℕ → S → List ℕ) (law : TakesAll sys out) (fd : ℕ) where
  put_mode-Holds :
      (md : BufMode) (c : ℕ) (f : File) (s : S) (t : List ℕ)
      → has_buffer md ≡ true
      → Holds sys out law md fd t f s
      → Puts sys out law md fd (t ++ c ∷ []) (put_mode sys md c f s)
  unfolding put_mode
  put_mode-Holds full c f s t ok h =
      put_buffered-Holds sys out law full fd c f s h.waits t h.pending h.total
  put_mode-Holds line c f s t ok h =
      go _ (put_buffered-Holds sys out law line fd c f s h.waits t h.pending h.total)
    where
      go :
          (r : Option (File × S))
          → Puts sys out law line fd (t ++ c ∷ []) r
          → Puts sys out law line fd
              (t ++ c ∷ [])
              (elim r [ none ↦ none | some r ↦ some (if c == 10 then fflush sys r.0 r.1 else r) ])
      go r (f1, s1, e, h1) = elim (Bool-cases (c == 10)) [
        | inl nl ↦
            let (h2, sent) = fflush-Holds sys out law line fd f1 s1 _ h1 in
            rw (e, nl) ((fflush sys f1 s1).0, (fflush sys f1 s1).1, refl, h2)
        | inr other ↦ rw (e, other) (f1, s1, refl, h1)
      ]
  put_mode-Holds unbuffered c f s t ok h = absurd (ground arith)

  -- What `fputc` and `fputs` return, with the file and the system that they leave.
  abbrev Returns : BufMode → ℤ → List ℕ → Option (ℤ × File × S) → Type 0
  Returns md z t r = (f : File) × (s : S) × (r ≡ some (z, f, s)) × Holds sys out law md fd t f s

  fputc-Holds :
      (md : BufMode) (c : ℕ) (f : File) (s : S) (t : List ℕ)
      → has_buffer md ≡ true
      → Holds sys out law md fd t f s
      → Returns md (pos c) (t ++ c ∷ []) (fputc sys c f s)
  unfolding fputc
  fputc-Holds md c f s t ok h = open_file f h.waits h.pending (put_mode-Holds md c f s t ok h)
    where
      wrap :
          (r : Option (File × S))
          → Puts sys out law md fd (t ++ c ∷ []) r
          → Returns md
              (pos c)
              (t ++ c ∷ [])
              (elim r [ none ↦ none | some r ↦ some (pos c, r.0, r.1) ])
      wrap r (f1, s1, e, h1) = rw e (f1, s1, refl, h1)

      open_file :
          (f : File) (ps : List ℕ)
          → Pending md fd f ps
          → Puts sys out law md fd (t ++ c ∷ []) (put_mode sys md c f s)
          → Returns md (pos c) (t ++ c ∷ []) (fputc sys c f s)
      open_file _ _ (fresh p) done = wrap _ done
      open_file _ _ (buffered b n le) done = wrap _ done

  put_chars-Holds :
      (md : BufMode) (cs : List ℕ) (n : ℕ) (f : File) (s : S) (t : List ℕ)
      → has_buffer md ≡ true
      → Holds sys out law md fd t f s
      → Returns md (pos (n + length cs)) (t ++ cs) (put_chars sys cs n f s)
  unfolding put_chars
  put_chars-Holds md [] n f s t ok h =
      let len : n ≡ n + 0 = omega arith in
      (f, s, ap (λ k. some (pos k, f, s)) len, rw (append-nil t) h)
  put_chars-Holds md (c ∷ cs) n f s t ok h =
      go (λ f1 s1. put_chars-Holds md cs (n + 1) f1 s1 (t ++ c ∷ []) ok) _
        (fputc-Holds md c f s t ok h)
    where
      Rest : Type 0
      Rest =
          (f1 : File) (s1 : S)
          → Holds sys out law md fd (t ++ c ∷ []) f1 s1
          → Returns md (pos (n + 1 + length cs)) ((t ++ c ∷ []) ++ cs)
              (put_chars sys cs (n + 1) f1 s1)

      go :
          Rest
          → (r : Option (ℤ × File × S)) → Returns md (pos c) (t ++ c ∷ []) r
          → Returns md (pos (n + suc (length cs))) (t ++ c ∷ cs) (elim r [
            | none ↦ none
            | some r ↦
                if is_eof r.0 then some (pos n, r.1, r.2) else put_chars sys cs (n + 1) r.1 r.2
          ])
      go rest r (f1, s1, e, h1) =
          let len : n + suc (length cs) ≡ n + 1 + length cs = omega arith in
          let all : t ++ c ∷ cs ≡ (t ++ c ∷ []) ++ cs = sym (append_assoc t (c ∷ []) cs) in
          rw (e, len, all) (rest f1 s1 h1)

  put_string-Holds :
      (md : BufMode) (cs : List ℕ) (f : File) (s : S) (t : List ℕ)
      → has_buffer md ≡ true
      → Holds sys out law md fd t f s
      → Returns md (pos (length cs)) (t ++ cs) (put_string sys md cs f s)
  unfolding put_string
  put_string-Holds full cs f s t ok h =
      let len : 0 + length cs ≡ length cs = omega arith in
      rw len at (put_chars-Holds full cs 0 f s t ok h)
  put_string-Holds line cs f s t ok h =
      let len : 0 + length cs ≡ length cs = omega arith in
      rw len at (put_chars-Holds line cs 0 f s t ok h)
  put_string-Holds unbuffered cs f s t ok h = absurd (ground arith)

  -- `fputs` to a file with a buffer, of which the characters `t` have been put so far, some sent and
  -- some waiting, on a system that takes all that is written: it returns the length of the string, and
  -- after `fflush` the system has been sent `t` and the string behind it, in order and once.
  pub fputs-fflush :
      (md : BufMode) (cs : List ℕ) (f : File) (s : S) (t : List ℕ)
      → has_buffer md ≡ true
      → Holds sys out law md fd t f s
      → (f1 : File) × (s1 : S) × (fputs sys cs f s ≡ some (pos (length cs), f1, s1))
        × Holds sys out law md fd (t ++ cs) f1 s1
        × (out fd (fflush sys f1 s1).1 ≡ t ++ cs)
  unfolding fputs
  fputs-fflush md cs f s t ok h = open_file f h.waits h.pending (put_string-Holds md cs f s t ok h)
    where
      sent :
          (r : Option (ℤ × File × S))
          → Returns md (pos (length cs)) (t ++ cs) r
          → (f1 : File) × (s1 : S) × (r ≡ some (pos (length cs), f1, s1))
            × Holds sys out law md fd (t ++ cs) f1 s1
            × (out fd (fflush sys f1 s1).1 ≡ t ++ cs)
      sent r (f1, s1, e, h1) =
          (f1, s1, e, h1, (fflush-Holds sys out law md fd f1 s1 (t ++ cs) h1).1)

      open_file :
          (f : File) (ps : List ℕ)
          → Pending md fd f ps
          → Returns md (pos (length cs)) (t ++ cs) (put_string sys md cs f s)
          → (f1 : File) × (s1 : S) × (fputs sys cs f s ≡ some (pos (length cs), f1, s1))
            × Holds sys out law md fd (t ++ cs) f1 s1
            × (out fd (fflush sys f1 s1).1 ≡ t ++ cs)
      open_file _ _ (fresh p) done = sent _ done
      open_file _ _ (buffered b n le) done = sent _ done
