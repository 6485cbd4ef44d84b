-- ===== src/User/StdioSent.antt =====
-- What reaches the system of the characters that a program puts to a buffered file of lib/stdio.c.
use jix.Base.{
  ℕ, zero, suc, ◌+◌, ◌≤◌, ◌≡◌, refl, sym, ap, ◌∙◌, inl, inr, true, false, Option, none, some, List,
  [], ◌∷◌, ◌++◌, arith, leb, ◌==◌, Bool-cases, length, update, pos, append_assoc, append-nil,
}
use jix.User.Stdio.{
  Flags, BufMode, File, buf_size, Sys, bytes, flush_out, flush_with, fflush, put_at, put_into,
  put_buffered,
}

-- A system that takes all that is written, and has memory: `out` is what a file has been sent.
pub record TakesAll {S : Type 0} (sys : Sys S) (out : ℕ → S → List ℕ) : Type 0 where
  pub all : (fd : ℕ) (cs : List ℕ) (s : S) → (sys.write fd cs s).0 ≡ pos (length cs)
  pub sent : (fd : ℕ) (cs : List ℕ) (s : S) → out fd (sys.write fd cs s).1 ≡ out fd s ++ cs
  pub block : (n : ℕ) (s : S) → (b : ℕ → ℕ) × ((sys.malloc n s).0 ≡ some b)
  pub quiet : (fd n : ℕ) (s : S) → out fd (sys.malloc n s).1 ≡ out fd s

abbrev pub writing : Flags
writing = record { read = false; write = true; eof = false; err = false }

-- A file open for writing whose buffer holds the characters of the list, or that has none yet.
pub data Pending (md : BufMode) (fd : ℕ) : File → List ℕ → Type 0 where
  fresh :
      (p : ℕ)
      → Pending md fd
          (record {
            buf = none;
            ptr = p;
            cnt = pos buf_size;
            flag = writing;
            buf_mode = md;
            fd = fd;
          })
          []
  buffered :
      (b : ℕ → ℕ) (n : ℕ)
      → n ≤ buf_size
      → Pending md fd
          (record { buf = some b; ptr = n; cnt = pos n; flag = writing; buf_mode = md; fd = fd })
          (bytes b 0 n)

length-bytes : (b : ℕ → ℕ) (i n : ℕ) → length (bytes b i n) ≡ n
length-bytes b i zero = refl
length-bytes b i (suc n) = ap suc (length-bytes b (i + 1) n)

-- Bytes before the place that is written.
bytes-before : (b : ℕ → ℕ) (i n k c : ℕ) → i + n ≤ k → bytes (update b k c) i n ≡ bytes b i n
bytes-before b i zero k c le = refl
bytes-before b i (suc n) k c le =
    let here : update b k c i ≡ b i = ground arith in
    rw (here, bytes-before b (i + 1) n k c (omega arith)) refl

bytes-suc : (b : ℕ → ℕ) (i n : ℕ) → bytes b i (suc n) ≡ bytes b i n ++ b (i + n) ∷ []
bytes-suc b i zero = let e : i + 0 ≡ i = omega arith in rw e refl
bytes-suc b i (suc n) =
    let e : i + 1 + n ≡ i + suc n = omega arith in
    ap (λ l. b i ∷ l) (rw e at (bytes-suc b (i + 1) n))

bytes-update : (b : ℕ → ℕ) (n c : ℕ) → bytes (update b n c) 0 (n + 1) ≡ bytes b 0 n ++ c ∷ []
bytes-update b n c =
    let e : n + 1 ≡ suc n = omega arith in
    let at : update b n c (0 + n) ≡ c = ground arith in
    rw e (bytes-suc (update b n c) 0 n ∙ rw (bytes-before b 0 n n c (omega arith), at) refl)

module _ {S : Type 0} (sys : Sys S) (out : ℕ → S → List ℕ) (law : TakesAll sys out) (md : BufMode)
    (fd : ℕ) where
  -- The file `f` and the system `s` hold the characters `t`: what has been sent, and what waits.
  pub record Holds (t : List ℕ) (f : File) (s : S) : Type 0 where
    pub waits : List ℕ
    pub pending : Pending md fd f waits
    pub total : out fd s ++ waits ≡ t

  flush_out-sent :
      (b : ℕ → ℕ) (n : ℕ) (s : S)
      → let f : File = record {
        buf = some b;
        ptr = n;
        cnt = pos n;
        flag = writing;
        buf_mode = md;
        fd = fd;
      } in
        ((flush_out sys b f s).0 ≡ writing)
        × (out fd (flush_out sys b f s).1 ≡ out fd s ++ bytes b 0 n)
  unfolding flush_out
  flush_out-sent b n s = elim (Bool-cases (n == 0)) [
    | inl e ↦ let e' : n ≡ 0 = ground arith in rw (e, e') (refl, sym (append-nil (out fd s)))
    | inr ne ↦
        let same : (n == n) ≡ true = ground arith in
        rw (ne, law.all fd (bytes b 0 n) s, length-bytes b 0 n, same)
          (refl, law.sent fd (bytes b 0 n) s)
  ]

  fflush-Pending :
      (f : File) (s : S) (ps : List ℕ)
      → Pending md fd f ps
      → (b : ℕ → ℕ) × ((fflush sys f s).0
          ≡ record { buf = some b; ptr = 0; cnt = pos 0; flag = writing; buf_mode = md; fd = fd })
        × (out fd (fflush sys f s).1 ≡ out fd s ++ ps)
  unfolding fflush flush_with
  fflush-Pending _ s _ (fresh p) =
      let (b, e) = law.block 1024 s in
      (b, rw e refl, law.quiet fd 1024 s ∙ sym (append-nil (out fd s)))
  fflush-Pending _ s _ (buffered b n le) =
      let (fl, sent) = flush_out-sent b n s in (b, rw fl refl, sent)

  -- What one of the calls below has done: `t` is what has been put so far.
  abbrev pub Puts : List ℕ → Option (File × S) → Type 0
  Puts t r = (f : File) × (s : S) × (r ≡ some (f, s)) × Holds t f s

  put_at_start :
      (b : ℕ → ℕ) (c : ℕ) (s : S) (t : List ℕ) (f : File) (s1 : S)
      → f ≡ record { buf = some b; ptr = 0; cnt = pos 0; flag = writing; buf_mode = md; fd = fd }
      → out fd s1 ≡ t
      → Puts (t ++ c ∷ []) (put_into c (f, s1))
  unfolding put_at put_into
  put_at_start b c s t f s1 e sent = rw e (
    record {
      buf = some (update b 0 c);
      ptr = 1;
      cnt = pos 1;
      flag = writing;
      buf_mode = md;
      fd = fd;
    },
    s1,
    refl,
    record {
      waits = bytes (update b 0 c) 0 1;
      pending = buffered (update b 0 c) 1 (omega arith);
      total = rw sent refl;
    },
  )

  pub put_buffered-Holds :
      (c : ℕ) (f : File) (s : S) (ps t : List ℕ)
      → Pending md fd f ps
      → out fd s ++ ps ≡ t
      → Puts (t ++ c ∷ []) (put_buffered sys c f s)
  unfolding put_buffered put_at put_into
  put_buffered-Holds c _ s _ t (fresh p) e =
      let f : File = record {
        buf = none;
        ptr = p;
        cnt = pos buf_size;
        flag = writing;
        buf_mode = md;
        fd = fd;
      } in
      let (b, new, sent) = fflush-Pending f s [] (fresh p) in
      put_at_start b c s t _ _ new (sent ∙ e)
  put_buffered-Holds c _ s _ t (buffered b n le) e = elim (Bool-cases (leb buf_size n)) [
    | inl all ↦
        let f : File = record {
          buf = some b;
          ptr = n;
          cnt = pos n;
          flag = writing;
          buf_mode = md;
          fd = fd;
        } in
        let (b', new, sent) = fflush-Pending f s (bytes b 0 n) (buffered b n le) in
        rw (all, put_buffered) (put_at_start b' c s t _ _ new (sent ∙ e))
    | inr room ↦
        rw (room, put_buffered)
          (
            _,
            s,
            refl,
            record {
              waits = bytes (update b n c) 0 (n + 1);
              pending = buffered (update b n c) (n + 1) (ground arith);
              total =
                  rw (bytes-update b n c) (
                    sym (append_assoc (out fd s) (bytes b 0 n) (c ∷ [])) ∙ ap (λ l. l ++ c ∷ []) e);
            },
          )
  ]

  pub fflush-Holds :
      (f : File) (s : S) (t : List ℕ)
      → Holds t f s
      → Holds t (fflush sys f s).0 (fflush sys f s).1 × (out fd (fflush sys f s).1 ≡ t)
  fflush-Holds f s t h =
      let (b, new, sent) = fflush-Pending f s h.waits h.pending in
      (
        record {
          waits = [];
          pending = rw new (buffered b 0 (omega arith));
          total = append-nil _ ∙ sent ∙ h.total;
        },
        sent ∙ h.total,
      )
