-- ===== src/Mm/ExecArgs.antt =====
-- How `do_exec` of mm/exec.c lays the arguments of a program out on its stack.
use jix.Base.{
  ℕ, ◌+◌, ◌-◌, ◌%◌, ◌^◌, ◌≤◌, ◌<◌, ◌≡◌, refl, sym, ◌∙◌, ◌⊎◌, inr, false, some, List, [], ◌∷◌, ◌++◌,
  arith, leb, length, append_assoc, append-nil,
}
use jix.Mm.Pages.{kbase, p2v}
use jix.Mm.Vm.{Vm}
use jix.Mm.Load.{put_bytes}
use jix.Mm.Bytes.{
  get_byte, HoldsBytes, AreBytes, put_bytes-outside, put_bytes-HoldsBytes, HoldsBytes-same,
}
use jix.Mm.Exec.{Stack, max_arg, below_string, push_args}

-- The most that the strings can take, each with its NUL and what aligns it.
abbrev pub room_for : List (List ℕ) → ℕ
room_for [] = 0
room_for (s ∷ ss) = length s + 4 + room_for ss

-- The strings lie below `hi` one under the other, at the aligned addresses of the list, the last at
-- `lo`, each with its NUL below the one before.
abbrev pub Laid : ℕ → List (List ℕ) → List ℕ → ℕ → Type 0
Laid hi [] [] lo = lo ≡ hi
Laid hi [] (p ∷ ps) lo = ⊥
Laid hi (s ∷ ss) [] lo = ⊥
Laid hi (s ∷ ss) (p ∷ ps) lo = (p + length s + 1 ≤ hi) × (p % 4 ≡ 0) × Laid p ss ps lo

-- The string for the virtual address of the list stands, with its NUL, at the physical address that
-- is as far from `pa` as that one from `sp`.
abbrev pub Stored : Vm → ℕ → ℕ → List (List ℕ) → List ℕ → Type 0
Stored m sp pa [] ps = Unit {0}
Stored m sp pa (s ∷ ss) [] = ⊥
Stored m sp pa (s ∷ ss) (p ∷ ps) =
    (q : ℕ) × (q + sp ≡ p + pa) × HoldsBytes m (p2v q) (s ++ 0 ∷ []) × Stored m p q ss ps

abbrev pub AreStrings : List (List ℕ) → Type 0
AreStrings [] = Unit {0}
AreStrings (s ∷ ss) = AreBytes s × AreStrings ss

-- What the strings `ss` pushed on the stack `st` in memory `m` leave.
pub record Pushed (ss : List (List ℕ)) (st : Stack) (m : Vm) (st' : Stack) (ps : List ℕ) (m' : Vm)
    : Type 0 where
  pub argv : st'.argv ≡ st.argv ++ ps
  pub argc : st'.argc ≡ st.argc + length ss
  pub laid : Laid st.sp ss ps st'.sp
  pub stored : Stored m' st.sp st.pa ss ps
  pub same_place : st'.sp + st.pa ≡ st'.pa + st.sp
  pub within : st.pa ≤ st'.pa + room_for ss
  pub below : st'.pa ≤ st.pa
  pub outside : (x : ℕ) → (x < kbase + st'.pa) ⊎ (kbase + st.pa ≤ x) → get_byte m' x ≡ get_byte m x

below_string-fits :
    (a n : ℕ)
    → a < 2 ^ 32
    → n + 4 ≤ a
    → a % 4 ≡ 0
    → (below_string a n + n + 1 ≤ a) × (a ≤ below_string a n + (n + 4)) × (below_string a n % 4 ≡ 0)
below_string-fits a n hi le al =
    let no_wrap : (a + 2 ^ 32 - (n + 1)) % 2 ^ 32 ≡ a - (n + 1) = omega arith in
    (omega arith, omega arith, omega arith)

-- The same number of bytes is left free above both.
below_string-same :
    (a b n : ℕ)
    → a < 2 ^ 32
    → b < 2 ^ 32
    → n + 4 ≤ a
    → n + 4 ≤ b
    → a % 4 ≡ 0
    → b % 4 ≡ 0
    → below_string a n + b ≡ below_string b n + a
below_string-same a b n ha hb la lb aa ab =
    let no_wrap_a : (a + 2 ^ 32 - (n + 1)) % 2 ^ 32 ≡ a - (n + 1) = omega arith in
    let no_wrap_b : (b + 2 ^ 32 - (n + 1)) % 2 ^ 32 ≡ b - (n + 1) = omega arith in omega arith

AreBytes-nul : (s : List ℕ) → AreBytes s → AreBytes (s ++ 0 ∷ [])
AreBytes-nul [] h = (omega arith, tt)
AreBytes-nul (c ∷ cs) (h, rest) = (h, AreBytes-nul cs rest)

length-nul : (s : List ℕ) → length (s ++ 0 ∷ []) ≡ length s + 1
length-nul [] = refl
length-nul (c ∷ cs) = let h = length-nul cs in omega arith

-- One string, at `sp` and `pa`, and then the others.
Pushed-string :
    (s : List ℕ) (ss : List (List ℕ)) (st : Stack) (m : Vm) (sp pa : ℕ) (st' : Stack) (ps : List ℕ)
    (m' : Vm)
    → AreBytes s
    → st.pa ≤ kbase
    → sp + length s + 1 ≤ st.sp
    → pa + length s + 1 ≤ st.pa
    → st.pa ≤ pa + (length s + 4)
    → sp % 4 ≡ 0
    → sp + st.pa ≡ pa + st.sp
    → Pushed ss
        (record { argc = st.argc + 1; sp = sp; pa = pa; argv = st.argv ++ sp ∷ [] })
        (put_bytes (p2v pa) (s ++ 0 ∷ []) m)
        st'
        ps
        m'
    → Pushed (s ∷ ss) st m st' (sp ∷ ps) m'
Pushed-string s ss st m sp pa st' ps m' bytes top under under_p near al both h =
    let len = length-nul s in
    let all = AreBytes-nul s bytes in
    let plain : p2v pa ≡ kbase + pa = omega arith in
    let m1 = put_bytes (p2v pa) (s ++ 0 ∷ []) m in
    let below = h.below in
    record {
      argv = h.argv ∙ append_assoc st.argv (sp ∷ []) ps;
      argc = let e = h.argc in omega arith;
      laid = (under, al, h.laid);
      stored = (
        pa,
        omega arith,
        HoldsBytes-same (s ++ 0 ∷ []) (p2v pa) m1 m' (λ x lo hi. h.outside x (inr (omega arith)))
            (put_bytes-HoldsBytes (s ++ 0 ∷ []) (p2v pa) m all),
        h.stored,
      );
      same_place = let e = h.same_place in omega arith;
      within = let e = h.within in omega arith;
      below = omega arith;
      outside = λ x out.
          h.outside x (omega arith)
          ∙ put_bytes-outside (s ++ 0 ∷ []) (p2v pa) x m all (omega arith);
    }

-- Strings that the stack has room for, at most `MAXARG` of them with those before, are all pushed:
-- `argv` gets their addresses, under one another, aligned and apart. Each string stands with its NUL in
-- memory at the physical address that belongs to its virtual one, as the physical address of the
-- stack moves down as the virtual one does. No byte changes above the stack, or below where it ends
-- then, which is no further down than four bytes for each string and its length.
pub push_args-Laid :
    (ss : List (List ℕ)) (st : Stack) (m : Vm)
    → AreStrings ss
    → st.sp < 2 ^ 32
    → st.pa ≤ kbase
    → st.sp % 4 ≡ 0
    → st.pa % 4 ≡ 0
    → room_for ss ≤ st.sp
    → room_for ss ≤ st.pa
    → st.argc + length ss ≤ max_arg
    → (st' : Stack) × (ps : List ℕ) × (m' : Vm) × (push_args ss st m ≡ (some st', m'))
      × Pushed ss st m st' ps m'
unfolding push_args
push_args-Laid [] st m bytes hs hp sa pa rs rp few = (
  st,
  [],
  m,
  refl,
  record {
    argv = sym (append-nil st.argv);
    argc = omega arith;
    laid = refl;
    stored = tt;
    same_place = omega arith;
    within = omega arith;
    below = omega arith;
    outside = λ x out. refl;
  },
)
push_args-Laid (s ∷ ss) st m (bytes, rest) hs hp sa pa rs rp few =
    let (under, near, al) = below_string-fits st.sp (length s) hs (omega arith) sa in
    let (under_p, near_p, al_p) =
      below_string-fits st.pa (length s) (omega arith) (omega arith) pa in
    let both =
      below_string-same st.sp st.pa (length s) hs (omega arith) (omega arith) (omega arith) sa pa in
    let few_yet : leb max_arg st.argc ≡ false = ground arith in
    let sp = below_string st.sp (length s) in
    let next : Stack = record {
      argc = st.argc + 1;
      sp = sp;
      pa = below_string st.pa (length s);
      argv = st.argv ++ sp ∷ [];
    } in
    let m1 = put_bytes (p2v (below_string st.pa (length s))) (s ++ 0 ∷ []) m in
    let (st', ps, m', e, h) =
      push_args-Laid ss next m1 rest (omega arith) (omega arith) al al_p (omega arith) (omega arith)
        (omega arith) in
    (
      st',
      sp ∷ ps,
      m',
      rw (few_yet, push_args) e,
      Pushed-string s ss st m sp (below_string st.pa (length s)) st' ps m' bytes hp under under_p
          near_p al both h,
    )
