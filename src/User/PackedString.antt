-- ===== src/User/PackedString.antt =====
-- A string in the memory of a program as the list of its bytes, and `strcpy` of it.
use jix.Base.{
  ℕ, zero, suc, ◌+◌, ◌≤◌, ◌<◌, ◌≡◌, refl, sym, ap₂, ◌∙◌, ◌≢◌, ◌⊎◌, inl, true, false, some, List, [],
  ◌∷◌, arith, ◌==◌, length, update, update_self, update-ne,
}
use jix.Clib.Mem.{Memory}
use jix.Clib.Str.{strcpy, IsString}
use jix.Mm.ArgBlock.{bytes_from}

-- At `a` stand the bytes of the list, none of them 0, and a NUL.
abbrev pub HasString : Memory → ℕ → List ℕ → Type 0
HasString m a [] = m a ≡ 0
HasString m a (c ∷ cs) = (m a ≡ c) × (c ≢ 0) × HasString m (a + 1) cs

-- Nothing has changed outside the `n` bytes from `a` on.
abbrev pub Outside : Memory → Memory → ℕ → ℕ → Type 0
Outside m m' a n = (x : ℕ) → (x < a) ⊎ (a + n ≤ x) → m' x ≡ m x

pub HasString-same :
    (s : List ℕ) (a : ℕ) (m m' : Memory)
    → ((x : ℕ) → a ≤ x → x ≤ a + length s → m' x ≡ m x)
    → HasString m a s
    → HasString m' a s
HasString-same [] a m m' same h = same a (omega arith) (omega arith) ∙ h
HasString-same (c ∷ cs) a m m' same (e, ne, h) = (
  same a (omega arith) (omega arith) ∙ e,
  ne,
  HasString-same cs (a + 1) m m' (λ x lo hi. same x (omega arith) (omega arith)) h,
)

HasString-ends : (s : List ℕ) (a : ℕ) (m : Memory) → HasString m a s → m (a + length s) ≡ 0
HasString-ends [] a m h = let e : a + 0 ≡ a = omega arith in rw e h
HasString-ends (c ∷ cs) a m (e, ne, h) =
    let next : a + length (c ∷ cs) ≡ a + 1 + length cs = omega arith in
    rw next (HasString-ends cs (a + 1) m h)

HasString-body :
    (s : List ℕ) (a : ℕ) (m : Memory) → HasString m a s → (i : ℕ) → i < length s → m (a + i) ≢ 0
HasString-body [] a m h i lt = absurd (omega arith)
HasString-body (c ∷ cs) a m (e, ne, h) zero lt =
    let e' : a + 0 ≡ a = omega arith in rw e' (λ z. ne (sym e ∙ z))
HasString-body (c ∷ cs) a m (e, ne, h) (suc i) lt =
    let next : a + suc i ≡ a + 1 + i = omega arith in
    rw next (HasString-body cs (a + 1) m h i (omega arith))

pub HasString-IsString :
    (s : List ℕ) (a : ℕ) (m : Memory) → HasString m a s → IsString m a (length s)
HasString-IsString s a m h = record { ends = HasString-ends s a m h; body = HasString-body s a m h }

pub bytes_from-HasString :
    (s : List ℕ) (a : ℕ) (m : Memory) → HasString m a s → bytes_from m a (length s) ≡ s
bytes_from-HasString [] a m h = refl
bytes_from-HasString (c ∷ cs) a m (e, ne, h) =
    ap₂ (λ x xs. x ∷ xs) e (bytes_from-HasString cs (a + 1) m h)

-- `strcpy` of a string that lies apart from its place.
pub strcpy-HasString :
    (f : ℕ) (s : List ℕ) (p t : ℕ) (m : Memory)
    → length s < f
    → HasString m t s
    → (t + length s < p) ⊎ (p + length s < t)
    → (m' : Memory) × (strcpy f p t m ≡ some m') × HasString m' p s × Outside m m' p (length s + 1)
unfolding strcpy
strcpy-HasString zero s p t m lt h apart = absurd (omega arith)
strcpy-HasString (suc f) [] p t m lt h apart =
    let nul : (m t == 0) ≡ true = ground arith in
    (
      update m p (m t),
      rw (nul, strcpy) refl,
      update_self m p (m t) ∙ h,
      λ x out. update-ne m p x (m t) (omega arith),
    )
strcpy-HasString (suc f) (c ∷ cs) p t m lt (e, ne, h) apart =
    let more : (m t == 0) ≡ false = ground arith in
    let m1 = update m p (m t) in
    let h1 = HasString-same cs (t + 1) m m1 (λ x lo hi. update-ne m p x (m t) (omega arith)) h in
    let (m', e', there, out) =
      strcpy-HasString f cs (p + 1) (t + 1) m1 (omega arith) h1 (omega arith) in
    (
      m',
      rw (more, strcpy) e',
      (out p (inl (omega arith)) ∙ update_self m p (m t) ∙ e, ne, there),
      λ x far. out x (omega arith) ∙ update-ne m p x (m t) (omega arith),
    )
