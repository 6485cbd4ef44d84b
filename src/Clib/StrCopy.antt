-- ===== src/Clib/StrCopy.antt =====
-- `strncpy` and `safestrcpy` of lib/string.c: what they leave at the target.
use jix.Base.{
  ℕ, zero, suc, ◌+◌, ◌≤◌, ◌<◌, ◌≡◌, refl, sym, ap, ◌∙◌, subst, ◌≢◌, ◌⊎◌, inl, inr, true, false,
  arith, ◌==◌, if◌then◌else◌, Bool-cases, update, update_self, update-ne,
}
use jix.Clib.Mem.{Memory}
use jix.Clib.Str.{IsString, safestrcpy, safestrcpy_from}

-- The two ranges of `n` bytes do not overlap.
abbrev pub AreApart : ℕ → ℕ → ℕ → Type 0
AreApart s t n = (s + n ≤ t) ⊎ (t + n ≤ s)

-- A string of `j` bytes has been copied.
pub record IsStringCopy (m m' : Memory) (s t j : ℕ) : Type 0 where
  pub string : IsString m' s j
  pub same : (i : ℕ) → i < j → m' (s + i) ≡ m (t + i)

safestrcpy_from-outside :
    (n s t : ℕ) (m : Memory) (x : ℕ) → (x < s) ⊎ (s + suc n ≤ x) → safestrcpy_from n s t m x ≡ m x
unfolding safestrcpy_from
safestrcpy_from-outside zero s t m x h = update-ne m s x 0 (omega arith)
safestrcpy_from-outside (suc n) s t m x h = elim (Bool-cases (m t == 0)) [
  | inl e ↦
      rw (e, safestrcpy_from)
        (update-ne (update m s (m t)) (s + 1) x 0 (omega arith)
          ∙ update-ne m s x (m t) (omega arith))
  | inr ne ↦
      rw (ne, safestrcpy_from)
        (safestrcpy_from-outside n (s + 1) (t + 1) (update m s (m t)) x (omega arith)
          ∙ update-ne m s x (m t) (omega arith))
]

-- The length of what the loop copies.
copied : ℕ → ℕ → Memory → ℕ
copied zero t m = 0
copied (suc n) t m = let rest = suc (copied n (t + 1) m) in if m t == 0 then 0 else rest

copied-le : (n t : ℕ) (m : Memory) → copied n t m ≤ n
unfolding copied
copied-le zero t m = omega arith
copied-le (suc n) t m = ground (arith, copied-le n (t + 1) m)

-- A string that fits is copied whole.
copied-string : (n t k : ℕ) (m : Memory) → IsString m t k → k ≤ n → copied n t m ≡ k
unfolding copied
copied-string zero t k m str le = omega arith
copied-string (suc n) t zero m str le =
    let e : t + 0 ≡ t = omega arith in
    let zero_at : m t ≡ 0 = rw e at str.ends in
    let nul : (m t == 0) ≡ true = ground arith in rw (nul, copied)
copied-string (suc n) t (suc k) m str le =
    let e : t + 0 ≡ t = omega arith in
    let more : m t ≢ 0 = rw e at (str.body 0 (omega arith)) in
    let on : (m t == 0) ≡ false = ground arith in
    let e' : t + suc k ≡ t + 1 + k = omega arith in
    rw (on, copied)
      (ap suc (
        copied-string n (t + 1) k m
          (record {
            ends = rw e' at str.ends;
            body = λ i lt.
                let e'' : t + suc i ≡ t + 1 + i = omega arith in
                rw e'' at (str.body (suc i) (omega arith));
          })
          (omega arith)))

-- A write outside the source changes nothing of it.
copied-update :
    (n t s v : ℕ) (m : Memory) → (s < t) ⊎ (t + n ≤ s) → copied n t (update m s v) ≡ copied n t m
unfolding copied
copied-update zero t s v m h = refl
copied-update (suc n) t s v m h =
    let e = update-ne m s t v (omega arith) in rw (e, copied-update n (t + 1) s v m (omega arith))

-- One more byte in front of a copy, where the copy of the rest began in memory `m1`.
IsStringCopy-suc :
    (m m1 m2 : Memory) (s t k : ℕ)
    → m2 s ≡ m t
    → m t ≢ 0
    → ((i : ℕ) → i < k → m1 (t + 1 + i) ≡ m (t + 1 + i))
    → IsStringCopy m1 m2 (s + 1) (t + 1) k
    → IsStringCopy m m2 s t (suc k)
IsStringCopy-suc m m1 m2 s t k first ne source h = record {
  string = record {
    ends = let e : s + suc k ≡ s + 1 + k = omega arith in rw e h.string.ends;
    body = body;
  };
  same = same;
}
  where
    same : (i : ℕ) → i < suc k → m2 (s + i) ≡ m (t + i)
    same zero lt =
        let e : s + 0 ≡ s = omega arith in let e' : t + 0 ≡ t = omega arith in rw (e, e') first
    same (suc i) lt =
        let e : s + suc i ≡ s + 1 + i = omega arith in
        let e' : t + suc i ≡ t + 1 + i = omega arith in
        rw (e, e') (h.same i (omega arith) ∙ source i (omega arith))

    body : (i : ℕ) → i < suc k → m2 (s + i) ≢ 0
    body zero lt = let e : s + 0 ≡ s = omega arith in rw e (λ z. ne (sym first ∙ z))
    body (suc i) lt =
        let e : s + suc i ≡ s + 1 + i = omega arith in rw e (h.string.body i (omega arith))

safestrcpy_from-lem :
    (n s t : ℕ) (m : Memory)
    → AreApart s t (suc n)
    → IsStringCopy m (safestrcpy_from n s t m) s t (copied n t m)
unfolding safestrcpy_from copied
safestrcpy_from-lem zero s t m apart =
    let e : s + 0 ≡ s = omega arith in
    record {
      string = record { ends = rw e (update_self m s 0); body = λ i lt. absurd (omega arith) };
      same = λ i lt. absurd (omega arith);
    }
safestrcpy_from-lem (suc n) s t m apart = elim (Bool-cases (m t == 0)) [
  | inl nul ↦
      let e : s + 0 ≡ s = omega arith in
      rw (nul, safestrcpy_from, copied)
        (record {
          string = record {
            ends = rw e (
                update-ne (update m s (m t)) (s + 1) s 0 (omega arith)
                ∙ update_self m s (m t)
                ∙ ground arith);
            body = λ i lt. absurd (omega arith);
          };
          same = λ i lt. absurd (omega arith);
        })
  | inr more ↦
      let m1 = update m s (m t) in
      let h = safestrcpy_from-lem n (s + 1) (t + 1) m1 (omega arith) in
      let e = copied-update n (t + 1) s (m t) m (omega arith) in
      let m2 = safestrcpy_from n (s + 1) (t + 1) m1 in
      let first =
        safestrcpy_from-outside n (s + 1) (t + 1) m1 s (omega arith) ∙ update_self m s (m t) in
      let small = copied-le n (t + 1) m in
      rw (more, safestrcpy_from, copied)
        (IsStringCopy-suc m m1 m2 s t (copied n (t + 1) m) first (ground arith)
          (λ i lt. update-ne m s (t + 1 + i) (m t) (omega arith))
          (subst (IsStringCopy m1 m2 (s + 1) (t + 1)) e h))
]

-- `safestrcpy` of at most `n > 0` bytes leaves at the target a string, always closed by a NUL within
-- the `n` bytes, that is a beginning of the source, the whole of it if the source is a string that
-- fits; nothing outside the `n` bytes changes. This holds where the two ranges do not overlap.
pub safestrcpy_lem :
    (n s t : ℕ) (m : Memory)
    → 0 < n
    → AreApart s t n
    → (j : ℕ) × (j < n)
      × IsStringCopy m (safestrcpy n s t m) s t j
      × ((x : ℕ) → (x < s) ⊎ (s + n ≤ x) → safestrcpy n s t m x ≡ m x)
      × ((k : ℕ) → IsString m t k → k < n → j ≡ k)
unfolding safestrcpy
safestrcpy_lem zero s t m pos_n apart = absurd (omega arith)
safestrcpy_lem (suc n) s t m pos_n apart = (
  copied n t m,
  omega (arith, copied-le n t m),
  safestrcpy_from-lem n s t m apart,
  λ x. safestrcpy_from-outside n s t m x,
  λ k str lt. copied-string n t k m str (omega arith),
)
