-- ===== src/User/GrepSearch.antt =====
-- The search of bin/grep.c: what the table of `kmp_pp` holds and what `kmp_match` returns.
use jix.Base.{
  ℕ, zero, suc, ◌+◌, ◌-◌, ◌*◌, ◌≤◌, ◌<◌, ◌≡◌, refl, sym, ap, ◌∙◌, subst, ◌≢◌, ◌⊎◌, inl, inr, true,
  false, Option, none, some, arith, ltb, ◌==◌, Bool-cases, update, update_self, update-ne, ℤ, pos,
  minus_one,
}
use jix.Clib.Mem.{Memory}
use jix.User.Grep.{set_jumps, kmp_pp, is_sentry, match_from, kmp_match}

-- The first `n` bytes from `a` on are those from `b` on.
abbrev pub Same : Memory → ℕ → ℕ → ℕ → Type 0
Same m a b n = (j : ℕ) → j < n → m (a + j) ≡ m (b + j)

-- The first `b` of the `i` bytes at `p` are also the last ones.
abbrev Border : Memory → ℕ → ℕ → ℕ → Type 0
Border m p i b = (b ≤ i) × Same m p (p + (i - b)) b

-- An entry of the table: a border of the bytes up to this one, and not all of them.
abbrev Falls : Memory → ℕ → ℕ → ℤ → Type 0
Falls m p k z = (b : ℕ) × (z ≡ pos b) × (b ≤ k) × Border m p (k + 1) b

-- The table of a pattern of `len` bytes.
pub record IsTable (m : Memory) (p len : ℕ) (t : ℕ → ℤ) : Type 0 where
  pub falls : (k : ℕ) → k < len → Falls m p k (t k)
  pub sentry : t len ≡ minus_one

module _ (m : Memory) (p : ℕ) where
  Border-zero : (i : ℕ) → Border m p i 0
  Border-zero i = (omega arith, λ j lt. omega arith)

  Border-suc : (i b : ℕ) → m (p + i) ≡ m (p + b) → Border m p i b → Border m p (i + 1) (b + 1)
  Border-suc i b same (le, h) = (
    omega arith,
    λ j lt. elim (Bool-cases (ltb j b)) [
      | inl low ↦
          let e : p + (i + 1 - (b + 1)) + j ≡ p + (i - b) + j = ground arith in
          rw e (h j (ground arith))
      | inr high ↦
          let e1 : j ≡ b = ground arith in
          let e2 : p + (i + 1 - (b + 1)) + j ≡ p + i = ground arith in rw (e2, e1) (sym same)
    ],
  )

  update-Falls :
      (i : ℕ) (z : ℤ) (t : ℕ → ℤ)
      → ((k : ℕ) → k < i → Falls m p k (t k))
      → Falls m p i z
      → (k : ℕ) → k < i + 1
      → Falls m p k (update t i z k)
  update-Falls i z t falls here k lt = elim (Bool-cases (ltb k i)) [
    | inl low ↦
        subst (Falls m p k) (sym (update-ne t i k z (ground arith))) (falls k (ground arith))
    | inr high ↦
        let e : i ≡ k = ground arith in
        subst (λ x. Falls m p x (update t i z x)) e
          (subst (Falls m p i) (sym (update_self t i z)) here)
  ]

  -- The loop of `kmp_pp`: `last` is a border, though not always the longest.
  set_jumps-IsTable :
      (len n i last : ℕ) (t : ℕ → ℤ)
      → ((k : ℕ) → k < len → m (p + k) ≢ 0)
      → m (p + len) ≡ 0
      → i ≤ len
      → len < n + i
      → last < i
      → Border m p i last
      → ((k : ℕ) → k < i → Falls m p k (t k))
      → ((k : ℕ) → i ≤ k → t k ≡ pos 0)
      → (t' : ℕ → ℤ) × (set_jumps n p i last m t ≡ some t') × IsTable m p len t'
  unfolding set_jumps
  set_jumps-IsTable len zero i last t nz nul le fuel lt border falls clear = absurd (omega arith)
  set_jumps-IsTable len (suc n) i last t nz nul le fuel lt border falls clear =
      let rec = set_jumps-IsTable len n (i + 1) in
      elim (Bool-cases (i == len)) [
        | inl end ↦
            let e : i ≡ len = ground arith in
            let nul' : (m (p + i) == 0) ≡ true = rw e (ground arith) in
            (
              update t i minus_one,
              rw nul' refl,
              record {
                falls = λ k low.
                    subst (Falls m p k) (sym (update-ne t i k minus_one (omega arith)))
                      (falls k (omega arith));
                sentry = ap (update t i minus_one) (sym e) ∙ update_self t i minus_one;
              },
            )
        | inr go ↦
            let some_byte = nz i (ground arith) in
            let there : (m (p + i) == 0) ≡ false = ground arith in
            elim (Bool-cases (m (p + i) == m (p + last))) [
              | inl same ↦
                  let next = Border-suc i last (ground arith) border in
                  rw (there, same)
                    (rec (last + 1) (update t i (pos (last + 1))) nz nul (ground arith)
                      (omega arith) (omega arith) next
                      (update-Falls i (pos (last + 1)) t falls (last + 1, refl, omega arith, next))
                      (λ k high.
                        update-ne t i k (pos (last + 1)) (omega arith) ∙ clear k (omega arith)))
              | inr other ↦
                  rw (there, other)
                    (rec 0 t nz nul (ground arith) (omega arith) (omega arith) (Border-zero (i + 1))
                      (λ k low. elim (Bool-cases (ltb k i)) [
                        | inl before ↦ falls k (ground arith)
                        | inr at ↦ (0, clear k (ground arith), omega arith, Border-zero (k + 1))
                      ])
                      (λ k high. clear k (omega arith)))
            ]
      ]

  -- What the search returns for a string of `n` bytes at `s`: NULL, or where the pattern stands in it.
  abbrev pub IsMatch : ℕ → ℕ → ℕ → Option (Option ℕ) → Type 0
  IsMatch len s n r =
      (r ≡ some none)
      ⊎ ((a : ℕ) × (r ≡ some (some a)) × (s ≤ a) × (a + len ≤ s + n) × Same m p a len)

  -- The bytes in front of `j` in the pattern fit those in front of `i` in the string.
  abbrev Fits : ℕ → ℕ → ℕ → Type 0
  Fits s i j = (j ≤ i) × Same m p (s + (i - j)) j

  Fits-suc : (s i j : ℕ) → m (p + j) ≡ m (s + i) → Fits s i j → Fits s (i + 1) (j + 1)
  Fits-suc s i j same (le, h) = (
    omega arith,
    λ k lt. elim (Bool-cases (ltb k j)) [
      | inl low ↦
          let e : s + (i + 1 - (j + 1)) + k ≡ s + (i - j) + k = ground arith in
          rw e (h k (ground arith))
      | inr high ↦
          let e1 : k ≡ j = ground arith in
          let e2 : s + (i + 1 - (j + 1)) + k ≡ s + i = ground arith in rw (e2, e1) same
    ],
  )

  -- A border fits too.
  Fits-Border : (s i j b : ℕ) → Border m p j b → Fits s i j → Fits s i b
  Fits-Border s i j b (small, border) (le, h) = (
    omega arith,
    λ k lt.
        let e1 : p + (j - b) + k ≡ p + (j - b + k) = omega arith in
        let e2 : s + (i - j) + (j - b + k) ≡ s + (i - b) + k = omega arith in
        border k lt ∙ ap m e1 ∙ h (j - b + k) (omega arith) ∙ ap m e2,
  )

  -- The whole pattern fits.
  Fits-IsMatch :
      (len s n i j : ℕ)
      → j + 1 ≡ len
      → i < n
      → Fits s (i + 1) (j + 1)
      → IsMatch len s n (some (some (s + (i + 1) - (j + 1))))
  Fits-IsMatch len s n i j e lt (le, h) = inr (
    s + (i + 1) - (j + 1),
    refl,
    omega arith,
    omega arith,
    λ k low.
        let e2 : s + (i + 1 - (j + 1)) + k ≡ s + (i + 1) - (j + 1) + k = omega arith in
        h k (omega arith) ∙ ap m e2,
  )

  -- The loop of `kmp_match`.
  match_from-IsMatch :
      (len s n : ℕ) (t : ℕ → ℤ)
      → IsTable m p len t
      → ((k : ℕ) → k < n → m (s + k) ≢ 0)
      → m (s + n) ≡ 0
      → (f i j : ℕ) → i ≤ n
      → j < len
      → Fits s i j
      → 2 * (n - i) + j < f
      → IsMatch len s n (match_from f s p t i j m)
  unfolding match_from
  match_from-IsMatch len s n t table nz nul zero i j le lt fits fuel = absurd (omega arith)
  match_from-IsMatch len s n t table nz nul (suc f) i j le lt fits fuel =
      let rec = match_from-IsMatch len s n t table nz nul f in
      elim (Bool-cases (i == n)) [
        | inl end ↦
            let e : i ≡ n = ground arith in
            let nul' : (m (s + i) == 0) ≡ true = rw e (ground arith) in
            inl (rw (nul', match_from) refl)
        | inr go ↦
            let some_byte = nz i (ground arith) in
            let there : (m (s + i) == 0) ≡ false = ground arith in
            elim (Bool-cases (m (p + j) == m (s + i))) [
              | inl same ↦
                  let next = Fits-suc s i j (ground arith) fits in
                  elim (Bool-cases (j + 1 == len)) [
                    | inl whole ↦
                        let e : j + 1 ≡ len = ground arith in
                        let sentry : is_sentry (t (j + 1)) ≡ true =
                          rw (e, table.sentry, is_sentry) refl in
                        rw (there, same, sentry, match_from)
                          (Fits-IsMatch len s n i j e (ground arith) next)
                    | inr part ↦
                        let (b, eq, le', border) = table.falls (j + 1) (ground arith) in
                        let no : is_sentry (t (j + 1)) ≡ false = rw (eq, is_sentry) refl in
                        rw (there, same, no, match_from)
                          (rec (i + 1) (j + 1) (ground arith) (ground arith) next (ground arith))
                  ]
              | inr other ↦ elim (Bool-cases (j == 0)) [
                | inl first ↦
                    rw (there, other, first, match_from)
                      (rec (i + 1) 0 (ground arith) (omega arith)
                        (omega arith, λ k low. omega arith) (ground arith))
                | inr later ↦
                    let (b, eq, le', border) = table.falls (j - 1) (ground arith) in
                    let e : j - 1 + 1 ≡ j = ground arith in
                    let border' : Border m p j b = subst (λ x. Border m p x b) e border in
                    rw (there, other, later, eq, match_from)
                      (rec i b le (omega arith) (Fits-Border s i j b border' fits) (ground arith))
              ]
            ]
      ]

-- The table is all 0 before the first call.
abbrev pub clear_table : ℕ → ℤ
clear_table i = pos 0

-- The search of grep with a pattern of 1 to 99 bytes, in a string of `n`: `kmp_pp` stores inside its
-- table, `kmp_match` ends within 2 * n + 1 rounds and never reads in front of the pattern, and an
-- address that it returns is one where the whole pattern stands inside the string.
pub kmp_match-IsMatch :
    (m : Memory) (p len s n : ℕ)
    → 0 < len
    → len < 100
    → ((k : ℕ) → k < len → m (p + k) ≢ 0)
    → m (p + len) ≡ 0
    → ((k : ℕ) → k < n → m (s + k) ≢ 0)
    → m (s + n) ≡ 0
    → (t : ℕ → ℤ) × (kmp_pp p m clear_table ≡ some t)
      × IsMatch m p len s n (kmp_match (2 * n + 1) s p t m)
unfolding kmp_pp kmp_match
kmp_match-IsMatch m p len s n some_byte short nz nul full end =
    let clear : (k : ℕ) → update clear_table 0 (pos 0) k ≡ pos 0 =
      λ k. elim (Bool-cases (0 == k)) [ inl e ↦ rw e refl | inr ne ↦ rw ne refl ] in
    let (t, e, table) =
      set_jumps-IsTable m p len 99 1 0 (update clear_table 0 (pos 0)) nz nul (omega arith)
        (omega arith) (omega arith) (Border-zero m p 1)
        (λ k low. (0, clear k, omega arith, Border-zero m p (k + 1))) (λ k high. clear k) in
    (
      t,
      e,
      match_from-IsMatch m p len s n t table full end (2 * n + 1) 0 0 (omega arith) some_byte
          (omega arith, λ k low. omega arith) (omega arith),
    )
