-- ===== src/Clib/StrCompare.antt =====
-- `strncmp` and `memcmp` of lib/string.c: when they say that two ranges agree.
use jix.Base.{
  ℕ, zero, suc, ◌+◌, ◌<◌, ◌≡◌, refl, ◌≢◌, ◌↔◌, inl, inr, Bool, true, false, not, ◌&&◌, arith, ◌==◌,
  Bool-cases, pos, diff,
}
use jix.Clib.Mem.{Memory, memcmp}
use jix.Clib.Str.{strncmp}

diff-zero : (a b : ℕ) → diff a b ≡ pos 0 → a ≡ b
diff-zero a b h = ground arith

-- The two agree in their first `n` bytes, or up to and with a NUL among these.
abbrev pub Agree : ℕ → ℕ → ℕ → Memory → Type 0
Agree n p q m = (i : ℕ) → i < n → ((j : ℕ) → j < i → m (p + j) ≢ 0) → m (p + i) ≡ m (q + i)

-- The test of the loop.
abbrev goes_on : ℕ → ℕ → Memory → Bool
goes_on p q m = not (m p == 0) && m p == m q

first_same : (p q : ℕ) (m : Memory) → goes_on p q m ≡ true → m p ≡ m q
first_same p q m h = ground arith

stop_at_nul : (p q : ℕ) (m : Memory) → goes_on p q m ≡ false → m p ≡ m q → m p ≡ 0
stop_at_nul p q m h e = ground arith

next_same :
    (n p q i : ℕ) (m : Memory)
    → Agree n (p + 1) (q + 1) m
    → i < n
    → ((j : ℕ) → j < suc i → m (p + j) ≢ 0)
    → m (p + suc i) ≡ m (q + suc i)
next_same n p q i m h lt before =
    let e : p + suc i ≡ p + 1 + i = omega arith in
    let e' : q + suc i ≡ q + 1 + i = omega arith in
    rw (e, e')
      (h i lt (λ j l.
        let e'' : p + suc j ≡ p + 1 + j = omega arith in rw e'' at (before (suc j) (omega arith))))

strncmp-Agree : (n p q : ℕ) (m : Memory) → strncmp n p q m ≡ pos 0 → Agree n p q m
unfolding strncmp
strncmp-Agree zero p q m e i lt before = absurd (omega arith)
strncmp-Agree (suc n) p q m e i lt before = elim (Bool-cases (goes_on p q m)) [
  | inl more ↦ ok i lt before (first_same p q m more) (λ i' lt' b.
      next_same n p q i' m (strncmp-Agree n (p + 1) (q + 1) m (rw (more, strncmp) at e)) lt' b)
  | inr stop ↦
      let same : m p ≡ m q = diff-zero (m p) (m q) (rw (stop, strncmp) at e) in
      ok i lt before same (λ i' lt' b.
        let e0 : p + 0 ≡ p = omega arith in
        absurd ((rw e0 at (b 0 (omega arith))) (stop_at_nul p q m stop same)))
]
  where
    ok :
        (i : ℕ)
        → i < suc n
        → ((j : ℕ) → j < i → m (p + j) ≢ 0)
        → m p ≡ m q
        → ((i' : ℕ)
            → i' < n
            → ((j : ℕ) → j < suc i' → m (p + j) ≢ 0)
            → m (p + suc i') ≡ m (q + suc i'))
        → m (p + i) ≡ m (q + i)
    ok zero lt before same rest =
        let e : p + 0 ≡ p = omega arith in let e' : q + 0 ≡ q = omega arith in rw (e, e') same
    ok (suc i) lt before same rest = rest i (omega arith) before

Agree-strncmp : (n p q : ℕ) (m : Memory) → Agree n p q m → strncmp n p q m ≡ pos 0
unfolding strncmp
Agree-strncmp zero p q m h = refl
Agree-strncmp (suc n) p q m h =
    let e : p + 0 ≡ p = omega arith in
    let e' : q + 0 ≡ q = omega arith in
    let same : m p ≡ m q = rw (e, e') at (h 0 (omega arith) (λ j lt. absurd (omega arith))) in
    elim (Bool-cases (goes_on p q m)) [
      | inl more ↦
          let ne : m p ≢ 0 = ground arith in
          rw (more, strncmp) (Agree-strncmp n (p + 1) (q + 1) m (rest same ne))
      | inr stop ↦
          let zero_diff : diff (m p) (m q) ≡ pos 0 = ground arith in rw (stop, strncmp) zero_diff
    ]
  where
    rest : m p ≡ m q → m p ≢ 0 → Agree n (p + 1) (q + 1) m
    rest same ne i lt before =
        let e : p + suc i ≡ p + 1 + i = omega arith in
        let e' : q + suc i ≡ q + 1 + i = omega arith in
        rw (e, e') at (h (suc i) (omega arith) (upto ne before))
      where
        upto : m p ≢ 0 → ((j : ℕ) → j < i → m (p + 1 + j) ≢ 0) → (j : ℕ) → j < suc i → m (p + j) ≢ 0
        upto ne before zero lt = let e : p + 0 ≡ p = omega arith in rw e ne
        upto ne before (suc j) lt =
            let e : p + suc j ≡ p + 1 + j = omega arith in rw e (before j (omega arith))

-- `strncmp` is 0 exactly when the two ranges agree in their first `n` bytes, or up to and with a
-- NUL that both have among these.
pub strncmp_iff : (n p q : ℕ) (m : Memory) → (strncmp n p q m ≡ pos 0) ↔ Agree n p q m
strncmp_iff n p q m = (strncmp-Agree n p q m, Agree-strncmp n p q m)

shift : (p q i : ℕ) → (p + suc i ≡ p + 1 + i) × (q + suc i ≡ q + 1 + i)
shift p q i = (omega arith, omega arith)

here : (p q : ℕ) → (p + 0 ≡ p) × (q + 0 ≡ q)
here p q = (omega arith, omega arith)

differs : (a b : ℕ) → (a == b) ≡ false → a ≢ b
differs a b h e = ground arith

AllSame-suc :
    (n p q : ℕ) (m : Memory)
    → m p ≡ m q
    → ((i : ℕ) → i < n → m (p + 1 + i) ≡ m (q + 1 + i))
    → (i : ℕ) → i < suc n
    → m (p + i) ≡ m (q + i)
AllSame-suc n p q m e h zero lt = let (l, r) = here p q in rw (l, r) e
AllSame-suc n p q m e h (suc i) lt = let (l, r) = shift p q i in rw (l, r) (h i (omega arith))

-- `memcmp` is 0 exactly when the two ranges agree in all `n` bytes.
pub memcmp_iff :
    (n p q : ℕ) (m : Memory) → (memcmp n p q m ≡ pos 0) ↔ ((i : ℕ) → i < n → m (p + i) ≡ m (q + i))
unfolding memcmp
memcmp_iff zero p q m = (λ e i lt. absurd (omega arith), λ h. refl)
memcmp_iff (suc n) p q m = elim (Bool-cases (m p == m q)) [
  | inl same ↦
      let (to, back) = memcmp_iff n (p + 1) (q + 1) m in
      let e : m p ≡ m q = ground arith in
      rw (same, memcmp)
        (
          λ z. AllSame-suc n p q m e (to z),
          λ h. back (λ i lt. let (l, r) = shift p q i in rw (l, r) at (h (suc i) (omega arith))),
        )
  | inr differ ↦
      rw (differ, memcmp)
        (
          λ z. absurd (let e = diff-zero (m p) (m q) z in omega (arith, differs _ _ differ e)),
          λ h.
              let e : m p ≡ m q = let (l, r) = here p q in rw (l, r) at (h 0 (omega arith)) in
              absurd (differs _ _ differ e),
        )
]
