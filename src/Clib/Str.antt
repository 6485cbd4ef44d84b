-- ===== src/Clib/Str.antt =====
-- The NUL-terminated strings of lib/string.c, over the memory of `Clib.Mem`. The loops that have no
-- bound of their own take fuel, and `none` means that it ran out.
use jix.Base.{
  ℕ, zero, suc, ◌+◌, ◌≤◌, ◌<◌, ◌≡◌, ◌≢◌, inl, inr, true, false, not, ◌&&◌, Option, none, some,
  arith, ◌==◌, if◌then◌else◌, Bool-cases, update, ℤ, pos, diff,
}
use jix.Clib.Mem.{Memory}

-- `strncmp`.
unfoldable pub strncmp : ℕ → ℕ → ℕ → Memory → ℤ
strncmp zero p q m = pos 0
strncmp (suc n) p q m =
    let rest = strncmp n (p + 1) (q + 1) m in
    if not (m p == 0) && m p == m q then rest else diff (m p) (m q)

-- `strcmp`.
unfoldable pub strcmp : ℕ → ℕ → ℕ → Memory → Option ℤ
strcmp zero p q m = none
strcmp (suc f) p q m =
    let rest = strcmp f (p + 1) (q + 1) m in
    if not (m p == 0) && m p == m q then rest else some (diff (m p) (m q))

-- `strncpy`, at `n ≥ 0`: it stops after a NUL, and neither pads the rest nor adds a NUL.
unfoldable pub strncpy : ℕ → ℕ → ℕ → Memory → Memory
strncpy zero s t m = m
strncpy (suc n) s t m =
    let m' = update m s (m t) in
    let rest = strncpy n (s + 1) (t + 1) m' in if m t == 0 then m' else rest

-- `strcpy`.
unfoldable pub strcpy : ℕ → ℕ → ℕ → Memory → Option Memory
strcpy zero s t m = none
strcpy (suc f) s t m =
    let m' = update m s (m t) in
    let rest = strcpy f (s + 1) (t + 1) m' in if m t == 0 then some m' else rest

-- The loop of `safestrcpy`, with `n` bytes left after the decrement, and the NUL behind it.
unfoldable pub safestrcpy_from : ℕ → ℕ → ℕ → Memory → Memory
safestrcpy_from zero s t m = update m s 0
safestrcpy_from (suc n) s t m =
    let m' = update m s (m t) in
    let rest = safestrcpy_from n (s + 1) (t + 1) m' in
    if m t == 0 then update m' (s + 1) 0 else rest

-- `safestrcpy`, at `n ≥ 0`.
unfoldable pub safestrcpy : ℕ → ℕ → ℕ → Memory → Memory
safestrcpy zero s t m = m
safestrcpy (suc n) s t m = safestrcpy_from n s t m

-- The loop of `strlen`.
unfoldable pub strlen_from : ℕ → ℕ → ℕ → Memory → Option ℕ
strlen_from zero s n m = none
strlen_from (suc f) s n m =
    let rest = strlen_from f s (n + 1) m in if m (s + n) == 0 then some n else rest

unfoldable pub strlen : ℕ → ℕ → Memory → Option ℕ
strlen f s m = strlen_from f s 0 m

-- From `s` on memory holds a string of `n` bytes and then its NUL.
pub record IsString (m : Memory) (s n : ℕ) : Type 0 where
  pub ends : m (s + n) ≡ 0
  pub body : (i : ℕ) → i < n → m (s + i) ≢ 0

strlen_from-lem :
    (f s i n : ℕ) (m : Memory) → IsString m s n → i ≤ n → n < i + f → strlen_from f s i m ≡ some n
unfolding strlen_from
strlen_from-lem zero s i n m str le lt = absurd (omega arith)
strlen_from-lem (suc f) s i n m str le lt = elim (Bool-cases (i == n)) [
  | inl e ↦
      let e' : i ≡ n = ground arith in
      let at_end : (m (s + i) == 0) ≡ true = rw e' (ground (arith, str.ends)) in
      rw (at_end, strlen_from, e')
  | inr ne ↦
      let more : (m (s + i) == 0) ≡ false = ground (arith, str.body i) in
      rw (more, strlen_from) (strlen_from-lem f s (i + 1) n m str (ground arith) (omega arith))
]

-- `strlen` of a string of `n` bytes ends within `n + 1` rounds and is `n`.
pub strlen_lem : (f s n : ℕ) (m : Memory) → IsString m s n → n < f → strlen f s m ≡ some n
unfolding strlen
strlen_lem f s n m str lt = strlen_from-lem f s 0 n m str (omega arith) (omega arith)
