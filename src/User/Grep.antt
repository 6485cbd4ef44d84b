-- ===== src/User/Grep.antt =====
-- The search of bin/grep.c: `kmp_pp` and `kmp_match`. Strings stand in memory as in `Clib.Str`; a table
-- of jumps is a function from its index to its `char`.
use jix.Base.{
  ℕ, zero, suc, ◌+◌, ◌-◌, Bool, true, false, Option, none, some, ◌==◌, if◌then◌else◌, update, ℤ,
  pos, negsuc, minus_one,
}
use jix.Clib.Mem.{Memory}

-- The entries of `jmpt`.
abbrev pub jumps_size : ℕ
jumps_size = 100

-- The loop of `kmp_pp` from `i` on, with the entries left in the table, and its last store. `none` is a
-- store behind the end of the table. Where two characters differ, the entry is left as it was.
unfoldable pub set_jumps : ℕ → ℕ → ℕ → ℕ → Memory → (ℕ → ℤ) → Option (ℕ → ℤ)
set_jumps zero p i last m t = none
set_jumps (suc n) p i last m t =
    let same = m (p + i) == m (p + last) in
    let rest =
      set_jumps n p (i + 1) (if same then last + 1 else 0) m
        (if same then update t i (pos (last + 1)) else t) in
    if m (p + i) == 0 then some (update t i minus_one) else rest

-- `kmp_pp` of the pattern at `p`, where the table held `t`.
unfoldable pub kmp_pp : ℕ → Memory → (ℕ → ℤ) → Option (ℕ → ℤ)
kmp_pp p m t = set_jumps (jumps_size - 1) p 1 0 m (update t 0 (pos 0))

-- jmpt[pos] == -1.
abbrev pub is_sentry : ℤ → Bool
is_sentry (pos n) = false
is_sentry (negsuc n) = n == 0

-- The loop of `kmp_match`, at `i` in the string at `s` and at `j` in the pattern at `p`. `none` means
-- that the fuel ran out or that the table sends it in front of the pattern, `some none` is NULL.
unfoldable pub match_from : ℕ → ℕ → ℕ → (ℕ → ℤ) → ℕ → ℕ → Memory → Option (Option ℕ)
match_from zero s p t i j m = none
match_from (suc n) s p t i j m = elim (m (s + i) == 0) [
  | true ↦ some none
  | false ↦ elim (m (p + j) == m (s + i)) [
    | true ↦ elim (is_sentry (t (j + 1))) [
      | true ↦ some (some (s + (i + 1) - (j + 1)))
      | false ↦ match_from n s p t (i + 1) (j + 1) m
    ]
    | false ↦ elim (j == 0) [
      | true ↦ match_from n s p t (i + 1) 0 m
      | false ↦ elim (t (j - 1)) [ pos k ↦ match_from n s p t i k m | negsuc k ↦ none ]
    ]
  ]
]

unfoldable pub kmp_match : ℕ → ℕ → ℕ → (ℕ → ℤ) → Memory → Option (Option ℕ)
kmp_match n s p t m = match_from n s p t 0 0 m
