-- ===== src/Tests/Grep.antt =====
-- Tests of the search of grep.
use jix.Base.{
  ℕ, zero, suc, ◌+◌, ◌<◌, ◌≡◌, refl, ◌≢◌, Option, none, some, List, [], ◌∷◌, arith, ltb, ◌==◌,
  if◌then◌else◌, ℤ,
}
use jix.Clib.Mem.{Memory}
use jix.User.Grep.{set_jumps, kmp_pp, match_from, kmp_match}
use jix.User.GrepSearch.{IsMatch, clear_table, kmp_match-IsMatch}

-- The bytes of a list from an address on, and 0 behind them.
abbrev bytes : ℕ → List ℕ → Memory
bytes a [] i = 0
bytes a (x ∷ xs) i = if i == a then x else bytes (a + 1) xs i

-- The pattern stands at 0 and the line at 1000.
abbrev memory : List ℕ → List ℕ → Memory
memory pattern line a = if ltb a 1000 then bytes 0 pattern a else bytes 1000 line a

abbrev search : List ℕ → List ℕ → Option (Option ℕ)
search pattern line = elim (kmp_pp 0 (memory pattern line) clear_table) [
  | none ↦ none
  | some t ↦ kmp_match 50 1000 0 t (memory pattern line)
]

-- "ab" in "aab", and not in "aa".
search-there : search (97 ∷ 98 ∷ []) (97 ∷ 97 ∷ 98 ∷ []) ≡ some (some 1001)
unfolding kmp_pp set_jumps kmp_match match_from
search-there = refl

search-not_there : search (97 ∷ 98 ∷ []) (97 ∷ 97 ∷ []) ≡ some none
unfolding kmp_pp set_jumps kmp_match match_from
search-not_there = refl

-- "aabaaab" stands in "aabaaaabaaab" from its sixth character on, and is not found.
search-missed :
    search
      (97 ∷ 97 ∷ 98 ∷ 97 ∷ 97 ∷ 97 ∷ 98 ∷ [])
      (97 ∷ 97 ∷ 98 ∷ 97 ∷ 97 ∷ 97 ∷ 97 ∷ 98 ∷ 97 ∷ 97 ∷ 97 ∷ 98 ∷ [])
    ≡ some none
unfolding kmp_pp set_jumps kmp_match match_from
search-missed = refl

-- "ab" in "aab".
abbrev there : Memory
there = memory (97 ∷ 98 ∷ []) (97 ∷ 97 ∷ 98 ∷ [])

pattern_bytes : (k : ℕ) → k < 2 → there (0 + k) ≢ 0
pattern_bytes zero lt = ground arith
pattern_bytes (suc zero) lt = ground arith
pattern_bytes (suc (suc k)) lt = absurd (omega arith)

line_bytes : (k : ℕ) → k < 3 → there (1000 + k) ≢ 0
line_bytes zero lt = ground arith
line_bytes (suc zero) lt = ground arith
line_bytes (suc (suc zero)) lt = ground arith
line_bytes (suc (suc (suc k))) lt = absurd (omega arith)

kmp_match-IsMatch_example :
    (t : ℕ → ℤ) × (kmp_pp 0 there clear_table ≡ some t)
    × IsMatch there 0 2 1000 3 (kmp_match 7 1000 0 t there)
kmp_match-IsMatch_example =
    kmp_match-IsMatch there 0 2 1000 3 (omega arith) (omega arith) pattern_bytes refl line_bytes
      refl
