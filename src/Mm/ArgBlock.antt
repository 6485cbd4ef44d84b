-- ===== src/Mm/ArgBlock.antt =====
-- The block of packed arguments over which the loop of `do_exec` in mm/exec.c walks. `none` means that
-- the fuel ran out.
use jix.Base.{ℕ, zero, suc, ◌+◌, true, false, Option, none, some, List, [], ◌∷◌, ◌==◌}
use jix.Clib.Mem.{Memory}
use jix.Clib.Str.{strlen}

-- The `n` bytes from `s` on.
abbrev pub bytes_from : Memory → ℕ → ℕ → List ℕ
bytes_from mem s zero = []
bytes_from mem s (suc n) = mem s ∷ bytes_from mem (s + 1) n

-- The strings over which the loop that pushes the arguments walks, from `s` on, with fuel: an empty
-- one ends them.
unfoldable pub args_of : ℕ → Memory → ℕ → Option (List (List ℕ))
args_of zero mem s = none
args_of (suc f) mem s = elim (mem s == 0) [
  | true ↦ some []
  | false ↦ elim (strlen f s mem) [
    | none ↦ none
    | some n ↦ elim (args_of f mem (s + (n + 1))) [
      | none ↦ none
      | some rest ↦ some (bytes_from mem s n ∷ rest)
    ]
  ]
]
