-- ===== src/User/ExecPack.antt =====
-- `exec` of lib/mm.c: how it packs the strings of `argv`, and how `do_exec` of mm/exec.c finds them.
use jix.Base.{ℕ, ◌+◌, ◌≤◌, ◌<◌, ◌≡◌, ◌≢◌, ◌⊎◌, List, [], ◌∷◌, length}
use jix.Kernel.MsgType
use jix.Clib.Mem.{Memory}
use jix.User.PackedString.{HasString}

-- The bytes that the strings take when they are packed.
abbrev pub packed_size : List (List ℕ) → ℕ
packed_size [] = 0
packed_size (s ∷ ss) = length s + 1 + packed_size ss

-- The strings are those of `argv` from index `i` on; none is empty, and none meets the bytes from `lo`
-- up to `hi`.
abbrev pub HasArgs : Memory → (ℕ → ℕ) → ℕ → ℕ → ℕ → List (List ℕ) → Type 0
HasArgs m argv lo hi i [] = argv i ≡ 0
HasArgs m argv lo hi i (s ∷ ss) =
    (argv i ≢ 0)
    × HasString m (argv i) s
    × (s ≢ [])
    × ((argv i + length s < lo) ⊎ (hi ≤ argv i))
    × HasArgs m argv lo hi (i + 1) ss

-- One behind the other from `a` on.
abbrev pub IsPacked : Memory → ℕ → List (List ℕ) → Type 0
IsPacked m a [] = Unit {0}
IsPacked m a (s ∷ ss) = HasString m a s × IsPacked m (a + (length s + 1)) ss

AreFull : List (List ℕ) → Type 0
AreFull [] = Unit {0}
AreFull (s ∷ ss) = (s ≢ []) × AreFull ss
