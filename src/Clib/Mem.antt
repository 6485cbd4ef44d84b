-- ===== src/Clib/Mem.antt =====
-- Memory and the block operations of lib/string.c. Memory is the byte at each address; addresses
-- are taken to lie so that no range wraps round the end of the address space.
use jix.Base.{
  ℕ, zero, suc, ◌+◌, ◌*◌, ◌/◌, ◌%◌, ◌^◌, ◌&&◌, ltb, ◌==◌, if◌then◌else◌, update, ℤ, pos, diff,
}

abbrev pub Memory : Type 0
Memory = ℕ → ℕ

-- `while (n-- > 0) *d++ = *s++;`.
unfoldable pub copy_up : ℕ → ℕ → ℕ → Memory → Memory
copy_up zero d s m = m
copy_up (suc n) d s m = copy_up n (d + 1) (s + 1) (update m d (m s))

-- `while (n-- > 0) *--d = *--s;`, with `d` and `s` before the addition of `n`.
unfoldable pub copy_down : ℕ → ℕ → ℕ → Memory → Memory
copy_down zero d s m = m
copy_down (suc n) d s m = copy_down n d s (update m (d + n) (m (s + n)))

-- `memmove`, and `memcpy`, which calls it.
unfoldable pub memmove : ℕ → ℕ → ℕ → Memory → Memory
memmove dst src n m =
    if ltb src dst && ltb dst (src + n) then copy_down n dst src m else copy_up n dst src m

-- `stosb` of include/x86.h: `n` bytes.
unfoldable pub stosb : ℕ → ℕ → ℕ → Memory → Memory
stosb zero a c m = m
stosb (suc n) a c m = stosb n (a + 1) c (update m a (c % 2 ^ 8))

-- `stosl` of include/x86.h: `n` words of four bytes, the lowest byte first.
unfoldable pub stosl : ℕ → ℕ → ℕ → Memory → Memory
stosl zero a w m = m
stosl (suc n) a w m = stosl n (a + 4) w (
    update
      (update (update (update m a (w % 2 ^ 8)) (a + 1) (w / 2 ^ 8 % 2 ^ 8)) (a + 2)
        (w / 2 ^ 16 % 2 ^ 8))
      (a + 3) (w / 2 ^ 24 % 2 ^ 8))

-- `memset`. The four shifted bytes share no bit, so their `|` is their sum.
unfoldable pub memset : ℕ → ℕ → ℕ → Memory → Memory
memset dst c n m =
    if dst % 4 == 0 && n % 4 == 0
    then (let b = c % 2 ^ 8 in stosl (n / 4) dst (b * 2 ^ 24 + b * 2 ^ 16 + b * 2 ^ 8 + b) m)
    else stosb n dst c m

-- `memcmp`.
unfoldable pub memcmp : ℕ → ℕ → ℕ → Memory → ℤ
memcmp zero s1 s2 m = pos 0
memcmp (suc n) s1 s2 m =
    let rest = memcmp n (s1 + 1) (s2 + 1) m in if m s1 == m s2 then rest else diff (m s1) (m s2)
