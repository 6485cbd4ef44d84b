-- ===== src/Clib/Move.antt =====
-- `memmove` and `memset` of lib/string.c: what memory holds after them.
use jix.Base.{
  ℕ, zero, suc, ◌+◌, ◌*◌, ◌/◌, ◌%◌, ◌^◌, ◌≤◌, ◌<◌, ◌≡◌, refl, ◌∙◌, subst, ◌⊎◌, inl, inr, ◌&&◌,
  arith, ltb, leb, ◌==◌, if◌then◌else◌, Bool-cases, update, update_self, update-ne,
}
use jix.Clib.Mem.{Memory, copy_up, copy_down, memmove, stosb, stosl, memset}

-- `n` bytes from `src` have been copied to `dst`; the rest is as before.
abbrev pub IsCopied : ℕ → ℕ → ℕ → Memory → Memory → Type 0
IsCopied dst src n m m' =
    ((i : ℕ) → i < n → m' (dst + i) ≡ m (src + i))
    × ((x : ℕ) → (x < dst) ⊎ (dst + n ≤ x) → m' x ≡ m x)

copy_up-outside : (n d s : ℕ) (m : Memory) (x : ℕ) → (x < d) ⊎ (d + n ≤ x) → copy_up n d s m x ≡ m x
unfolding copy_up
copy_up-outside zero d s m x h = refl
copy_up-outside (suc n) d s m x h =
    copy_up-outside n (d + 1) (s + 1) (update m d (m s)) x (omega arith)
    ∙ update-ne m d x (m s) (omega arith)

-- Going up is right where the source does not lie below an overlapping target.
copy_up-inside :
    (n d s : ℕ) (m : Memory) (i : ℕ)
    → (d ≤ s) ⊎ (s + n ≤ d)
    → i < n
    → copy_up n d s m (d + i) ≡ m (s + i)
unfolding copy_up
copy_up-inside zero d s m i apart lt = absurd (omega arith)
copy_up-inside (suc n) d s m zero apart lt =
    let e : d + 0 ≡ d = omega arith in
    let e' : s + 0 ≡ s = omega arith in
    rw (e, e')
      (copy_up-outside n (d + 1) (s + 1) (update m d (m s)) d (omega arith) ∙ update_self m d (m s))
copy_up-inside (suc n) d s m (suc i) apart lt =
    let e : d + suc i ≡ d + 1 + i = omega arith in
    let e' : s + suc i ≡ s + 1 + i = omega arith in
    rw (e, e')
      (copy_up-inside n (d + 1) (s + 1) (update m d (m s)) i (omega arith) (omega arith)
        ∙ update-ne m d (s + 1 + i) (m s) (omega arith))

copy_down-outside :
    (n d s : ℕ) (m : Memory) (x : ℕ) → (x < d) ⊎ (d + n ≤ x) → copy_down n d s m x ≡ m x
unfolding copy_down
copy_down-outside zero d s m x h = refl
copy_down-outside (suc n) d s m x h =
    copy_down-outside n d s (update m (d + n) (m (s + n))) x (omega arith)
    ∙ update-ne m (d + n) x (m (s + n)) (omega arith)

-- Going down is right where the source lies below the target.
copy_down-inside :
    (n d s : ℕ) (m : Memory) (i : ℕ) → s < d → i < n → copy_down n d s m (d + i) ≡ m (s + i)
unfolding copy_down
copy_down-inside zero d s m i apart lt = absurd (omega arith)
copy_down-inside (suc n) d s m i apart lt = elim (Bool-cases (i == n)) [
  | inl e ↦
      let e' : i ≡ n = ground arith in
      rw e' (
        copy_down-outside n d s (update m (d + n) (m (s + n))) (d + n) (omega arith)
        ∙ update_self m (d + n) (m (s + n)))
  | inr ne ↦
      let lt' : i < n = ground arith in
      copy_down-inside n d s (update m (d + n) (m (s + n))) i apart lt'
      ∙ update-ne m (d + n) (s + i) (m (s + n)) (omega arith)
]

-- `memmove` copies the source as it was before the call, whichever way the two ranges overlap, and
-- changes nothing outside the target.
pub memmove-IsCopied : (dst src n : ℕ) (m : Memory) → IsCopied dst src n m (memmove dst src n m)
unfolding memmove
memmove-IsCopied dst src n m = elim (Bool-cases (ltb src dst && ltb dst (src + n))) [
  | inl down ↦
      rw (down, memmove)
        (λ i. copy_down-inside n dst src m i (ground arith), λ x. copy_down-outside n dst src m x)
  | inr up ↦
      rw (up, memmove)
        (λ i. copy_up-inside n dst src m i (ground arith), λ x. copy_up-outside n dst src m x)
]

-- Every byte of the range is `c`, and the rest is as before.
abbrev pub IsFilled : ℕ → ℕ → ℕ → Memory → Memory → Type 0
IsFilled a c n m m' = (x : ℕ) → m' x ≡ (if leb a x && ltb x (a + n) then c else m x)

stosb-IsFilled : (n a c : ℕ) (m : Memory) → IsFilled a (c % 2 ^ 8) n m (stosb n a c m)
unfolding stosb
stosb-IsFilled zero a c m x = ground arith
stosb-IsFilled (suc n) a c m x =
    stosb-IsFilled n (a + 1) c (update m a (c % 2 ^ 8)) x ∙ ground arith

-- A word whose four bytes are equal.
abbrev splat : ℕ → ℕ
splat b = b * 2 ^ 24 + b * 2 ^ 16 + b * 2 ^ 8 + b

splat_bytes :
    (b : ℕ)
    → b < 2 ^ 8
    → (splat b % 2 ^ 8 ≡ b)
      × (splat b / 2 ^ 8 % 2 ^ 8 ≡ b)
      × (splat b / 2 ^ 16 % 2 ^ 8 ≡ b)
      × (splat b / 2 ^ 24 % 2 ^ 8 ≡ b)
splat_bytes b lt = (omega arith, omega arith, omega arith, omega arith)

stosl-IsFilled :
    (n a b : ℕ) (m : Memory) → b < 2 ^ 8 → IsFilled a b (4 * n) m (stosl n a (splat b) m)
unfolding stosl
stosl-IsFilled zero a b m lt x = ground arith
stosl-IsFilled (suc n) a b m lt x =
    let (b0, b1, b2, b3) = splat_bytes b lt in
    rw (b0, b1, b2, b3)
      (stosl-IsFilled n (a + 4) b
          (update (update (update (update m a b) (a + 1) b) (a + 2) b) (a + 3) b) lt x
        ∙ ground arith)

-- `memset` writes the low byte of `c` over the range and nothing else, also where it goes by words.
pub memset-IsFilled : (dst c n : ℕ) (m : Memory) → IsFilled dst (c % 2 ^ 8) n m (memset dst c n m)
unfolding memset
memset-IsFilled dst c n m = elim (Bool-cases (dst % 4 == 0 && n % 4 == 0)) [
  | inl words ↦
      let e : 4 * (n / 4) ≡ n = ground arith in
      rw (words, memset)
        (subst (λ k. IsFilled dst (c % 2 ^ 8) k m (stosl (n / 4) dst (splat (c % 2 ^ 8)) m)) e
          (stosl-IsFilled (n / 4) dst (c % 2 ^ 8) m (omega arith)))
  | inr bytes ↦ rw (bytes, memset) (stosb-IsFilled n dst c m)
]
