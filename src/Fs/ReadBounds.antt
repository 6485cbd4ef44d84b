-- ===== src/Fs/ReadBounds.antt =====
-- How much `readi` of fs/inode.c reads.
use jix.Base.{
  ℕ, zero, suc, ◌+◌, ◌-◌, ◌%◌, ◌^◌, ◌≤◌, ◌<◌, min, ◌≡◌, refl, ap, ap₂, ◌∙◌, ◌≢◌, inl, inr, false,
  Option, none, some, List, [], ◌++◌, arith, ltb, ◌==◌, if◌then◌else◌, Bool-cases, length,
  length-append, ℤ, minus_one, to_int,
}
use jix.Fs.Block.{bsize}
use jix.Fs.Inode.{Inodes, Action, ◌>>=◌, pure, panic}
use jix.Fs.InodeData.{bytes_at, chunk_at, read_blocks, readi, t_dev}

-- `Q` holds of what `m` returns, from whatever state, unless it panics.
abbrev HoldsOf : {A : Type 0} → (A → Type 0) → Option (A × Inodes) → Type 0
HoldsOf Q none = Unit {0}
HoldsOf Q (some (a, s)) = Q a

record Gives {A : Type 0} (Q : A → Type 0) (m : Action A) : Type 0 where
  at : (s : Inodes) → HoldsOf Q (m s)

module _ {A B : Type 0} {P : A → Type 0} {Q : B → Type 0} where
  continue-HoldsOf :
      (r : Option (A × Inodes)) (f : A → Action B)
      → HoldsOf P r
      → ((a : A) → P a → Gives Q (f a))
      → HoldsOf Q (elim r [ none ↦ none | some (a, s) ↦ f a s ])
  continue-HoldsOf none f h g = tt
  continue-HoldsOf (some (a, s)) f h g = (g a h).at s

  Gives-bind :
      (m : Action A) (f : A → Action B)
      → Gives P m
      → ((a : A) → P a → Gives Q (f a))
      → Gives Q (m >>= f)
  unfolding ◌>>=◌
  Gives-bind m f h g = record { at = λ s. continue-HoldsOf (m s) f (h.at s) g }

module _ {A B : Type 0} {Q : B → Type 0} where
  continue-any :
      (r : Option (A × Inodes)) (f : A → Action B)
      → ((a : A) → Gives Q (f a))
      → HoldsOf Q (elim r [ none ↦ none | some (a, s) ↦ f a s ])
  continue-any none f g = tt
  continue-any (some (a, s)) f g = (g a).at s

  Gives-any : (m : Action A) (f : A → Action B) → ((a : A) → Gives Q (f a)) → Gives Q (m >>= f)
  unfolding ◌>>=◌
  Gives-any m f g = record { at = λ s. continue-any (m s) f g }

Gives-pure : {A : Type 0} {Q : A → Type 0} (a : A) → Q a → Gives Q (pure a)
unfolding pure
Gives-pure a h = record { at = λ s. h }

Gives-panic : {A : Type 0} {Q : A → Type 0} → Gives Q (panic {A = A})
unfolding panic
Gives-panic = record { at = λ s. tt }

length-bytes_at : (b : ℕ → ℕ) (o m : ℕ) → length (bytes_at b o m) ≡ m
length-bytes_at b o zero = refl
length-bytes_at b o (suc m) = ap suc (length-bytes_at b (o + 1) m)

left-chunk : (off left : ℕ) → chunk_at off left + (left - chunk_at off left) ≡ left
left-chunk off left = omega arith

read_blocks-length : (ip f off left : ℕ) → Gives (λ l. length l ≡ left) (read_blocks ip f off left)
unfolding read_blocks
read_blocks-length ip zero off left = elim (Bool-cases (left == 0)) [
  | inl e ↦ rw e (Gives-pure [] (ground arith))
  | inr ne ↦ rw ne Gives-panic
]
read_blocks-length ip (suc f) off left = elim (Bool-cases (left == 0)) [
  | inl e ↦ rw e (Gives-pure [] (ground arith))
  | inr ne ↦
      let m = chunk_at off left in
      rw ne (
        Gives-any _ _ λ n. Gives-any _ _ λ x. Gives-any _ _ λ d.
          Gives-bind _ _ (read_blocks-length ip f (off + m) (left - m)) λ rest h.
            Gives-pure (bytes_at (d x.dev n) (off % bsize) m ++ rest) (
              length-append (bytes_at (d x.dev n) (off % bsize) m) rest
              ∙ ap₂ (λ a b. a + b) (length-bytes_at (d x.dev n) (off % bsize) m) h
              ∙ left-chunk off left))
]

-- What `readi` may return for a request at `off` of `n` bytes of a file of `size` bytes.
abbrev Reads : ℕ → ℕ → ℕ → ℤ × List ℕ → Type 0
Reads size off n (r, l) =
    (length l ≡ min n (size - off)) × (r ≡ (if ltb size off then minus_one else to_int (length l)))

part-Reads :
    (ip size off n m : ℕ)
    → off ≤ size
    → m ≡ min n (size - off)
    → Gives (Reads size off n) (read_blocks ip m off m >>= λ l. pure (to_int m, l))
part-Reads ip size off n m le e = Gives-bind _ _ (read_blocks-length ip m off m) λ l h.
    let within : ltb size off ≡ false = ground arith in
    Gives-pure (to_int m, l) (h ∙ e, rw (within, h) refl)

readi-Reads :
    (ip off n : ℕ) (s : Inodes)
    → (s.inodes ip).type ≢ t_dev
    → off + n < 2 ^ 32
    → HoldsOf (Reads (s.inodes ip).size off n) (readi ip off n s)
unfolding readi ◌>>=◌
readi-Reads ip off n s file fits =
    let size = (s.inodes ip).size in
    let plain : ((s.inodes ip).type == t_dev) ≡ false = ground arith in
    let sum : (off + n) % 2 ^ 32 ≡ off + n = omega arith in
    elim (Bool-cases (ltb size off)) [
      | inl past ↦
          let none_left : 0 ≡ min n (size - off) = ground arith in
          rw (plain, past) (none_left, rw past refl)
      | inr within ↦
          let le : off ≤ size = ground arith in
          let m = if ltb size (off + n) then size - off else n in
          let e : m ≡ min n (size - off) = ground arith in
          rw (plain, within, sum) ((part-Reads ip size off n m le e).at s)
    ]

-- When `off + n` stays below 2^32, a call of `readi` of `n` bytes at `off`, of an inode that is not a
-- device, that comes back without a panic, stores as many bytes as the smaller of `n` and what is left
-- of the file, none past its end; it returns that number, and -1 when `off` is past the end.
pub readi-bounds :
    (ip off n : ℕ) (s s' : Inodes) (r : ℤ) (l : List ℕ)
    → (s.inodes ip).type ≢ t_dev
    → off + n < 2 ^ 32
    → readi ip off n s ≡ some ((r, l), s')
    → (length l ≡ min n ((s.inodes ip).size - off))
      × (r ≡ (if ltb (s.inodes ip).size off then minus_one else to_int (length l)))
readi-bounds ip off n s s' r l file fits e =
    let h : HoldsOf (Reads (s.inodes ip).size off n) (readi ip off n s) =
      readi-Reads ip off n s file fits in
    rw e at h
