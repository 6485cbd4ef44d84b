-- ===== src/Fs/PipeFifo.antt =====
-- A pipe is a queue of bytes: what `pipewrite` and `piperead` of fs/pipe.c do to its contents.
use jix.Base.{
  ℕ, zero, suc, ◌+◌, ◌-◌, ◌%◌, ◌^◌, ◌≤◌, ◌<◌, ◌≡◌, refl, ap, ap₂, ◌≢◌, List, [], ◌∷◌, ◌++◌, arith,
  length, update, update_self, update-ne,
}
use jix.Fs.Pipe.{Pipe, pipe_size, put_byte, drop_byte}

pub record IsValid (p : Pipe) : Type 0 where
  pub head_in : p.head < pipe_size
  pub count_in : p.count ≤ pipe_size

-- The `n` bytes from index `h` on, going round at the end of the array.
abbrev pub window : (ℕ → ℕ) → ℕ → ℕ → List ℕ
window b h zero = []
window b h (suc n) = b h ∷ window b ((h + 1) % pipe_size) n

-- What the pipe holds, the oldest byte first.
abbrev pub contents : Pipe → List ℕ
contents p = window p.bytes p.head p.count

pub length-window : (b : ℕ → ℕ) (h n : ℕ) → length (window b h n) ≡ n
length-window b h zero = refl
length-window b h (suc n) = ap suc (length-window b ((h + 1) % pipe_size) n)

-- Writing the byte behind the window extends it.
window-put :
    (b : ℕ → ℕ) (h n x i : ℕ)
    → h < pipe_size
    → n < pipe_size
    → i ≡ (h + n) % pipe_size
    → window (update b i x) h (suc n) ≡ window b h n ++ (x ∷ [])
window-put b h zero x i lt room e = let at : i ≡ h = omega arith in rw at (rw (update_self b h x))
window-put b h (suc n) x i lt room e =
    let ne : i ≢ h = omega arith in
    let next = window-put b ((h + 1) % pipe_size) n x i (omega arith) (omega arith) (omega arith) in
    ap₂ (λ a l. a ∷ l) (update-ne b i h x ne) next

pub put_byte-IsValid : (x : ℕ) (p : Pipe) → IsValid p → p.count ≢ pipe_size → IsValid (put_byte x p)
unfolding put_byte
put_byte-IsValid x p v room = ground arith

pub contents-put_byte :
    (x : ℕ) (p : Pipe)
    → IsValid p
    → p.count ≢ pipe_size
    → contents (put_byte x p) ≡ contents p ++ (x ∷ [])
unfolding put_byte
contents-put_byte x p v room =
    let up : (p.count + 1) % 2 ^ 32 ≡ suc p.count = omega arith in
    rw up (window-put p.bytes p.head p.count x _ v.head_in (omega arith) (omega arith))

pub drop_byte-IsValid : (p : Pipe) → IsValid p → p.count ≢ 0 → IsValid (drop_byte p)
unfolding drop_byte
drop_byte-IsValid p v some_left = ground arith

window-drop :
    (b : ℕ → ℕ) (h n : ℕ) → n ≢ 0 → window b h n ≡ b h ∷ window b ((h + 1) % pipe_size) (n - 1)
window-drop b h zero ne = absurd (ne refl)
window-drop b h (suc n) ne = let e : suc n - 1 ≡ n = omega arith in rw e

pub contents-drop_byte :
    (p : Pipe) → IsValid p → p.count ≢ 0 → contents p ≡ p.bytes p.head ∷ contents (drop_byte p)
unfolding drop_byte
contents-drop_byte p v ne =
    let down : (p.count + 2 ^ 32 - 1) % 2 ^ 32 ≡ p.count - 1 = omega arith in
    let round : (p.head + 1) % 2 ^ 32 % pipe_size ≡ (p.head + 1) % pipe_size = omega arith in
    rw (down, round) (window-drop p.bytes p.head p.count ne)
