-- ===== src/Fs/TtyRead.antt =====
-- `tty_read` of fs/tty.c: how it takes bytes from the input queue, and the end-of-file key.
use jix.Base.{
  ℕ, zero, suc, ◌+◌, ◌-◌, ◌%◌, ◌^◌, ◌≡◌, refl, sym, ap, ◌∙◌, subst, ◌≢◌, inl, inr, Bool, true,
  false, List, [], ◌∷◌, arith, ◌==◌, if◌then◌else◌, Bool-cases, length, minus_two, to_int,
}
use jix.Fs.Tty.{Tty, buf_size, ctrl_d, eat, read_from, tty_read}
use jix.Fs.TtyInput.{IsValid, window, pending}

-- The bytes in front of the first Ctrl-D, at most `n`: what a read stores.
abbrev pub line_of : ℕ → List ℕ → List ℕ
line_of zero l = []
line_of (suc n) [] = []
line_of (suc n) (x ∷ l) = if x == ctrl_d then [] else x ∷ line_of n l

-- What is left in the queue behind it; the Ctrl-D goes too if it stood first.
abbrev pub rest_of : ℕ → Bool → List ℕ → List ℕ
rest_of zero fresh l = l
rest_of (suc n) fresh [] = []
rest_of (suc n) fresh (x ∷ l) =
    if x == ctrl_d then (if fresh then l else x ∷ l) else rest_of n false l

line_of-nil : (n : ℕ) → line_of n [] ≡ []
line_of-nil zero = refl
line_of-nil (suc n) = refl

rest_of-nil : (n : ℕ) → rest_of n true [] ≡ []
rest_of-nil zero = refl
rest_of-nil (suc n) = refl

eat-IsValid : (t : Tty) → IsValid t → t.count ≢ 0 → IsValid (eat t)
unfolding eat
eat-IsValid t v ne = ground arith

window-eat :
    (b : ℕ → ℕ) (h n : ℕ) → n ≢ 0 → window b h n ≡ b h ∷ window b ((h + 1) % buf_size) (n - 1)
window-eat b h zero ne = absurd (ne refl)
window-eat b h (suc n) ne = let e : suc n - 1 ≡ n = omega arith in rw e

pending-eat :
    (t : Tty) → IsValid t → t.count ≢ 0 → pending t ≡ t.in_buf t.buf_head ∷ pending (eat t)
unfolding eat
pending-eat t v ne =
    let down : (t.count + 2 ^ 32 - 1) % 2 ^ 32 ≡ t.count - 1 = omega (arith, v.count_in) in
    rw down (window-eat t.in_buf t.buf_head t.count ne)

pending-empty : (t : Tty) → (t.count == 0) ≡ true → pending t ≡ []
pending-empty t e = let z : t.count ≡ 0 = ground arith in ap (window t.in_buf t.buf_head) z

-- What a loop of `tty_read` leaves, of the queue `l`.
abbrev pub IsReadOf : ℕ → Bool → List ℕ → List ℕ × Tty → Type 0
IsReadOf n fresh l (d, t) = (d ≡ line_of n l) × (pending t ≡ rest_of n fresh l) × IsValid t

eof-lem :
    (n : ℕ) (fresh : Bool) (t : Tty)
    → IsValid t
    → t.count ≢ 0
    → (t.in_buf t.buf_head == ctrl_d) ≡ true
    → IsReadOf
        (suc n)
        fresh
        (t.in_buf t.buf_head ∷ pending (eat t))
        ([], if fresh then eat t else t)
eof-lem n true t v ne eof = rw eof (refl, refl, eat-IsValid t v ne)
eof-lem n false t v ne eof = rw eof (refl, pending-eat t v ne, v)

read_from-lem :
    (n : ℕ) (fresh : Bool) (t : Tty)
    → IsValid t
    → IsReadOf n fresh (pending t) (read_from n fresh t)
unfolding read_from
read_from-lem zero fresh t v = (refl, refl, v)
read_from-lem (suc n) fresh t v = elim (Bool-cases (t.count == 0)) [
  | inl empty ↦
      simp (empty, read_from)
        (subst (λ l. IsReadOf (suc n) fresh l ([], t)) (sym (pending-empty t empty))
          (refl, pending-empty t empty, v))
  | inr some_left ↦
      let ne : t.count ≢ 0 = ground arith in
      let e = sym (pending-eat t v ne) in
      elim (Bool-cases (t.in_buf t.buf_head == ctrl_d)) [
        | inl eof ↦
            simp (some_left, eof, read_from)
              (subst (λ l. IsReadOf (suc n) fresh l ([], if fresh then eat t else t)) e
                (eof-lem n fresh t v ne eof))
        | inr key ↦
            let r = read_from n false (eat t) in
            let (d, l, ok) = read_from-lem n false (eat t) (eat-IsValid t v ne) in
            simp (some_left, key, read_from)
              (subst (λ q. IsReadOf (suc n) fresh q (t.in_buf t.buf_head ∷ r.0, r.1)) e
                (rw key (ap (λ w. t.in_buf t.buf_head ∷ w) d, l, ok)))
      ]
]

-- `tty_read` of a valid terminal stores the waiting bytes in front of the first Ctrl-D, at most `n` of them. It takes
-- them from the queue, and a Ctrl-D only if it stands first and a byte was asked for, and leaves the
-- terminal valid. It returns the number of bytes stored; where none waits it asks for sleep, with
-- result -2.
pub tty_read_lem :
    (n : ℕ) (t : Tty)
    → IsValid t
    → let (r, d, t', sleeps) = tty_read n t in
      (d ≡ line_of n (pending t))
      × (pending t' ≡ rest_of n true (pending t))
      × IsValid t'
      × (r ≡ (if t.count == 0 then minus_two else to_int (length d)))
      × (sleeps ≡ (t.count == 0))
unfolding tty_read
tty_read_lem n t v = elim (Bool-cases (t.count == 0)) [
  | inl empty ↦
      let none_left = pending-empty t empty in
      simp (empty, tty_read)
        (
          sym (ap (line_of n) none_left ∙ line_of-nil n),
          none_left ∙ sym (ap (rest_of n true) none_left ∙ rest_of-nil n),
          v,
          refl,
          refl,
        )
  | inr some_left ↦
      let (d, l, ok) = read_from-lem n true t v in simp (some_left, tty_read) (d, l, ok, refl, refl)
]
