-- ===== src/User/ReadChunks.antt =====
-- `read` of lib/fs.c against a file that hands out its bytes in order.
use jix.Base.{
  ℕ, zero, suc, ◌+◌, ◌-◌, ◌*◌, ◌≤◌, ◌<◌, min, ◌≡◌, refl, sym, ap, ap₂, ◌∙◌, inl, inr, true, false,
  Option, some, List, [], ◌∷◌, ◌++◌, arith, ltb, Bool-cases, length, take, drop, length-append,
  take-nil, update, ℤ, pos, to_int,
}
use jix.Kernel.MsgType
use jix.Kernel.State.{Msg, msg_sysret}
use jix.User.Transfer.{chunk, piece, read_from, read}

-- The bytes of the list stored from `p` on.
abbrev pub store : (ℕ → ℕ) → ℕ → List ℕ → ℕ → ℕ
store mem p [] = mem
store mem p (x ∷ l) = store (update mem p x) (p + 1) l

-- A file with its bytes left, and the memory of the program.
pub record Source : Type 0 where
  pub left : List ℕ
  pub mem : ℕ → ℕ

abbrev pub given : Msg → ℕ → Msg
given m n = record m { type = msg_sysret; i1 = pos n }

-- It answers a request with as many bytes as are asked for and left.
unfoldable pub source : Msg → Source → Option (Msg × Source)
source m s =
    let d = take m.u1 s.left in
    some (given m (length d), record { left = drop m.u1 s.left; mem = store s.mem m.p1 d })

store-append :
    (mem : ℕ → ℕ) (p q : ℕ) (a b : List ℕ)
    → q ≡ p + length a
    → store (store mem p a) q b ≡ store mem p (a ++ b)
store-append mem p q [] b e = let e' : q ≡ p = omega arith in rw e'
store-append mem p q (x ∷ a) b e = store-append (update mem p x) (p + 1) q a b (omega arith)

take-append : (n k : ℕ) (l : List ℕ) → take n l ++ take k (drop n l) ≡ take (n + k) l
take-append zero k l = ap (λ x. take x l) (omega arith)
take-append (suc n) k [] = rw (take-nil {A = ℕ} k) (sym (take-nil {A = ℕ} (suc n + k)))
take-append (suc n) k (x ∷ l) =
    let e : suc n + k ≡ suc (n + k) = omega arith in rw e (ap (λ t. x ∷ t) (take-append n k l))

drop-nil : (n : ℕ) → drop {A = ℕ} n [] ≡ []
drop-nil zero = refl
drop-nil (suc n) = refl

drop-append : (n k : ℕ) (l : List ℕ) → drop k (drop n l) ≡ drop (n + k) l
drop-append zero k l = ap (λ x. drop x l) (omega arith)
drop-append (suc n) k [] = rw (drop-nil k) (sym (drop-nil (suc n + k)))
drop-append (suc n) k (x ∷ l) =
    let e : suc n + k ≡ suc (n + k) = omega arith in rw e (drop-append n k l)

length-take : (n : ℕ) (l : List ℕ) → length (take n l) ≡ min n (length l)
length-take zero l = omega arith
length-take (suc n) [] = omega arith
length-take (suc n) (x ∷ l) = omega (arith, length-take n l)

-- A list with fewer than `n` elements is all taken.
take_short : (n k : ℕ) (l : List ℕ) → length (take n l) < n → n ≤ k → take k l ≡ take n l
take_short zero k l lt le = absurd (omega arith)
take_short (suc n) zero l lt le = absurd (omega arith)
take_short (suc n) (suc k) [] lt le = refl
take_short (suc n) (suc k) (x ∷ l) lt le =
    ap (λ t. x ∷ t) (take_short n k l (omega arith) (omega arith))

drop_short : (n k : ℕ) (l : List ℕ) → length (take n l) < n → n ≤ k → drop k l ≡ drop n l
drop_short zero k l lt le = absurd (omega arith)
drop_short (suc n) zero l lt le = absurd (omega arith)
drop_short (suc n) (suc k) [] lt le = refl
drop_short (suc n) (suc k) (x ∷ l) lt le = drop_short n k l (omega arith) (omega arith)

abbrev pub with_left : List ℕ → (ℕ → ℕ) → Source
with_left l mem = record { left = l; mem = mem }

-- The count that a reader has with `n` bytes behind it and `k` to go, and the file and memory then.
abbrev pub got : ℕ → ℕ → ℕ → List ℕ → (ℕ → ℕ) → Option (ℤ × Source)
got dst n k l mem =
    some (to_int (n + length (take k l)), with_left (drop k l) (store mem (dst + n) (take k l)))

module _ (fd : ℤ) (cnt dst : ℕ) where
  abbrev request : ℕ → ℕ → Msg → Msg
  request n u m = record m { type = MsgType.read; i1 = fd; p1 = dst + n; u1 = u }

  piece_stop :
      (f n : ℕ) (m : Msg) (l : List ℕ) (mem : ℕ → ℕ)
      → n < cnt
      → length (take (piece cnt n) l) < piece cnt n
      → read_from source fd cnt (suc f) dst n m (with_left l mem) ≡ got dst n (piece cnt n) l mem
  unfolding read_from source
  piece_stop f n m l mem lt few =
      let more : ltb n cnt ≡ true = ground arith in
      let part : ltb (length (take (piece cnt n) l)) (piece cnt n) ≡ true = ground arith in
      rw (more, part, read_from) refl

  piece_round :
      (f n : ℕ) (m : Msg) (l : List ℕ) (mem : ℕ → ℕ)
      → n < cnt
      → ltb (length (take (piece cnt n) l)) (piece cnt n) ≡ false
      → read_from source fd cnt (suc f) dst n m (with_left l mem)
        ≡ read_from source fd cnt f dst
            (n + length (take (piece cnt n) l))
            (given (request n (piece cnt n) m) (length (take (piece cnt n) l)))
            (with_left (drop (piece cnt n) l) (store mem (dst + n) (take (piece cnt n) l)))
  unfolding read_from source
  piece_round f n m l mem lt full =
      let more : ltb n cnt ≡ true = ground arith in rw (more, full, read_from)

  read_stop :
      (f n : ℕ) (m : Msg) (l : List ℕ) (mem : ℕ → ℕ)
      → n ≡ cnt
      → read_from source fd cnt (suc f) dst n m (with_left l mem) ≡ some (to_int n, with_left l mem)
  unfolding read_from
  read_stop f n m l mem e = let done : ltb n cnt ≡ false = ground arith in rw (done, read_from) refl

  -- A full piece and the rest together.
  got_more :
      (n u k : ℕ) (l : List ℕ) (mem : ℕ → ℕ)
      → length (take u l) ≡ u
      → got dst (n + u) k (drop u l) (store mem (dst + n) (take u l)) ≡ got dst n (u + k) l mem
  got_more n u k l mem full =
      let lens : n + u + length (take k (drop u l)) ≡ n + length (take (u + k) l) =
        omega
          (arith, length-append (take u l) (take k (drop u l)), ap length (take-append u k l)) in
      let mems : store (store mem (dst + n) (take u l)) (dst + (n + u)) (take k (drop u l))
          ≡ store mem (dst + n) (take (u + k) l) =
        store-append mem (dst + n) (dst + (n + u)) (take u l) (take k (drop u l)) (omega arith)
        ∙ ap (store mem (dst + n)) (take-append u k l) in
      ap
        (λ c. some (
          to_int c,
          with_left (drop k (drop u l))
              (store (store mem (dst + n) (take u l)) (dst + (n + u)) (take k (drop u l))),
        ))
        lens
      ∙ ap
          (λ x. some (
            to_int (n + length (take (u + k) l)),
            with_left x
                (store (store mem (dst + n) (take u l)) (dst + (n + u)) (take k (drop u l))),
          ))
          (drop-append u k l)
      ∙ ap (λ x. some (to_int (n + length (take (u + k) l)), with_left (drop (u + k) l) x)) mems

  -- A piece that is not full is the last.
  got_last :
      (n u k : ℕ) (l : List ℕ) (mem : ℕ → ℕ)
      → length (take u l) < u
      → u ≤ k
      → got dst n u l mem ≡ got dst n k l mem
  got_last n u k l mem few le =
      ap₂ (λ t d. some (to_int (n + length t), with_left d (store mem (dst + n) t)))
        (sym (take_short u k l few le)) (sym (drop_short u k l few le))

  read_from-got :
      (g n k : ℕ) (m : Msg) (l : List ℕ) (mem : ℕ → ℕ)
      → n + k ≡ cnt
      → k ≤ g * chunk
      → read_from source fd cnt (suc g) dst n m (with_left l mem) ≡ got dst n k l mem
  read_from-got g n zero m l mem e fuel =
      read_stop g n m l mem (omega arith) ∙ ap (λ c. some (to_int c, with_left l mem)) (omega arith)
  read_from-got zero n (suc k) m l mem e fuel = absurd (omega arith)
  read_from-got (suc g) n (suc k) m l mem e fuel =
      let u = piece cnt n in
      let low : u ≤ suc k = ground arith in
      let big : suc k ≤ u + g * chunk = ground arith in
      elim (Bool-cases (ltb (length (take u l)) u)) [
        | inl few ↦
            piece_stop (suc g) n m l mem (omega arith) (ground arith)
            ∙ got_last n u (suc k) l mem (ground arith) low
        | inr full ↦
            let all : length (take u l) ≡ u = ground (arith, length-take u l) in
            let rest : u + (suc k - u) ≡ suc k = omega arith in
            let mem' = store mem (dst + n) (take u l) in
            piece_round (suc g) n m l mem (omega arith) full
            ∙ read_from-got g (n + length (take u l)) (suc k - u)
                (given (request n u m) (length (take u l))) (drop u l) mem' (omega arith)
                (omega arith)
            ∙ ap (λ c. got dst (n + c) (suc k - u) (drop u l) mem') all
            ∙ got_more n u (suc k - u) l mem all
            ∙ ap (λ c. got dst n c l mem) rest
      ]

  -- `read` of `cnt` bytes, at most `g` pieces of 1024, from a file that hands out its bytes in order,
  -- as many as are asked for and left: it ends within `g + 1` rounds and returns the smaller of `cnt` and
  -- the number of bytes left; those bytes stand in order in the buffer and are taken from the file.
  pub read-got :
      (g : ℕ) (m : Msg) (l : List ℕ) (mem : ℕ → ℕ)
      → cnt ≤ g * chunk
      → read source fd cnt (suc g) dst m (with_left l mem)
        ≡ some (to_int (min cnt (length l)), with_left (drop cnt l) (store mem dst (take cnt l)))
  unfolding read
  read-got g m l mem fuel =
      read_from-got g 0 cnt m l mem (omega arith) fuel
      ∙ ap₂ (λ c p. some (to_int c, with_left (drop cnt l) (store mem p (take cnt l))))
          (omega (arith, length-take cnt l)) (omega arith)
