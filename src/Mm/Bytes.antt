-- ===== src/Mm/Bytes.antt =====
-- The bytes of the pages of a program, as the stores of mm/exec.c leave them.
use jix.Base.{
  ℕ, zero, suc, ◌+◌, ◌/◌, ◌%◌, ◌^◌, ◌≤◌, ◌<◌, ◌≡◌, refl, ap, ap₂, ◌∙◌, subst, ◌≢◌, ◌⊎◌, inl, inr,
  List, [], ◌∷◌, arith, ◌==◌, Bool-cases, length, update, update_self, update-ne,
}
use jix.Mm.Pages.{page_size}
use jix.Mm.Vm.{Vm, page_down}
use jix.Mm.Load.{with_byte, put_byte, put_bytes}

-- Byte `k` of a word.
abbrev pub byte_of : ℕ → ℕ → ℕ
byte_of w k = w / 256 ^ k % 256

-- The byte at a kernel address.
abbrev pub get_byte : Vm → ℕ → ℕ
get_byte m a = byte_of (m.word (page_down a) (a % page_size / 4)) (a % 4)

-- From `a` on stand the bytes of the list.
abbrev pub HoldsBytes : Vm → ℕ → List ℕ → Type 0
HoldsBytes m a [] = Unit {0}
HoldsBytes m a (c ∷ cs) = (get_byte m a ≡ c) × HoldsBytes m (a + 1) cs

abbrev pub AreBytes : List ℕ → Type 0
AreBytes [] = Unit {0}
AreBytes (c ∷ cs) = (c < 256) × AreBytes cs

byte_of-with_byte : (w k c : ℕ) → k < 4 → c < 256 → byte_of (with_byte w k c) k ≡ c
byte_of-with_byte w zero c lt small = omega arith
byte_of-with_byte w (suc zero) c lt small = omega arith
byte_of-with_byte w (suc (suc zero)) c lt small = omega arith
byte_of-with_byte w (suc (suc (suc zero))) c lt small = omega arith
byte_of-with_byte w (suc (suc (suc (suc k)))) c lt small = absurd (omega arith)

byte_of-with_byte_ne :
    (w k j c : ℕ) → k < 4 → j < 4 → k ≢ j → c < 256 → byte_of (with_byte w k c) j ≡ byte_of w j
byte_of-with_byte_ne w zero zero c lt lt' ne small = absurd (omega arith)
byte_of-with_byte_ne w zero (suc zero) c lt lt' ne small = omega arith
byte_of-with_byte_ne w zero (suc (suc zero)) c lt lt' ne small = omega arith
byte_of-with_byte_ne w zero (suc (suc (suc zero))) c lt lt' ne small = omega arith
byte_of-with_byte_ne w zero (suc (suc (suc (suc j)))) c lt lt' ne small = absurd (omega arith)
byte_of-with_byte_ne w (suc zero) zero c lt lt' ne small = omega arith
byte_of-with_byte_ne w (suc zero) (suc zero) c lt lt' ne small = absurd (omega arith)
byte_of-with_byte_ne w (suc zero) (suc (suc zero)) c lt lt' ne small = omega arith
byte_of-with_byte_ne w (suc zero) (suc (suc (suc zero))) c lt lt' ne small = omega arith
byte_of-with_byte_ne w (suc zero) (suc (suc (suc (suc j)))) c lt lt' ne small = absurd (omega arith)
byte_of-with_byte_ne w (suc (suc zero)) zero c lt lt' ne small = omega arith
byte_of-with_byte_ne w (suc (suc zero)) (suc zero) c lt lt' ne small = omega arith
byte_of-with_byte_ne w (suc (suc zero)) (suc (suc zero)) c lt lt' ne small = absurd (omega arith)
byte_of-with_byte_ne w (suc (suc zero)) (suc (suc (suc zero))) c lt lt' ne small = omega arith
byte_of-with_byte_ne w (suc (suc zero)) (suc (suc (suc (suc j)))) c lt lt' ne small =
    absurd (omega arith)
byte_of-with_byte_ne w (suc (suc (suc zero))) zero c lt lt' ne small = omega arith
byte_of-with_byte_ne w (suc (suc (suc zero))) (suc zero) c lt lt' ne small = omega arith
byte_of-with_byte_ne w (suc (suc (suc zero))) (suc (suc zero)) c lt lt' ne small = omega arith
byte_of-with_byte_ne w (suc (suc (suc zero))) (suc (suc (suc zero))) c lt lt' ne small =
    absurd (omega arith)
byte_of-with_byte_ne w (suc (suc (suc zero))) (suc (suc (suc (suc j)))) c lt lt' ne small =
    absurd (omega arith)
byte_of-with_byte_ne w (suc (suc (suc (suc k)))) j c lt lt' ne small = absurd (omega arith)

get_byte-put_byte_self : (a c : ℕ) (m : Vm) → c < 256 → get_byte (put_byte a c m) a ≡ c
get_byte-put_byte_self a c m small =
    let page = page_down a in
    let i = a % page_size / 4 in
    let w = with_byte (m.word page i) (a % 4) c in
    let stored : update m.word page (update (m.word page) i w) page i ≡ w =
      ap (λ (f : ℕ → ℕ). f i) (update_self m.word page (update (m.word page) i w))
      ∙ update_self (m.word page) i w in
    ap (λ x. byte_of x (a % 4)) stored
    ∙ byte_of-with_byte (m.word page i) (a % 4) c (omega arith) small

get_byte-put_byte_ne :
    (a b c : ℕ) (m : Vm) → c < 256 → a ≢ b → get_byte (put_byte a c m) b ≡ get_byte m b
get_byte-put_byte_ne a b c m small ne =
    let page = page_down a in
    let i = a % page_size / 4 in
    let w = with_byte (m.word page i) (a % 4) c in
    let new = update (m.word page) i w in
    elim (Bool-cases (page == page_down b)) [
      | inr other ↦
          ap (λ (f : ℕ → ℕ). byte_of (f (b % page_size / 4)) (b % 4))
            (update-ne m.word page (page_down b) new (ground arith))
      | inl same ↦
          let e : page ≡ page_down b = ground arith in
          let here : update m.word page new (page_down b) ≡ new =
            subst (λ p. update m.word page new p ≡ new) e (update_self m.word page new) in
          ap (λ (f : ℕ → ℕ). byte_of (f (b % page_size / 4)) (b % 4)) here
          ∙ elim (Bool-cases (i == b % page_size / 4)) [
            | inr apart ↦
                ap (λ x. byte_of x (b % 4))
                  (update-ne (m.word page) i (b % page_size / 4) w (ground arith))
                ∙ ap (λ p. byte_of (m.word p (b % page_size / 4)) (b % 4)) e
            | inl word ↦
                let e' : i ≡ b % page_size / 4 = ground arith in
                let ne' : a % 4 ≢ b % 4 = λ q. ne (omega arith) in
                let written : new (b % page_size / 4) ≡ w =
                  subst (λ x. new x ≡ w) e' (update_self (m.word page) i w) in
                ap (λ x. byte_of x (b % 4)) written
                ∙ byte_of-with_byte_ne (m.word page i) (a % 4) (b % 4) c (omega arith) (omega arith)
                    ne' small
                ∙ ap₂ (λ p x. byte_of (m.word p x) (b % 4)) e e'
          ]
    ]

pub put_bytes-outside :
    (l : List ℕ) (a x : ℕ) (m : Vm)
    → AreBytes l
    → (x < a) ⊎ (a + length l ≤ x)
    → get_byte (put_bytes a l m) x ≡ get_byte m x
unfolding put_bytes
put_bytes-outside [] a x m small out = refl
put_bytes-outside (c ∷ cs) a x m (small, rest) out =
    put_bytes-outside cs (a + 1) x (put_byte a c m) rest (omega arith)
    ∙ get_byte-put_byte_ne a x c m small (omega arith)

pub put_bytes-HoldsBytes :
    (l : List ℕ) (a : ℕ) (m : Vm) → AreBytes l → HoldsBytes (put_bytes a l m) a l
unfolding put_bytes
put_bytes-HoldsBytes [] a m small = tt
put_bytes-HoldsBytes (c ∷ cs) a m (small, rest) = (
  put_bytes-outside cs (a + 1) a (put_byte a c m) rest (inl (omega arith))
      ∙ get_byte-put_byte_self a c m small,
  put_bytes-HoldsBytes cs (a + 1) (put_byte a c m) rest,
)

-- Bytes that a later store leaves alone.
pub HoldsBytes-same :
    (l : List ℕ) (a : ℕ) (m m' : Vm)
    → ((x : ℕ) → a ≤ x → x < a + length l → get_byte m' x ≡ get_byte m x)
    → HoldsBytes m a l
    → HoldsBytes m' a l
HoldsBytes-same [] a m m' same h = tt
HoldsBytes-same (c ∷ cs) a m m' same (e, h) = (
  same a (omega arith) (omega arith) ∙ e,
  HoldsBytes-same cs (a + 1) m m' (λ x lo hi. same x (omega arith) (omega arith)) h,
)
