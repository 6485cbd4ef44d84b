-- ===== src/Fs/Words.antt =====
-- Words written to a block and read back: the fields of fs/inode.c's `struct dinode`.
use jix.Base.{
  ℕ, zero, suc, ◌+◌, ◌*◌, ◌/◌, ◌%◌, ◌^◌, ◌≤◌, ◌<◌, ◌≡◌, refl, sym, ap₂, ◌∙◌, subst, ◌≢◌, ◌⊎◌, inl,
  inr, arith, ◌==◌, Bool-cases, update, update_self, update-ne,
}
use jix.Fs.Block.{Block, get16, get32, put16, put32}
use jix.Fs.Inode.{put_addrs}

miss : (f : Block) (i v j : ℕ) → i ≢ j → update f i v j ≡ f j
miss f i v j ne = update-ne f i j v ne

pub put16-outside : (b : Block) (o v p : ℕ) → (p < o) ⊎ (o + 2 ≤ p) → put16 b o v p ≡ b p
put16-outside b o v p h =
    miss (update b o (v % 256)) (o + 1) (v / 256 % 256) p (ground arith)
    ∙ miss b o (v % 256) p (ground arith)

pub put32-outside : (b : Block) (o v p : ℕ) → (p < o) ⊎ (o + 4 ≤ p) → put32 b o v p ≡ b p
put32-outside b o v p h =
    let b1 = update b o (v % 256) in
    let b2 = update b1 (o + 1) (v / 2 ^ 8 % 256) in
    let b3 = update b2 (o + 2) (v / 2 ^ 16 % 256) in
    miss b3 (o + 3) (v / 2 ^ 24 % 256) p (ground arith)
    ∙ miss b2 (o + 2) (v / 2 ^ 16 % 256) p (ground arith)
    ∙ miss b1 (o + 1) (v / 2 ^ 8 % 256) p (ground arith)
    ∙ miss b o (v % 256) p (ground arith)

pub get16-put16 : (b : Block) (o v : ℕ) → v < 2 ^ 16 → get16 (put16 b o v) o ≡ v
get16-put16 b o v lt =
    let b1 = update b o (v % 256) in
    let lo : put16 b o v o ≡ v % 256 =
      miss b1 (o + 1) (v / 256 % 256) o (omega arith) ∙ update_self b o (v % 256) in
    let hi : put16 b o v (o + 1) ≡ v / 256 % 256 = update_self b1 (o + 1) (v / 256 % 256) in
    ap₂ (λ x y. x + 256 * y) lo hi ∙ omega arith

pub get32-put32 : (b : Block) (o v : ℕ) → v < 2 ^ 32 → get32 (put32 b o v) o ≡ v
get32-put32 b o v lt =
    let b1 = update b o (v % 256) in
    let b2 = update b1 (o + 1) (v / 2 ^ 8 % 256) in
    let b3 = update b2 (o + 2) (v / 2 ^ 16 % 256) in
    let e0 : put32 b o v o ≡ v % 256 =
      miss b3 (o + 3) (v / 2 ^ 24 % 256) o (omega arith)
      ∙ miss b2 (o + 2) (v / 2 ^ 16 % 256) o (omega arith)
      ∙ miss b1 (o + 1) (v / 2 ^ 8 % 256) o (omega arith)
      ∙ update_self b o (v % 256) in
    let e1 : put32 b o v (o + 1) ≡ v / 2 ^ 8 % 256 =
      miss b3 (o + 3) (v / 2 ^ 24 % 256) (o + 1) (omega arith)
      ∙ miss b2 (o + 2) (v / 2 ^ 16 % 256) (o + 1) (omega arith)
      ∙ update_self b1 (o + 1) (v / 2 ^ 8 % 256) in
    let e2 : put32 b o v (o + 2) ≡ v / 2 ^ 16 % 256 =
      miss b3 (o + 3) (v / 2 ^ 24 % 256) (o + 2) (omega arith)
      ∙ update_self b2 (o + 2) (v / 2 ^ 16 % 256) in
    let e3 : put32 b o v (o + 3) ≡ v / 2 ^ 24 % 256 = update_self b3 (o + 3) (v / 2 ^ 24 % 256) in
    ap₂ (λ x y. x + 256 * y) e0 (ap₂ (λ x y. x + 256 * y) e1 (ap₂ (λ x y. x + 256 * y) e2 e3))
    ∙ omega arith

pub get16-same : (b c : Block) (o : ℕ) → b o ≡ c o → b (o + 1) ≡ c (o + 1) → get16 b o ≡ get16 c o
get16-same b c o e0 e1 = ap₂ (λ x y. x + 256 * y) e0 e1

pub get32-same :
    (b c : Block) (o : ℕ) → ((p : ℕ) → o ≤ p → p < o + 4 → b p ≡ c p) → get32 b o ≡ get32 c o
get32-same b c o h =
    ap₂ (λ x y. x + 256 * y) (h o (omega arith) (omega arith))
      (ap₂ (λ x y. x + 256 * y) (h (o + 1) (omega arith) (omega arith))
        (ap₂ (λ x y. x + 256 * y) (h (o + 2) (omega arith) (omega arith))
          (h (o + 3) (omega arith) (omega arith))))

pub put_addrs-outside :
    (n i : ℕ) (addrs : ℕ → ℕ) (o : ℕ) (b : Block) (p : ℕ)
    → (p < o + 4 * i) ⊎ (o + 4 * (i + n) ≤ p)
    → put_addrs n i addrs o b p ≡ b p
unfolding put_addrs
put_addrs-outside zero i addrs o b p h = refl
put_addrs-outside (suc n) i addrs o b p h =
    put_addrs-outside n (i + 1) addrs o (put32 b (o + 4 * i) (addrs i)) p (ground arith)
    ∙ put32-outside b (o + 4 * i) (addrs i) p (ground arith)

-- Word `j` of the array.
pub get32-put_addrs :
    (n i : ℕ) (addrs : ℕ → ℕ) (o : ℕ) (b : Block) (j : ℕ)
    → i ≤ j
    → j < i + n
    → addrs j < 2 ^ 32
    → get32 (put_addrs n i addrs o b) (o + 4 * j) ≡ addrs j
unfolding put_addrs
get32-put_addrs zero i addrs o b j lo hi lt = absurd (omega arith)
get32-put_addrs (suc n) i addrs o b j lo hi lt =
    let b' = put32 b (o + 4 * i) (addrs i) in
    elim (Bool-cases (i == j)) [
      | inl e ↦
          let e' : i ≡ j = ground arith in
          get32-same (put_addrs n (i + 1) addrs o b') b' (o + 4 * j)
            (λ p l u. put_addrs-outside n (i + 1) addrs o b' p (inl (omega arith)))
          ∙ subst (λ k. get32 (put32 b (o + 4 * k) (addrs k)) (o + 4 * j) ≡ addrs j) (sym e')
              (get32-put32 b (o + 4 * j) (addrs j) lt)
      | inr ne ↦ get32-put_addrs n (i + 1) addrs o b' j (ground arith) (omega arith) lt
    ]
