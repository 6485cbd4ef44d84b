-- ===== src/Fs/Balloc.antt =====
-- `balloc` of fs/inode.c takes a free block of a formatted disk when there is one.
use jix.Base.{
  ℕ, zero, suc, ◌+◌, ◌-◌, ◌*◌, ◌/◌, ◌%◌, ◌≤◌, ◌<◌, min, ◌≡◌, refl, sym, ◌∙◌, ◌≢◌, inl, inr, Bool,
  true, false, not, Option, none, some, arith, ltb, ◌==◌, Bool-cases, Option-cases, find_from,
  find_from-some, find_from-none,
}
use jix.Fs.Block.{
  Disk, set_block, istart, unmark, bfree, bpb, bblock, sb_size, sb_bitmapstart, used_in,
  balloc_from, balloc,
}
use jix.Fs.Bits.{used_in-unmark-same, used_in-unmark-other}
use jix.Fs.Bitmap.{
  set_block-same, set_block-other, is_used, bit_block, IsFormatted, IsTaken, taken, taken-IsTaken,
  taken-IsFormatted, take_block-taken,
}

-- What the search from block `b` on comes to: a free block taken, or none free.
abbrev Took : ℕ → ℕ → Disk → Option (ℕ × Disk) → Type 0
Took dev b d none = (c : ℕ) → b ≤ c → c < sb_size d dev → is_used d dev c ≡ true
Took dev b d (some (n, d')) = (n < sb_size d dev) × (is_used d dev n ≡ false) × (d' ≡ taken dev n d)

-- A number of a block of blocks: its bit and its block of the bitmap.
bit_of :
    (d : Disk) (dev b c : ℕ)
    → b % bpb ≡ 0
    → b ≤ c
    → c < b + bpb
    → is_used d dev c ≡ used_in (d dev (bblock b (sb_bitmapstart d dev))) (c - b)
bit_of d dev b c z lo hi =
    let e : c % bpb ≡ c - b = omega arith in
    let q : c / bpb ≡ b / bpb = omega arith in rw (e, q) refl

abbrev is_free_bit : ℕ → ℕ → Disk → ℕ → Bool
is_free_bit dev b d bi = not (used_in (d dev (bblock b (sb_bitmapstart d dev))) bi)

-- A block of the bitmap with no bit free, in front of the search.
Took-next :
    (dev b : ℕ) (d : Disk) (r : Option (ℕ × Disk))
    → b % bpb ≡ 0
    → ((j : ℕ) → 0 ≤ j → j < 0 + min bpb (sb_size d dev - b) → is_free_bit dev b d j ≡ false)
    → Took dev (b + bpb) d r
    → Took dev b d r
Took-next dev b d none z full h = λ c lo hi. elim (Bool-cases (ltb c (b + bpb))) [
  | inl inside ↦
      let lt : c < b + bpb = ground arith in
      let used = full (c - b) (omega arith) (omega arith) in bit_of d dev b c z lo lt ∙ ground arith
  | inr past ↦ h c (ground arith) hi
]
Took-next dev b d (some (n, d')) z full h = h

balloc_from-Took :
    (f dev b : ℕ) (d : Disk)
    → b % bpb ≡ 0
    → sb_size d dev ≤ b + f * bpb
    → Took dev b d (balloc_from f dev b d)
unfolding balloc_from
balloc_from-Took zero dev b d z enough = λ c lo hi. absurd (omega arith)
balloc_from-Took (suc f) dev b d z enough = elim (Bool-cases (ltb b (sb_size d dev))) [
  | inr end ↦
      let past : sb_size d dev ≤ b = ground arith in
      rw (end, Took) (λ c lo hi. absurd (omega arith))
  | inl more ↦
      let lt : b < sb_size d dev = ground arith in
      elim (Option-cases (find_from (is_free_bit dev b d) (min bpb (sb_size d dev - b)) 0)) [
        | inr (bi, e) ↦
            let (lo, hi, hit, before) = find_from-some _ _ 0 bi e in
            let small : bi < bpb = omega arith in
            let bit = bit_of d dev b (b + bi) z (omega arith) (omega arith) in
            let here : b + bi - b ≡ bi = omega arith in
            rw (more, e, Took)
              (omega arith, bit ∙ rw here (ground arith), take_block-taken dev b bi d z small)
        | inl e ↦
            let rest = balloc_from-Took f dev (b + bpb) d (omega arith) (omega arith) in
            rw (more, e, balloc_from)
              (Took-next dev b d _ z (find_from-none (is_free_bit dev b d) _ 0 e) rest)
      ]
]

balloc-Took : (dev : ℕ) (d : Disk) → Took dev 0 d (balloc dev d)
unfolding balloc
balloc-Took dev d = balloc_from-Took (sb_size d dev / bpb + 2) dev 0 d (omega arith) (omega arith)

-- On a formatted disk with a free block, `balloc` comes back with a block that was free; after it that
-- block is used and zero, the bits of the other blocks and the contents of all blocks but it and its
-- block of the bitmap are as before, and the disk is formatted.
pub balloc-IsTaken :
    (dev c : ℕ) (d : Disk)
    → IsFormatted dev d
    → c < sb_size d dev
    → is_used d dev c ≡ false
    → (b : ℕ) × (d' : Disk) × (balloc dev d ≡ some (b, d'))
      × (b < sb_size d dev)
      × (is_used d dev b ≡ false)
      × IsTaken dev b d d'
      × IsFormatted dev d'
balloc-IsTaken dev c d f lt free = elim (Option-cases (balloc dev d)) [
  | inl e ↦
      let all : Took dev 0 d none = rw e at (balloc-Took dev d) in
      let used = all c (omega arith) lt in absurd (cc)
  | inr ((b, d'), e) ↦
      let h : Took dev 0 d (some (b, d')) = rw e at (balloc-Took dev d) in
      let (small, was, same) = h in
      (
        b,
        d',
        e,
        small,
        was,
        rw same (taken-IsTaken dev b d f small was),
        rw same (taken-IsFormatted dev b d f small was),
      )
]

-- `bfree` of a block in use clears its bit and no other.
bfree-bits :
    (dev b : ℕ) (d : Disk)
    → IsFormatted dev d
    → is_used d dev b ≡ true
    → (d' : Disk) × (bfree dev b d ≡ some d')
      × (is_used d' dev b ≡ false)
      × ((c : ℕ) → c ≢ b → is_used d' dev c ≡ is_used d dev c)
unfolding bfree
bfree-bits dev b d f used =
    let n = bit_block d dev b in
    let bits = unmark (d dev n) (b % bpb) in
    let d' : Disk = set_block d dev n bits in
    let super : d' dev (istart - 1) ≡ d dev (istart - 1) =
      set_block-other d dev n (istart - 1) bits (f.apart b) in
    let here : d' dev n ≡ bits = set_block-same d dev n bits in
    (
      d',
      rw used refl,
      rw (super, here) (used_in-unmark-same (d dev n) (b % bpb) used),
      λ c ne. elim (Bool-cases (n == bit_block d dev c)) [
        | inl e ↦
            let e' : n ≡ bit_block d dev c = ground arith in
            let other : b % bpb ≢ c % bpb = omega arith in
            rw (super, ← e', here) (used_in-unmark-other (d dev n) (b % bpb) (c % bpb) used other)
        | inr away ↦
            let away' : n ≢ bit_block d dev c = ground arith in
            rw (super, set_block-other d dev n (bit_block d dev c) bits away') refl
      ],
    )

bfree-unused : (dev b : ℕ) (d : Disk) → is_used d dev b ≡ false → bfree dev b d ≡ none
unfolding bfree
bfree-unused dev b d h = rw h refl

-- On a formatted disk with a free block, `bfree` of what `balloc` gave brings every bit of the bitmap
-- back to what it was, and a second `bfree` of it panics.
pub bfree-balloc :
    (dev c : ℕ) (d : Disk)
    → IsFormatted dev d
    → c < sb_size d dev
    → is_used d dev c ≡ false
    → (b : ℕ) × (d1 : Disk) × (d2 : Disk) × (balloc dev d ≡ some (b, d1))
      × (bfree dev b d1 ≡ some d2)
      × ((k : ℕ) → k < sb_size d dev → is_used d2 dev k ≡ is_used d dev k)
      × (bfree dev b d2 ≡ none)
bfree-balloc dev c d f lt free =
    let (b, d1, e, small, was, got, f1) = balloc-IsTaken dev c d f lt free in
    let (d2, e2, clear, others) = bfree-bits dev b d1 f1 got.used in
    (
      b,
      d1,
      d2,
      e,
      e2,
      λ k h. elim (Bool-cases (k == b)) [
        | inl same ↦ let same' : k ≡ b = ground arith in rw same' (clear ∙ sym was)
        | inr away ↦ let away' : k ≢ b = ground arith in others k away' ∙ got.others k h away'
      ],
      bfree-unused dev b d2 clear,
    )
