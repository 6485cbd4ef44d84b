-- ===== src/Fs/Bits.antt =====
-- Bits of a number and of a block of the bitmap: `balloc` and `bfree` of fs/inode.c.
use jix.Base.{
  ℕ, zero, suc, ◌+◌, ◌-◌, ◌*◌, ◌/◌, ◌%◌, ◌≤◌, ◌≡◌, refl, ◌≢◌, inl, inr, true, false, arith, ◌==◌,
  Bool-cases, update_self,
}
use jix.Fs.Block.{Block, mask, bit, used_in, mark, unmark}

bit-mark-same : (k x : ℕ) → bit k x ≡ 0 → bit k (x + mask k) ≡ 1
unfolding bit mask
bit-mark-same zero x h = omega arith
bit-mark-same (suc k) x h =
    let half : (x + 2 * mask k) / 2 ≡ x / 2 + mask k = omega arith in
    rw half (bit-mark-same k (x / 2) h)

bit-mark-other : (k j x : ℕ) → bit k x ≡ 0 → k ≢ j → bit j (x + mask k) ≡ bit j x
unfolding bit mask
bit-mark-other zero zero x h ne = absurd (ne refl)
bit-mark-other zero (suc j) x h ne = let half : (x + 1) / 2 ≡ x / 2 = omega arith in rw half refl
bit-mark-other (suc k) zero x h ne = omega arith
bit-mark-other (suc k) (suc j) x h ne =
    let half : (x + 2 * mask k) / 2 ≡ x / 2 + mask k = omega arith in
    rw half (bit-mark-other k j (x / 2) h (omega arith))

-- A bit that is set is within the number.
mask-le : (k x : ℕ) → bit k x ≢ 0 → mask k ≤ x
unfolding bit mask
mask-le zero x h = omega arith
mask-le (suc k) x h = let half = mask-le k (x / 2) h in omega arith

bit-unmark-same : (k x : ℕ) → bit k x ≢ 0 → bit k (x - mask k) ≡ 0
unfolding bit mask
bit-unmark-same zero x h = omega arith
bit-unmark-same (suc k) x h =
    let le = mask-le k (x / 2) h in
    let half : (x - 2 * mask k) / 2 ≡ x / 2 - mask k = omega arith in
    rw half (bit-unmark-same k (x / 2) h)

bit-unmark-other : (k j x : ℕ) → bit k x ≢ 0 → k ≢ j → bit j (x - mask k) ≡ bit j x
unfolding bit mask
bit-unmark-other zero zero x h ne = absurd (ne refl)
bit-unmark-other zero (suc j) x h ne = let half : (x - 1) / 2 ≡ x / 2 = omega arith in rw half refl
bit-unmark-other (suc k) zero x h ne = let le = mask-le k (x / 2) h in omega arith
bit-unmark-other (suc k) (suc j) x h ne =
    let le = mask-le k (x / 2) h in
    let half : (x - 2 * mask k) / 2 ≡ x / 2 - mask k = omega arith in
    rw half (bit-unmark-other k j (x / 2) h (omega arith))

used_in-false : (b : Block) (i : ℕ) → used_in b i ≡ false → bit (i % 8) (b (i / 8)) ≡ 0
used_in-false b i h = ground arith

used_in-true : (b : Block) (i : ℕ) → used_in b i ≡ true → bit (i % 8) (b (i / 8)) ≢ 0
used_in-true b i h = ground arith

-- A bit that is marked, and the others, which stay.
pub used_in-mark-same : (b : Block) (i : ℕ) → used_in b i ≡ false → used_in (mark b i) i ≡ true
used_in-mark-same b i h =
    let set = bit-mark-same (i % 8) (b (i / 8)) (used_in-false b i h) in
    rw (update_self b (i / 8) (b (i / 8) + mask (i % 8)), set) refl

pub used_in-mark-other :
    (b : Block) (i j : ℕ) → used_in b i ≡ false → i ≢ j → used_in (mark b i) j ≡ used_in b j
used_in-mark-other b i j h ne = elim (Bool-cases (i / 8 == j / 8)) [
  | inl e ↦
      let e' : i / 8 ≡ j / 8 = ground arith in
      let kept = bit-mark-other (i % 8) (j % 8) (b (i / 8)) (used_in-false b i h) (omega arith) in
      rw (e, kept, e') refl
  | inr apart ↦ rw apart refl
]

pub used_in-unmark-same : (b : Block) (i : ℕ) → used_in b i ≡ true → used_in (unmark b i) i ≡ false
used_in-unmark-same b i h =
    let clear = bit-unmark-same (i % 8) (b (i / 8)) (used_in-true b i h) in
    rw (update_self b (i / 8) (b (i / 8) - mask (i % 8)), clear) refl

pub used_in-unmark-other :
    (b : Block) (i j : ℕ) → used_in b i ≡ true → i ≢ j → used_in (unmark b i) j ≡ used_in b j
used_in-unmark-other b i j h ne = elim (Bool-cases (i / 8 == j / 8)) [
  | inl e ↦
      let e' : i / 8 ≡ j / 8 = ground arith in
      let kept = bit-unmark-other (i % 8) (j % 8) (b (i / 8)) (used_in-true b i h) (omega arith) in
      rw (e, kept, e') refl
  | inr apart ↦ rw apart refl
]
