-- ===== src/Fs/Bitmap.antt =====
-- The bitmap of the blocks in use: `balloc` and `bfree` of fs/inode.c.
use jix.Base.{
  ℕ, ◌+◌, ◌-◌, ◌/◌, ◌%◌, ◌<◌, ◌≡◌, refl, sym, ◌∙◌, ◌≢◌, inl, inr, Bool, true, false, arith, ◌==◌,
  Bool-cases, update, update_self, update-ne,
}
use jix.Fs.Block.{
  Block, Disk, set_block, istart, bpb, bblock, sb_size, sb_bitmapstart, used_in, mark, bzero,
  take_block,
}
use jix.Fs.Bits.{used_in-mark-same, used_in-mark-other}

-- The block of the bitmap with the bit for block `b`, and that bit.
abbrev pub bit_block : Disk → ℕ → ℕ → ℕ
bit_block d dev b = bblock b (sb_bitmapstart d dev)

abbrev pub is_used : Disk → ℕ → ℕ → Bool
is_used d dev b = used_in (d dev (bit_block d dev b)) (b % bpb)

-- The superblock and the bitmap lie in blocks of their own, which the bitmap has as used.
pub record IsFormatted (dev : ℕ) (d : Disk) : Type 0 where
  pub large : istart - 1 < sb_size d dev
  pub inside : (c : ℕ) → c < sb_size d dev → bit_block d dev c < sb_size d dev
  pub apart : (c : ℕ) → bit_block d dev c ≢ istart - 1
  pub super_used : is_used d dev (istart - 1) ≡ true
  pub bitmap_used : (c : ℕ) → c < sb_size d dev → is_used d dev (bit_block d dev c) ≡ true

pub set_block-same : (d : Disk) (dev n : ℕ) (b : Block) → set_block d dev n b dev n ≡ b
set_block-same d dev n b = rw (update_self d dev (update (d dev) n b), update_self (d dev) n b) refl

pub set_block-other :
    (d : Disk) (dev n m : ℕ) (b : Block) → n ≢ m → set_block d dev n b dev m ≡ d dev m
set_block-other d dev n m b ne =
    rw (update_self d dev (update (d dev) n b), update-ne (d dev) n m b ne) refl

-- What taking block `b` of a formatted disk leaves: the bit of `b` set and no other bit changed, `b`
-- zeroed, and the superblock.
pub record IsTaken (dev b : ℕ) (d d' : Disk) : Type 0 where
  pub used : is_used d' dev b ≡ true
  pub others : (c : ℕ) → c < sb_size d dev → c ≢ b → is_used d' dev c ≡ is_used d dev c
  pub zeroed : d' dev b ≡ λ o. 0
  pub kept : (n : ℕ) → n ≢ b → n ≢ bit_block d dev b → d' dev n ≡ d dev n

-- The disk with the bit of `b` set.
abbrev pub marked : ℕ → ℕ → Disk → Disk
marked dev b d = let n = bit_block d dev b in set_block d dev n (mark (d dev n) (b % bpb))

abbrev pub taken : ℕ → ℕ → Disk → Disk
taken dev b d = bzero dev b (marked dev b d)

pub take_block-taken :
    (dev b bi : ℕ) (d : Disk)
    → b % bpb ≡ 0
    → bi < bpb
    → take_block dev b bi d ≡ taken dev (b + bi) d
unfolding take_block
take_block-taken dev b bi d z lt =
    let e : (b + bi) % bpb ≡ bi = omega arith in
    let q : b / bpb ≡ (b + bi) / bpb = omega arith in rw (e, q) refl

module _ (dev b : ℕ) (d : Disk) (f : IsFormatted dev d) (lt : b < sb_size d dev)
    (free : is_used d dev b ≡ false) where
  -- A block in use is not `b`.
  apart-used : (n : ℕ) → is_used d dev n ≡ true → b ≢ n
  apart-used n h e = let h' : is_used d dev b ≡ true = rw e h in cc

  taken-kept : (n : ℕ) → n ≢ b → n ≢ bit_block d dev b → taken dev b d dev n ≡ d dev n
  taken-kept n ne ne' =
      set_block-other (marked dev b d) dev b n (λ o. 0) (λ e. ne (sym e))
      ∙ set_block-other d dev (bit_block d dev b) n (mark (d dev (bit_block d dev b)) (b % bpb))
          (λ e. ne' (sym e))

  taken-super : taken dev b d dev (istart - 1) ≡ d dev (istart - 1)
  taken-super =
      taken-kept (istart - 1) (λ e. apart-used (istart - 1) f.super_used (sym e))
        (λ e. f.apart b (sym e))

  taken-bitmap : (c : ℕ) → bit_block (taken dev b d) dev c ≡ bit_block d dev c
  taken-bitmap c = rw taken-super refl

  taken-bits : taken dev b d dev (bit_block d dev b) ≡ mark (d dev (bit_block d dev b)) (b % bpb)
  taken-bits =
      set_block-other (marked dev b d) dev b (bit_block d dev b) (λ o. 0)
        (apart-used (bit_block d dev b) (f.bitmap_used b lt))
      ∙ set_block-same d dev (bit_block d dev b) (mark (d dev (bit_block d dev b)) (b % bpb))

  taken-used : is_used (taken dev b d) dev b ≡ true
  taken-used =
      rw (taken-bitmap b, taken-bits) (used_in-mark-same (d dev (bit_block d dev b)) (b % bpb) free)

  taken-others :
      (c : ℕ) → c < sb_size d dev → c ≢ b → is_used (taken dev b d) dev c ≡ is_used d dev c
  taken-others c lt' ne = elim (Bool-cases (bit_block d dev c == bit_block d dev b)) [
    | inl e ↦
        let e' : bit_block d dev c ≡ bit_block d dev b = ground arith in
        let other : b % bpb ≢ c % bpb = omega arith in
        rw (taken-bitmap c, e', taken-bits)
          (used_in-mark-other (d dev (bit_block d dev b)) (b % bpb) (c % bpb) free other)
    | inr away ↦
        let away' : bit_block d dev c ≢ bit_block d dev b = ground arith in
        let kept =
          taken-kept (bit_block d dev c)
            (λ e. apart-used (bit_block d dev c) (f.bitmap_used c lt') (sym e)) away' in
        rw (taken-bitmap c, kept) refl
  ]

  pub taken-IsTaken : IsTaken dev b d (taken dev b d)
  taken-IsTaken = record {
    used = taken-used;
    others = taken-others;
    zeroed = set_block-same (marked dev b d) dev b (λ o. 0);
    kept = taken-kept;
  }

  taken-size : sb_size (taken dev b d) dev ≡ sb_size d dev
  taken-size = rw taken-super refl

  -- What was used is used.
  taken-still :
      (n : ℕ) → n < sb_size d dev → is_used d dev n ≡ true → is_used (taken dev b d) dev n ≡ true
  taken-still n lt' h = taken-others n lt' (λ e. apart-used n h (sym e)) ∙ h

  pub taken-IsFormatted : IsFormatted dev (taken dev b d)
  taken-IsFormatted = record {
    large = rw taken-size f.large;
    inside = λ c lt'. rw (taken-size, taken-bitmap c) (f.inside c (rw taken-size at lt'));
    apart = λ c. rw (taken-bitmap c) (f.apart c);
    super_used = taken-still (istart - 1) f.large f.super_used;
    bitmap_used = λ c lt'.
        let small : c < sb_size d dev = rw taken-size at lt' in
        rw (taken-bitmap c)
          (taken-still (bit_block d dev c) (f.inside c small) (f.bitmap_used c small));
  }
