-- ===== src/Fs/Block.antt =====
-- The disk of fs/inode.c: words in a block, the layout of include/fs.h, and the bitmap of the blocks
-- in use. A buffer of fs/cache.c stands for its block from `bread` to `brelse`, and `bwrite` writes it
-- back. Block numbers lie so that no sum of them reaches 2^32.
use jix.Base.{
  ℕ, zero, suc, ◌+◌, ◌-◌, ◌*◌, ◌/◌, ◌%◌, ◌^◌, min, Bool, true, false, not, Option, none, some, ltb,
  ◌==◌, if◌then◌else◌, find_from, update,
}

abbrev pub Block : Type 0
Block = ℕ → ℕ

-- The block of a device and a number.
abbrev pub Disk : Type 0
Disk = ℕ → ℕ → Block

abbrev pub set_block : Disk → ℕ → ℕ → Block → Disk
set_block d dev n b = update d dev (update (d dev) n b)

-- Little-endian words at an offset.
abbrev pub get16 : Block → ℕ → ℕ
get16 b o = b o + 256 * b (o + 1)

abbrev pub get32 : Block → ℕ → ℕ
get32 b o = b o + 256 * (b (o + 1) + 256 * (b (o + 2) + 256 * b (o + 3)))

abbrev pub put16 : Block → ℕ → ℕ → Block
put16 b o v = update (update b o (v % 256)) (o + 1) (v / 256 % 256)

abbrev pub put32 : Block → ℕ → ℕ → Block
put32 b o v =
    update
      (update (update (update b o (v % 256)) (o + 1) (v / 2 ^ 8 % 256)) (o + 2) (v / 2 ^ 16 % 256))
      (o + 3) (v / 2 ^ 24 % 256)

abbrev pub bsize : ℕ
bsize = 512

abbrev pub istart : ℕ
istart = 2048

-- Inodes, of 64 bytes, and bits of the bitmap in a block.
abbrev pub ipb : ℕ
ipb = 8

abbrev pub bpb : ℕ
bpb = 4096

abbrev pub iblock : ℕ → ℕ
iblock i = i / ipb + istart

abbrev pub bblock : ℕ → ℕ → ℕ
bblock b start = start + b / bpb

-- The fields of the superblock, as `readsb` reads them.
abbrev pub sb_size : Disk → ℕ → ℕ
sb_size d dev = get32 (d dev (istart - 1)) 0

abbrev pub sb_ninodes : Disk → ℕ → ℕ
sb_ninodes d dev = get32 (d dev (istart - 1)) 4

abbrev pub sb_bitmapstart : Disk → ℕ → ℕ
sb_bitmapstart d dev = get32 (d dev (istart - 1)) 8

-- `1 << k`, and the bit of `x` that it masks.
unfoldable pub mask : ℕ → ℕ
mask zero = 1
mask (suc k) = 2 * mask k

unfoldable pub bit : ℕ → ℕ → ℕ
bit zero x = x % 2
bit (suc k) x = bit k (x / 2)

-- `bp->data[bi / 8] & mask`.
abbrev pub used_in : Block → ℕ → Bool
used_in b bi = not (bit (bi % 8) (b (bi / 8)) == 0)

-- `bp->data[bi / 8] |= mask`, of a bit that is 0, and `&= ~mask`, of a bit that is 1.
abbrev pub mark : Block → ℕ → Block
mark b bi = update b (bi / 8) (b (bi / 8) + mask (bi % 8))

abbrev pub unmark : Block → ℕ → Block
unmark b bi = update b (bi / 8) (b (bi / 8) - mask (bi % 8))

abbrev pub bzero : ℕ → ℕ → Disk → Disk
bzero dev bno d = set_block d dev bno (λ o. 0)

-- The body of the loop of `balloc` that finds bit `bi` of the block for `b` free.
unfoldable pub take_block : ℕ → ℕ → ℕ → Disk → Disk
take_block dev b bi d =
    let n = bblock b (sb_bitmapstart d dev) in
    bzero dev (b + bi) (set_block d dev n (mark (d dev n) bi))

-- The loop of `balloc` from `b` on, with fuel; `none` is the panic.
unfoldable pub balloc_from : ℕ → ℕ → ℕ → Disk → Option (ℕ × Disk)
balloc_from zero dev b d = none
balloc_from (suc f) dev b d = elim (ltb b (sb_size d dev)) [
  | false ↦ none
  | true ↦
      elim (find_from (λ bi. not (used_in (d dev (bblock b (sb_bitmapstart d dev))) bi))
        (min bpb (sb_size d dev - b)) 0) [
          | some bi ↦ some (b + bi, take_block dev b bi d)
          | none ↦ balloc_from f dev (b + bpb) d
        ]
]

-- `balloc`: a round for each block of the bitmap, and one for the last test.
unfoldable pub balloc : ℕ → Disk → Option (ℕ × Disk)
balloc dev d = balloc_from (sb_size d dev / bpb + 2) dev 0 d

-- `bfree`; `none` is the panic.
unfoldable pub bfree : ℕ → ℕ → Disk → Option Disk
bfree dev b d =
    let n = bblock b (sb_bitmapstart d dev) in
    if used_in (d dev n) (b % bpb)
    then some (set_block d dev n (unmark (d dev n) (b % bpb)))
    else none
