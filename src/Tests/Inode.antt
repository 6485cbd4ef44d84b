-- ===== src/Tests/Inode.antt =====
-- Tests of inodes, the bitmap and paths.
use jix.Base.{
  ℕ, ◌-◌, ◌/◌, ◌<◌, min, ◌≡◌, refl, true, false, Option, none, some, List, [], ◌∷◌, arith, ltb,
  ◌==◌, if◌then◌else◌, length, find_from, pos, minus_one, to_int,
}
use jix.Fs.Block.{Block, Disk, bit, put32, sb_size, balloc, bfree}
use jix.Fs.Inode.{Inode, Inodes, ◌>>=◌, iget, idup, iupdate, load_dinode}
use jix.Fs.InodeData.{iput, drop_ref, bmap, direct, read_blocks, readi}
use jix.Fs.Namei.{namex, get_cwd, is_absolute, rootino}
use jix.Fs.Bitmap.{is_used, bit_block, IsFormatted, IsTaken}
use jix.Fs.Balloc.{balloc-IsTaken, bfree-balloc}
use jix.Fs.Unique.{IsUnique}
use jix.Fs.Calls.{Call, run_call, run_calls, run_calls-IsUnique}
use jix.Fs.PathNames.{names, names_from, descend, namex-descend}
use jix.Fs.ReadBounds.{readi-bounds}
use jix.Fs.Dinode.{SameDinode, InRange, iupdate-load}
use jix.Fs.Tty.{Tty}

-- A disk of 4000 blocks with the bitmap in block 2200, where the superblock and that block are used.
abbrev super : Block
super = put32 (put32 (λ o. 0) 0 4000) 8 2200

abbrev bits : Block
bits o = if o == 255 then 128 else if o == 275 then 1 else 0

abbrev disk : Disk
disk dev n = if n == 2047 then super else if n == 2200 then bits else λ o. 0

disk-size : sb_size disk 0 ≡ 4000
disk-size = refl

disk-start : (c : ℕ) → c < 4000 → bit_block disk 0 c ≡ 2200
disk-start c lt = let e : c / 4096 ≡ 0 = omega arith in rw e refl

disk-IsFormatted : IsFormatted 0 disk
unfolding bit
disk-IsFormatted = record {
  large = omega arith;
  inside = λ c lt. rw (disk-start c lt) (omega arith);
  apart = λ c e. absurd (omega arith);
  super_used = refl;
  bitmap_used = λ c lt. rw (disk-start c lt) refl;
}

free : is_used disk 0 100 ≡ false
unfolding bit
free = refl

balloc-IsTaken_example :
    (b : ℕ) × (d' : Disk) × (balloc 0 disk ≡ some (b, d'))
    × (b < 4000)
    × (is_used disk 0 b ≡ false)
    × IsTaken 0 b disk d'
    × IsFormatted 0 d'
balloc-IsTaken_example = balloc-IsTaken 0 100 disk disk-IsFormatted (omega arith) free

bfree-balloc_example :
    (b : ℕ) × (d1 : Disk) × (d2 : Disk) × (balloc 0 disk ≡ some (b, d1))
    × (bfree 0 b d1 ≡ some d2)
    × ((k : ℕ) → k < 4000 → is_used d2 0 k ≡ is_used disk 0 k)
    × (bfree 0 b d2 ≡ none)
bfree-balloc_example = bfree-balloc 0 100 disk disk-IsFormatted (omega arith) free

-- No inode in use, and the terminal of no bytes.
abbrev blank_inode : Inode
blank_inode = record {
  dev = 0;
  inum = 0;
  ref = 0;
  type = 0;
  nlink = 0;
  major = 0;
  minor = 0;
  size = 0;
  addrs = λ i. 0;
}

abbrev blank_tty : Tty
blank_tty = record {
  base = λ i. 0;
  pos = 0;
  in_buf = λ i. 0;
  buf_head = 0;
  count = 0;
  mode = 0;
  color = 0;
}

abbrev none_used : Inodes
none_used = record {
  inodes = λ i. blank_inode;
  disk = disk;
  tty = blank_tty;
  tty_addr = 4096;
  cwd = none;
  asleep = none;
  stale = [];
}

-- Inode 7 of device 0 is a file of 5 bytes in use, in entry 3, with its bytes in block 3000.
abbrev file_inode : Inode
file_inode = record {
  dev = 0;
  inum = 7;
  ref = 1;
  type = 2;
  nlink = 1;
  major = 0;
  minor = 0;
  size = 5;
  addrs = λ i. if i == 0 then 3000 else 0;
}

abbrev with_file : Inodes
with_file = record none_used { inodes = λ i. if i == 3 then file_inode else blank_inode }

abbrev calls : List Call
calls = Call.get 0 7 ∷ Call.dup 0 ∷ Call.get 0 9 ∷ Call.put 0 ∷ []

after_of : Option (Unit {0} × Inodes) → Inodes
after_of none = none_used
after_of (some (u, s)) = s

run_calls-IsUnique_example : IsUnique (after_of (run_calls calls none_used))
unfolding run_calls ◌>>=◌ run_call iget find_from idup iput drop_ref after_of
run_calls-IsUnique_example =
    run_calls-IsUnique calls none_used (after_of (run_calls calls none_used)) (λ i lt. refl) refl

-- "/a/b" from the root.
abbrev path : List ℕ
path = 47 ∷ 97 ∷ 47 ∷ 98 ∷ []

names-path : names path ≡ (97 ∷ []) ∷ (98 ∷ []) ∷ []
unfolding names_from
names-path = refl

namex-descend_example : namex path true ≡ (
    get_cwd >>= λ cwd.
    (if is_absolute path then iget 0 rootino else idup cwd) >>= λ ip. descend true ip (names path))
namex-descend_example = namex-descend path true

file-InRange : InRange file_inode
file-InRange = record {
  type = omega arith;
  nlink = omega arith;
  major = omega arith;
  minor = omega arith;
  size = omega arith;
  addrs = λ i lt. ground arith;
}

iupdate-load_example :
    (s' : Inodes) × (iupdate 3 with_file ≡ some (tt, s'))
    × (s'.inodes ≡ with_file.inodes)
    × SameDinode (load_dinode s'.disk 0 7) file_inode
    × SameDinode (load_dinode s'.disk 0 8) (load_dinode disk 0 8)
iupdate-load_example = iupdate-load 3 8 with_file file-InRange (omega arith)

-- What stands behind the first two bytes of the file.
abbrev last_three : List ℕ
last_three = 0 ∷ 0 ∷ 0 ∷ []

readi-bounds_example :
    (length last_three ≡ min 10 (5 - 2))
    × (pos 3 ≡ (if ltb 5 2 then minus_one else to_int (length last_three)))
unfolding readi ◌>>=◌ read_blocks bmap direct
readi-bounds_example =
    readi-bounds 3 2 10 with_file with_file (pos 3) last_three (omega arith) (omega arith) refl
