-- ===== src/Tests/Fd.antt =====
-- Tests of file descriptors and their counts.
use jix.Base.{
  ℕ, ◌+◌, ◌<◌, ◌≡◌, refl, ◌≢◌, ◌⊎◌, inl, inr, true, false, none, some, [], arith, ◌==◌,
  if◌then◌else◌, Bool-cases, pos, minus_one,
}
use jix.Kernel.State.{FilePtr, null, file, set_proc}
use jix.Fs.File.{InodeOps, Files, File, fd_none, fd_inode, close_last}
use jix.Fs.Fd.{nofile, ofile_of, do_dup, do_close, is_null, put_ofile}
use jix.Fs.Refs.{IsCounted, refs, sum, held}
use jix.Fs.RefsKept.{do_dup-IsCounted}
use jix.Fs.RefsClose.{dropped, do_close-IsCounted}
use jix.Fs.FdProc.{do_fsfork}
use jix.Fs.RefsFork.{is_mark, do_fsfork-IsCounted}
use jix.Tests.Data.{machine, table}
use jix.Tests.Fs.{pipe_of_two}

abbrev blank_file : File
blank_file = record {
  type = fd_none;
  ref = 0;
  readable = true;
  writable = false;
  pipe = 0;
  ip = 0;
  off = 0;
}

-- Inodes with nothing but a count of the calls of `iput`.
abbrev inode_ops : InodeOps ℕ
inode_ops = record {
  iput = λ ip i. some (i + 1);
  idup = λ ip i. some i;
  size = λ ip i. 0;
  is_dir = λ ip i. false;
  stati = λ ip i. (0, ip, 2, 1, 0);
  readi = λ ip off n i. some (pos 0, [], none, i);
  writei = λ ip d off i. some (pos 0, i);
  namei = λ path cwd i. some (none, cwd, i);
  icreate = λ path type major minor cwd i. some (none, cwd, i);
}

-- Process 1 has entry 5 open as descriptor 0.
abbrev fds : ℕ → FilePtr
fds fd = if fd == 0 then file 5 else null

abbrev with_open : Files ℕ
with_open = record {
  files =
      λ f. if f == 5 then record blank_file { type = fd_inode; ref = 1; ip = 3 } else blank_file;
  pipes = λ a. pipe_of_two;
  kernel = set_proc machine 1 (record (table 1) { ofile = fds });
  inodes = 0;
  fs_current = 1;
  fs_sleep = 0;
}

with_open-IsCounted : IsCounted with_open
unfolding sum held refs
with_open-IsCounted f = elim (Bool-cases (5 == f)) [
  | inl e ↦ let e' : 5 ≡ f = ground arith in rw (← e') refl
  | inr ne ↦ let z : (f == 5) ≡ false = ground arith in rw (ne, z) refl
]

do_dup-IsCounted_example :
    (do_dup 0 with_open ≡ some (minus_one, with_open))
    ⊎ ((nfd : ℕ) × (s' : Files ℕ) × (do_dup 0 with_open ≡ some (pos nfd, s'))
        × (is_null (ofile_of with_open nfd) ≡ true)
        × (ofile_of s' nfd ≡ file 5)
        × IsCounted s')
do_dup-IsCounted_example =
    do_dup-IsCounted with_open 0 5 (omega arith) with_open-IsCounted (omega arith) refl

close_last-some : close_last inode_ops 5 (dropped inode_ops 5 with_open) ≢ none
unfolding close_last
close_last-some e = cc

do_close-IsCounted_example :
    (s' : Files ℕ) × (do_close inode_ops (pos 0) with_open ≡ some (pos 0, put_ofile 0 null s'))
    × IsCounted (put_ofile 0 null s')
do_close-IsCounted_example =
    do_close-IsCounted inode_ops with_open 0 5 (omega arith) with_open-IsCounted (omega arith) refl
      close_last-some

-- Process 2 is a new child of process 1.
do_fsfork-IsCounted_example :
    (s' : Files ℕ) × (do_fsfork inode_ops 1 2 with_open ≡ some (pos 0, s'))
    × IsCounted s'
    × ((x : ℕ) → x < nofile → (s'.kernel.ptable 2).ofile x ≡ (s'.kernel.ptable 1).ofile x)
do_fsfork-IsCounted_example =
    do_fsfork-IsCounted 1 2 inode_ops with_open (omega arith) (omega arith) (omega arith)
      with_open-IsCounted unmarked (λ x lt. refl) (λ ip e. cc)
  where
    unmarked : (x : ℕ) → x < nofile → is_mark (fds x) ≡ false
    unmarked x lt = ground arith
