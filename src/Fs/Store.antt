-- ===== src/Fs/Store.antt =====
-- The functions of fs/inode.c as the ones that the table of open files calls: the strings of paths
-- stand in memory at their addresses.
use jix.Base.{ℕ, ◌%◌, ◌^◌, Option, none, some, List, ◌==◌, ℤ, to_u32}
use jix.Fs.Inode.{Inodes, idup}
use jix.Fs.InodeData.{iput, stati, readi, writei}
use jix.Fs.Dir.{t_dir}
use jix.Fs.Namei.{namei, icreate}
use jix.Fs.File.{InodeOps}

-- A call of a void function, of `readi`, and of one that looks a path up.
abbrev pub state_of : {A : Type 0} → Option (A × Inodes) → Option Inodes
state_of none = none
state_of (some (a, s)) = some s

abbrev pub with_sleep : Option ((ℤ × List ℕ) × Inodes) → Option (ℤ × List ℕ × Option ℕ × Inodes)
with_sleep none = none
with_sleep (some ((r, d), s)) = some (r, d, s.asleep, s)

abbrev pub with_cwd : Option (Option ℕ × Inodes) → Option (Option ℕ × Option ℕ × Inodes)
with_cwd none = none
with_cwd (some (r, s)) = some (r, s.cwd, s)

-- An `int` passed as a short.
abbrev pub to_short : ℤ → ℕ
to_short z = to_u32 z % 2 ^ 16

abbrev pub inode_ops : (ℕ → List ℕ) → InodeOps Inodes
inode_ops text = record {
  iput = λ ip s. state_of (iput ip s);
  idup = λ ip s. state_of (idup ip s);
  size = λ ip s. (s.inodes ip).size;
  is_dir = λ ip s. (s.inodes ip).type == t_dir;
  stati = λ ip s. stati (s.inodes ip);
  readi = λ ip off n s. with_sleep (readi ip off n (record s { asleep = none }));
  writei = λ ip d off s. writei ip d off s;
  namei = λ path cwd s. with_cwd (namei (text path) (record s { cwd = cwd }));
  icreate = λ path type major minor cwd s.
      with_cwd
        (icreate (text path) type (to_short major) (to_short minor) (record s { cwd = cwd }));
}
