-- ===== src/Fs/Fd.antt =====
-- The file descriptors of a process: fs/do_fs.c, less the functions that only change links.
-- `none` is a failed `assert`, a panic, or the use of a bad pointer, such as the mark that `fdalloc`
-- leaves.
use jix.Base.{
  ℕ, ◌/◌, ◌%◌, Bool, true, false, not, ◌&&◌, ◌||◌, Option, none, some, List, [], leb, ◌==◌,
  if◌then◌else◌, find_from, update, ℤ, pos, negsuc, minus_one,
}
use jix.Kernel.State.{Kernel, FilePtr, null, reserved, file, set_proc}
use jix.Fs.File.{
  InodeOps, Files, fd_inode, set_file, filealloc, filedup, fileclose, fileread, filewrite, filestat,
}

abbrev pub nofile : ℕ
nofile = 16

-- A descriptor as an index; a negative one is as far out of range as `NOFILE`.
abbrev pub index_of : ℤ → ℕ
index_of (pos fd) = fd
index_of (negsuc n) = nofile

-- The bit of `mode` with the value `bit`.
abbrev pub has_bit : ℕ → ℕ → Bool
has_bit bit mode = not (mode / bit % 2 == 0)

abbrev pub t_dir : ℕ
t_dir = 1

abbrev pub t_file : ℕ
t_file = 2

abbrev pub t_dev : ℕ
t_dev = 3

-- `p->ofile[fd] = f`, of process `i`.
abbrev pub set_ofile : ℕ → ℕ → FilePtr → Kernel → Kernel
set_ofile i fd f k = let p = k.ptable i in set_proc k i (record p { ofile = update p.ofile fd f })

abbrev pub is_null : FilePtr → Bool
is_null null = true
is_null reserved = false
is_null (file f) = false

module _ {I : Type 0} where
  abbrev pub put_ofile : ℕ → FilePtr → Files I → Files I
  put_ofile fd f s = record s { kernel = set_ofile s.fs_current fd f s.kernel }

  abbrev pub ofile_of : Files I → ℕ → FilePtr
  ofile_of s = (s.kernel.ptable s.fs_current).ofile

  -- `fs_current->ofile[fd]`, or NULL where the test of the calls finds `fd` out of range.
  abbrev pub open_file : ℤ → Files I → FilePtr
  open_file fd s = if leb nofile (index_of fd) then null else ofile_of s (index_of fd)

  unfoldable pub fdalloc : Files I → Option ℕ × Files I
  fdalloc s = elim (find_from (λ fd. is_null (ofile_of s fd)) nofile 0) [
    | none ↦ (none, s)
    | some fd ↦ (some fd, put_ofile fd reserved s)
  ]

  unfoldable pub do_seek : InodeOps I → ℤ → ℕ → Files I → Option (ℤ × Files I)
  do_seek ops fd off s = elim (open_file fd s) [
    | null ↦ some (minus_one, s)
    | reserved ↦ none
    | file f ↦
        let x = s.files f in
        if leb off (ops.size x.ip s.inodes)
        then some (pos 0, set_file f (record x { off = off }) s)
        else some (minus_one, s)
  ]

  unfoldable pub do_write : InodeOps I → ℤ → List ℕ → Files I → Option (ℤ × Files I)
  do_write ops fd d s = elim (open_file fd s) [
    | null ↦ some (minus_one, s)
    | reserved ↦ none
    | file f ↦ filewrite ops f d s
  ]

  unfoldable pub do_read : InodeOps I → ℤ → ℕ → Files I → Option (ℤ × List ℕ × Files I)
  do_read ops fd n s = elim (open_file fd s) [
    | null ↦ some (minus_one, [], s)
    | reserved ↦ none
    | file f ↦ fileread ops f n s
  ]

  -- `do_stat`: what it stores, and none for its result -1.
  unfoldable pub do_stat : InodeOps I → ℤ → Files I → Option (Option (ℕ × ℕ × ℕ × ℕ × ℕ))
  do_stat ops fd s = elim (open_file fd s) [
    | null ↦ some none
    | reserved ↦ none
    | file f ↦ some (filestat ops f s)
  ]

  abbrev pub put_cwd : ℕ → Option ℕ → Files I → Files I
  put_cwd i c s = record s { kernel = set_proc s.kernel i (record (s.kernel.ptable i) { cwd = c }) }

  abbrev pub cwd_of : Files I → ℕ → Option ℕ
  cwd_of s i = (s.kernel.ptable i).cwd

  -- What a lookup leaves: the inodes, and `fs_current->cwd`.
  abbrev pub looked_up : Option ℕ → I → Files I → Files I
  looked_up c i s = put_cwd s.fs_current c (record s { inodes = i })

  abbrev pub with_result : ℤ → Option (Files I) → Option (ℤ × Files I)
  with_result r none = none
  with_result r (some s) = some (r, s)

  abbrev pub iput : InodeOps I → ℕ → Files I → Option (Files I)
  iput ops ip s = elim (ops.iput ip s.inodes) [
    | none ↦ none
    | some i ↦ some (record s { inodes = i })
  ]

  -- `do_open` once it has its inode.
  unfoldable pub open_inode : InodeOps I → ℕ → ℕ → Files I → Option (ℤ × Files I)
  open_inode ops ip mode s =
      if ops.is_dir ip s.inodes && not (mode == 0)
      then with_result minus_one (iput ops ip s)
      else (let (r, s1) = filealloc s in
          let (d, s2) = fdalloc s1 in
          elim r [
            | none ↦ with_result minus_one (iput ops ip s)
            | some f ↦ elim d [
              | none ↦ elim (fileclose ops f s1) [
                | none ↦ none
                | some s' ↦ with_result minus_one (iput ops ip s')
              ]
              | some fd ↦
                  let x = record (s2.files f) {
                    type = fd_inode;
                    ip = ip;
                    off = 0;
                    readable = not (has_bit 1 mode);
                    writable = has_bit 1 mode || has_bit 2 mode;
                  } in
                  some (pos fd, put_ofile fd (file f) (set_file f x s2))
            ]
          ])

  unfoldable pub open_named : InodeOps I → ℕ → ℕ → Files I → Option (ℤ × Files I)
  open_named ops path mode s = elim (ops.namei path (cwd_of s s.fs_current) s.inodes) [
    | none ↦ none
    | some (none, c, i) ↦ some (minus_one, looked_up c i s)
    | some (some ip, c, i) ↦ open_inode ops ip mode (looked_up c i s)
  ]

  -- `do_open`: with O_CREATE the inode that `icreate` returns is looked up once more.
  unfoldable pub do_open : InodeOps I → ℕ → ℕ → Files I → Option (ℤ × Files I)
  do_open ops path mode s =
      if has_bit 0x200 mode
      then elim (ops.icreate path t_file (pos 0) (pos 0) (cwd_of s s.fs_current) s.inodes) [
        | none ↦ none
        | some (none, c, i) ↦ some (minus_one, looked_up c i s)
        | some (some ip, c, i) ↦ open_named ops path mode (looked_up c i s)
      ]
      else open_named ops path mode s

  unfoldable pub do_close : InodeOps I → ℤ → Files I → Option (ℤ × Files I)
  do_close ops fd s = elim (open_file fd s) [
    | null ↦ some (minus_one, s)
    | reserved ↦ none
    | file f ↦ elim (fileclose ops f s) [
      | none ↦ none
      | some s' ↦ some (pos 0, put_ofile (index_of fd) null s')
    ]
  ]

  -- `icreate` and `iput`: `do_mkdir` and `do_mknod`.
  unfoldable pub create : InodeOps I → ℕ → ℕ → ℤ → ℤ → Files I → Option (ℤ × Files I)
  create ops path type major minor s =
      elim (ops.icreate path type major minor (cwd_of s s.fs_current) s.inodes) [
        | none ↦ none
        | some (none, c, i) ↦ some (minus_one, looked_up c i s)
        | some (some ip, c, i) ↦ with_result (pos 0) (iput ops ip (looked_up c i s))
      ]

  unfoldable pub do_mkdir : InodeOps I → ℕ → Files I → Option (ℤ × Files I)
  do_mkdir ops path = create ops path t_dir (pos 0) (pos 0)

  unfoldable pub do_mknod : InodeOps I → ℕ → ℤ → ℤ → Files I → Option (ℤ × Files I)
  do_mknod ops path = create ops path t_dev

  -- `do_dup` after `fdalloc`: it does not test `fd`; out of range `ofile[fd]` is another word of
  -- memory.
  abbrev pub dup_to : ℕ → Option ℕ × Files I → Option (ℤ × Files I)
  dup_to fd (none, s) = some (minus_one, s)
  dup_to fd (some nfd, s) = elim (ofile_of s fd) [
    | null ↦ none
    | reserved ↦ none
    | file f ↦ elim (filedup f s) [
      | none ↦ none
      | some s' ↦ some (pos nfd, put_ofile nfd (ofile_of s' fd) s')
    ]
  ]

  unfoldable pub do_dup : ℕ → Files I → Option (ℤ × Files I)
  do_dup fd s = dup_to fd (fdalloc s)
