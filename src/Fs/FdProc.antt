-- ===== src/Fs/FdProc.antt =====
-- The rest of fs/do_fs.c that moves descriptors: `do_chdir`, `do_pipe`, and the copies and closings
-- at a fork and an exit.
use jix.Base.{ℕ, zero, suc, ◌+◌, not, Option, none, some, ◌==◌, if◌then◌else◌, ℤ, pos, minus_one}
use jix.Kernel.State.{null, reserved, file}
use jix.Fs.File.{InodeOps, Files, filedup, fileclose, pipealloc}
use jix.Fs.Fd.{nofile, put_cwd, cwd_of, looked_up, set_ofile, put_ofile, fdalloc, with_result, iput}

module _ {I : Type 0} where
  abbrev pub iput_some : InodeOps I → Option ℕ → Files I → Option (Files I)
  iput_some ops none s = some s
  iput_some ops (some ip) s = iput ops ip s

  unfoldable pub do_chdir : InodeOps I → ℕ → Files I → Option (ℤ × Files I)
  do_chdir ops path s = elim (ops.namei path (cwd_of s s.fs_current) s.inodes) [
    | none ↦ none
    | some (none, c, i) ↦ some (minus_one, looked_up c i s)
    | some (some ip, c, i) ↦
        let s' = looked_up c i s in
        if not (ops.is_dir ip i)
        then with_result minus_one (iput ops ip s')
        else elim (iput_some ops (cwd_of s' s'.fs_current) s') [
          | none ↦ none
          | some s2 ↦ some (pos 0, put_cwd s2.fs_current (some ip) s2)
        ]
  ]

  -- Both ends closed, on the error path of `do_pipe`.
  unfoldable pub close_both : InodeOps I → ℕ → ℕ → Files I → Option (Files I)
  close_both ops rf wf s = elim (fileclose ops rf s) [ none ↦ none | some s' ↦ fileclose ops wf s' ]

  -- `if (fd0 > 0) current->ofile[fd0] = NULL;`: of the running process, not of `fs_current`.
  abbrev pub undo_fd : ℕ → Option (Files I) → Option (ℤ × Option (ℕ × ℕ) × Files I)
  undo_fd fd0 none = none
  undo_fd fd0 (some s) = some (
    minus_one,
    none,
    if fd0 == 0 then s else record s { kernel = set_ofile s.kernel.current fd0 null s.kernel },
  )

  -- `do_pipe`: its result and the two descriptors.
  unfoldable pub do_pipe : InodeOps I → Files I → Option (ℤ × Option (ℕ × ℕ) × Files I)
  do_pipe ops s = elim (pipealloc ops s) [
    | none ↦ none
    | some (none, s') ↦ some (minus_one, none, s')
    | some (some (rf, wf), s1) ↦
        let (r0, s2) = fdalloc s1 in
        let (r1, s3) = fdalloc s2 in
        elim r0 [
          | none ↦ undo_fd 0 (close_both ops rf wf s2)
          | some fd0 ↦ elim r1 [
            | none ↦ undo_fd fd0 (close_both ops rf wf s3)
            | some fd1 ↦
                some (pos 0, some (fd0, fd1), put_ofile fd1 (file wf) (put_ofile fd0 (file rf) s3))
          ]
        ]
  ]

  -- The loop of `do_fsfork`, with `n` rounds left at descriptor `fd`.
  unfoldable pub copy_files : ℕ → ℕ → ℕ → ℕ → Files I → Option (Files I)
  copy_files op np zero fd s = some s
  copy_files op np (suc n) fd s = elim ((s.kernel.ptable op).ofile fd) [
    | null ↦ copy_files op np n (fd + 1) (record s { kernel = set_ofile np fd null s.kernel })
    | reserved ↦ none
    | file f ↦ elim (filedup f s) [
      | none ↦ none
      | some s' ↦
          copy_files op np n (fd + 1) (record s' { kernel = set_ofile np fd (file f) s'.kernel })
    ]
  ]

  unfoldable pub do_fsfork : InodeOps I → ℕ → ℕ → Files I → Option (ℤ × Files I)
  do_fsfork ops op np s = elim (copy_files op np nofile 0 s) [
    | none ↦ none
    | some s' ↦ elim (cwd_of s' op) [
      | none ↦ some (pos 0, put_cwd np none s')
      | some ip ↦ elim (ops.idup ip s'.inodes) [
        | none ↦ none
        | some i ↦ some (pos 0, put_cwd np (some ip) (record s' { inodes = i }))
      ]
    ]
  ]

  -- The loop of `do_fsexit`.
  unfoldable pub close_files : InodeOps I → ℕ → ℕ → ℕ → Files I → Option (Files I)
  close_files ops p zero fd s = some s
  close_files ops p (suc n) fd s = elim ((s.kernel.ptable p).ofile fd) [
    | null ↦ close_files ops p n (fd + 1) s
    | reserved ↦ none
    | file f ↦ elim (fileclose ops f s) [
      | none ↦ none
      | some s' ↦
          close_files ops p n (fd + 1) (record s' { kernel = set_ofile p fd null s'.kernel })
    ]
  ]

  unfoldable pub do_fsexit : InodeOps I → ℕ → Files I → Option (ℤ × Files I)
  do_fsexit ops p s = elim (close_files ops p nofile 0 s) [
    | none ↦ none
    | some s' ↦ elim (cwd_of s' p) [
      | none ↦ some (pos 0, s')
      | some ip ↦ elim (iput ops ip s') [ none ↦ none | some s2 ↦ some (pos 0, put_cwd p none s2) ]
    ]
  ]
