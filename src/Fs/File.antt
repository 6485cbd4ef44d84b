-- ===== src/Fs/File.antt =====
-- The table of open files of fs/file.c, and `pipealloc` of fs/pipe.c. What they need of fs/inode.c is
-- an interface; `none` is a failed `assert`, a panic, or the use of a bad pointer.
use jix.Base.{
  ℕ, ◌+◌, ◌-◌, ◌%◌, ◌^◌, Bool, true, false, not, Option, none, some, List, [], ◌==◌, if◌then◌else◌,
  length, find_from, update, ℤ, pos, negsuc, minus_one, to_int, to_u32,
}
use jix.Mm.Pages.{kalloc}
use jix.Kernel.State.{Kernel}
use jix.Fs.Pipe.{Pipe, Transfer, pipewrite, piperead, pipeclose}

abbrev pub nfile : ℕ
nfile = 100

pub data FileType : Type 0 where
  fd_none fd_pipe fd_inode : FileType

-- `struct file`; `pipe` is the address of the pipe's page, `ip` an index of `inodes`.
pub record File : Type 0 where
  pub type : FileType
  pub ref : ℕ
  pub readable : Bool
  pub writable : Bool
  pub pipe : ℕ
  pub ip : ℕ
  pub off : ℕ

-- The functions of fs/inode.c over their state `I`. A read gives the bytes that it stores, and the
-- value that it gives `fs_sleep`, if any; a lookup takes and gives `fs_current->cwd`.
pub record InodeOps (I : Type 0) : Type 0 where
  pub iput : ℕ → I → Option I
  pub idup : ℕ → I → Option I
  pub size : ℕ → I → ℕ
  pub is_dir : ℕ → I → Bool
  pub stati : ℕ → I → ℕ × ℕ × ℕ × ℕ × ℕ
  pub readi : ℕ → ℕ → ℕ → I → Option (ℤ × List ℕ × Option ℕ × I)
  pub writei : ℕ → List ℕ → ℕ → I → Option (ℤ × I)
  pub namei : ℕ → Option ℕ → I → Option (Option ℕ × Option ℕ × I)
  pub icreate : ℕ → ℕ → ℤ → ℤ → Option ℕ → I → Option (Option ℕ × Option ℕ × I)

-- The state of the file system task: `files`, the pipes by address, the kernel, the inodes, and the
-- globals `fs_current` and `fs_sleep`.
pub record Files (I : Type 0) : Type 0 where
  pub files : ℕ → File
  pub pipes : ℕ → Pipe
  pub kernel : Kernel
  pub inodes : I
  pub fs_current : ℕ
  pub fs_sleep : ℕ

abbrev pub pipe_end : Bool → ℕ → File → File
pipe_end writes a x = record x {
  type = fd_pipe;
  readable = not writes;
  writable = writes;
  pipe = a;
}

abbrev pub new_pipe : Pipe → Pipe
new_pipe p = record p { readopen = true; writeopen = true; head = 0; count = 0 }

module _ {I : Type 0} where
  abbrev pub set_file : ℕ → File → Files I → Files I
  set_file f x s = record s { files = update s.files f x }

  unfoldable pub filealloc : Files I → Option ℕ × Files I
  filealloc s = elim (find_from (λ i. (s.files i).ref == 0) nfile 0) [
    | none ↦ (none, s)
    | some f ↦ (some f, set_file f (record (s.files f) { ref = 1 }) s)
  ]

  unfoldable pub filedup : ℕ → Files I → Option (Files I)
  filedup f s =
      let x = s.files f in
      if x.ref == 0 then none else some (set_file f (record x { ref = x.ref + 1 }) s)

  -- `f->ref = 0; f->type = FD_NONE;`.
  abbrev pub set_closed : ℕ → Files I → Files I
  set_closed f s = set_file f (record (s.files f) { ref = 0; type = fd_none }) s

  -- The end of `fileclose`, of the last reference.
  unfoldable pub close_last : InodeOps I → ℕ → Files I → Option (Files I)
  close_last ops f s =
      let x = s.files f in
      elim x.type [
        | fd_none ↦ some (set_closed f s)
        | fd_pipe ↦ elim (pipeclose x.pipe x.writable (s.pipes x.pipe) s.kernel) [
          | none ↦ none
          | some (p, k) ↦
              some (set_closed f (record s { pipes = update s.pipes x.pipe p; kernel = k }))
        ]
        | fd_inode ↦ elim (ops.iput x.ip s.inodes) [
          | none ↦ none
          | some i ↦ some (set_closed f (record s { inodes = i }))
        ]
      ]

  unfoldable pub fileclose : InodeOps I → ℕ → Files I → Option (Files I)
  fileclose ops f s =
      let x = s.files f in
      let s' = set_file f (record x { ref = x.ref - 1 }) s in
      if x.ref == 0 then none else if not (x.ref - 1 == 0) then some s' else close_last ops f s'

  -- What a call on a pipe leaves.
  abbrev pub settle : ℕ → Transfer → Files I → Files I
  settle a t s = record s {
    pipes = update s.pipes a t.pipe;
    kernel = t.kernel;
    fs_sleep = elim t.sleep [ none ↦ s.fs_sleep | some c ↦ c ];
  }

  abbrev pub set_sleep : Option ℕ → Files I → Files I
  set_sleep none s = s
  set_sleep (some c) s = record s { fs_sleep = c }

  -- `filestat`: what it stores, and none for its result -1.
  unfoldable pub filestat : InodeOps I → ℕ → Files I → Option (ℕ × ℕ × ℕ × ℕ × ℕ)
  filestat ops f s =
      let x = s.files f in
      elim x.type [ fd_none ↦ none | fd_pipe ↦ none | fd_inode ↦ some (ops.stati x.ip s.inodes) ]

  -- `if (r > 0) f->off += r;`.
  abbrev pub advance : ℕ → ℤ → Files I → Files I
  advance f (negsuc e) s = s
  advance f (pos r) s = let x = s.files f in set_file f (record x { off = (x.off + r) % 2 ^ 32 }) s

  -- `fileread`: its result and the bytes that it stores.
  unfoldable pub fileread : InodeOps I → ℕ → ℕ → Files I → Option (ℤ × List ℕ × Files I)
  fileread ops f n s =
      let x = s.files f in
      if not x.readable then some (minus_one, [], s) else elim x.type [
        | fd_none ↦ none
        | fd_pipe ↦
            let (d, t) = piperead x.pipe n (s.pipes x.pipe) s.kernel in
            some (t.result, d, settle x.pipe t s)
        | fd_inode ↦ elim (ops.readi x.ip x.off n s.inodes) [
          | none ↦ none
          | some (r, d, c, i) ↦ some (r, d, advance f r (set_sleep c (record s { inodes = i })))
        ]
      ]

  unfoldable pub filewrite : InodeOps I → ℕ → List ℕ → Files I → Option (ℤ × Files I)
  filewrite ops f d s =
      let x = s.files f in
      if not x.writable then some (minus_one, s) else elim x.type [
        | fd_none ↦ none
        | fd_pipe ↦
            let t = pipewrite x.pipe d (s.pipes x.pipe) s.kernel in
            some (t.result, settle x.pipe t s)
        | fd_inode ↦ elim (ops.writei x.ip d x.off s.inodes) [
          | none ↦ none
          | some (r, i) ↦ some (
            if to_u32 r == length d then to_int (length d) else minus_one,
            advance f r (record s { inodes = i }),
          )
        ]
      ]

  -- The error path of `pipealloc`: `fileclose` of a file that was allocated.
  abbrev pub close_some : InodeOps I → Option ℕ → Option (Files I) → Option (Files I)
  close_some ops f none = none
  close_some ops none (some s) = some s
  close_some ops (some f) (some s) = fileclose ops f s

  abbrev pub failed : Option (Files I) → Option (Option (ℕ × ℕ) × Files I)
  failed none = none
  failed (some s) = some (none, s)

  -- `pipealloc`: the read end and the write end.
  unfoldable pub pipealloc : InodeOps I → Files I → Option (Option (ℕ × ℕ) × Files I)
  pipealloc ops s0 =
      let (r, s1) = filealloc s0 in
      let (w, s2) = filealloc s1 in
      let (a, g) = kalloc s2.kernel.pages in
      let s3 = record s2 {
        kernel = record s2.kernel { pages = g };
        pipes = update s2.pipes a (new_pipe (s2.pipes a));
      } in
      elim r [
        | none ↦ some (none, s1)
        | some rf ↦ elim w [
          | none ↦ failed (fileclose ops rf s2)
          | some wf ↦
              let s4 = set_file rf (pipe_end false a (s3.files rf)) s3 in
              let s5 = set_file wf (pipe_end true a (s4.files wf)) s4 in
              if a == 0
              then failed (close_some ops (some wf) (fileclose ops rf s2))
              else some (some (rf, wf), s5)
        ]
      ]
