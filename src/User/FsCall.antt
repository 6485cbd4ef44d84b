-- ===== src/User/FsCall.antt =====
-- The system calls of the file system as programs make them: lib/fs.c. `sys_msg` is the argument
-- `send`, which hands a message to `task_fs` and brings the answer back in it. `m` is the local
-- message of each function before it is filled in. `none` is a failed `assert`, or fuel that ran out.
use jix.Base.{ℕ, Option, none, some, leb, ◌==◌, if◌then◌else◌, ℤ, pos, negsuc, to_int, to_u32}
use jix.Kernel.State.{Msg, msg_sysret}
use jix.Kernel.MsgType

abbrev pub nofile : ℕ
nofile = 16

module _ {S : Type 0} (send : Msg → S → Option (Msg × S)) (m : Msg) where
  -- `assert(sys_msg(BOTH, &m, TASK_FS) == 0); assert(m.type == MSG_SYSRET);`.
  abbrev pub returned : Option (Msg × S) → Option (Msg × S)
  returned none = none
  returned (some (a, s)) = if a.type == msg_sysret then some (a, s) else none

  -- `return m.i1;`.
  abbrev pub i1_of : Option (Msg × S) → Option (ℤ × S)
  i1_of none = none
  i1_of (some (a, s)) = some (a.i1, s)

  abbrev pub call : Msg → S → Option (ℤ × S)
  call req s = i1_of (returned (send req s))

  abbrev pub call_void : Msg → S → Option S
  call_void req s = elim (returned (send req s)) [ none ↦ none | some (a, s') ↦ some s' ]

  unfoldable pub open_ : ℕ → ℤ → S → Option (ℤ × S)
  open_ path mode = call (record m { type = MsgType.open_; p1 = path; i1 = mode })

  unfoldable pub close : ℤ → S → Option S
  close (negsuc fd) s = some s
  close (pos fd) s =
      if leb nofile fd then some s else call_void (record m { type = MsgType.close; i1 = pos fd }) s

  unfoldable pub chdir : ℕ → S → Option (ℤ × S)
  chdir path = call (record m { type = MsgType.chdir; p1 = path })

  unfoldable pub dup : ℤ → S → Option (ℤ × S)
  dup fd = call (record m { type = MsgType.dup; i1 = fd })

  unfoldable pub link : ℕ → ℕ → S → Option (ℤ × S)
  link n target = call (record m { type = MsgType.link; p1 = n; p2 = target })

  unfoldable pub unlink : ℕ → S → Option (ℤ × S)
  unlink path = call (record m { type = MsgType.unlink; p1 = path })

  unfoldable pub mkdir : ℕ → S → Option (ℤ × S)
  mkdir path = call (record m { type = MsgType.mkdir; p1 = path })

  unfoldable pub mknod : ℕ → ℤ → ℤ → S → Option (ℤ × S)
  mknod path major minor =
      call (record m { type = MsgType.mknod; p1 = path; i1 = major; i2 = minor })

  -- `pipe`: its result and the two descriptors.
  unfoldable pub pipe : S → Option (ℤ × (ℤ × ℤ) × S)
  pipe s = elim (returned (send (record m { type = MsgType.pipe }) s)) [
    | none ↦ none
    | some (a, s') ↦ some (a.i1, (to_int a.u1, to_int a.u2), s')
  ]

  unfoldable pub fstat : ℤ → ℕ → S → Option (ℤ × S)
  fstat fd sp = call (record m { type = MsgType.stat; i1 = fd; p1 = sp })

  unfoldable pub seek : ℤ → ℕ → S → Option (ℤ × S)
  seek fd off = call (record m { type = MsgType.seek; i1 = fd; u1 = off })

  unfoldable pub gotoxy : ℕ → ℕ → S → Option S
  gotoxy x y = call_void (record m { type = MsgType.gotoxy; u1 = x; u2 = y })

  unfoldable pub ttymode : ℤ → S → Option S
  ttymode mode = call_void (record m { type = MsgType.ttymode; u1 = to_u32 mode })

  unfoldable pub cls : S → Option S
  cls = call_void (record m { type = MsgType.cls })

  unfoldable pub ttycolor : ℤ → ℤ → S → Option S
  ttycolor back front = call_void (record m { type = MsgType.ttycolor; i1 = back; i2 = front })
