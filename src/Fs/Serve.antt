-- ===== src/Fs/Serve.antt =====
-- The request loop of `task_fs`: fs/main.c. The operations that it calls are an interface, over the
-- state of the file system. A pointer in a message stands for what it points to: the copies between
-- the address spaces are those of kernel/msg.c.
use jix.Base.{ℕ, Bool, false, Option, none, some, ◌==◌, if◌then◌else◌, ℤ, pos, negsuc, minus_one}
use jix.Kernel.MsgType
use jix.Kernel.State.{Msg, msg_sysret, msg_besleep}

abbrev pub task_mm : ℕ
task_mm = 2

-- The `do_` functions, over a state `S`; `set_current` is the assignment of `fs_current`, and
-- `sleep_on` the value of `fs_sleep`. `do_pipe` returns the two descriptors that it stores.
pub record FsOps (S : Type 0) : Type 0 where
  pub set_current : ℕ → S → S
  pub sleep_on : S → ℕ
  pub do_open : ℕ → ℤ → S → ℤ × S
  pub do_close : ℤ → S → ℤ × S
  pub do_read : ℤ → ℕ → ℕ → S → ℤ × S
  pub do_write : ℤ → ℕ → ℕ → S → ℤ × S
  pub do_chdir : ℕ → S → ℤ × S
  pub do_dup : ℤ → S → ℤ × S
  pub do_link : ℕ → ℕ → S → ℤ × S
  pub do_unlink : ℕ → S → ℤ × S
  pub do_mkdir : ℕ → S → ℤ × S
  pub do_mknod : ℕ → ℤ → ℤ → S → ℤ × S
  pub do_pipe : ℕ × ℕ → S → ℤ × (ℕ × ℕ) × S
  pub do_stat : ℤ → ℕ → S → ℤ × S
  pub do_seek : ℤ → ℕ → S → ℤ × S
  pub do_gotoxy : ℕ → ℕ → S → ℤ × S
  pub do_ttymode : ℕ → S → ℤ × S
  pub do_cls : S → ℤ × S
  pub do_ttycolor : ℤ → ℤ → S → ℤ × S
  pub do_fsfork : ℕ → ℕ → S → ℤ × S
  pub do_fsexit : ℕ → S → ℤ × S

-- `m.i1 = …`.
abbrev pub set_i1 {ℓ} : {S : Type ℓ} → Msg → ℤ × S → Msg × S
set_i1 m (r, s) = (record m { i1 = r }, s)

abbrev pub set_pipe {ℓ} : {S : Type ℓ} → Msg → ℤ × (ℕ × ℕ) × S → Msg × S
set_pipe m (r, (a, b), s) = (record m { i1 = r; u1 = a; u2 = b }, s)

module _ {S : Type 0} (ops : FsOps S) where
  -- The first cases of the `switch`.
  unfoldable pub switch_files : Msg → S → Option (Msg × S)
  switch_files m s =
      if m.type == MsgType.open_
      then some (set_i1 m (ops.do_open m.p1 m.i1 s))
      else if m.type == MsgType.close
      then some (set_i1 m (ops.do_close m.i1 s))
      else if m.type == MsgType.read
      then some (set_i1 m (ops.do_read m.i1 m.p1 m.u1 s))
      else if m.type == MsgType.write
      then some (set_i1 m (ops.do_write m.i1 m.p1 m.u1 s))
      else if m.type == MsgType.chdir
      then some (set_i1 m (ops.do_chdir m.p1 s))
      else if m.type == MsgType.dup
      then some (set_i1 m (ops.do_dup m.i1 s))
      else if m.type == MsgType.link
      then some (set_i1 m (ops.do_link m.p1 m.p2 s))
      else if m.type == MsgType.unlink
      then some (set_i1 m (ops.do_unlink m.p1 s))
      else if m.type == MsgType.mkdir
      then some (set_i1 m (ops.do_mkdir m.p1 s))
      else if m.type == MsgType.mknod
      then some (set_i1 m (ops.do_mknod m.p1 m.i1 m.i2 s))
      else none

  -- The other cases. The last two are for the memory manager alone; `none` is the panic.
  unfoldable pub switch_rest : Msg → S → Option (Msg × S)
  switch_rest m s =
      if m.type == MsgType.pipe
      then some (set_pipe m (ops.do_pipe (m.u1, m.u2) s))
      else if m.type == MsgType.stat
      then some (set_i1 m (ops.do_stat m.i1 m.p1 s))
      else if m.type == MsgType.seek
      then some (set_i1 m (ops.do_seek m.i1 m.u1 s))
      else if m.type == MsgType.gotoxy
      then some (set_i1 m (ops.do_gotoxy m.u1 m.u2 s))
      else if m.type == MsgType.ttymode
      then some (set_i1 m (ops.do_ttymode m.u1 s))
      else if m.type == MsgType.cls
      then some (set_i1 m (ops.do_cls s))
      else if m.type == MsgType.ttycolor
      then some (set_i1 m (ops.do_ttycolor m.i1 m.i2 s))
      else if m.type == MsgType.fork
      then (if m.source == task_mm then some (set_i1 m (ops.do_fsfork m.p1 m.p2 s)) else none)
      else if m.type == MsgType.exit
      then (if m.source == task_mm then some (set_i1 m (ops.do_fsexit m.p1 s)) else none)
      else some (record m { i1 = minus_one }, s)

  abbrev pub is_minus_two : ℤ → Bool
  is_minus_two (pos n) = false
  is_minus_two (negsuc n) = n == 1

  -- The end of the round: the type of the answer.
  abbrev pub answer : Msg → S → Msg × S
  answer m s =
      if is_minus_two m.i1
      then (record m { type = msg_besleep; p1 = ops.sleep_on s }, s)
      else (record m { type = msg_sysret }, s)

  abbrev pub finish : Option (Msg × S) → Option (Msg × S)
  finish none = none
  finish (some (m, s)) = some (answer m s)

  -- One round of the loop, from the message received to the message sent back.
  unfoldable pub serve : Msg → S → Option (Msg × S)
  unfolding switch_files switch_rest
  serve m s =
      let s' = ops.set_current m.source s in
      elim (switch_files m s') [ some r ↦ finish (some r) | none ↦ finish (switch_rest m s') ]
