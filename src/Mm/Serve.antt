-- ===== src/Mm/Serve.antt =====
-- The request loop of `task_mm`: mm/main.c. The operations that it calls are an interface, over the
-- state of the memory manager.
use jix.Base.{ℕ, Bool, false, Option, none, some, ◌==◌, if◌then◌else◌, ℤ, pos, negsuc, minus_one}
use jix.Kernel.MsgType
use jix.Kernel.State.{Msg, msg_sysret, msg_besleep}

-- The `do_` functions, over a state `S`; `set_current` is the assignment of `mm_current`, and
-- `sleep_on` the value of `mm_sleep`. `do_wait` returns the exit status if it stores one.
pub record MmOps (S : Type 0) : Type 0 where
  pub set_current : ℕ → S → S
  pub sleep_on : S → ℕ
  pub do_exec : ℕ → ℕ → S → ℤ × S
  pub do_fork : S → ℤ × S
  pub do_exit : ℤ → S → S
  pub do_wait : ℤ → S → ℤ × Option ℤ × S
  pub do_sbrk : ℕ → S → ℤ × S

abbrev pub is_zero : ℤ → Bool
is_zero (pos n) = n == 0
is_zero (negsuc n) = false

abbrev pub is_minus_two : ℤ → Bool
is_minus_two (pos n) = false
is_minus_two (negsuc n) = n == 1

module _ {S : Type 0} (ops : MmOps S) where
  -- The end of the round: the answer that goes to the sender.
  abbrev pub answer : Msg → S → Option Msg × S
  answer m s =
      if is_minus_two m.i1
      then (some (record m { type = msg_besleep; p1 = ops.sleep_on s }), s)
      else (some (record m { type = msg_sysret }), s)

  abbrev pub answer_i1 : Msg → ℤ × S → Option Msg × S
  answer_i1 m (r, s) = answer (record m { i1 = r }) s

  abbrev pub answer_wait : Msg → ℤ × Option ℤ × S → Option Msg × S
  answer_wait m (r, none, s) = answer (record m { i1 = r }) s
  answer_wait m (r, some st, s) = answer (record m { i1 = r; i2 = st }) s

  -- After `do_exec`, which answers only where it fails.
  abbrev pub answer_exec : Msg → ℤ × S → Option Msg × S
  answer_exec m (r, s) = if is_zero r then (none, s) else answer (record m { i1 = r }) s

  -- One round of the loop, from the message received to the answer, if there is one.
  unfoldable pub serve : Msg → S → Option Msg × S
  serve m s0 =
      let s = ops.set_current m.source s0 in
      if m.type == MsgType.exec
      then answer_exec m (ops.do_exec m.p1 m.p2 s)
      else if m.type == MsgType.fork
      then answer_i1 m (ops.do_fork s)
      else if m.type == MsgType.exit
      then (none, ops.do_exit m.i1 s)
      else if m.type == MsgType.wait
      then answer_wait m (ops.do_wait m.i2 s)
      else if m.type == MsgType.sbrk
      then answer_i1 m (ops.do_sbrk m.u1 s)
      else answer (record m { i1 = minus_one }) s
