-- ===== src/User/MmCall.antt =====
-- The system calls of the memory manager as programs make them: lib/mm.c. `sys_msg` is the argument
-- `send`, as in User/FsCall; `none` is a failed `assert`, a call that gets no answer, or fuel that
-- ran out.
use jix.Base.{
  ℕ, zero, suc, ◌+◌, ◌-◌, true, false, Option, none, some, ◌==◌, if◌then◌else◌, update, ℤ, to_int,
}
use jix.Kernel.MsgType
use jix.Kernel.State.{Msg, msg_sysret, msg_besleep}
use jix.Clib.Mem.{Memory}
use jix.Clib.Str.{strcpy, strlen}
use jix.User.FsCall.{call}

-- The loop of `exec` that packs the strings of `argv` one behind the other; `argv` maps an index to
-- an address, and 0 is NULL. It gives the place behind the last string.
unfoldable pub pack : ℕ → (ℕ → ℕ) → ℕ → ℕ → Memory → Option (ℕ × Memory)
pack zero argv i p mem = none
pack (suc f) argv i p mem = elim (argv i == 0) [
  | true ↦ some (p, mem)
  | false ↦ elim (strcpy f p (argv i) mem) [
    | none ↦ none
    | some mem' ↦ elim (strlen f (argv i) mem') [
      | none ↦ none
      | some n ↦ pack f argv (i + 1) (p + (n + 1)) mem'
    ]
  ]
]

module _ {S : Type 0} (send : Msg → S → Option (Msg × S)) (m : Msg) where
  -- The end of `exec`, with the strings packed from `buf` up to `p`, where it has stored a NUL.
  unfoldable pub exec_packed : ℕ → ℕ → ℕ → S → Option (ℤ × S)
  exec_packed path buf p =
      call send m (record m { p1 = path; p2 = buf; i1 = to_int (p - buf + 1); type = MsgType.exec })

  -- `exec`, where the state gives the memory of the program.
  unfoldable pub exec : (S → Memory) → (Memory → S → S) → ℕ → ℕ → (ℕ → ℕ) → ℕ → S → Option (ℤ × S)
  exec get put f path argv buf s = elim (pack f argv 0 buf (get s)) [
    | none ↦ none
    | some (p, mem) ↦ exec_packed path buf p (put (update mem p 0) s)
  ]

  unfoldable pub fork : S → Option (ℤ × S)
  fork = call send m (record m { type = MsgType.fork })

  unfoldable pub exit : ℤ → S → Option (Msg × S)
  exit ret = send (record m { type = MsgType.exit; i1 = ret })

  unfoldable pub sbrk : ℕ → S → Option (ℤ × S)
  sbrk n = call send m (record m { type = MsgType.sbrk; u1 = n })

-- `wait`: its result and the status, which it stores if it was given a place for it.
unfoldable pub wait :
    {S : Type 0} → (Msg → S → Option (Msg × S)) → ℕ → Msg → ℤ → S → Option (ℤ × ℤ × S)
wait send zero m nohang s = none
wait send (suc f) m nohang s = elim (send (record m { type = MsgType.wait; i2 = nohang }) s) [
  | none ↦ none
  | some (a, s') ↦ elim (a.type == msg_besleep) [
    | true ↦ wait send f a nohang s'
    | false ↦ if a.type == msg_sysret then some (a.i1, a.i2, s') else none
  ]
]
