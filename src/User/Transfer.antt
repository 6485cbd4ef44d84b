-- ===== src/User/Transfer.antt =====
-- `read` and `write` of lib/fs.c: the loops that move a buffer in pieces of at most 1024 bytes. Each
-- round takes one unit of fuel; `none` is a failed `assert`, or fuel that ran out.
use jix.Base.{
  ℕ, zero, suc, ◌+◌, ◌-◌, true, false, Option, none, some, ltb, ◌==◌, if◌then◌else◌, ℤ, pos, negsuc,
  minus_one, to_int,
}
use jix.Kernel.MsgType
use jix.Kernel.State.{Msg, msg_sysret, msg_besleep}

abbrev pub chunk : ℕ
chunk = 1024

-- `min(cnt - done, 1024)`.
abbrev pub piece : ℕ → ℕ → ℕ
piece cnt n = if ltb (cnt - n) chunk then cnt - n else chunk

module _ {S : Type 0} (send : Msg → S → Option (Msg × S)) (fd : ℤ) (cnt : ℕ) where
  -- `read`, with `n` bytes behind it: `dest` is `dst + n`.
  unfoldable pub read_from : ℕ → ℕ → ℕ → Msg → S → Option (ℤ × S)
  read_from zero dst n m s = none
  read_from (suc f) dst n m s = elim (ltb n cnt) [
    | false ↦ some (to_int n, s)
    | true ↦
        elim (send (record m { type = MsgType.read; i1 = fd; p1 = dst + n; u1 = piece cnt n }) s) [
          | none ↦ none
          | some (a, s') ↦ elim (a.type == msg_besleep) [
            | true ↦ read_from f dst n a s'
            | false ↦ elim (a.type == msg_sysret) [
              | false ↦ none
              | true ↦ elim a.i1 [
                | negsuc e ↦ some (if n == 0 then minus_one else to_int n, s')
                | pos r ↦ elim (ltb r (piece cnt n)) [
                  | true ↦ some (to_int (n + r), s')
                  | false ↦ read_from f dst (n + r) a s'
                ]
              ]
            ]
          ]
        ]
  ]

  -- `write`, with `n` bytes behind it. Each request carries `src`, the start of the buffer.
  unfoldable pub write_from : ℕ → ℕ → ℕ → Msg → S → Option (ℤ × S)
  write_from zero src n m s = none
  write_from (suc f) src n m s = elim (ltb n cnt) [
    | false ↦ some (to_int n, s)
    | true ↦
        elim (send (record m { type = MsgType.write; i1 = fd; p1 = src; u1 = piece cnt n }) s) [
          | none ↦ none
          | some (a, s') ↦ elim (a.type == msg_besleep) [
            | true ↦ write_from f src n a s'
            | false ↦ elim (a.type == msg_sysret) [
              | false ↦ none
              | true ↦ elim a.i1 [
                | negsuc e ↦ some (if n == 0 then minus_one else to_int n, s')
                | pos r ↦ elim (ltb r (piece cnt n)) [
                  | true ↦ some (to_int (n + r), s')
                  | false ↦ write_from f src (n + r) a s'
                ]
              ]
            ]
          ]
        ]
  ]

  unfoldable pub read : ℕ → ℕ → Msg → S → Option (ℤ × S)
  read f dst = read_from f dst 0

  unfoldable pub write : ℕ → ℕ → Msg → S → Option (ℤ × S)
  write f src = write_from f src 0
