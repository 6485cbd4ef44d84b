-- ===== src/Kernel/SendRecv.antt =====
-- `sendrecv` of kernel/msg.c and the copies between a program and the buffer `iobuf` on the kernel's
-- stack. Memory is the byte at each address; messages are apart from it, in `mem` of the kernel.
-- `none` is a failed `assert`, a panic, or fuel that ran out.
use jix.Base.{
  ℕ, ◌+◌, ◌-◌, Bool, true, false, not, ◌&&◌, ◌||◌, Option, none, some, ltb, ◌==◌, if◌then◌else◌,
  update, ℤ, pos, negsuc, to_u32,
}
use jix.Clib.Mem.{Memory, memmove}
use jix.Clib.Str.{strncpy, strlen}
use jix.Kernel.MsgType
use jix.Kernel.State.{unused, in_state, Source, any, from, Msg, Kernel, nproc, at}
use jix.Kernel.Msg.{Outcome, sendmsg, recvmsg, done}

abbrev pub buf_len : ℕ
buf_len = 1024

-- `sizeof(struct stat)`.
abbrev pub stat_size : ℕ
stat_size = 20

abbrev pub has_path : Msg → Bool
has_path m =
    (m.type == MsgType.mkdir)
    || ((m.type == MsgType.mknod)
        || ((m.type == MsgType.unlink) || ((m.type == MsgType.chdir) || (m.type == MsgType.open_))))

-- The case `MSG_LINK` of `mcopyin`, and `MSG_EXEC`: two pieces, the second behind the NUL of the first.
unfoldable pub copy_link : ℕ → ℕ → Msg → Memory → Option (Msg × Memory)
copy_link fuel iobuf m b =
    let b1 = strncpy buf_len iobuf m.p1 b in
    elim (strlen fuel iobuf b1) [
      | none ↦ none
      | some t ↦
          let second = iobuf + t + 1 in
          some (record m { p1 = iobuf; p2 = second }, strncpy (buf_len - t - 1) second m.p2 b1)
    ]

unfoldable pub copy_exec : ℕ → ℕ → Msg → Memory → Option (Msg × Memory)
copy_exec fuel iobuf m b =
    let b1 = strncpy buf_len iobuf m.p1 b in
    elim (strlen fuel m.p1 b1) [
      | none ↦ none
      | some t ↦
          let second = iobuf + t + 1 in
          some (record m { p1 = iobuf; p2 = second }, memmove second m.p2 (to_u32 m.i1) b1)
    ]

-- `mcopyin`: what becomes of the copy `mbuf` of the message `m`, and of memory.
unfoldable pub mcopyin : ℕ → ℕ → Msg → Memory → Option (Msg × Memory)
mcopyin fuel iobuf m b =
    if m.type == MsgType.write
    then some (record m { p1 = iobuf }, memmove iobuf m.p1 m.u1 b)
    else if has_path m
    then some (record m { p1 = iobuf }, strncpy buf_len iobuf m.p1 b)
    else if m.type == MsgType.link
    then copy_link fuel iobuf m b
    else if (m.type == MsgType.read) || (m.type == MsgType.stat)
    then some (record m { p1 = iobuf }, b)
    else if m.type == MsgType.exec
    then copy_exec fuel iobuf m b
    else some (m, b)

abbrev pub size_if : Bool → ℕ → ℕ
size_if ok n = if ok then n else 0

abbrev pub count_of : ℤ → ℕ
count_of (pos n) = n
count_of (negsuc n) = 0

abbrev pub is_done : ℤ → Bool
is_done (pos n) = n == 0
is_done (negsuc n) = false

-- `mcopyout`, of the answer `mbuf` to the message `m`.
unfoldable pub mcopyout : Msg → Msg → Memory → Memory
mcopyout mbuf m b =
    if m.type == MsgType.read
    then memmove m.p1 mbuf.p1 (count_of mbuf.i1) b
    else if m.type == MsgType.stat
    then memmove m.p1 mbuf.p1 (size_if (is_done mbuf.i1) stat_size) b
    else b

-- `SEND`, `RECV` and `BOTH`.
pub data Function : Type 0 where
  send recv both : Function

-- `dest` as an argument: ANY or a process.
abbrev pub in_table : Source → Bool
in_table any = false
in_table (from i) = ltb i nproc

abbrev pub is_recv : Function → Bool
is_recv send = false
is_recv recv = true
is_recv both = false

abbrev pub is_any : Source → Bool
is_any any = true
is_any (from i) = false

abbrev pub is_self : ℕ → Source → Bool
is_self me any = false
is_self me (from i) = i == me

-- The three assertions of `sendrecv`.
unfoldable pub allowed : Function → Source → Kernel → Bool
allowed f dest k =
    (in_table dest || (is_recv f && is_any dest))
    && ((is_any dest || not (in_state (at k dest).state unused)) && not (is_self k.current dest))

-- What the end of `sendrecv` copies out, where `mbuf` is the answer to `m`.
abbrev pub copied_out : Function → Msg → Msg → Memory → Memory
copied_out both mbuf m b = mcopyout mbuf m b
copied_out send mbuf m b = b
copied_out recv mbuf m b = b

-- Where a call of `sendrecv` is: in `sendmsg` or `recvmsg`, where it blocks, or back with a result.
pub data Call : Type 0 where
  sending_out : Outcome → Memory → Call
  receiving : Outcome → Memory → Call

-- The process that a call of `sendmsg` names; ANY is -1, which the assertions let through for `RECV`
-- only.
abbrev pub index_of : Source → ℕ
index_of any = nproc
index_of (from i) = i

module _ (fuel iobuf mbuf m : ℕ) (dest : Source) where
  -- `mbuf = *m`, with the number of the sender.
  abbrev pub stamped : Kernel → Kernel
  stamped k = record k { mem = update k.mem m (record (k.mem m) { source = k.current }) }

  abbrev pub with_buf : Msg → Kernel → Kernel
  with_buf x k = record k { mem = update k.mem mbuf x }

  -- `sendrecv` up to the return of its first call of `sendmsg` or `recvmsg`.
  unfoldable pub sendrecv : Function → Memory → Kernel → Option Call
  sendrecv f b k =
      let k1 = stamped k in
      if allowed f dest k
      then elim f [
        | send ↦ some (sending_out (sendmsg fuel mbuf (index_of dest) (with_buf (k1.mem m) k1)) b)
        | recv ↦ some (receiving (recvmsg fuel mbuf dest k1) b)
        | both ↦ elim (mcopyin fuel iobuf (k1.mem m) b) [
          | none ↦ none
          | some r ↦ some (sending_out (sendmsg fuel mbuf (index_of dest) (with_buf r.0 k1)) r.1)
        ]
      ]
      else none

  -- `BOTH`, when `sendmsg` has returned `ret`: an error ends the call.
  unfoldable pub after_send : ℤ → Memory → Kernel → Call
  after_send ret b k =
      if is_done ret then receiving (recvmsg fuel mbuf dest k) b else sending_out (done ret k) b

  -- The end of `RECV` and of `BOTH`, when `recvmsg` has returned.
  unfoldable pub after_recv : Function → Memory → Kernel → Memory × Kernel
  after_recv f b k =
      (copied_out f (k.mem mbuf) (k.mem m) b, record k { mem = update k.mem m (k.mem mbuf) })
