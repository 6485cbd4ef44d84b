-- ===== src/Kernel/Msg.antt =====
-- Message passing between processes: kernel/msg.c. A call ends by returning, by blocking in `sched`
-- with the result read from `msgstate` once the process runs again, or by the panic of a deadlock.
use jix.Base.{
  ℕ, zero, suc, Bool, true, false, ◌&&◌, Option, none, some, ◌==◌, if◌then◌else◌, find_from, update,
  ℤ, pos, minus_one,
}
use jix.Kernel.State.{
  sleeping, runnable, sending, recving, in_state, Source, any, from, Proc, Msg, Kernel, msg_besleep,
  nproc, at, set_proc,
}

pub data Outcome : Type 0 where
  done : ℤ → Kernel → Outcome
  blocked : Kernel → Outcome
  yielded : ℤ → Kernel → Outcome
  dead_lock : Outcome
  endless : Outcome

-- The result of a walk along the processes that wait for one another.
pub data Walk : Type 0 where
  clear dead running : Walk

-- The first loop of `sendmsg`, with fuel; `running` means that the fuel ran out.
unfoldable pub send_walk : ℕ → (ℕ → Proc) → ℕ → ℕ → Walk
send_walk zero t me p = running
send_walk (suc f) t me p =
    let rest = send_walk f t me (t p).sendto in
    if in_state (t p).state sending then (if (t p).sendto == me then dead else rest) else clear

abbrev pub is_me : Source → ℕ → Bool
is_me any me = false
is_me (from i) me = i == me

-- The first loop of `recvmsg`, with fuel.
unfoldable pub recv_walk : ℕ → Kernel → ℕ → Source → Walk
recv_walk zero k me p = running
recv_walk (suc f) k me p =
    let rest = recv_walk f k me (at k p).recvfrom in
    if in_state (at k p).state recving
    then (if is_me (at k p).recvfrom me then dead else rest)
    else clear

-- `p->recvfrom == me || p->recvfrom == ANY`.
abbrev pub accepts : Source → ℕ → Bool
accepts any me = true
accepts (from i) me = i == me

-- What both calls do to the other process once the message is copied.
unfoldable pub released : Msg → Proc → Proc
released m p =
    if m.type == msg_besleep
    then record p { msgstate = pos 0; state = sleeping; tmp = m.p1 }
    else record p { msgstate = pos 0; state = runnable }

abbrev pub is_waiting_for : Proc → ℕ → Bool
is_waiting_for p me = in_state p.state recving && accepts p.recvfrom me

-- What a process writes of itself before it waits for its message to be taken, or for one.
abbrev pub as_sender : ℕ → ℕ → Proc → Proc
as_sender m dest p = record p { state = sending; msgp = m; sendto = dest; msgstate = minus_one }

abbrev pub as_receiver : ℕ → Source → Proc → Proc
as_receiver m source p = record p {
  state = recving;
  msgp = m;
  recvfrom = source;
  msgstate = minus_one;
}

-- The rest of `sendmsg`, after the walk. `m` is the address of the message.
unfoldable pub send_now : ℕ → ℕ → Kernel → Outcome
send_now m dest k =
    let p = k.ptable dest in
    if is_waiting_for p k.current
    then done (pos 0) (record k {
      ptable = update k.ptable dest (released (k.mem m) p);
      mem = update k.mem p.msgp (k.mem m);
    })
    else blocked (set_proc k k.current (as_sender m dest (k.ptable k.current)))

unfoldable pub sendmsg : ℕ → ℕ → ℕ → Kernel → Outcome
sendmsg fuel m dest k = elim (send_walk fuel k.ptable k.current dest) [
  | clear ↦ send_now m dest k
  | dead ↦ dead_lock
  | running ↦ endless
]

abbrev pub is_sending_to : ℕ → Proc → Bool
is_sending_to me p = in_state p.state sending && p.sendto == me

-- The sender that `recvmsg` takes, or `none` when it finds none.
unfoldable pub find_sender : (ℕ → Proc) → ℕ → Source → Option ℕ
find_sender t me any = find_from (λ i. is_sending_to me (t i)) nproc 0
find_sender t me (from i) = if is_sending_to me (t i) then some i else none

-- The rest of `recvmsg`, after the walk.
unfoldable pub recv_now : ℕ → Source → Kernel → Outcome
recv_now m source k = elim (find_sender k.ptable k.current source) [
  | none ↦ blocked (set_proc k k.current (as_receiver m source (k.ptable k.current)))
  | some i ↦
      let p = k.ptable i in
      let got = k.mem p.msgp in
      let k' = record k { ptable = update k.ptable i (released got p); mem = update k.mem m got } in
      if got.type == msg_besleep then yielded (pos 0) k' else done (pos 0) k'
]

unfoldable pub recvmsg : ℕ → ℕ → Source → Kernel → Outcome
recvmsg fuel m source k = elim (recv_walk fuel k k.current source) [
  | clear ↦ recv_now m source k
  | dead ↦ dead_lock
  | running ↦ endless
]

-- What a call that blocked returns when its process runs again: `current->msgstate`.
abbrev pub resumed : Kernel → ℤ
resumed k = (k.ptable k.current).msgstate
