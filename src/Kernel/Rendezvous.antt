-- ===== src/Kernel/Rendezvous.antt =====
-- One message from `sendmsg` to `recvmsg` of kernel/msg.c, whichever of the two is called first.
use jix.Base.{
  ℕ, zero, suc, ◌<◌, ◌≡◌, refl, sym, ap, ◌≢◌, true, false, some, arith, ◌==◌, if◌then◌else◌, update,
  update_self, update-ne, find_from-first, pos,
}
use jix.Kernel.State.{
  at, sleeping, runnable, sending, recving, in_state, Source, any, from, Proc, Msg, Kernel,
  set_proc, msg_besleep, nproc,
}
use jix.Kernel.Msg.{
  Walk, Outcome, done, blocked, yielded, sendmsg, recvmsg, send_now, recv_now, find_sender,
  is_sending_to, is_waiting_for, as_sender, as_receiver, released, send_walk, recv_walk,
}

-- The scheduler gives the processor to `i`.
abbrev pub switch_to : ℕ → Kernel → Kernel
switch_to i k = record k { current = i }

-- In `k'` the message at `m` of `mem` has been copied to `n`, and the process `peer`, which
-- was waiting, will find the result 0; it runs again, or sleeps if that is what the message asks.
pub record IsDelivered (mem : ℕ → Msg) (k' : Kernel) (m n peer : ℕ) : Type 0 where
  pub copied : k'.mem n ≡ mem m
  pub rest : (x : ℕ) → x ≢ n → k'.mem x ≡ mem x
  pub result : (k'.ptable peer).msgstate ≡ pos 0
  pub wakes : (k'.ptable peer).state ≡ (if (mem m).type == msg_besleep then sleeping else runnable)

-- A message of type BESLEEP makes the receiver give up the processor before it returns.
abbrev pub received : Msg → Kernel → Outcome
received msg k = if msg.type == msg_besleep then yielded (pos 0) k else done (pos 0) k

released_lem :
    (msg : Msg) (p : Proc)
    → ((released msg p).msgstate ≡ pos 0)
      × ((released msg p).state ≡ (if msg.type == msg_besleep then sleeping else runnable))
unfolding released
released_lem msg p = ground arith

-- The walks end at once at a process that does not wait in that way.
send_walk-idle :
    (f : ℕ) (t : ℕ → Proc) (me p : ℕ)
    → in_state (t p).state sending ≡ false
    → 0 < f
    → send_walk f t me p ≡ Walk.clear
unfolding send_walk
send_walk-idle zero t me p off lt = absurd (omega arith)
send_walk-idle (suc f) t me p off lt = rw (off, send_walk)

recv_walk-idle :
    (f : ℕ) (k : Kernel) (me : ℕ) (p : Source)
    → in_state (at k p).state recving ≡ false
    → 0 < f
    → recv_walk f k me p ≡ Walk.clear
unfolding recv_walk
recv_walk-idle zero k me p off lt = absurd (omega arith)
recv_walk-idle (suc f) k me p off lt = rw (off, recv_walk)

-- `recvmsg` with a sender at hand, whose message is at `m`.
recv_takes :
    (f m n a : ℕ) (s : Source) (k : Kernel)
    → (k.ptable a).msgp ≡ m
    → recv_walk f k k.current s ≡ Walk.clear
    → find_sender k.ptable k.current s ≡ some a
    → (k' : Kernel) × (recvmsg f n s k ≡ received (k.mem m) k') × IsDelivered k.mem k' m n a
unfolding recvmsg recv_now
recv_takes f m n a s k src w e =
    let msg = k.mem m in
    let p' = released msg (k.ptable a) in
    let here : update k.ptable a p' a ≡ p' = update_self k.ptable a p' in
    let (r, st) = released_lem msg (k.ptable a) in
    (
      record k { ptable = update k.ptable a p'; mem = update k.mem n msg },
      rw (w, recvmsg, e, recv_now, src),
      record {
        copied = update_self k.mem n msg;
        rest = λ x ne. update-ne k.mem n x msg (λ h. ne (sym h));
        result = rw here r;
        wakes = rw here st;
      },
    )

==-self : (b : ℕ) → (b == b) ≡ true
==-self b = ground arith

module _ (k : Kernel) (a b m n f : ℕ) (fuel : 0 < f) where
  -- With any fuel: `a` calls `sendmsg` while `b` waits neither to send nor for `a`: it blocks. Then `b` calls
  -- `recvmsg` from `a`: the message is copied, and the call of `a` is over with result 0.
  pub sendmsg-recvmsg :
      in_state (k.ptable b).state sending ≡ false
      → is_waiting_for (k.ptable b) a ≡ false
      → (k1 k2 : Kernel) × (sendmsg f m b (switch_to a k) ≡ blocked k1)
        × (recvmsg f n (from a) (switch_to b k1) ≡ received (k.mem m) k2)
        × IsDelivered k.mem k2 m n a
  unfolding sendmsg send_now find_sender
  sendmsg-recvmsg idle off =
      let p = as_sender m b (k.ptable a) in
      let k1 = set_proc (switch_to a k) a p in
      let here : update k.ptable a p a ≡ p = update_self k.ptable a p in
      let sends : is_sending_to b (update k.ptable a p a) ≡ true = rw here (==-self b) in
      let found : find_sender k1.ptable b (from a) ≡ some a = rw (sends, find_sender) in
      let walk = recv_walk-idle f (switch_to b k1) b (from a) (rw here refl) fuel in
      let (k2, e, d) =
        recv_takes f m n a (from a) (switch_to b k1) (ap (λ q. q.msgp) here) walk found in
      (k1, k2, rw (send_walk-idle f k.ptable a b idle fuel, sendmsg, off, send_now), e, d)

  -- With any fuel: `b` calls `recvmsg` from `a` while `a` waits neither to send to it nor to receive: it blocks.
  -- Then `a` calls `sendmsg`: the message is copied, and the call of `b` is over with result 0.
  pub recvmsg-sendmsg :
      in_state (k.ptable a).state recving ≡ false
      → is_sending_to b (k.ptable a) ≡ false
      → (k1 k2 : Kernel) × (recvmsg f n (from a) (switch_to b k) ≡ blocked k1)
        × (sendmsg f m b (switch_to a k1) ≡ done (pos 0) k2)
        × IsDelivered k.mem k2 m n b
  unfolding recvmsg recv_now find_sender sendmsg send_now
  recvmsg-sendmsg idle off =
      let p = as_receiver n (from a) (k.ptable b) in
      let t1 = update k.ptable b p in
      let msg = k.mem m in
      let here : t1 b ≡ p = update_self k.ptable b p in
      let waits : is_waiting_for (t1 b) a ≡ true = rw here (==-self a) in
      let walk = send_walk-idle f t1 a b (rw here refl) fuel in
      let p' = released msg (t1 b) in
      let there : update t1 b p' b ≡ p' = update_self t1 b p' in
      let addr : (t1 b).msgp ≡ n = ap (λ q. q.msgp) here in
      let (r, st) = released_lem msg (t1 b) in
      (
        set_proc (switch_to b k) b p,
        record k { ptable = update t1 b p'; mem = update k.mem n msg; current = a },
        rw (
          recv_walk-idle f (switch_to b k) b (from a) idle fuel,
          recvmsg,
          off,
          find_sender,
          recv_now,
        ),
        rw (walk, sendmsg, waits, send_now, addr),
        record {
          copied = update_self k.mem n msg;
          rest = λ x out. update-ne k.mem n x msg (λ h. out (sym h));
          result = rw there r;
          wakes = rw there st;
        },
      )

-- With source ANY `recvmsg` takes the message of the first process in the table that waits to send
-- to the caller, if there is one; this holds where the memory below the table, which the walk
-- reads, is no waiting receiver.
pub recvmsg-any :
    (k : Kernel) (n f : ℕ) (fuel : 0 < f)
    → in_state k.below.state recving ≡ false
    → (a : ℕ) → a < nproc
    → is_sending_to k.current (k.ptable a) ≡ true
    → ((i : ℕ) → i < a → is_sending_to k.current (k.ptable i) ≡ false)
    → (k' : Kernel) × (recvmsg f n any k ≡ received (k.mem (k.ptable a).msgp) k')
      × IsDelivered k.mem k' (k.ptable a).msgp n a
unfolding find_sender
recvmsg-any k n f fuel below a lt sends before =
    recv_takes f _ n a any k refl (recv_walk-idle f k k.current any below fuel) (
      find_from-first (λ i. is_sending_to k.current (k.ptable i)) nproc 0 a (omega arith)
        (omega arith) sends (λ j lo hi. before j hi))
