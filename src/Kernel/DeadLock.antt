-- ===== src/Kernel/DeadLock.antt =====
-- The panic of `sendmsg` in kernel/msg.c: it is raised only where the call would close a cycle.
use jix.Base.{ℕ, zero, suc, ◌≡◌, refl, sym, ◌∙◌, subst, ◌≢◌, inl, inr, arith, ◌==◌, Bool-cases}
use jix.Kernel.State.{sending, in_state, Proc, Kernel}
use jix.Kernel.Msg.{
  Walk, clear, dead, running, dead_lock, send_walk, sendmsg, send_now, is_waiting_for, endless,
}
use jix.Kernel.WaitGraph.{
  IsSending, IsIdle, Ends, stop, hop, IsAcyclic, waiting, Joined, waiting-Joined,
}

-- From `p` the chain of processes that wait to send leads to `me`.
pub data Reaches (t : ℕ → Proc) (me : ℕ) : ℕ → Type 0 where
  next : {p : ℕ} → IsSending (t p) → (t p).sendto ≡ me → Reaches t me p
  far : {p q : ℕ} → IsSending (t p) → (t p).sendto ≡ q → Reaches t me q → Reaches t me p

send_walk-dead : (f : ℕ) (t : ℕ → Proc) (me p : ℕ) → send_walk f t me p ≡ dead → Reaches t me p
unfolding send_walk
send_walk-dead zero t me p e = cc
send_walk-dead (suc f) t me p e = elim (Bool-cases (in_state (t p).state sending)) [
  | inr off ↦ let e' : clear ≡ dead = rw (off, send_walk) at e in cc
  | inl on ↦ elim (Bool-cases ((t p).sendto == me)) [
    | inl hit ↦ next on (ground arith)
    | inr miss ↦ far on refl (send_walk-dead f t me (t p).sendto (rw (on, miss, send_walk) at e))
  ]
]

-- A process on a cycle through `me` has no end of its chain.
Ends-Reaches : {t : ℕ → Proc} (me : ℕ) {p : ℕ} → Reaches t me me → Ends t p → Reaches t me p → ⊥
Ends-Reaches me loop (stop off) (next on at) = cc
Ends-Reaches me loop (stop off) (far on at r) = cc
Ends-Reaches {t} me loop (hop on at rest) (next on' at') =
    Ends-Reaches me loop rest (let e = sym at' ∙ at in subst (Reaches t me) e loop)
Ends-Reaches {t} me loop (hop on at rest) (far on' at' r) =
    Ends-Reaches me loop rest (let e = sym at' ∙ at in subst (Reaches t me) e r)

-- The chain from `p` to `me` is still there once `me`, which did not send, waits to send.
Reaches-joined :
    {t u : ℕ → Proc} {me dest : ℕ} {p : ℕ}
    → Joined t u me dest
    → IsIdle (t me)
    → Reaches t me p
    → Reaches u me p
Reaches-joined {t} {u} {me} {dest} {p} j off (next on eq) =
    let same =
      j.others p (λ e. let on' : IsSending (t me) = subst (λ x. IsSending (t x)) e on in cc) in
    next (rw same on) (rw same eq)
Reaches-joined {t} {u} {me} {dest} {p} j off (far on eq r) =
    let same =
      j.others p (λ e. let on' : IsSending (t me) = subst (λ x. IsSending (t x)) e on in cc) in
    far (rw same on) (rw same eq) (Reaches-joined j off r)

send_now-ne-dead_lock : (m dest : ℕ) (k : Kernel) → send_now m dest k ≢ dead_lock
unfolding send_now
send_now-ne-dead_lock m dest k = elim (Bool-cases (is_waiting_for (k.ptable dest) k.current)) [
  | inl e ↦ rw (e, send_now) (λ h. cc)
  | inr e ↦ rw (e, send_now) (λ h. cc)
]

-- Where `sendmsg` of a process that is not itself waiting to send panics, that process would have
-- waited for itself: the kernel that blocks it on `dest` has a cycle of processes that wait to send.
pub sendmsg-dead_lock :
    (f m dest : ℕ) (k : Kernel)
    → IsIdle (k.ptable k.current)
    → sendmsg f m dest k ≡ dead_lock
    → ¬ IsAcyclic (waiting m dest k)
unfolding sendmsg
sendmsg-dead_lock f m dest k off e acyclic = go (send_walk f k.ptable k.current dest) refl e
  where
    go :
        (w : Walk)
        → send_walk f k.ptable k.current dest ≡ w
        → elim w [ clear ↦ send_now m dest k | dead ↦ dead_lock | running ↦ endless ] ≡ dead_lock
        → ⊥
    go clear w d = send_now-ne-dead_lock m dest k d
    go running w d = cc
    go dead w d =
        let j = waiting-Joined m dest k in
        let r = Reaches-joined j off (send_walk-dead f k.ptable k.current dest w) in
        let loop = far j.joins.0 j.joins.1 r in Ends-Reaches k.current loop (acyclic dest) r
