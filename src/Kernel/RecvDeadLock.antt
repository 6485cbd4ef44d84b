-- ===== src/Kernel/RecvDeadLock.antt =====
-- The panic of `recvmsg` in kernel/msg.c: it is raised exactly where the call would close a cycle.
use jix.Base.{
  ℕ, zero, suc, ◌≤◌, ◌≡◌, refl, ◌≢◌, inl, inr, true, Option, none, some, arith, ◌==◌, Bool-cases,
}
use jix.Kernel.State.{recving, in_state, Source, Kernel, at, msg_besleep}
use jix.Kernel.Msg.{
  Walk, clear, dead, running, dead_lock, endless, is_me, recv_walk, recv_now, recvmsg, find_sender,
}

-- From `source` the chain of processes that wait to receive leads to process `me`.
pub data RecvReaches (k : Kernel) (me : ℕ) : Source → Type 0 where
  next :
      {p : Source}
      → in_state (at k p).state recving ≡ true
      → is_me (at k p).recvfrom me ≡ true
      → RecvReaches k me p
  far :
      {p q : Source}
      → in_state (at k p).state recving ≡ true
      → (at k p).recvfrom ≡ q
      → RecvReaches k me q
      → RecvReaches k me p

recv_walk-dead :
    (f : ℕ) (k : Kernel) (me : ℕ) (p : Source) → recv_walk f k me p ≡ dead → RecvReaches k me p
unfolding recv_walk
recv_walk-dead zero k me p e = cc
recv_walk-dead (suc f) k me p e = elim (Bool-cases (in_state (at k p).state recving)) [
  | inr off ↦ let e' : clear ≡ dead = rw (off, recv_walk) at e in cc
  | inl on ↦ elim (Bool-cases (is_me (at k p).recvfrom me)) [
    | inl hit ↦ next on hit
    | inr miss ↦
        far on refl (recv_walk-dead f k me (at k p).recvfrom (rw (on, miss, recv_walk) at e))
  ]
]

RecvReaches-recv_walk :
    {k : Kernel} {me : ℕ} {p : Source}
    → RecvReaches k me p
    → (n : ℕ) × ((f : ℕ) → n ≤ f → recv_walk f k me p ≡ dead)
unfolding recv_walk
RecvReaches-recv_walk {k} {me} {p} (next on hit) = (1, found)
  where
    found : (f : ℕ) → 1 ≤ f → recv_walk f k me p ≡ dead
    found zero le = absurd (omega arith)
    found (suc f) le = rw (on, hit, recv_walk) refl
RecvReaches-recv_walk {k} {me} {p} (far {q} on eq rest) =
    let (n, more) = RecvReaches-recv_walk rest in (suc n, found n more)
  where
    found :
        (n : ℕ)
        → ((f : ℕ) → n ≤ f → recv_walk f k me q ≡ dead)
        → (f : ℕ) → suc n ≤ f
        → recv_walk f k me p ≡ dead
    found n more zero le = absurd (omega arith)
    found n more (suc f) le = elim (Bool-cases (is_me (at k p).recvfrom me)) [
      | inl hit ↦ rw (on, hit, recv_walk) refl
      | inr miss ↦ rw (on, miss, eq, recv_walk) (more f (omega arith))
    ]

recv_now-ne-dead_lock : (m : ℕ) (source : Source) (k : Kernel) → recv_now m source k ≢ dead_lock
unfolding recv_now
recv_now-ne-dead_lock m source k = go (find_sender k.ptable k.current source) refl
  where
    go :
        (r : Option ℕ) → find_sender k.ptable k.current source ≡ r → recv_now m source k ≢ dead_lock
    go none e = rw (e, recv_now) (λ h. cc)
    go (some i) e = elim (Bool-cases ((k.mem (k.ptable i).msgp).type == msg_besleep)) [
      | inl t ↦ rw (e, t, recv_now) (λ h. cc)
      | inr f ↦ rw (e, f, recv_now) (λ h. cc)
    ]

-- `recvmsg` panics only where the chain of processes that wait to receive leads from its source to the
-- caller, so that the call would have the caller wait for itself, and given enough fuel for its walk
-- it panics wherever it does.
pub recvmsg-dead_lock :
    (m : ℕ) (source : Source) (k : Kernel)
    → ((f : ℕ) → recvmsg f m source k ≡ dead_lock → RecvReaches k k.current source)
      × (RecvReaches k k.current source
          → (n : ℕ) × ((f : ℕ) → n ≤ f → recvmsg f m source k ≡ dead_lock))
unfolding recvmsg
recvmsg-dead_lock m source k = (
  λ f e. go f (recv_walk f k k.current source) refl e,
  λ loop.
      let (n, found) = RecvReaches-recv_walk loop in
      (n, λ f le. let w = found f le in rw (w, recvmsg) refl),
)
  where
    go :
        (f : ℕ) (w : Walk)
        → recv_walk f k k.current source ≡ w
        → elim w [ clear ↦ recv_now m source k | dead ↦ dead_lock | running ↦ endless ] ≡ dead_lock
        → RecvReaches k k.current source
    go f clear w d = absurd (recv_now-ne-dead_lock m source k d)
    go f running w d = cc
    go f dead w d = recv_walk-dead f k k.current source w
