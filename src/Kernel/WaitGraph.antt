-- ===== src/Kernel/WaitGraph.antt =====
-- Who waits to send to whom: the walk of `sendmsg` in kernel/msg.c keeps this free of cycles.
use jix.Base.{
  ℕ, zero, suc, ◌≤◌, ◌≡◌, refl, sym, ◌∙◌, ◌≢◌, inl, inr, true, false, arith, ◌==◌, Bool-cases,
  update, update_self, update-ne,
}
use jix.Kernel.State.{sending, in_state, Proc, Msg, Kernel, set_proc, at}
use jix.Kernel.Msg.{
  Outcome, done, blocked, yielded, dead_lock, endless, Walk, clear, dead, running, send_walk,
  released, as_sender, is_waiting_for, send_now, sendmsg,
}

abbrev pub IsSending : Proc → Type 0
IsSending p = in_state p.state sending ≡ true

abbrev pub IsIdle : Proc → Type 0
IsIdle p = in_state p.state sending ≡ false

-- From `p` the chain of processes that wait to send comes to an end.
pub data Ends (t : ℕ → Proc) : ℕ → Type 0 where
  stop : {p : ℕ} → IsIdle (t p) → Ends t p
  hop : {p q : ℕ} → IsSending (t p) → (t p).sendto ≡ q → Ends t q → Ends t p

-- No process waits, directly or through others, for itself.
abbrev pub NoCycle : (ℕ → Proc) → Type 0
NoCycle t = (p : ℕ) → Ends t p

-- The walk from `p` reached the end of the chain without meeting `me`.
data Avoids (t : ℕ → Proc) (me : ℕ) : ℕ → Type 0 where
  last : {p : ℕ} → IsIdle (t p) → Avoids t me p
  past : {p q : ℕ} → IsSending (t p) → (t p).sendto ≡ q → q ≢ me → Avoids t me q → Avoids t me p

send_walk-clear : (f : ℕ) (t : ℕ → Proc) (me p : ℕ) → send_walk f t me p ≡ clear → Avoids t me p
unfolding send_walk
send_walk-clear zero t me p e = cc
send_walk-clear (suc f) t me p e = elim (Bool-cases (in_state (t p).state sending)) [
  | inr off ↦ last off
  | inl on ↦ elim (Bool-cases ((t p).sendto == me)) [
    | inl hit ↦ let e' : dead ≡ clear = rw (on, hit, send_walk) at e in cc
    | inr miss ↦
        past on refl (ground arith)
          (send_walk-clear f t me (t p).sendto (rw (on, miss, send_walk) at e))
  ]
]

-- The walk ends: some amount of fuel is enough, and more does no harm.
send_walk_halts :
    {t : ℕ → Proc} (me : ℕ) {p : ℕ}
    → Ends t p
    → (n : ℕ) × ((f : ℕ) → n ≤ f → send_walk f t me p ≢ running)
unfolding send_walk
send_walk_halts {t} me {p} (stop off) = (1, enough)
  where
    enough : (f : ℕ) → 1 ≤ f → send_walk f t me p ≢ running
    enough zero lt = absurd (omega arith)
    enough (suc f) lt = rw (off, send_walk) (λ e. cc)
send_walk_halts {t} me {p} (hop {q} on at rest) =
    let (n, more) = send_walk_halts me rest in (suc n, enough n more)
  where
    enough :
        (n : ℕ)
        → ((f : ℕ) → n ≤ f → send_walk f t me q ≢ running)
        → (f : ℕ) → suc n ≤ f
        → send_walk f t me p ≢ running
    enough n more zero lt = absurd (omega arith)
    enough n more (suc f) lt = elim (Bool-cases ((t p).sendto == me)) [
      | inl hit ↦ rw (on, hit, send_walk) (λ e. cc)
      | inr miss ↦ rw (on, miss, send_walk) (λ e. more f (omega arith) (rw at at e))
    ]

-- Entries that stop to send only make chains shorter.
Ends-less :
    {t u : ℕ → Proc} {p : ℕ}
    → ((i : ℕ) → IsSending (u i) → IsSending (t i) × ((u i).sendto ≡ (t i).sendto))
    → Ends t p
    → Ends u p
Ends-less {t} {u} {p} less (stop off) = elim (Bool-cases (in_state (u p).state sending)) [
  | inl on ↦ stop (let (was, _) = less p on in cc)
  | inr no_more ↦ stop no_more
]
Ends-less {t} {u} {p} less (hop on at rest) = elim (Bool-cases (in_state (u p).state sending)) [
  | inl still ↦ hop still ((less p still).1 ∙ at) (Ends-less less rest)
  | inr no_more ↦ stop no_more
]

-- Entry `me`, which now waits to send to `dest`, whose chain avoids `me`.
module _ (t u : ℕ → Proc) (me dest : ℕ) where
  pub record Joined : Type 0 where
    pub others : (i : ℕ) → i ≢ me → u i ≡ t i
    pub joins : IsSending (u me) × ((u me).sendto ≡ dest)

  Ends-avoid : {p : ℕ} → Joined → p ≢ me → Avoids t me p → Ends u p
  Ends-avoid {p} j ne (last off) = stop (rw (j.others p ne) off)
  Ends-avoid {p} j ne (past on at ne' rest) =
      hop (rw (j.others p ne) on) (rw (j.others p ne) at) (Ends-avoid j ne' rest)

  Ends-joined : {p : ℕ} → Joined → dest ≢ me → Avoids t me dest → Ends t p → Ends u p
  Ends-joined {p} j ne av (stop off) = elim (Bool-cases (p == me)) [
    | inl e ↦ let e' : p ≡ me = ground arith in rw e' (hop j.joins.0 j.joins.1 (Ends-avoid j ne av))
    | inr other ↦ stop (rw (j.others p (ground arith)) off)
  ]
  Ends-joined {p} j ne av (hop on at rest) = elim (Bool-cases (p == me)) [
    | inl e ↦ let e' : p ≡ me = ground arith in rw e' (hop j.joins.0 j.joins.1 (Ends-avoid j ne av))
    | inr other ↦
        let ne' : p ≢ me = ground arith in
        hop (rw (j.others p ne') on) (rw (j.others p ne') at) (Ends-joined j ne av rest)
  ]

-- `P` holds of the kernel that a call leaves, unless it panics; the call ends.
abbrev pub Leaves : (Kernel → Type 0) → Outcome → Type 0
Leaves P (done r k) = P k
Leaves P (blocked k) = P k
Leaves P (yielded r k) = P k
Leaves P dead_lock = Unit {0}
Leaves P endless = ⊥

abbrev pub IsAcyclic : Kernel → Type 0
IsAcyclic k = NoCycle k.ptable

-- An entry that is changed to one that does not send.
NoCycle-update : (t : ℕ → Proc) (i : ℕ) (p : Proc) → IsIdle p → NoCycle t → NoCycle (update t i p)
NoCycle-update t i p off h a =
    Ends-less
      (λ j on. elim (Bool-cases (i == j)) [
        | inl e ↦
            let same : update t i p j ≡ p = rw e in let on' : IsSending p = rw same at on in cc
        | inr ne ↦ let same : update t i p j ≡ t j = rw ne in (rw same at on, rw same refl)
      ])
      (h a)

pub released-IsIdle : (m : Msg) (p : Proc) → IsIdle (released m p)
unfolding released
released-IsIdle m p = ground arith

-- The table after a call of `sendmsg` that blocks.
abbrev pub waiting : ℕ → ℕ → Kernel → Kernel
waiting m dest k = set_proc k k.current (as_sender m dest (k.ptable k.current))

pub waiting-Joined :
    (m dest : ℕ) (k : Kernel) → Joined k.ptable (waiting m dest k).ptable k.current dest
waiting-Joined m dest k =
    let me = as_sender m dest (k.ptable k.current) in
    let same : update k.ptable k.current me k.current ≡ me = update_self k.ptable k.current me in
    record {
      others = λ i ne. update-ne k.ptable k.current i me (λ e. ne (sym e));
      joins = rw same (refl, refl);
    }

send_now-NoCycle :
    (m dest : ℕ) (k : Kernel)
    → dest ≢ k.current
    → Avoids k.ptable k.current dest
    → IsAcyclic k
    → Leaves IsAcyclic (send_now m dest k)
unfolding send_now
send_now-NoCycle m dest k ne av h = elim (Bool-cases (is_waiting_for (k.ptable dest) k.current)) [
  | inl ready ↦ rw (ready, send_now) (NoCycle-update k.ptable dest _ (released-IsIdle _ _) h)
  | inr not_ready ↦
      rw (not_ready, send_now)
        (λ p.
          Ends-joined k.ptable (waiting m dest k).ptable k.current dest (waiting-Joined m dest k) ne
            av (h p))
]

-- `sendmsg` ends, given enough fuel for its walk, and it keeps the waits free of cycles; this holds
-- of a process that does not send to itself, which `sendrecv` asserts.
pub sendmsg-IsAcyclic :
    (m dest : ℕ) (k : Kernel)
    → dest ≢ k.current
    → IsAcyclic k
    → (n : ℕ) × ((f : ℕ) → n ≤ f → Leaves IsAcyclic (sendmsg f m dest k))
unfolding sendmsg
sendmsg-IsAcyclic m dest k ne h =
    let (n, enough) = send_walk_halts k.current (h dest) in
    (n, λ f le. go f (send_walk f k.ptable k.current dest) refl (enough f le))
  where
    go :
        (f : ℕ) (w : Walk)
        → send_walk f k.ptable k.current dest ≡ w
        → send_walk f k.ptable k.current dest ≢ running
        → Leaves IsAcyclic
            (elim w [ clear ↦ send_now m dest k | dead ↦ dead_lock | running ↦ endless ])
    go f clear e out = send_now-NoCycle m dest k ne (send_walk-clear f k.ptable k.current dest e) h
    go f dead e out = tt
    go f running e out = absurd (out e)
