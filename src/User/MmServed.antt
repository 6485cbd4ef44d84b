-- ===== src/User/MmServed.antt =====
-- The system calls of lib/mm.c end up in the operations that the loop of mm/main.c calls for them.
use jix.Base.{
  ℕ, suc, ◌+◌, ◌-◌, ◌≡◌, refl, ap, ◌∙◌, inl, inr, true, false, Option, none, some, ◌==◌,
  if◌then◌else◌, Bool-cases, ℤ, pos, negsuc, to_int,
}
use jix.Kernel.MsgType
use jix.Kernel.State.{Msg}
use jix.Mm.Serve.{MmOps, serve, answer_i1, answer_wait, answer_exec, is_zero, is_minus_two}
use jix.User.FsCall.{call}
use jix.User.MmCall.{exec_packed, fork, sbrk, wait}
use jix.User.CallServed.{unless_sleep}

abbrev pub sent_back : {S : Type 0} → Option Msg × S → Option (Msg × S)
sent_back (none, s) = none
sent_back (some m, s) = some (m, s)

-- The message goes to the memory manager with the number of its sender.
abbrev pub via : {S : Type 0} → MmOps S → ℕ → Msg → S → Option (Msg × S)
via ops i m s = sent_back (serve ops (record m { source = i }) s)

-- An `exec` returns only where it failed.
abbrev pub unless_done : {S : Type 0} → ℤ × S → Option (ℤ × S)
unless_done (r, s) = if is_zero r then none else unless_sleep (r, s)

module _ {S : Type 0} (ops : MmOps S) (i : ℕ) (m : Msg) (s : S) where
  answer_lem :
      (req : Msg) (r : ℤ × S)
      → via ops i req s ≡ sent_back (answer_i1 ops (record req { source = i }) r)
      → call (via ops i) m req s ≡ unless_sleep r
  answer_lem req (pos n, s') e = rw e refl
  answer_lem req (negsuc n, s') e = elim (Bool-cases (n == 1)) [
    | inl two ↦ rw (e, two) refl
    | inr other ↦ rw (e, other) refl
  ]

  exec_lem :
      (req : Msg) (r : ℤ × S)
      → via ops i req s ≡ sent_back (answer_exec ops (record req { source = i }) r)
      → call (via ops i) m req s ≡ unless_done r
  exec_lem req (pos n, s') e = elim (Bool-cases (n == 0)) [
    | inl ok ↦ rw (e, ok) refl
    | inr bad ↦ rw (e, bad) refl
  ]
  exec_lem req (negsuc n, s') e = elim (Bool-cases (n == 1)) [
    | inl two ↦ rw (e, two) refl
    | inr other ↦ rw (e, other) refl
  ]

  fork_lem : fork (via ops i) m s ≡ unless_sleep (ops.do_fork (ops.set_current i s))
  unfolding fork serve
  fork_lem = answer_lem (record m { type = MsgType.fork }) (ops.do_fork (ops.set_current i s)) refl

  sbrk_lem : (n : ℕ) → sbrk (via ops i) m n s ≡ unless_sleep (ops.do_sbrk n (ops.set_current i s))
  unfolding sbrk serve
  sbrk_lem n =
      answer_lem (record m { type = MsgType.sbrk; u1 = n }) (ops.do_sbrk n (ops.set_current i s))
        refl

  exec_packed_lem :
      (path buf p : ℕ)
      → exec_packed (via ops i) m path buf p s
        ≡ unless_done (ops.do_exec path buf (ops.set_current i s))
  unfolding exec_packed serve
  exec_packed_lem path buf p =
      exec_lem (record m { p1 = path; p2 = buf; i1 = to_int (p - buf + 1); type = MsgType.exec })
        (ops.do_exec path buf (ops.set_current i s)) refl

  -- The status that a `wait` reports: the word sent, unless `do_wait` stored one.
  abbrev pub status : ℤ → Option ℤ → ℤ
  status nohang none = nohang
  status nohang (some st) = st

  -- `wait`, in a round on whose message `serve` answers with the result `r` of `do_wait`.
  wait_answer :
      (f : ℕ) (nohang : ℤ) (r : ℤ) (o : Option ℤ) (s' : S)
      → is_minus_two r ≡ false
      → via ops i (record m { type = MsgType.wait; i2 = nohang }) s
        ≡ sent_back
            (answer_wait ops (record m { type = MsgType.wait; i2 = nohang; source = i }) (r, o, s'))
      → wait (via ops i) (suc f) m nohang s ≡ some (r, status nohang o, s')
  unfolding wait
  wait_answer f nohang r none s' ends e = rw (e, ends, wait) refl
  wait_answer f nohang r (some st) s' ends e = rw (e, ends, wait) refl

  -- `wait` of lib/mm.c, on which `do_wait` gives a result other than -2: it returns that result after
  -- one round, with the status that `do_wait` stored, or with its argument if it stored none.
  pub wait_lem :
      (f : ℕ) (nohang : ℤ) (r : ℤ) (o : Option ℤ) (s' : S)
      → ops.do_wait nohang (ops.set_current i s) ≡ (r, o, s')
      → is_minus_two r ≡ false
      → wait (via ops i) (suc f) m nohang s ≡ some (r, status nohang o, s')
  unfolding serve
  wait_lem f nohang r o s' done ends = wait_answer f nohang r o s' ends (
      ap
        (λ x.
          sent_back (answer_wait ops (record m { type = MsgType.wait; i2 = nohang; source = i }) x))
        done)

  unless_done-some :
      (r : ℤ) (s' : S)
      → is_zero r ≡ false
      → is_minus_two r ≡ false
      → unless_done (r, s') ≡ some (r, s')
  unless_done-some (pos n) s' fails ends = rw fails refl
  unless_done-some (negsuc n) s' fails ends = rw ends refl

  unless_done-none : (r : ℤ) (s' : S) → is_minus_two r ≡ true → unless_done (r, s') ≡ none
  unless_done-none (pos n) s' sleeps = cc
  unless_done-none (negsuc n) s' sleeps = rw sleeps refl

  -- The end of `exec`, on which `do_exec` gives the result `r`: 0 gets no answer, -2 fails the
  -- assertion, and any other result is returned.
  abbrev pub ExecServed : ℕ → ℕ → ℕ → ℤ → S → Type 0
  ExecServed path buf p r s' =
      (is_zero r ≡ true
        → via ops i
            (record m { type = MsgType.exec; p1 = path; p2 = buf; i1 = to_int (p - buf + 1) }) s
          ≡ none)
      × (is_zero r ≡ false
          → is_minus_two r ≡ false
          → exec_packed (via ops i) m path buf p s ≡ some (r, s'))
      × (is_minus_two r ≡ true → exec_packed (via ops i) m path buf p s ≡ none)

  exec_served :
      (path buf p : ℕ) (r : ℤ) (s' : S)
      → ops.do_exec path buf (ops.set_current i s) ≡ (r, s')
      → ExecServed path buf p r s'
  unfolding serve
  exec_served path buf p r s' done =
      let req : Msg = record m {
        type = MsgType.exec;
        p1 = path;
        p2 = buf;
        i1 = to_int (p - buf + 1);
        source = i;
      } in
      let result = exec_packed_lem path buf p ∙ ap unless_done done in
      (
        λ ok. ap (λ x. sent_back (answer_exec ops req x)) done ∙ rw ok refl,
        λ fails ends. result ∙ unless_done-some r s' fails ends,
        λ sleeps. result ∙ unless_done-none r s' sleeps,
      )

  -- `fork`, `sbrk`, `wait` and the end of `exec` of lib/mm.c, made by process `i` through a message that
  -- `task_mm` serves, come to `do_fork`, `do_sbrk`, `do_wait` and `do_exec`, run for process `i` on the
  -- arguments of the call. `fork` and `sbrk` return the result, and fail their assertion on -2. `wait`
  -- returns a result other than -2 with the status that was stored, or with its argument if none was.
  -- The end of `exec`, once the strings are packed, gets no answer to a request that succeeds, returns
  -- the result of one that fails, and fails its assertion on -2.
  pub mm_calls_served :
      (fork (via ops i) m s ≡ unless_sleep (ops.do_fork (ops.set_current i s)))
      × ((n : ℕ) → sbrk (via ops i) m n s ≡ unless_sleep (ops.do_sbrk n (ops.set_current i s)))
      × ((f : ℕ) (nohang : ℤ) (r : ℤ) (o : Option ℤ) (s' : S)
          → ops.do_wait nohang (ops.set_current i s) ≡ (r, o, s')
          → is_minus_two r ≡ false
          → wait (via ops i) (suc f) m nohang s ≡ some (r, status nohang o, s'))
      × ((path buf p : ℕ) (r : ℤ) (s' : S)
          → ops.do_exec path buf (ops.set_current i s) ≡ (r, s')
          → ExecServed path buf p r s')
  mm_calls_served = (fork_lem, sbrk_lem, wait_lem, exec_served)
