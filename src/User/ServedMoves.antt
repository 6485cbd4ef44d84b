-- ===== src/User/ServedMoves.antt =====
-- `read`, `write` and `pipe` of lib/fs.c through the loop of fs/main.c.
use jix.Base.{
  ℕ, suc, ◌+◌, ◌≤◌, ◌<◌, ◌≡◌, refl, ap, ◌∙◌, inl, inr, true, false, Option, none, some, arith, ltb,
  ◌==◌, if◌then◌else◌, Bool-cases, ℤ, pos, negsuc, minus_one, minus_two, to_int,
}
use jix.Kernel.MsgType
use jix.Kernel.State.{Msg, msg_sysret, msg_besleep}
use jix.Fs.Serve.{FsOps, set_i1, set_pipe, is_minus_two, finish, serve}
use jix.User.FsCall
use jix.User.Transfer.{chunk, piece, read_from, write_from, read, write}

-- The message goes to the file system with the number of its sender.
abbrev pub via : {S : Type 0} → FsOps S → ℕ → Msg → S → Option (Msg × S)
via ops i m s = serve ops (record m { source = i }) s

-- What `pipe` gives for the result of `do_pipe` and its descriptors.
abbrev pub pipe_result : {S : Type 0} → ℤ × (ℕ × ℕ) × S → Option (ℤ × (ℤ × ℤ) × S)
pipe_result (pos n, (a, b), s) = some (pos n, (to_int a, to_int b), s)
pipe_result (negsuc n, (a, b), s) =
    if n == 1 then none else some (negsuc n, (to_int a, to_int b), s)

-- What `read` and `write` of one piece return for the result of an operation.
abbrev pub moved : ℤ → ℤ
moved (pos n) = to_int n
moved (negsuc n) = minus_one

module _ {S : Type 0} (ops : FsOps S) (i : ℕ) where
  pipe_answer :
      (m req : Msg) (r : ℤ × (ℕ × ℕ) × S) (s : S)
      → via ops i (record m { type = MsgType.pipe }) s
        ≡ finish ops (some (set_pipe (record req { source = i }) r))
      → FsCall.pipe (via ops i) m s ≡ pipe_result r
  unfolding FsCall.pipe
  pipe_answer m req (pos n, (a, b), s') s e = rw (e, FsCall.pipe) refl
  pipe_answer m req (negsuc n, (a, b), s') s e = elim (Bool-cases (n == 1)) [
    | inl two ↦ rw (e, FsCall.pipe, two) refl
    | inr other ↦ rw (e, FsCall.pipe, other) refl
  ]

  pub pipe_lem :
      (m : Msg) (s : S)
      → FsCall.pipe (via ops i) m s ≡ pipe_result (ops.do_pipe (m.u1, m.u2) (ops.set_current i s))
  unfolding serve
  pipe_lem m s =
      pipe_answer m (record m { type = MsgType.pipe })
        (ops.do_pipe (m.u1, m.u2) (ops.set_current i s)) s refl

  finish-sysret :
      (req : Msg) (r : ℤ) (s' : S)
      → is_minus_two ops r ≡ false
      → finish ops (some (set_i1 req (r, s'))) ≡ some (record req { i1 = r; type = msg_sysret }, s')
  finish-sysret req r s' ends = rw ends refl

  module _ (m : Msg) (s : S) (fd : ℤ) (at cnt f : ℕ) where
    read_answer :
        (req : Msg) (r : ℤ) (s' : S)
        → 0 < cnt
        → cnt ≤ chunk
        → is_minus_two ops r ≡ false
        → via ops i (record m { type = MsgType.read; i1 = fd; p1 = at + 0; u1 = piece cnt 0 }) s
          ≡ finish ops (some (set_i1 (record req { source = i }) (r, s')))
        → read_from (via ops i) fd cnt (suc (suc f)) at 0 m s ≡ some (moved r, s')
    unfolding read_from
    read_answer req (negsuc n) s' some_bytes small ends e =
        let go : ltb 0 cnt ≡ true = ground arith in
        let e' = e ∙ finish-sysret (record req { source = i }) (negsuc n) s' ends in
        rw (go, e', read_from) refl
    read_answer req (pos n) s' some_bytes small ends e =
        let go : ltb 0 cnt ≡ true = ground arith in
        elim (Bool-cases (ltb n (piece cnt 0))) [
          | inl short ↦
              let plain : 0 + n ≡ n = omega arith in
              rw (go, e, short, read_from) (ap (λ k. some (to_int k, s')) plain)
          | inr full ↦
              let done : ltb (0 + n) cnt ≡ false = ground arith in
              let plain : 0 + n ≡ n = omega arith in
              rw (go, e, full, done, read_from) (ap (λ k. some (to_int k, s')) plain)
        ]

    -- A call of one piece on which the operation does not answer -2.
    pub read_lem :
        (r : ℤ) (s' : S)
        → 0 < cnt
        → cnt ≤ chunk
        → ops.do_read fd (at + 0) (piece cnt 0) (ops.set_current i s) ≡ (r, s')
        → is_minus_two ops r ≡ false
        → read (via ops i) fd cnt (suc (suc f)) at m s ≡ some (moved r, s')
    unfolding read serve
    read_lem r s' some_bytes small done ends =
        let req : Msg = record m { type = MsgType.read; i1 = fd; p1 = at + 0; u1 = piece cnt 0 } in
        read_answer req r s' some_bytes small ends
          (ap (λ x. finish ops (some (set_i1 (record req { source = i }) x))) done)

    read_again :
        (req : Msg) (s' : S)
        → 0 < cnt
        → via ops i (record m { type = MsgType.read; i1 = fd; p1 = at + 0; u1 = piece cnt 0 }) s
          ≡ finish ops (some (set_i1 (record req { source = i }) (minus_two, s')))
        → (m' : Msg) × (read_from (via ops i) fd cnt (suc f) at 0 m s
            ≡ read_from (via ops i) fd cnt f at 0 m' s')
    unfolding read_from
    read_again req s' some_bytes e =
        let go : ltb 0 cnt ≡ true = ground arith in
        let a : Msg = record req {
          source = i;
          i1 = minus_two;
          type = msg_besleep;
          p1 = ops.sleep_on s';
        } in
        (a, rw (go, e, read_from) refl)

    -- On -2 it asks once more.
    pub read_waits :
        (s' : S)
        → 0 < cnt
        → ops.do_read fd (at + 0) (piece cnt 0) (ops.set_current i s) ≡ (minus_two, s')
        → (m' : Msg) × (read (via ops i) fd cnt (suc f) at m s ≡ read (via ops i) fd cnt f at m' s')
    unfolding read serve
    read_waits s' some_bytes done =
        let req : Msg = record m { type = MsgType.read; i1 = fd; p1 = at + 0; u1 = piece cnt 0 } in
        read_again req s' some_bytes
          (ap (λ x. finish ops (some (set_i1 (record req { source = i }) x))) done)

    write_answer :
        (req : Msg) (r : ℤ) (s' : S)
        → 0 < cnt
        → cnt ≤ chunk
        → is_minus_two ops r ≡ false
        → via ops i (record m { type = MsgType.write; i1 = fd; p1 = at; u1 = piece cnt 0 }) s
          ≡ finish ops (some (set_i1 (record req { source = i }) (r, s')))
        → write_from (via ops i) fd cnt (suc (suc f)) at 0 m s ≡ some (moved r, s')
    unfolding write_from
    write_answer req (negsuc n) s' some_bytes small ends e =
        let go : ltb 0 cnt ≡ true = ground arith in
        let e' = e ∙ finish-sysret (record req { source = i }) (negsuc n) s' ends in
        rw (go, e', write_from) refl
    write_answer req (pos n) s' some_bytes small ends e =
        let go : ltb 0 cnt ≡ true = ground arith in
        elim (Bool-cases (ltb n (piece cnt 0))) [
          | inl short ↦
              let plain : 0 + n ≡ n = omega arith in
              rw (go, e, short, write_from) (ap (λ k. some (to_int k, s')) plain)
          | inr full ↦
              let done : ltb (0 + n) cnt ≡ false = ground arith in
              let plain : 0 + n ≡ n = omega arith in
              rw (go, e, full, done, write_from) (ap (λ k. some (to_int k, s')) plain)
        ]

    -- A call of one piece on which the operation does not answer -2.
    pub write_lem :
        (r : ℤ) (s' : S)
        → 0 < cnt
        → cnt ≤ chunk
        → ops.do_write fd at (piece cnt 0) (ops.set_current i s) ≡ (r, s')
        → is_minus_two ops r ≡ false
        → write (via ops i) fd cnt (suc (suc f)) at m s ≡ some (moved r, s')
    unfolding write serve
    write_lem r s' some_bytes small done ends =
        let req : Msg = record m { type = MsgType.write; i1 = fd; p1 = at; u1 = piece cnt 0 } in
        write_answer req r s' some_bytes small ends
          (ap (λ x. finish ops (some (set_i1 (record req { source = i }) x))) done)

    write_again :
        (req : Msg) (s' : S)
        → 0 < cnt
        → via ops i (record m { type = MsgType.write; i1 = fd; p1 = at; u1 = piece cnt 0 }) s
          ≡ finish ops (some (set_i1 (record req { source = i }) (minus_two, s')))
        → (m' : Msg) × (write_from (via ops i) fd cnt (suc f) at 0 m s
            ≡ write_from (via ops i) fd cnt f at 0 m' s')
    unfolding write_from
    write_again req s' some_bytes e =
        let go : ltb 0 cnt ≡ true = ground arith in
        let a : Msg = record req {
          source = i;
          i1 = minus_two;
          type = msg_besleep;
          p1 = ops.sleep_on s';
        } in
        (a, rw (go, e, write_from) refl)

    -- On -2 it asks once more.
    pub write_waits :
        (s' : S)
        → 0 < cnt
        → ops.do_write fd at (piece cnt 0) (ops.set_current i s) ≡ (minus_two, s')
        → (m' : Msg) × (write (via ops i) fd cnt (suc f) at m s
            ≡ write (via ops i) fd cnt f at m' s')
    unfolding write serve
    write_waits s' some_bytes done =
        let req : Msg = record m { type = MsgType.write; i1 = fd; p1 = at; u1 = piece cnt 0 } in
        write_again req s' some_bytes
          (ap (λ x. finish ops (some (set_i1 (record req { source = i }) x))) done)
