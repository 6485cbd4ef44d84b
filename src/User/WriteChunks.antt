-- ===== src/User/WriteChunks.antt =====
-- What `write` of lib/fs.c sends when a buffer is longer than one piece.
use jix.Base.{
  ℕ, zero, suc, ◌+◌, ◌*◌, ◌≤◌, ◌<◌, ◌≡◌, ap, ◌∙◌, subst, true, false, Option, some, List, [], ◌∷◌,
  ◌++◌, arith, ltb, ℤ, pos, to_int, append_assoc,
}
use jix.Kernel.MsgType
use jix.Kernel.State.{Msg, msg_sysret}
use jix.User.Transfer.{chunk, piece, write_from, write}

-- The `n` bytes of memory from `p` on.
abbrev pub bytes : (ℕ → ℕ) → ℕ → ℕ → List ℕ
bytes mem p zero = []
bytes mem p (suc n) = mem p ∷ bytes mem (p + 1) n

-- The answer of a file at the other end that takes all bytes of a request.
abbrev pub taken : Msg → Msg
taken m = record m { type = msg_sysret; i1 = pos m.u1 }

-- Such a file, with all bytes that it has got.
unfoldable pub sink : (ℕ → ℕ) → Msg → List ℕ → Option (Msg × List ℕ)
sink mem m log = some (taken m, log ++ bytes mem m.p1 m.u1)

-- What the loop sends with `q` full pieces and `r` bytes to come: the start of the buffer each time.
abbrev pub sent : (ℕ → ℕ) → ℕ → ℕ → ℕ → List ℕ
sent mem src zero r = bytes mem src r
sent mem src (suc q) r = bytes mem src chunk ++ sent mem src q r

module _ (mem : ℕ → ℕ) (fd : ℤ) (cnt src : ℕ) where
  abbrev request : ℕ → Msg → Msg
  request u m = record m { type = MsgType.write; i1 = fd; p1 = src; u1 = u }

  -- A round that sends all that it can.
  piece_round :
      (f n : ℕ) (m : Msg) (log : List ℕ)
      → n < cnt
      → write_from (sink mem) fd cnt (suc f) src n m log
        ≡ write_from
            (sink mem)
            fd
            cnt
            f
            src
            (n + piece cnt n)
            (taken (request (piece cnt n) m))
            (log ++ bytes mem src (piece cnt n))
  unfolding write_from sink
  piece_round f n m log lt =
      let more : ltb n cnt ≡ true = ground arith in
      let all : ltb (piece cnt n) (piece cnt n) ≡ false = ground arith in rw (more, all, write_from)

  -- Such a round with `u` bytes to send.
  write_round :
      (f n u : ℕ) (m : Msg) (log : List ℕ)
      → n < cnt
      → piece cnt n ≡ u
      → write_from (sink mem) fd cnt (suc f) src n m log
        ≡ write_from (sink mem) fd cnt f src (n + u) (taken (request u m)) (log ++ bytes mem src u)
  write_round f n u m log lt e =
      subst
        (λ v.
          write_from (sink mem) fd cnt (suc f) src n m log
          ≡ write_from (sink mem) fd cnt f src (n + v) (taken (request v m))
              (log ++ bytes mem src v))
        e (piece_round f n m log lt)

  write_stop :
      (f n : ℕ) (m : Msg) (log : List ℕ)
      → n ≡ cnt
      → write_from (sink mem) fd cnt (suc f) src n m log ≡ some (to_int cnt, log)
  unfolding write_from
  write_stop f n m log e = let done : ltb n cnt ≡ false = ground arith in rw (done, write_from, e)

  write_from-sent :
      (q r f n : ℕ) (m : Msg) (log : List ℕ)
      → 0 < r
      → r ≤ chunk
      → n + (q * chunk + r) ≡ cnt
      → q + 1 < f
      → write_from (sink mem) fd cnt f src n m log ≡ some (to_int cnt, log ++ sent mem src q r)
  write_from-sent q r zero n m log lo hi e fuel = absurd (omega arith)
  write_from-sent q r (suc zero) n m log lo hi e fuel = absurd (omega arith)
  write_from-sent zero r (suc (suc f)) n m log lo hi e fuel =
      write_round (suc f) n r m log (omega arith) (ground arith)
      ∙ write_stop f (n + r) (taken (request r m)) (log ++ bytes mem src r) (omega arith)
  write_from-sent (suc q) r (suc (suc f)) n m log lo hi e fuel =
      write_round (suc f) n chunk m log (omega arith) (ground arith)
      ∙ write_from-sent q r (suc f) (n + chunk) (taken (request chunk m))
          (log ++ bytes mem src chunk) lo hi (omega arith) (omega arith)
      ∙ ap (λ l. some (to_int cnt, l)) (append_assoc log (bytes mem src chunk) (sent mem src q r))

  -- `write` of `q` full pieces of 1024 bytes and `r` more, where `0 < r ≤ 1024`, to a file that takes
  -- every byte: it ends within `q + 2` rounds and returns the count, but what the file gets is the first 1024 bytes of the
  -- buffer `q` times over, and then its first `r` bytes.
  pub write-sent :
      (q r f : ℕ) (m : Msg)
      → 0 < r
      → r ≤ chunk
      → q * chunk + r ≡ cnt
      → q + 1 < f
      → write (sink mem) fd cnt f src m [] ≡ some (to_int cnt, sent mem src q r)
  unfolding write
  write-sent q r f m lo hi e fuel = write_from-sent q r f 0 m [] lo hi (omega arith) fuel
