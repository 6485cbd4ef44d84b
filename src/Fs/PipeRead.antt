-- ===== src/Fs/PipeRead.antt =====
-- `piperead` of fs/pipe.c as an operation on the queue of bytes, and streams of bytes through a pipe.
use jix.Base.{
  ℕ, zero, suc, ◌+◌, ◌-◌, min, ◌≡◌, refl, ap, ◌∙◌, ◌≢◌, inl, inr, true, not, ◌||◌, none, some, List,
  [], ◌∷◌, ◌++◌, arith, ◌==◌, if◌then◌else◌, Bool-cases, length, ℤ, pos, minus_two, to_int,
}
use jix.Kernel.State.{Kernel}
use jix.Kernel.Proc.{wake_up}
use jix.Fs.Pipe.{
  Pipe, read_chan, write_chan, drop_byte, read_from, piperead, after_read, ReadStop, stopped,
  at_end, to_sleep,
}
use jix.Fs.PipeFifo.{IsValid, contents, drop_byte-IsValid, contents-drop_byte}

-- After a loop with `n` rounds left at byte `i`.
pub record Read (n i : ℕ) (p : Pipe) (stop : ReadStop) (d : List ℕ) (p' : Pipe) : Type 0 where
  pub valid : IsValid p'
  pub dequeued : contents p ≡ d ++ contents p'
  pub flags : (p'.readopen ≡ p.readopen) × (p'.writeopen ≡ p.writeopen)
  pub amount : length d ≡ min n p.count
  pub stop_lem : stop ≡ (
      if (n == 0) || (not (p.count == 0) || not (i == 0))
      then stopped
      else (if p.writeopen then to_sleep else at_end))

drop_byte-flags :
    (p : Pipe) → ((drop_byte p).readopen ≡ p.readopen) × ((drop_byte p).writeopen ≡ p.writeopen)
unfolding drop_byte
drop_byte-flags p = (refl, refl)

count-drop_byte : (p : Pipe) → IsValid p → p.count ≢ 0 → (drop_byte p).count ≡ p.count - 1
unfolding drop_byte
count-drop_byte p v ne = omega arith

Read-suc :
    (n i : ℕ) (p : Pipe) (stop : ReadStop) (d : List ℕ) (p' : Pipe)
    → IsValid p
    → p.count ≢ 0
    → Read n (i + 1) (drop_byte p) stop d p'
    → Read (suc n) i p stop (p.bytes p.head ∷ d) p'
Read-suc n i p stop d p' v ne r = record {
  valid = r.valid;
  dequeued = contents-drop_byte p v ne ∙ ap (λ l. p.bytes p.head ∷ l) r.dequeued;
  flags = let (a, b) = drop_byte-flags p in (r.flags.0 ∙ a, r.flags.1 ∙ b);
  amount = omega (arith, r.amount, count-drop_byte p v ne);
  stop_lem = ground arith;
}

-- A loop that finds the pipe empty and stores nothing.
Read-nothing :
    (n i : ℕ) (p : Pipe) (stop : ReadStop)
    → IsValid p
    → (p.count == 0) ≡ true
    → stop ≡ (
        if (suc n == 0) || (not (p.count == 0) || not (i == 0))
        then stopped
        else (if p.writeopen then to_sleep else at_end))
    → Read (suc n) i p stop [] p
Read-nothing n i p stop v empty e = record {
  valid = v;
  dequeued = refl;
  flags = (refl, refl);
  amount = ground arith;
  stop_lem = e;
}

read_from-Read :
    (n i : ℕ) (p : Pipe)
    → IsValid p
    → Read n i p (read_from n i p).0 (read_from n i p).1 (read_from n i p).2
unfolding read_from
read_from-Read zero i p v = record {
  valid = v;
  dequeued = refl;
  flags = (refl, refl);
  amount = omega arith;
  stop_lem = refl;
}
read_from-Read (suc n) i p v = elim (Bool-cases (p.count == 0)) [
  | inr some_left ↦
      let ne : p.count ≢ 0 = ground arith in
      rw (some_left, read_from)
        (Read-suc n i p _ _ _ v ne
          (read_from-Read n (i + 1) (drop_byte p) (drop_byte-IsValid p v ne)))
  | inl empty ↦ elim (Bool-cases (i == 0)) [
    | inr later ↦ rw (empty, later, read_from) (Read-nothing n i p stopped v empty (ground arith))
    | inl first ↦ elim (Bool-cases p.writeopen) [
      | inl more ↦
          simp (empty, first, more, read_from) (Read-nothing n i p to_sleep v empty (ground arith))
      | inr over ↦
          simp (empty, first, over, read_from) (Read-nothing n i p at_end v empty (ground arith))
    ]
  ]
]

-- What `piperead` leaves, by the cases of an empty pipe.
abbrev pub read_result : ℕ → Pipe → List ℕ → ℤ
read_result n p d =
    if (n == 0) || not (p.count == 0)
    then to_int (length d)
    else (if p.writeopen then minus_two else pos 0)

-- `piperead` on a valid pipe takes the oldest bytes, as many as are asked for and there are, and
-- returns their number; with bytes asked for and none there, it returns 0 if the writers are gone,
-- and else puts the reader to sleep on the pipe with result -2. It leaves the pipe valid, with its
-- flags, and wakes the writers unless it found nothing.
pub piperead-Read :
    (addr n : ℕ) (p : Pipe) (k : Kernel)
    → IsValid p
    → let (d, t) = piperead addr n p k in
      IsValid t.pipe
      × (contents p ≡ d ++ contents t.pipe)
      × (length d ≡ min n p.count)
      × ((t.pipe.readopen ≡ p.readopen) × (t.pipe.writeopen ≡ p.writeopen))
      × (t.result ≡ read_result n p d)
      × (t.kernel ≡ (if (n == 0) || not (p.count == 0) then wake_up (write_chan addr) k else k))
      × (t.sleep ≡ (
          if (n == 0) || not (p.count == 0)
          then none
          else (if p.writeopen then some (read_chan addr) else none)))
unfolding piperead
piperead-Read addr n p k v =
    let r = read_from-Read n 0 p v in
    go (read_from n 0 p).0 (read_from n 0 p).1 (read_from n 0 p).2 r
  where
    go :
        (stop : ReadStop) (d : List ℕ) (p' : Pipe)
        → Read n 0 p stop d p'
        → let t = after_read addr k (length d) stop p' in
          IsValid t.pipe
          × (contents p ≡ d ++ contents t.pipe)
          × (length d ≡ min n p.count)
          × ((t.pipe.readopen ≡ p.readopen) × (t.pipe.writeopen ≡ p.writeopen))
          × (t.result ≡ read_result n p d)
          × (t.kernel ≡ (if (n == 0) || not (p.count == 0) then wake_up (write_chan addr) k else k))
          × (t.sleep ≡ (
              if (n == 0) || not (p.count == 0)
              then none
              else (if p.writeopen then some (read_chan addr) else none)))
    go stopped d p' r = (
      r.valid,
      r.dequeued,
      r.amount,
      r.flags,
      ground (arith, r.stop_lem),
      ground (arith, r.stop_lem),
      ground (arith, r.stop_lem),
    )
    go at_end d p' r = (
      r.valid,
      r.dequeued,
      r.amount,
      r.flags,
      ground (arith, r.stop_lem),
      ground (arith, r.stop_lem),
      ground (arith, r.stop_lem),
    )
    go to_sleep d p' r = (
      r.valid,
      r.dequeued,
      r.amount,
      r.flags,
      ground (arith, r.stop_lem),
      ground (arith, r.stop_lem),
      ground (arith, r.stop_lem),
    )
