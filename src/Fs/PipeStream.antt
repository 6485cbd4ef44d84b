-- ===== src/Fs/PipeStream.antt =====
-- Any sequence of `pipewrite` and `piperead` on one pipe: fs/pipe.c delivers the bytes that it
-- accepts, in order, each once.
use jix.Base.{
  ℕ, ◌+◌, ◌-◌, ◌^◌, ◌≤◌, ◌<◌, ◌≡◌, refl, sym, ap, ◌∙◌, subst, inl, inr, true, List, [], ◌∷◌, ◌++◌,
  arith, ltb, leb, ◌==◌, if◌then◌else◌, Bool-cases, length, take, take_all, ℤ, pos, negsuc,
  minus_two, to_int, append_assoc, append-nil,
}
use jix.Kernel.State.{Kernel}
use jix.Fs.Pipe.{Pipe, Transfer, pipe_size, pipewrite, piperead}
use jix.Fs.PipeFifo.{IsValid, contents}
use jix.Fs.PipeWrite.{pipewrite-Written, pipewrite-closed}
use jix.Fs.PipeRead.{piperead-Read}

-- A call that some process makes: to write these bytes, or to read so many.
pub data Call : Type 0 where
  write : List ℕ → Call
  read : ℕ → Call

-- The bytes of `s` that a result says were taken.
abbrev pub accepted : ℤ → List ℕ → List ℕ
accepted (pos r) s = take r s
accepted (negsuc r) s = []

-- The calls in order: the bytes accepted, the bytes delivered, and the pipe and kernel at the end.
unfoldable pub run : ℕ → List Call → Pipe → Kernel → List ℕ × List ℕ × Pipe
run addr [] p k = ([], [], p)
run addr (write s ∷ cs) p k =
    let t = pipewrite addr s p k in
    let (sent, got, p') = run addr cs t.pipe t.kernel in (accepted t.result s ++ sent, got, p')
run addr (read n ∷ cs) p k =
    let (d, t) = piperead addr n p k in
    let (sent, got, p') = run addr cs t.pipe t.kernel in (sent, d ++ got, p')

-- The writes are of fewer than 2^31 bytes each, so that their number is a valid `int`.
abbrev pub AreShort : List Call → Type 0
AreShort [] = Unit {0}
AreShort (write s ∷ cs) = (length s < 2 ^ 31) × AreShort cs
AreShort (read n ∷ cs) = AreShort cs

to_int-small : (n : ℕ) → n < 2 ^ 31 → to_int n ≡ pos n
to_int-small n lt = let e : ltb n (2 ^ 31) ≡ true = ground arith in rw e

accepted-take :
    (n room : ℕ) (s : List ℕ)
    → length s ≡ n
    → n < 2 ^ 31
    → room ≤ pipe_size
    → accepted
        (if leb (length s) room
          then to_int n
          else (if 0 + room == 0 then minus_two else to_int (0 + room)))
        s
      ≡ take room s
accepted-take n room s e short small = elim (Bool-cases (leb (length s) room)) [
  | inl all ↦
      rw (all, to_int-small n short)
        (take_all n s (ground arith) ∙ sym (take_all room s (ground arith)))
  | inr part ↦ elim (Bool-cases (0 + room == 0)) [
    | inl full ↦
        let no_room : room ≡ 0 = ground arith in rw (part, full) (ap (λ r. take r s) (sym no_room))
    | inr some_fit ↦
        let same : 0 + room ≡ room = omega arith in
        rw (part, some_fit, to_int-small (0 + room) (omega arith)) (ap (λ r. take r s) same)
  ]
]

write_lem :
    (addr : ℕ) (s : List ℕ) (p : Pipe) (k : Kernel)
    → IsValid p
    → length s < 2 ^ 31
    → let t = pipewrite addr s p k in
      IsValid t.pipe × (contents t.pipe ≡ contents p ++ accepted t.result s)
write_lem addr s p k v short = elim (Bool-cases p.readopen) [
  | inl open_end ↦
      let w = pipewrite-Written addr s p k v open_end in
      let got =
        ap (λ r. accepted r s) w.result
        ∙ accepted-take (length s) (pipe_size - p.count) s refl short (omega arith) in
      (w.valid, w.queued ∙ ap (λ l. contents p ++ l) (sym got))
  | inr closed ↦
      let e = pipewrite-closed addr s p k closed in
      subst
        (λ (t : Transfer). IsValid t.pipe × (contents t.pipe ≡ contents p ++ accepted t.result s))
        (sym e) (v, sym (append-nil (contents p)))
]

-- Over any sequence of calls on a valid pipe, what it held and the bytes that its writes accepted
-- are, in order, the bytes that its reads delivered and what it holds at the end; none is lost,
-- doubled or reordered, whether the calls sleep, fail or succeed in part. Each write is of fewer
-- than 2^31 bytes.
pub run_fifo :
    (addr : ℕ) (cs : List Call) (p : Pipe) (k : Kernel)
    → IsValid p
    → AreShort cs
    → let (sent, got, p') = run addr cs p k in
      IsValid p' × (contents p ++ sent ≡ got ++ contents p')
unfolding run
run_fifo addr [] p k v short = (v, append-nil (contents p))
run_fifo addr (write s ∷ cs) p k v (now, later) =
    let t = pipewrite addr s p k in
    let (v', e) = write_lem addr s p k v now in
    let (v'', e') = run_fifo addr cs t.pipe t.kernel v' later in
    (
      v'',
      sym (append_assoc (contents p) (accepted t.result s) (run addr cs t.pipe t.kernel).0)
          ∙ ap (λ l. l ++ (run addr cs t.pipe t.kernel).0) (sym e)
          ∙ e',
    )
run_fifo addr (read n ∷ cs) p k v short =
    let d = (piperead addr n p k).0 in
    let t = (piperead addr n p k).1 in
    let h = piperead-Read addr n p k v in
    let (v'', e') = run_fifo addr cs t.pipe t.kernel h.0 short in
    let r = run addr cs t.pipe t.kernel in
    (
      v'',
      ap (λ l. l ++ r.0) h.1
          ∙ append_assoc d (contents t.pipe) r.0
          ∙ ap (λ l. d ++ l) e'
          ∙ sym (append_assoc d r.1 (contents r.2)),
    )
