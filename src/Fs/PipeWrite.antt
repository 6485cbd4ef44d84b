-- ===== src/Fs/PipeWrite.antt =====
-- `pipewrite` of fs/pipe.c as an operation on the queue of bytes.
use jix.Base.{
  ℕ, zero, suc, ◌+◌, ◌-◌, ◌≡◌, refl, sym, ap, ◌∙◌, ◌≢◌, inl, inr, true, false, none, some, List, [],
  ◌∷◌, ◌++◌, arith, leb, ◌==◌, if◌then◌else◌, Bool-cases, length, take, take-nil, minus_one,
  minus_two, to_int, append_assoc, append-nil,
}
use jix.Kernel.State.{Kernel}
use jix.Kernel.Proc.{wake_up}
use jix.Fs.Pipe.{Pipe, Transfer, pipe_size, read_chan, write_chan, put_byte, write_from, pipewrite}
use jix.Fs.PipeFifo.{IsValid, contents, put_byte-IsValid, contents-put_byte}

-- After a call that had `i` bytes behind it and the bytes `s` before it, with `room` bytes free.
pub record Written (addr n i room : ℕ) (s : List ℕ) (p : Pipe) (k : Kernel) (t : Transfer)
    : Type 0 where
  pub valid : IsValid t.pipe
  pub queued : contents t.pipe ≡ contents p ++ take room s
  pub flags : (t.pipe.readopen ≡ p.readopen) × (t.pipe.writeopen ≡ p.writeopen)
  pub woken : t.kernel ≡ wake_up (read_chan addr) k
  pub result : t.result ≡ (
      if leb (length s) room
      then to_int n
      else (if i + room == 0 then minus_two else to_int (i + room)))
  pub sleep : t.sleep ≡ (
      if leb (length s) room
      then none
      else (if i + room == 0 then some (write_chan addr) else none))

put_byte-flags :
    (x : ℕ) (p : Pipe)
    → ((put_byte x p).readopen ≡ p.readopen) × ((put_byte x p).writeopen ≡ p.writeopen)
unfolding put_byte
put_byte-flags x p = (refl, refl)

count-put_byte :
    (x : ℕ) (p : Pipe) → IsValid p → p.count ≢ pipe_size → (put_byte x p).count ≡ p.count + 1
unfolding put_byte
count-put_byte x p v room = omega arith

Written-suc :
    (addr n i room x : ℕ) (s : List ℕ) (p : Pipe) (k : Kernel) (t : Transfer)
    → IsValid p
    → p.count ≢ pipe_size
    → Written addr n (i + 1) room s (put_byte x p) k t
    → Written addr n i (suc room) (x ∷ s) p k t
Written-suc addr n i room x s p k t v free w =
    let e : i + suc room ≡ i + 1 + room = omega arith in
    let le : leb (suc (length s)) (suc room) ≡ leb (length s) room = ground arith in
    record {
      valid = w.valid;
      queued =
          w.queued
          ∙ ap (λ l. l ++ take room s) (contents-put_byte x p v free)
          ∙ append_assoc (contents p) (x ∷ []) (take room s);
      flags = let (a, b) = put_byte-flags x p in (w.flags.0 ∙ a, w.flags.1 ∙ b);
      woken = w.woken;
      result = rw (e, le) w.result;
      sleep = rw (e, le) w.sleep;
    }

module _ (addr n : ℕ) (k : Kernel) where
  write_from-Written :
      (s : List ℕ) (i room : ℕ) (p : Pipe)
      → IsValid p
      → p.count + room ≡ pipe_size
      → Written addr n i room s p k (write_from addr n k s i p)
  unfolding write_from
  write_from-Written [] i room p v e = record {
    valid = v;
    queued = rw (take-nil {A = ℕ} room) (sym (append-nil (contents p)));
    flags = (refl, refl);
    woken = refl;
    result = ground arith;
    sleep = ground arith;
  }
  write_from-Written (x ∷ s) i zero p v e =
      let full : (p.count == pipe_size) ≡ true = ground arith in
      elim (Bool-cases (i == 0)) [
        | inl first ↦
            rw (full, first, write_from)
              (record {
                valid = v;
                queued = sym (append-nil (contents p));
                flags = (refl, refl);
                woken = refl;
                result = ground arith;
                sleep = ground arith;
              })
        | inr later ↦
            rw (full, later, write_from)
              (record {
                valid = v;
                queued = sym (append-nil (contents p));
                flags = (refl, refl);
                woken = refl;
                result = ground arith;
                sleep = ground arith;
              })
      ]
  write_from-Written (x ∷ s) i (suc room) p v e =
      let free : p.count ≢ pipe_size = omega arith in
      let not_full : (p.count == pipe_size) ≡ false = ground arith in
      rw (not_full, write_from)
        (Written-suc addr n i room x s p k _ v free (
          write_from-Written s (i + 1) room (put_byte x p) (put_byte-IsValid x p v free)
            (omega (arith, count-put_byte x p v free))))

-- `pipewrite` on a valid pipe with a reader: if all bytes fit, they are
-- queued and their number is returned; if some fit, those are queued and their number is returned;
-- if none fits, the pipe stays and the writer is put to sleep on it with result -2. In each case
-- the readers are woken, and the pipe stays valid with its flags.
pub pipewrite-Written :
    (addr : ℕ) (s : List ℕ) (p : Pipe) (k : Kernel)
    → IsValid p
    → p.readopen ≡ true
    → Written addr (length s) 0 (pipe_size - p.count) s p k (pipewrite addr s p k)
unfolding pipewrite
pipewrite-Written addr s p k v open_end =
    simp (open_end, pipewrite)
      (write_from-Written addr (length s) k s 0 (pipe_size - p.count) p v
        (omega (arith, v.count_in)))

-- `pipewrite` on a pipe with no reader is an error and changes nothing.
pub pipewrite-closed :
    (addr : ℕ) (s : List ℕ) (p : Pipe) (k : Kernel)
    → p.readopen ≡ false
    → pipewrite addr s p k ≡ record { result = minus_one; pipe = p; kernel = k; sleep = none }
unfolding pipewrite
pipewrite-closed addr s p k closed = rw (closed, pipewrite)
