-- ===== src/Fs/Pipe.antt =====
-- Pipes: `pipewrite`, `piperead` and `pipeclose` of fs/pipe.c, on the `struct pipe` of include/fs.h.
-- A pipe lives in a page of its own, at `addr`; processes sleep on the addresses of its two flags.
use jix.Base.{
  ℕ, zero, suc, ◌+◌, ◌-◌, ◌%◌, ◌^◌, Bool, false, not, ◌&&◌, Option, none, some, List, [], ◌∷◌, ◌==◌,
  if◌then◌else◌, length, update, ℤ, pos, minus_one, minus_two, to_int,
}
use jix.Mm.Pages.{kfree}
use jix.Kernel.State.{Kernel}
use jix.Kernel.Proc.{wake_up}

abbrev pub pipe_size : ℕ
pipe_size = 1024

-- `struct pipe`, less the padding `safe`.
pub record Pipe : Type 0 where
  pub head : ℕ
  pub count : ℕ
  pub readopen : Bool
  pub writeopen : Bool
  pub bytes : ℕ → ℕ

-- `&p->readopen` and `&p->writeopen`.
abbrev pub read_chan : ℕ → ℕ
read_chan addr = addr + 8

abbrev pub write_chan : ℕ → ℕ
write_chan addr = addr + 9

-- What a call leaves: its result, the pipe, the kernel with the processes that it woke, and the
-- value of `fs_sleep` if it set it.
pub record Transfer : Type 0 where
  pub result : ℤ
  pub pipe : Pipe
  pub kernel : Kernel
  pub sleep : Option ℕ

-- `p->data[(p->head + p->count++) % PIPESIZE] = x`.
unfoldable pub put_byte : ℕ → Pipe → Pipe
put_byte x p = record p {
  bytes = update p.bytes ((p.head + p.count) % 2 ^ 32 % pipe_size) x;
  count = (p.count + 1) % 2 ^ 32;
}

-- The loop of `pipewrite`, from byte `i` of the `n` on, and what follows it.
unfoldable pub write_from : ℕ → ℕ → Kernel → List ℕ → ℕ → Pipe → Transfer
write_from addr n k [] i p = record {
  result = to_int n;
  pipe = p;
  kernel = wake_up (read_chan addr) k;
  sleep = none;
}
write_from addr n k (x ∷ s) i p =
    let rest = write_from addr n k s (i + 1) (put_byte x p) in
    if p.count == pipe_size
    then (let k' = wake_up (read_chan addr) k in
        if not (i == 0)
        then record { result = to_int i; pipe = p; kernel = k'; sleep = none }
        else record { result = minus_two; pipe = p; kernel = k'; sleep = some (write_chan addr) })
    else rest

-- `pipewrite`: the list holds the `n` bytes from `s` on.
unfoldable pub pipewrite : ℕ → List ℕ → Pipe → Kernel → Transfer
pipewrite addr s p k =
    if not p.readopen
    then record { result = minus_one; pipe = p; kernel = k; sleep = none }
    else write_from addr (length s) k s 0 p

-- The end of the loop of `piperead`: at its end or by `break`, by `return 0`, or asleep.
pub data ReadStop : Type 0 where
  stopped at_end to_sleep : ReadStop

-- `p->head = (p->head + 1) % PIPESIZE; p->count--;`.
unfoldable pub drop_byte : Pipe → Pipe
drop_byte p = record p {
  head = (p.head + 1) % 2 ^ 32 % pipe_size;
  count = (p.count + 2 ^ 32 - 1) % 2 ^ 32;
}

-- The loop of `piperead`, with `n` rounds left at byte `i`: the bytes that it stores, in order.
unfoldable pub read_from : ℕ → ℕ → Pipe → ReadStop × List ℕ × Pipe
read_from zero i p = (stopped, [], p)
read_from (suc n) i p =
    let (stop, d, p') = read_from n (i + 1) (drop_byte p) in
    if p.count == 0
    then (if i == 0
        then (if not p.writeopen then (at_end, [], p) else (to_sleep, [], p))
        else (stopped, [], p))
    else (stop, p.bytes p.head ∷ d, p')

-- What `piperead` does after its loop, which stored `i` bytes.
abbrev pub after_read : ℕ → Kernel → ℕ → ReadStop → Pipe → Transfer
after_read addr k i stopped p = record {
  result = to_int i;
  pipe = p;
  kernel = wake_up (write_chan addr) k;
  sleep = none;
}
after_read addr k i at_end p = record { result = pos 0; pipe = p; kernel = k; sleep = none }
after_read addr k i to_sleep p = record {
  result = minus_two;
  pipe = p;
  kernel = k;
  sleep = some (read_chan addr);
}

-- `piperead`: the bytes that it stores at `d`, and what the call leaves.
unfoldable pub piperead : ℕ → ℕ → Pipe → Kernel → List ℕ × Transfer
piperead addr n p k =
    let (stop, d, p') = read_from n 0 p in (d, after_read addr k (length d) stop p')

-- `pipeclose`; `none` is the panic of `kfree1`.
unfoldable pub pipeclose : ℕ → Bool → Pipe → Kernel → Option (Pipe × Kernel)
pipeclose addr writable p k =
    let p' = if writable then record p { writeopen = false } else record p { readopen = false } in
    let k' = wake_up (if writable then read_chan addr else write_chan addr) k in
    if not p'.readopen && not p'.writeopen
    then elim (kfree addr k'.pages) [ none ↦ none | some g ↦ some (p', record k' { pages = g }) ]
    else some (p', k')
