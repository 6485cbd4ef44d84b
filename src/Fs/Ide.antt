-- ===== src/Fs/Ide.antt =====
-- The queue of requests to the disk: `idestart`, `ideintr` and `iderw` of fs/ide.c. A buffer is its
-- index in the cache; `idewait` and the ports are left out, and so is the call
-- that wakes the caller; whether the caller goes to sleep is a result.
use jix.Base.{
  ℕ, zero, suc, Bool, true, false, not, ◌&&◌, Option, none, some, ◌==◌, if◌then◌else◌, update,
}
use jix.Fs.Block.{Disk, set_block}
use jix.Fs.Cache.{Buf, is_there}

-- `idequeue`, `qnext` of the buffers, the buffers, the disks, and the request that the controller
-- works on.
pub record Ide : Type 0 where
  pub idequeue : Option ℕ
  pub qnext : ℕ → Option ℕ
  pub buf : ℕ → Buf
  pub disk : Disk
  pub started : Option ℕ

abbrev pub dev_of : Buf → ℕ
dev_of x = elim x.dev [ none ↦ 0 | some d ↦ d ]

-- `idestart`: a write takes its data at once.
unfoldable pub idestart : ℕ → Ide → Ide
idestart b s =
    let x = s.buf b in
    record s {
      started = some b;
      disk = if x.dirty then set_block s.disk (dev_of x) x.sector x.bytes else s.disk;
    }

abbrev pub set_qnext : ℕ → Option ℕ → Ide → Ide
set_qnext b v s = record s { qnext = update s.qnext b v }

-- `for (pp = &idequeue; *pp; pp = &(*pp)->qnext)`, with fuel, from buffer `b` on: the last buffer.
unfoldable pub last_from : ℕ → ℕ → Ide → ℕ
last_from zero b s = b
last_from (suc f) b s = elim (s.qnext b) [ none ↦ b | some x ↦ last_from f x s ]

-- `*pp = b`, from the pointer `idequeue` on.
abbrev pub append_at : ℕ → ℕ → Ide → Option ℕ → Ide
append_at f b s none = record s { idequeue = some b }
append_at f b s (some x) = set_qnext (last_from f x s) (some b) s

abbrev pub is_first : ℕ → Option ℕ → Bool
is_first b none = false
is_first b (some x) = x == b

-- `if (idequeue == b) idestart(b);`.
abbrev pub start_if_first : ℕ → Ide → Ide
start_if_first b s = if is_first b s.idequeue then idestart b s else s

-- The end of `iderw`: whether it goes to sleep on the buffer, when no interrupt comes in between.
abbrev pub queued : ℕ → Ide → Bool × Ide
queued b s = (is_first b s.idequeue, s)

-- `iderw` with `nr_hd` disks, with fuel for its walk: whether it goes to sleep, and the state then;
-- `none` is the panic.
unfoldable pub iderw : ℕ → ℕ → ℕ → Ide → Option (Bool × Ide)
iderw nr_hd f b s =
    if (s.buf b).valid && not (s.buf b).dirty
    then some (false, s)
    else if is_there nr_hd (s.buf b).dev
    then some (queued b (start_if_first b (append_at f b (set_qnext b none s) s.idequeue)))
    else none

-- What the interrupt leaves of the buffer whose request is over.
abbrev pub finished : Buf → Disk → Buf
finished x d =
    if x.dirty
    then record x { valid = true; dirty = false }
    else record x { valid = true; bytes = d (dev_of x) x.sector }

abbrev pub start_next : Option ℕ → Ide → Ide
start_next none s = record s { started = none }
start_next (some x) s = idestart x s

-- The first request `b` taken off the queue.
abbrev pub popped : ℕ → Ide → Ide
popped b s = record s { idequeue = s.qnext b; buf = update s.buf b (finished (s.buf b) s.disk) }

abbrev pub after_request : Ide → Option ℕ → Ide
after_request s none = s
after_request s (some b) = start_next (s.qnext b) (popped b s)

unfoldable pub ideintr : Ide → Ide
ideintr s = after_request s s.idequeue
