-- ===== src/Kernel/State.antt =====
-- The process table of include/proc.h, messages of include/msg.h and the globals of
-- kernel/global.c. A pointer into `ptable`, `inodes` or `files` is the index of its entry. The trap
-- frame, the saved context and the debugging name of a process are left out.
use jix.Base.{ℕ, Bool, Option, ◌==◌, update, ℤ}
use jix.Mm.Pages.{Pages}

-- `enum procstate`.
pub data ProcState : Type 0 where
  unused embryo sleeping runnable zombie sending recving : ProcState

-- The values of the enumeration, by which states are compared.
abbrev pub state_code : ProcState → ℕ
state_code unused = 0
state_code embryo = 1
state_code sleeping = 2
state_code runnable = 3
state_code zombie = 4
state_code sending = 5
state_code recving = 6

abbrev pub in_state : ProcState → ProcState → Bool
in_state s t = state_code s == state_code t

-- A `struct file *` of `ofile`: NULL, the mark 1 that `fdalloc` leaves, or an entry of `files`.
pub data FilePtr : Type 0 where
  null : FilePtr
  reserved : FilePtr
  file : ℕ → FilePtr

-- `recvfrom`, and the argument `source` of `recvmsg`: ANY or a process.
pub data Source : Type 0 where
  any : Source
  from : ℕ → Source

-- `struct proc`.
pub record Proc : Type 0 where
  pub state : ProcState
  pub kstack : ℕ
  pub pgdir : ℕ
  pub brk : ℕ
  pub priority : ℕ
  pub counter : ℕ
  pub pid : ℕ
  pub parent : Option ℕ
  pub tmp : ℕ
  pub ofile : ℕ → FilePtr
  pub cwd : Option ℕ
  pub msgp : ℕ
  pub sendto : ℕ
  pub recvfrom : Source
  pub msgstate : ℤ

-- `struct msg`. `p1` and `p2` are addresses, or indices where they carry processes.
pub record Msg : Type 0 where
  pub type : ℕ
  pub source : ℕ
  pub p1 : ℕ
  pub p2 : ℕ
  pub u1 : ℕ
  pub u2 : ℕ
  pub i1 : ℤ
  pub i2 : ℤ

-- `enum MSGTYPE`, the values that the kernel itself tests.
abbrev pub msg_sysret : ℕ
msg_sysret = 2

abbrev pub msg_besleep : ℕ
msg_besleep = 3

abbrev pub nproc : ℕ
nproc = 64

abbrev pub task_idle : ℕ
task_idle = 0

-- The globals: the table, what memory holds just below it (`ptable[-1]`, which a pointer made from
-- ANY reads), the running process, the next process number, the free pages, the words of the page at
-- each address, and the message at each address.
pub record Kernel : Type 0 where
  pub ptable : ℕ → Proc
  pub below : Proc
  pub current : ℕ
  pub nextpid : ℕ
  pub pages : Pages
  pub word : ℕ → ℕ → ℕ
  pub mem : ℕ → Msg

-- `ptable + source`.
abbrev pub at : Kernel → Source → Proc
at k any = k.below
at k (from i) = k.ptable i

abbrev pub set_proc : Kernel → ℕ → Proc → Kernel
set_proc k i p = record k { ptable = update k.ptable i p }
