-- ===== src/Tests/Data.antt =====
-- A small machine for the tests: the idle task, two processes, and memory that holds some text.
use jix.Base.{ℕ, none, ◌==◌, if◌then◌else◌, pos}
use jix.Mm.Pages.{Pages}
use jix.Kernel.State.{unused, runnable, null, any, Proc, Msg, Kernel}

abbrev pub blank_proc : Proc
blank_proc = record {
  state = unused;
  kstack = 0;
  pgdir = 0;
  brk = 0;
  priority = 0;
  counter = 0;
  pid = 0;
  parent = none;
  tmp = 0;
  ofile = λ i. null;
  cwd = none;
  msgp = 0;
  sendto = 0;
  recvfrom = any;
  msgstate = pos 0;
}

abbrev pub ready_proc : ℕ → ℕ → Proc
ready_proc prio count = record blank_proc { state = runnable; priority = prio; counter = count }

-- The idle task, and two processes of priority 5 and 7.
abbrev pub table : ℕ → Proc
table i =
    if i == 0
    then ready_proc 1 1
    else if i == 1
    then ready_proc 5 3
    else if i == 2
    then ready_proc 7 0
    else blank_proc

abbrev pub blank_msg : Msg
blank_msg = record { type = 0; source = 0; p1 = 0; p2 = 0; u1 = 0; u2 = 0; i1 = pos 0; i2 = pos 0 }

-- A fresh allocator, with the kernel image up to three pages below the top of memory.
abbrev pub no_pages : Pages
no_pages = record { free_list = 0; new_end = 0x8DFFD000; next = λ a. 0 }

-- Each address holds a message whose first number is the address.
abbrev pub machine : Kernel
machine = record {
  ptable = table;
  below = blank_proc;
  current = 1;
  nextpid = 3;
  word = λ p i. 0;
  pages = no_pages;
  mem = λ a. record blank_msg { type = 6; u1 = a };
}
