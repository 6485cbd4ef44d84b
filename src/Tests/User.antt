-- ===== src/Tests/User.antt =====
-- Tests of the system calls.
use jix.Base.{
  ℕ, suc, ◌%◌, ◌≡◌, false, Option, some, List, [], ◌∷◌, arith, ◌==◌, if◌then◌else◌, ℤ, pos,
  minus_one, to_int,
}
use jix.Fs.Serve.{FsOps}
use jix.User.Transfer.{read, write}
use jix.User.WriteChunks.{sink, sent, write-sent}
use jix.User.ReadChunks.{source, with_left, store, read-got}
use jix.User.Served.{calls-IsServed}
use jix.Kernel.MsgType
use jix.Kernel.State.{Msg}
use jix.Clib.Mem.{Memory}
use jix.Mm.Serve.{MmOps, is_minus_two}
use jix.User.MmCall.{fork, sbrk, wait}
use jix.User.CallServed.{IsServed, unless_sleep}
use jix.User.MmServed.{via, status, ExecServed, mm_calls_served}
use jix.Tests.Data.{blank_msg}

-- Memory where each byte is its address.
abbrev ramp : ℕ → ℕ
ramp a = a % 256

write-sent_example :
    write (sink ramp) (pos 1) 1034 4 5000 blank_msg [] ≡ some (to_int 1034, sent ramp 5000 1 10)
write-sent_example =
    write-sent ramp (pos 1) 1034 5000 1 10 4 blank_msg (omega arith) (omega arith) (omega arith)
      (omega arith)

read-got_example :
    read source (pos 0) 2000 3 5000 blank_msg (with_left (7 ∷ 8 ∷ []) ramp)
    ≡ some (to_int 2, with_left [] (store ramp 5000 (7 ∷ 8 ∷ [])))
read-got_example = read-got (pos 0) 2000 5000 2 blank_msg (7 ∷ 8 ∷ []) ramp (omega arith)

-- A file system that keeps the number of the last caller, and on which each call returns it.
abbrev echo : ℕ → ℤ × ℕ
echo s = (to_int s, s)

abbrev toy : FsOps ℕ
toy = record {
  set_current = λ i s. i;
  sleep_on = λ s. 0;
  do_open = λ path mode s. echo s;
  do_close = λ fd s. echo s;
  do_read = λ fd dst n s. echo s;
  do_write = λ fd src n s. echo s;
  do_chdir = λ path s. echo s;
  do_dup = λ fd s. echo s;
  do_link = λ n target s. echo s;
  do_unlink = λ path s. echo s;
  do_mkdir = λ path s. echo s;
  do_mknod = λ path major minor s. echo s;
  do_pipe = λ fds s. (to_int s, fds, s);
  do_stat = λ fd sp s. echo s;
  do_seek = λ fd off s. echo s;
  do_gotoxy = λ x y s. echo s;
  do_ttymode = λ mode s. echo s;
  do_cls = λ s. echo s;
  do_ttycolor = λ back front s. echo s;
  do_fsfork = λ op np s. echo s;
  do_fsexit = λ p s. echo s;
}

calls-IsServed_example : IsServed toy 5 blank_msg 9
calls-IsServed_example = calls-IsServed toy 5 blank_msg 9

-- A memory manager of the same kind.
abbrev toy_mm : MmOps ℕ
toy_mm = record {
  set_current = λ i s. i;
  sleep_on = λ s. 0;
  do_exec = λ path buf s. (minus_one, s);
  do_fork = λ s. echo s;
  do_exit = λ ret s. s;
  do_wait = λ nohang s. (pos 7, some (pos 3), s);
  do_sbrk = λ n s. echo n;
}

mm_calls_served_example :
    (fork (via toy_mm 5) blank_msg 9 ≡ unless_sleep (echo 5))
    × ((n : ℕ) → sbrk (via toy_mm 5) blank_msg n 9 ≡ unless_sleep (echo n))
    × ((f : ℕ) (nohang : ℤ) (r : ℤ) (o : Option ℤ) (s' : ℕ)
        → toy_mm.do_wait nohang 5 ≡ (r, o, s')
        → is_minus_two r ≡ false
        → wait (via toy_mm 5) (suc f) blank_msg nohang 9
          ≡ some (r, status toy_mm 5 blank_msg 9 nohang o, s'))
    × ((path buf p : ℕ) (r : ℤ) (s' : ℕ)
        → toy_mm.do_exec path buf 5 ≡ (r, s')
        → ExecServed toy_mm 5 blank_msg 9 path buf p r s')
mm_calls_served_example = mm_calls_served toy_mm 5 blank_msg 9

-- "ls" and "-l" at 100 and 200, with their addresses as `argv`; the state is the memory.
abbrev two_strings : Memory
two_strings x =
    if x == 100
    then 108
    else if x == 101
    then 115
    else if x == 200
    then 45
    else if x == 201
    then 108
    else 0

abbrev addresses : ℕ → ℕ
addresses i = if i == 0 then 100 else if i == 1 then 200 else 0

abbrev echo_back : Msg → Memory → Option (Msg × Memory)
echo_back m s = some (m, s)

abbrev ls_args : List (List ℕ)
ls_args = (108 ∷ 115 ∷ []) ∷ (45 ∷ 108 ∷ []) ∷ []
