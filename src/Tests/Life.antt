-- ===== src/Tests/Life.antt =====
-- Tests of the exit of a process and of its parent's wait.
use jix.Base.{
  ℕ, ◌+◌, ◌<◌, ◌≡◌, refl, ◌≢◌, true, false, none, some, arith, ◌==◌, if◌then◌else◌, update, pos,
  to_int,
}
use jix.Mm.Pages.{Pages, kfree}
use jix.Kernel.State.{embryo, zombie, in_state, Proc, Kernel, set_proc, nproc}
use jix.Mm.Life.{VmOps, is_child, is_dead_child, do_exit, do_wait}
use jix.Mm.Exit.{adopted, do_exit_lem}
use jix.Mm.Wait.{do_wait-reaped}
use jix.Tests.Data.{machine, table, blank_proc}

-- Page tables that take no memory, and a file system that has nothing to close.
abbrev toy_vm : VmOps
toy_vm = record {
  copyuvm = λ pg k. some (0, k);
  freevm = λ pg k. some k;
  allocuvm = λ pg brk n k. some (brk + n, k);
  fs_fork = λ me np k. some k;
  fs_exit = λ me k. some k;
}

-- Process 2 is a child of process 1, and process 5 a dead child of process 2.
abbrev family : ℕ → Proc
family i =
    if i == 2
    then record (table 2) { parent = some 1 }
    else if i == 5
    then record blank_proc {
      state = zombie;
      kstack = 0x8DFFE000;
      pid = 6;
      parent = some 2;
      msgstate = pos 42;
    }
    else table i

abbrev at_home : Kernel
at_home = record machine { ptable = family }

abbrev leaving : Kernel
leaving = set_proc at_home 2 (record (family 2) { state = embryo })

do_exit_lem_example :
    (k' : Kernel) × (do_exit toy_vm (λ i. 1000 + i) 1 (pos 3) 2 at_home ≡ some k')
    × (in_state (k'.ptable 2).state zombie ≡ true)
    × ((k'.ptable 2).msgstate ≡ pos 3)
    × ((i : ℕ)
        → i < nproc
        → (k'.ptable i).parent ≡ adopted toy_vm (λ j. 1000 + j) 1 2 (leaving.ptable i))
do_exit_lem_example = do_exit_lem toy_vm (λ i. 1000 + i) 1 2 (pos 3) at_home leaving refl

abbrev freed : Pages
freed = record machine.pages {
  next = update machine.pages.next 0x8DFFE000 0;
  free_list = 0x8DFFE000;
}

stack-freed : kfree 0x8DFFE000 machine.pages ≡ some freed
unfolding kfree
stack-freed = refl

others_alive : (j : ℕ) → j < 5 → is_dead_child 2 (family j) ≡ false
unfolding is_child
others_alive j lt = ground arith

five_dead : is_dead_child 2 (family 5) ≡ true
unfolding is_child
five_dead = refl

do_wait-reaped_example :
    (k' : Kernel) × (do_wait toy_vm 2 (pos 0) at_home ≡ some (to_int 6, some (pos 42), none, k'))
    × (is_dead_child 2 (k'.ptable 5) ≡ false)
    × ((j : ℕ) → 5 ≢ j → k'.ptable j ≡ family j)
do_wait-reaped_example =
    do_wait-reaped toy_vm 2 (pos 0) at_home 5 freed (record at_home { pages = freed }) (omega arith)
      five_dead others_alive stack-freed refl refl

all_alive : (j : ℕ) → j < nproc → is_dead_child 1 (table j) ≡ false
unfolding is_child
all_alive j lt = ground arith
