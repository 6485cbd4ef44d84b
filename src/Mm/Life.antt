-- ===== src/Mm/Life.antt =====
-- The life of a process: `do_fork`, `do_exit`, `do_wait` and `do_sbrk` of mm/proc.c, on the kernel's
-- process table. Page tables and the messages to the file system are an interface; `none` is a panic
-- or a failed `assert`. The trap frame and the name of a process are left out.
use jix.Base.{
  ℕ, Bool, false, ◌&&◌, Option, none, some, ◌==◌, if◌then◌else◌, find_from, for_range, ℤ, minus_one,
  minus_two, to_int,
}
use jix.Mm.Pages.{kfree}
use jix.Mm.Serve.{is_zero}
use jix.Mm.Vm.{Vm}
use jix.Mm.Uvm
use jix.Kernel.State.{unused, embryo, runnable, zombie, in_state, Proc, Kernel, set_proc, nproc}
use jix.Kernel.Proc.{allocproc, wake_up}

-- `copyuvm` and `allocuvm`, where 0 is NULL and an error, `freevm`, `fs_fork` and `fs_exit`; `vm_ops`
-- fills it.
pub record VmOps : Type 0 where
  pub copyuvm : ℕ → Kernel → Option (ℕ × Kernel)
  pub freevm : ℕ → Kernel → Option Kernel
  pub allocuvm : ℕ → ℕ → ℕ → Kernel → Option (ℕ × Kernel)
  pub fs_fork : ℕ → ℕ → Kernel → Option Kernel
  pub fs_exit : ℕ → Kernel → Option Kernel

abbrev vm_of : Kernel → Vm
vm_of k = record { pages = k.pages; word = k.word }

abbrev with_vm : Kernel → Vm → Kernel
with_vm k m = record k { pages = m.pages; word = m.word }

-- An operation on the memory, that returns a number, in the kernel.
abbrev in_vm : (Vm → Option (ℕ × Vm)) → Kernel → Option (ℕ × Kernel)
in_vm f k = elim (f (vm_of k)) [ none ↦ none | some r ↦ some (r.0, with_vm k r.1) ]

-- The page tables of mm/, where the kernel's data begin at `d`, with the messages to the file system.
abbrev pub vm_ops : ℕ → (ℕ → ℕ → Kernel → Option Kernel) → (ℕ → Kernel → Option Kernel) → VmOps
vm_ops d fork exit = record {
  copyuvm = λ pg k. in_vm (Uvm.copyuvm d pg) k;
  freevm = λ pg k. elim (Uvm.freevm pg (vm_of k)) [ none ↦ none | some m ↦ some (with_vm k m) ];
  allocuvm = λ pg addr len k. in_vm (Uvm.allocuvm pg addr len) k;
  fs_fork = fork;
  fs_exit = exit;
}

unfoldable pub is_child : ℕ → Proc → Bool
is_child me p = elim p.parent [ none ↦ false | some q ↦ q == me ]

-- `do_wait` looks for such a process.
abbrev pub is_dead_child : ℕ → Proc → Bool
is_dead_child me p = in_state p.state zombie && is_child me p

-- The address of an entry of `ptable`, on which its parent sleeps; `addr` gives that of an entry.
abbrev pub chan_of : (ℕ → ℕ) → Option ℕ → ℕ
chan_of addr none = 0
chan_of addr (some i) = addr i

module _ (vm : VmOps) where
  -- The rest of `do_fork`, once the child `np` has its page table.
  unfoldable pub fork_rest : ℕ → ℕ → ℕ → Kernel → Option (ℤ × Kernel)
  fork_rest me np pgdir k =
      let old = k.ptable me in
      let k1 = set_proc k np (record (k.ptable np) {
        pgdir = pgdir;
        brk = old.brk;
        parent = some me;
        priority = old.priority;
        counter = old.counter;
      }) in
      elim (vm.fs_fork me np k1) [
        | none ↦ none
        | some k2 ↦
            some (
              to_int (k2.ptable np).pid,
              set_proc k2 np (record (k2.ptable np) { state = runnable }),
            )
      ]

  -- Its error path.
  unfoldable pub fork_undo : ℕ → Kernel → Option (ℤ × Kernel)
  fork_undo np k = elim (kfree (k.ptable np).kstack k.pages) [
    | none ↦ none
    | some g ↦
        let k' = record k { pages = g } in
        some (minus_one, set_proc k' np (record (k'.ptable np) { kstack = 0; state = unused }))
  ]

  unfoldable pub do_fork : ℕ → Kernel → Option (ℤ × Kernel)
  do_fork me k =
      let (r, k1) = allocproc k in
      elim r [
        | none ↦ some (minus_one, k1)
        | some np ↦ elim (vm.copyuvm (k1.ptable me).pgdir k1) [
          | none ↦ none
          | some r ↦ if r.0 == 0 then fork_undo np r.1 else fork_rest me np r.0 r.1
        ]
      ]

  -- The body of the loop of `do_exit`.
  unfoldable pub adopt : (ℕ → ℕ) → ℕ → ℕ → ℕ → Kernel → Kernel
  adopt addr initproc me i k =
      let p = k.ptable i in
      let k1 = set_proc k i (record p { parent = some initproc }) in
      if is_child me p
      then (if in_state p.state zombie then wake_up (addr initproc) k1 else k1)
      else k

  unfoldable pub adopt_all : (ℕ → ℕ) → ℕ → ℕ → Kernel → Kernel
  adopt_all addr initproc me k = for_range (adopt addr initproc me) nproc 0 k

  -- `do_exit`, for the process `me` that `mm_current` points to.
  unfoldable pub do_exit : (ℕ → ℕ) → ℕ → ℤ → ℕ → Kernel → Option Kernel
  do_exit addr initproc ret me k =
      elim (vm.fs_exit me (set_proc k me (record (k.ptable me) { state = embryo }))) [
        | none ↦ none
        | some k1 ↦
            let k2 = adopt_all addr initproc me k1 in
            let k3 = set_proc k2 me (record (k2.ptable me) { msgstate = ret; state = zombie }) in
            some (wake_up (chan_of addr (k3.ptable me).parent) k3)
      ]

  -- The end of `do_wait`, for the dead child `i`.
  unfoldable pub reap : ℕ → Kernel → Option (ℤ × Option ℤ × Option ℕ × Kernel)
  reap i k = elim (kfree (k.ptable i).kstack k.pages) [
    | none ↦ none
    | some g ↦ elim (vm.freevm (k.ptable i).pgdir (record k { pages = g })) [
      | none ↦ none
      | some k' ↦
          let p = k'.ptable i in
          some (to_int p.pid, some p.msgstate, none, set_proc k' i (record p { state = unused }))
    ]
  ]

  -- `do_wait`: its result, the status that it stores, and `mm_sleep` if it sets it.
  unfoldable pub do_wait : ℕ → ℤ → Kernel → Option (ℤ × Option ℤ × Option ℕ × Kernel)
  do_wait me nohang k = elim (find_from (λ i. is_dead_child me (k.ptable i)) nproc 0) [
    | none ↦
        if is_zero nohang
        then some (minus_two, none, some me, k)
        else some (minus_one, none, none, k)
    | some i ↦ reap i k
  ]

  unfoldable pub do_sbrk : ℕ → ℕ → Kernel → Option (ℤ × Kernel)
  do_sbrk me n k =
      let p = k.ptable me in
      elim (vm.allocuvm p.pgdir p.brk n k) [
        | none ↦ none
        | some r ↦
            if r.0 == 0
            then some (minus_one, r.1)
            else some (to_int p.brk, set_proc r.1 me (record (r.1.ptable me) { brk = r.0 }))
      ]
