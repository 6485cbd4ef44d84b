-- ===== src/Kernel/Proc.antt =====
-- Processes: kernel/proc.c. `cli`, `sti` and the switch of stacks are left out: each function here
-- runs with interrupts off, or up to the point where it gives up the processor.
use jix.Base.{
  ℕ, zero, suc, ◌+◌, ◌-◌, ◌%◌, ◌^◌, Bool, true, false, not, ◌&&◌, ◌||◌, Option, none, some, ltb,
  ◌==◌, if◌then◌else◌, find_from, for_range, map_range, update,
}
use jix.Mm.Pages.{kalloc}
use jix.Kernel.State.{
  unused, embryo, sleeping, runnable, in_state, Proc, Kernel, nproc, task_idle, set_proc,
}

-- `allocproc`: the new process, or `none` for NULL, and the kernel after the call. The trap frame
-- and the context that it lays out on the new stack are left out.
unfoldable pub allocproc : Kernel → Option ℕ × Kernel
allocproc k = elim (find_from (λ i. in_state (k.ptable i).state unused) nproc 0) [
  | none ↦ (none, k)
  | some i ↦
      let (page, g) = kalloc k.pages in
      let p = k.ptable i in
      if page == 0
      then (
        none,
        record k {
          ptable = update k.ptable i (record p { state = unused; pid = k.nextpid; kstack = page });
          nextpid = (k.nextpid + 1) % 2 ^ 32;
          pages = g;
        },
      )
      else (
        some i,
        record k {
          ptable = update k.ptable i (record p { state = embryo; pid = k.nextpid; kstack = page });
          nextpid = (k.nextpid + 1) % 2 ^ 32;
          pages = g;
        },
      )
]

-- `sleep_on`, up to its call of `sched`.
unfoldable pub sleep_on : ℕ → Kernel → Kernel
sleep_on chan k =
    set_proc k k.current (record (k.ptable k.current) { tmp = chan; state = sleeping })

-- The body of the loop of `wake_up`.
abbrev pub wake_one : ℕ → Proc → Proc
wake_one chan p =
    if in_state p.state sleeping && p.tmp == chan then record p { state = runnable } else p

-- `wake_up` and `wake_up1`.
unfoldable pub wake_up : ℕ → Kernel → Kernel
wake_up chan k = record k { ptable = map_range (wake_one chan) nproc 0 k.ptable }

-- The timer's part of `trap`, up to its call of `sched`. The counter is a `u32`.
unfoldable pub tick : Kernel → Kernel
tick k =
    if k.current == task_idle
    then k
    else let p = k.ptable k.current in
      set_proc k k.current (record p { counter = (p.counter + 2 ^ 32 - 1) % 2 ^ 32 })

-- The locals of `schedule`, with the global `current`.
pub record Scan : Type 0 where
  pub c : ℕ
  pub idle : Bool
  pub current : ℕ

-- The body of the inner loop over the table.
unfoldable pub scan_step : (ℕ → Proc) → ℕ → Scan → Scan
scan_step t i s =
    if in_state (t i).state runnable
    then (let idle' = (if i == task_idle then s.idle else false) in
        if ltb s.c (t i).counter
        then record { c = (t i).counter; idle = idle'; current = i }
        else record s { idle = idle' })
    else s

unfoldable pub scan : (ℕ → Proc) → Scan → Scan
unfolding scan_step for_range
scan t s = for_range (scan_step t) nproc 0 s

-- `p->counter = p->priority`, for every process.
abbrev pub refill : Proc → Proc
refill p = record p { counter = p.priority }

-- The middle loop of `schedule`, up to its `break`, with fuel.
unfoldable pub pick : ℕ → (ℕ → Proc) → Scan → Option (Scan × (ℕ → Proc))
pick zero t s = none
pick (suc f) t s =
    let r = scan t s in
    let again = pick f (map_range refill nproc 0 t) r in
    if (r.current == task_idle && r.idle) || not (r.current == task_idle)
    then some (r, t)
    else again

-- One round of `schedule`, up to the switch to `current`. Two rounds of the middle loop are enough.
unfoldable pub schedule : Kernel → Option Kernel
schedule k = elim (pick 2 k.ptable (record { c = 0; idle = true; current = k.current })) [
  | none ↦ none
  | some (s, t) ↦ some (record k { ptable = t; current = s.current })
]
