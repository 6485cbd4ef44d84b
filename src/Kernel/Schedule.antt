-- ===== src/Kernel/Schedule.antt =====
-- What `schedule` of kernel/proc.c gives the processor to.
use jix.Base.{
  ℕ, suc, ◌≤◌, ◌<◌, ◌≡◌, refl, sym, ap, ◌∙◌, ◌≢◌, ◌⊎◌, inl, inr, Bool, true, false, not, ◌&&◌, ◌||◌,
  some, arith, ◌==◌, Bool-cases, map_range, map_range-inside,
}
use jix.Kernel.State.{Proc, Kernel, nproc, task_idle}
use jix.Kernel.Proc.{Scan, scan, refill, pick, schedule}
use jix.Kernel.Pick.{IsReady, IsServed, Scanned, Scanned-scan}

-- The choice: a process that can run and has time left, with the most time left of all that can
-- run, and not the idle task unless nothing else can run.
pub record IsChoice (t : ℕ → Proc) (i : ℕ) : Type 0 where
  pub in_table : i < nproc
  pub ready : IsReady (t i)
  pub time_left : 0 < (t i).counter
  pub longest : (j : ℕ) → j < nproc → IsReady (t j) → (t j).counter ≤ (t i).counter
  pub idle_last : i ≡ task_idle → (j : ℕ) → j < nproc → IsReady (t j) → j ≡ task_idle

abbrev pub refilled : (ℕ → Proc) → ℕ → Proc
refilled t = map_range refill nproc 0 t

refilled-inside : (t : ℕ → Proc) (j : ℕ) → j < nproc → refilled t j ≡ refill (t j)
refilled-inside t j lt = map_range-inside refill nproc 0 t j (omega arith) (omega arith)

-- The test of the `break`.
abbrev is_done : Scan → Bool
is_done r = (r.current == task_idle && r.idle) || not (r.current == task_idle)

pick-stop :
    (f : ℕ) (t : ℕ → Proc) (s : Scan)
    → is_done (scan t s) ≡ true
    → pick (suc f) t s ≡ some (scan t s, t)
unfolding pick
pick-stop f t s e = rw (e, pick)

pick-again :
    (f : ℕ) (t : ℕ → Proc) (s : Scan)
    → is_done (scan t s) ≡ false
    → pick (suc f) t s ≡ pick f (refilled t) (scan t s)
unfolding pick
pick-again f t s e = rw (e, pick)

-- A scan that chose entry `r.current` of the table.
IsChoice-scan :
    (t : ℕ → Proc) (s r : Scan)
    → Scanned t s nproc r
    → r.current < nproc
    → IsReady (t r.current)
    → (t r.current).counter ≡ r.c
    → s.c < r.c
    → (r.current ≡ task_idle → r.idle ≡ true)
    → IsChoice t r.current
IsChoice-scan t s r h lt go at up last = record {
  in_table = lt;
  ready = go;
  time_left = omega arith;
  longest = λ j l on. omega (arith, h.top j l on);
  idle_last = λ e. h.alone (last e);
}

idle_of_done : (r : Scan) → is_done r ≡ true → r.current ≡ task_idle → r.idle ≡ true
idle_of_done r e z = ground arith

of_not_done : (r : Scan) → is_done r ≡ false → (r.current ≡ task_idle) × (r.idle ≡ false)
of_not_done r e = ground arith

done_of_ne : (r : Scan) → r.current ≢ task_idle → is_done r ≡ true
done_of_ne r ne = ground arith

module _ (t : ℕ → Proc) (served : IsServed t) (cur : ℕ) where
  abbrev start : Scan
  start = record { c = 0; idle = true; current = cur }

  -- The first scan always chooses, since the idle task has time left.
  first :
      (r : Scan)
      → Scanned t start nproc r
      → (r.current < nproc) × IsReady (t r.current) × ((t r.current).counter ≡ r.c) × (0 < r.c)
  first r h = elim h.chosen [
    | inl (same, _) ↦
        absurd (omega (arith, h.top task_idle (omega arith) served.idle_ready, served.idle_counter))
    | inr (lt, go, at, up) ↦ (lt, go, at, up)
  ]

  -- After a scan that found only the idle task with time left, though another process can run.
  second :
      (r r' : Scan)
      → Scanned t start nproc r
      → r.current ≡ task_idle
      → r.idle ≡ false
      → Scanned (refilled t) r nproc r'
      → (r'.current ≢ task_idle) × IsChoice (refilled t) r'.current
  second r r' h at_idle more h' =
      let (lt, go, at, up) = first r h in
      let (j, jlt, jne, jgo) = h.busy refl more in
      let jgo' : IsReady (refilled t j) = rw (refilled-inside t j jlt) jgo in
      let c1 : r.c ≡ 1 = sym at ∙ ap (λ i. (t i).counter) at_idle ∙ served.idle_counter in
      let more_time : 1 < (refilled t j).counter =
        rw (refilled-inside t j jlt) (served.others j jlt jne jgo) in
      let c2 : 1 < r'.c = omega (arith, h'.top j jlt jgo') in
      elim h'.chosen [
        | inl (same, _) ↦ absurd (omega arith)
        | inr (lt', go', at', up') ↦
            let ne : r'.current ≢ task_idle = λ e.
              let zero_time : (refilled t task_idle).counter ≡ 1 =
                ap (λ p. p.counter) (refilled-inside t task_idle (omega arith))
                ∙ served.idle_priority in
              let same : (refilled t r'.current).counter ≡ (refilled t task_idle).counter =
                ap (λ i. (refilled t i).counter) e in
              omega arith in
            (ne, IsChoice-scan (refilled t) r r' h' lt' go' at' up' (λ e. absurd (ne e)))
      ]

  pick_lem :
      (s : Scan) × (t' : ℕ → Proc) × (pick 2 t start ≡ some (s, t'))
      × IsChoice t' s.current
      × ((t' ≡ t) ⊎ (t' ≡ refilled t))
  pick_lem =
      let r = scan t start in
      let h = Scanned-scan t start in
      let (lt, go, at, up) = first r h in
      elim (Bool-cases (is_done r)) [
        | inl stop ↦ (
          r,
          t,
          pick-stop 1 t start stop,
          IsChoice-scan t start r h lt go at up (λ e. idle_of_done r stop e),
          inl refl,
        )
        | inr more ↦
            let (at_idle, busy) = of_not_done r more in
            let r' = scan (refilled t) r in
            let (ne, ch) = second r r' h at_idle busy (Scanned-scan (refilled t) r) in
            (
              r',
              refilled t,
              pick-again 1 t start more ∙ pick-stop 0 (refilled t) r (done_of_ne r' ne),
              ch,
              inr refl,
            )
      ]

-- `schedule` ends within two rounds, and gives the processor to a process that can run and has time
-- left, with the most time left of all that can run; to the idle task only if nothing else can run.
-- The table stays, or every entry's counter has been set to its priority. This holds where the idle
-- task can run with counter and priority 1, and every other process that can run has a higher
-- priority.
pub schedule-IsChoice :
    (k : Kernel)
    → IsServed k.ptable
    → (k' : Kernel) × (schedule k ≡ some k')
      × IsChoice k'.ptable k'.current
      × ((k'.ptable ≡ k.ptable) ⊎ (k'.ptable ≡ refilled k.ptable))
unfolding schedule
schedule-IsChoice k served =
    let (s, t, e, ch, same) = pick_lem k.ptable served k.current in
    (record k { ptable = t; current = s.current }, rw (e, schedule), ch, same)
