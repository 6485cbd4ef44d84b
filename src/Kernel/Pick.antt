-- ===== src/Kernel/Pick.antt =====
-- What `schedule` of kernel/proc.c picks.
use jix.Base.{
  ℕ, ◌+◌, ◌≤◌, ◌<◌, ◌≡◌, refl, subst, ◌≢◌, ◌⊎◌, inl, inr, Bool, true, false, arith, ltb, ◌==◌,
  if◌then◌else◌, ltb→lt, Bool-cases, for_range-keeps,
}
use jix.Kernel.State.{runnable, in_state, Proc, nproc, task_idle}
use jix.Kernel.Proc.{Scan, scan_step, scan}

abbrev pub IsReady : Proc → Type 0
IsReady p = in_state p.state runnable ≡ true

-- What the kernel sets up and keeps: the idle task can always run, with counter and priority 1, and
-- every other process that can run has a higher priority.
pub record IsServed (t : ℕ → Proc) : Type 0 where
  pub idle_ready : IsReady (t task_idle)
  pub idle_counter : (t task_idle).counter ≡ 1
  pub idle_priority : (t task_idle).priority ≡ 1
  pub others : (j : ℕ) → j < nproc → j ≢ task_idle → IsReady (t j) → 1 < (t j).priority

-- After the scan of the entries below `i`, begun with `c`, `idle` and `current` of `s`.
pub record Scanned (t : ℕ → Proc) (s : Scan) (i : ℕ) (r : Scan) : Type 0 where
  pub grows : s.c ≤ r.c
  pub top : (j : ℕ) → j < i → IsReady (t j) → (t j).counter ≤ r.c
  pub alone : r.idle ≡ true → (j : ℕ) → j < i → IsReady (t j) → j ≡ task_idle
  pub busy : s.idle ≡ true → r.idle ≡ false → (j : ℕ) × (j < i) × (j ≢ task_idle) × IsReady (t j)
  pub chosen :
      ((r.c ≡ s.c) × (r.current ≡ s.current))
      ⊎ ((r.current < i) × IsReady (t r.current) × ((t r.current).counter ≡ r.c) × (s.c < r.c))

-- A claim about all `j < i + 1`, from the claim below `i` and the claim at `i`.
upto : (P : ℕ → Type 0) (i j : ℕ) → (j < i → P j) → P i → j < i + 1 → P j
upto P i j below here lt = elim (Bool-cases (i == j)) [
  | inl e ↦ let e' : i ≡ j = ground arith in subst P e' here
  | inr ne ↦ below (ground arith)
]

-- A choice made below `i` is one made below `i + 1`.
chosen-suc :
    (t : ℕ → Proc) (s r : Scan) (i : ℕ)
    → ((r.c ≡ s.c) × (r.current ≡ s.current))
      ⊎ ((r.current < i) × IsReady (t r.current) × ((t r.current).counter ≡ r.c) × (s.c < r.c))
    → ((r.c ≡ s.c) × (r.current ≡ s.current))
      ⊎ ((r.current < i + 1) × IsReady (t r.current) × ((t r.current).counter ≡ r.c) × (s.c < r.c))
chosen-suc t s r i (inl same) = inl same
chosen-suc t s r i (inr (lt, go, at, up)) = inr (omega arith, go, at, up)

module _ (t : ℕ → Proc) (s : Scan) (i : ℕ) (r : Scan) (h : Scanned t s i r) where
  Scanned-skip : (in_state (t i).state runnable ≡ false) → Scanned t s (i + 1) r
  Scanned-skip off = record {
    grows = h.grows;
    top = λ j. upto (λ x. IsReady (t x) → (t x).counter ≤ r.c) i j (h.top j) (λ go. cc);
    alone = λ e j. upto (λ x. IsReady (t x) → x ≡ task_idle) i j (h.alone e j) (λ go. cc);
    busy = λ e f. let (j, lt, ne, go) = h.busy e f in (j, omega arith, ne, go);
    chosen = chosen-suc t s r i h.chosen;
  }

  idle' : Bool
  idle' = if i == task_idle then r.idle else false

  alone-step : idle' ≡ true → (j : ℕ) → j < i + 1 → IsReady (t j) → j ≡ task_idle
  unfolding idle'
  alone-step e j =
      upto (λ x. IsReady (t x) → x ≡ task_idle) i j (λ lt. h.alone (ground arith) j lt)
        (λ go. ground arith)

  busy-step :
      IsReady (t i)
      → s.idle ≡ true
      → idle' ≡ false
      → (j : ℕ) × (j < i + 1) × (j ≢ task_idle) × IsReady (t j)
  unfolding idle'
  busy-step go e f = elim (Bool-cases (i == task_idle)) [
    | inl zero_th ↦ let (j, lt, ne, on) = h.busy e (rw zero_th at f) in (j, omega arith, ne, on)
    | inr other ↦ (i, omega arith, ground arith, go)
  ]

  Scanned-low :
      IsReady (t i)
      → ltb r.c (t i).counter ≡ false
      → Scanned t s (i + 1) (record r { idle = idle' })
  Scanned-low go low = record {
    grows = h.grows;
    top = λ j. upto (λ x. IsReady (t x) → (t x).counter ≤ r.c) i j (h.top j) (λ on. ground arith);
    alone = alone-step;
    busy = busy-step go;
    chosen = chosen-suc t s r i h.chosen;
  }

  Scanned-high :
      IsReady (t i)
      → ltb r.c (t i).counter ≡ true
      → Scanned t s (i + 1) (record { c = (t i).counter; idle = idle'; current = i })
  Scanned-high go high = record {
    grows = let up = ltb→lt _ _ high in omega (arith, h.grows);
    top = λ j.
        upto (λ x. IsReady (t x) → (t x).counter ≤ (t i).counter) i j
          (λ lt on. omega (arith, h.top j lt on, ltb→lt _ _ high)) (λ on. omega arith);
    alone = alone-step;
    busy = busy-step go;
    chosen = inr (omega arith, go, refl, omega (arith, h.grows, ltb→lt _ _ high));
  }

  Scanned-step : Scanned t s (i + 1) (scan_step t i r)
  unfolding scan_step idle'
  Scanned-step = elim (Bool-cases (in_state (t i).state runnable)) [
    | inr off ↦ rw (off, scan_step) (Scanned-skip off)
    | inl go ↦ elim (Bool-cases (ltb r.c (t i).counter)) [
      | inl high ↦ rw (go, high, scan_step) (Scanned-high go high)
      | inr low ↦ rw (go, low, scan_step) (Scanned-low go low)
    ]
  ]

pub Scanned-scan : (t : ℕ → Proc) (s : Scan) → Scanned t s nproc (scan t s)
unfolding scan
Scanned-scan t s =
    for_range-keeps (Scanned t s) (scan_step t) nproc 0 nproc s (omega arith)
      (λ j r lt h. Scanned-step t s j r h)
      (record {
        grows = omega arith;
        top = λ j lt. absurd (omega arith);
        alone = λ e j lt. absurd (omega arith);
        busy = λ e f. cc;
        chosen = inl (refl, refl);
      })
