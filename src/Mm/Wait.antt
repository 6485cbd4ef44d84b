-- ===== src/Mm/Wait.antt =====
-- `do_wait` of mm/proc.c takes a dead child once, with its number and its exit status.
use jix.Base.{
  ℕ, ◌<◌, ◌≡◌, refl, ap, ◌∙◌, ◌≢◌, inl, inr, Bool, true, false, none, some, arith, if◌then◌else◌,
  Bool-cases, Option-cases, find_from, update_self, update-ne, find_from-first, find_from-some, ℤ,
  minus_one, minus_two, to_int,
}
use jix.Mm.Pages.{Pages, kfree}
use jix.Kernel.State.{unused, Proc, Kernel, set_proc, nproc}
use jix.Mm.Life.{VmOps, is_dead_child, reap, do_wait}
use jix.Mm.Serve.{is_zero}

unused_alive : (me : ℕ) (p : Proc) → is_dead_child me (record p { state = unused }) ≡ false
unused_alive me p = refl

module _ (vm : VmOps) (me : ℕ) (nohang : ℤ) (k : Kernel) where
  -- `do_wait` with a dead child, the first of the table: it returns its number and its exit status,
  -- and frees its entry, so that it is not found again; no other entry changes. This holds where its
  -- stack and its page table can be freed, which leaves the table alone.
  pub do_wait-reaped :
      (i : ℕ) (g : Pages) (k2 : Kernel)
      → i < nproc
      → is_dead_child me (k.ptable i) ≡ true
      → ((j : ℕ) → j < i → is_dead_child me (k.ptable j) ≡ false)
      → kfree (k.ptable i).kstack k.pages ≡ some g
      → vm.freevm (k.ptable i).pgdir (record k { pages = g }) ≡ some k2
      → k2.ptable ≡ k.ptable
      → (k' : Kernel) × (do_wait vm me nohang k
          ≡ some (to_int (k.ptable i).pid, some (k.ptable i).msgstate, none, k'))
        × (is_dead_child me (k'.ptable i) ≡ false)
        × ((j : ℕ) → i ≢ j → k'.ptable j ≡ k.ptable j)
  unfolding do_wait reap
  do_wait-reaped i g k2 lt dead before stack pages same =
      let found : find_from (λ j. is_dead_child me (k.ptable j)) nproc 0 ≡ some i =
        find_from-first (λ j. is_dead_child me (k.ptable j)) nproc 0 i (omega arith) (omega arith)
          dead (λ j lo hi. before j hi) in
      let p : Proc = record (k2.ptable i) { state = unused } in
      (
        set_proc k2 i p,
        rw (found, stack, pages, do_wait, reap)
            (ap
              (λ (t : ℕ → Proc).
                some (to_int (t i).pid, some (t i).msgstate, none, set_proc k2 i p))
              same),
        ap (is_dead_child me) (update_self k2.ptable i p) ∙ unused_alive me (k2.ptable i),
        λ j ne. update-ne k2.ptable i j p ne ∙ ap (λ (t : ℕ → Proc). t j) same,
      )

  -- `do_wait` without a dead child changes no entry: it returns -1 if it is not to hang, and else
  -- asks for sleep on the caller, with result -2.
  pub do_wait_none :
      ((j : ℕ) → j < nproc → is_dead_child me (k.ptable j) ≡ false)
      → do_wait vm me nohang k
        ≡ some
            (if is_zero nohang then (minus_two, none, some me, k) else (minus_one, none, none, k))
  unfolding do_wait
  do_wait_none alive =
      elim (Option-cases (find_from (λ j. is_dead_child me (k.ptable j)) nproc 0)) [
        | inl e ↦ elim (Bool-cases (is_zero nohang)) [
          | inl z ↦ rw (e, z, do_wait) refl
          | inr nz ↦ rw (e, nz, do_wait) refl
        ]
        | inr (i, e) ↦
            let (lo, hi, dead, before) =
              find_from-some (λ j. is_dead_child me (k.ptable j)) nproc 0 i e in
            let lives : is_dead_child me (k.ptable i) ≡ false = alive i (omega arith) in
            absurd (clash _ dead lives)
      ]
    where
      clash : (b : Bool) → b ≡ true → b ≡ false → ⊥
      clash true t f = cc
      clash false t f = cc
