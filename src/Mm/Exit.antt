-- ===== src/Mm/Exit.antt =====
-- What `do_exit` of mm/proc.c leaves for `do_wait`.
use jix.Base.{
  ℕ, ◌+◌, ◌<◌, ◌≡◌, refl, ap, ◌∙◌, inl, inr, true, false, Option, none, some, arith, ltb, ◌==◌,
  if◌then◌else◌, Bool-cases, update, update_self, for_range-keeps, map_range-inside,
  map_range-outside, ℤ,
}
use jix.Kernel.State.{embryo, zombie, in_state, Proc, Kernel, set_proc, nproc}
use jix.Kernel.Proc.{wake_one, wake_up}
use jix.Mm.Life.{VmOps, is_child, chan_of, adopt, adopt_all, do_exit}

-- What `wake_up` leaves of a process.
record Woken (p q : Proc) : Type 0 where
  parent : q.parent ≡ p.parent
  pid : q.pid ≡ p.pid
  msgstate : q.msgstate ≡ p.msgstate
  dead : in_state q.state zombie ≡ in_state p.state zombie

wake_one-Woken : (c : ℕ) (p : Proc) → Woken p (wake_one c p)
wake_one-Woken c p = record {
  parent = ground arith;
  pid = ground arith;
  msgstate = ground arith;
  dead = ground arith;
}

wake_up-Woken : (c : ℕ) (k : Kernel) (i : ℕ) → Woken (k.ptable i) ((wake_up c k).ptable i)
unfolding wake_up
wake_up-Woken c k i = elim (Bool-cases (ltb i nproc)) [
  | inl inside ↦
      rw (map_range-inside (wake_one c) nproc 0 k.ptable i (omega arith) (ground arith))
        (wake_one-Woken c (k.ptable i))
  | inr outside ↦
      rw (map_range-outside (wake_one c) nproc 0 k.ptable i (inr (ground arith)))
        (record { parent = refl; pid = refl; msgstate = refl; dead = refl })
]

module _ (vm : VmOps) (addr : ℕ → ℕ) (init me : ℕ) where
  -- The parent of a process once the loop has passed it.
  abbrev pub adopted : Proc → Option ℕ
  adopted p = if is_child me p then some init else p.parent

  -- After the rounds below `j` of the loop, begun with the table `t`.
  record Adopted (t : ℕ → Proc) (j : ℕ) (k : Kernel) : Type 0 where
    parents : (i : ℕ) → (k.ptable i).parent ≡ (if ltb i j then adopted (t i) else (t i).parent)

  parent-set :
      (t : ℕ → Proc) (j i : ℕ)
      → (update t j (record (t j) { parent = some init }) i).parent
        ≡ (if i == j then some init else (t i).parent)
  parent-set t j i = ground arith

  adopt-parents :
      (j : ℕ) (k : Kernel) (i : ℕ)
      → ((adopt vm addr init me j k).ptable i).parent
        ≡ (if i == j then adopted (k.ptable i) else (k.ptable i).parent)
  unfolding adopt
  adopt-parents j k i = elim (Bool-cases (is_child me (k.ptable j))) [
    | inr other ↦ rw (other, adopt) (same other)
    | inl child ↦
        let k1 = set_proc k j (record (k.ptable j) { parent = some init }) in
        elim (Bool-cases (in_state (k.ptable j).state zombie)) [
          | inl dead ↦
              rw (child, dead, adopt)
                ((wake_up-Woken (addr init) k1 i).parent ∙ parent-set k.ptable j i ∙ ours child)
          | inr alive ↦ rw (child, alive, adopt) (parent-set k.ptable j i ∙ ours child)
        ]
  ]
    where
      same :
          is_child me (k.ptable j) ≡ false
          → (k.ptable i).parent ≡ (if i == j then adopted (k.ptable i) else (k.ptable i).parent)
      same other = elim (Bool-cases (i == j)) [
        | inl e ↦
            let e' : i ≡ j = ground arith in
            let no : is_child me (k.ptable i) ≡ false = rw e' other in rw (e, no) refl
        | inr ne ↦ rw ne refl
      ]

      ours :
          is_child me (k.ptable j) ≡ true
          → (if i == j then some init else (k.ptable i).parent)
            ≡ (if i == j then adopted (k.ptable i) else (k.ptable i).parent)
      ours child = elim (Bool-cases (i == j)) [
        | inl e ↦
            let e' : i ≡ j = ground arith in
            let yes : is_child me (k.ptable i) ≡ true = rw e' child in rw (e, yes) refl
        | inr ne ↦ rw ne refl
      ]

  adopted-same : (p q : Proc) → p.parent ≡ q.parent → adopted p ≡ adopted q
  unfolding is_child
  adopted-same p q e =
      ap (λ x. if (elim x [ none ↦ false | some i ↦ i == me ]) then some init else x) e

  Adopted-step :
      (t : ℕ → Proc) (j : ℕ) (k : Kernel)
      → Adopted t j k
      → Adopted t (j + 1) (adopt vm addr init me j k)
  Adopted-step t j k h = record { parents = step }
    where
      step :
          (i : ℕ)
          → ((adopt vm addr init me j k).ptable i).parent
            ≡ (if ltb i (j + 1) then adopted (t i) else (t i).parent)
      step i = elim (Bool-cases (i == j)) [
        | inl e ↦
            let late : ltb i j ≡ false = ground arith in
            let now : ltb i (j + 1) ≡ true = ground arith in
            let was : (k.ptable i).parent ≡ (t i).parent = rw late at (h.parents i) in
            rw now (adopt-parents j k i ∙ rw e (adopted-same (k.ptable i) (t i) was))
        | inr ne ↦
            let same : ltb i (j + 1) ≡ ltb i j = ground arith in
            rw same (adopt-parents j k i ∙ rw ne (h.parents i))
      ]

  Adopted-all : (k : Kernel) → Adopted k.ptable nproc (adopt_all vm addr init me k)
  unfolding adopt_all
  Adopted-all k =
      for_range-keeps (Adopted k.ptable) (adopt vm addr init me) nproc 0 nproc k (omega arith)
        (λ j r lt h. Adopted-step k.ptable j r h) (record { parents = λ i. begin k.ptable i })
    where
      begin :
          (t : ℕ → Proc) (i : ℕ) → (t i).parent ≡ (if ltb i 0 then adopted (t i) else (t i).parent)
      begin t i = let no : ltb i 0 ≡ false = ground arith in rw no refl

  -- `do_exit`, where `fs_exit` leaves `k1`: it returns with the process a zombie that keeps its exit
  -- status, and every child that it had is a child of `init`; no other process has another parent.
  pub do_exit_lem :
      (ret : ℤ) (k k1 : Kernel)
      → vm.fs_exit me (set_proc k me (record (k.ptable me) { state = embryo })) ≡ some k1
      → (k' : Kernel) × (do_exit vm addr init ret me k ≡ some k')
        × (in_state (k'.ptable me).state zombie ≡ true)
        × ((k'.ptable me).msgstate ≡ ret)
        × ((i : ℕ) → i < nproc → (k'.ptable i).parent ≡ adopted (k1.ptable i))
  unfolding do_exit
  do_exit_lem ret k k1 e =
      let k2 = adopt_all vm addr init me k1 in
      let q : Proc = record (k2.ptable me) { msgstate = ret; state = zombie } in
      let k3 = set_proc k2 me q in
      let c = chan_of addr (k3.ptable me).parent in
      let here : k3.ptable me ≡ q = update_self k2.ptable me q in
      let w = wake_up-Woken c k3 me in
      (
        wake_up c k3,
        rw (e, do_exit) refl,
        w.dead ∙ ap (λ (p : Proc). in_state p.state zombie) here,
        w.msgstate ∙ ap (λ (p : Proc). p.msgstate) here,
        λ i lt.
            let now : ltb i nproc ≡ true = ground arith in
            (wake_up-Woken c k3 i).parent
            ∙ kept k2.ptable i ret
            ∙ rw now at ((Adopted-all k1).parents i),
      )
    where
      kept :
          (t : ℕ → Proc) (i : ℕ) (ret : ℤ)
          → (update t me (record (t me) { msgstate = ret; state = zombie }) i).parent ≡ (t i).parent
      kept t i ret = ground arith
