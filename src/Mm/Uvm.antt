-- ===== src/Mm/Uvm.antt =====
-- The user's half of an address space: `freevm` of mm/vm.c, `allocuvm` of mm/exec.c and `copyuvm` of
-- mm/proc.c. `none` is a panic.
use jix.Base.{
  ℕ, zero, suc, ◌+◌, ◌*◌, ◌%◌, ◌^◌, Bool, true, false, not, Option, none, some, ltb, ◌==◌,
  if◌then◌else◌, update, is_neg, bit_or,
}
use jix.Mm.Pages.{page_size, kbase, v2p, p2v}
use jix.Mm.Vm.{
  Vm, pte_addr, page_down, page_up, present, pte_w, pte_u, fill, kalloc1, kfree1, table_of,
  mappages, setupkvm,
}

-- `for (; n; n--, i++) { body }`, where the body goes on, leaves the loop by `goto bad` (`false`) or
-- panics.
unfoldable pub for_each : (ℕ → Vm → Option (Bool × Vm)) → ℕ → ℕ → Vm → Option (Bool × Vm)
for_each body zero i m = some (true, m)
for_each body (suc n) i m = elim (body i m) [
  | none ↦ none
  | some r ↦ elim r.0 [ false ↦ some (false, r.1) | true ↦ for_each body n (i + 1) r.1 ]
]

-- `kfree1` as the body of a loop.
unfoldable pub free_one : ℕ → Vm → Option (Bool × Vm)
free_one v m = elim (kfree1 v m) [ none ↦ none | some m' ↦ some (true, m') ]

-- The body of the inner loop of `freevm`, for the table at `pte`.
unfoldable pub free_entry : ℕ → ℕ → Vm → Option (Bool × Vm)
free_entry pte j m =
    if present (m.word pte j) then free_one (p2v (pte_addr (m.word pte j))) m else some (true, m)

-- The body of the outer loop.
unfoldable pub free_table : ℕ → ℕ → Vm → Option (Bool × Vm)
free_table pgdir i m =
    let pte = table_of (m.word pgdir i) in
    let pages =
      if ltb (i * 2 ^ 22) kbase then for_each (free_entry pte) 1024 0 m else some (true, m) in
    if present (m.word pgdir i)
    then elim pages [ none ↦ none | some r ↦ free_one (table_of (r.1.word pgdir i)) r.1 ]
    else some (true, m)

unfoldable pub freevm : ℕ → Vm → Option Vm
freevm pgdir m =
    if pgdir == 0
    then some m
    else elim (for_each (free_table pgdir) 1024 0 m) [ none ↦ none | some r ↦ kfree1 pgdir r.1 ]

-- The loop of `allocuvm` from `addr` on, with fuel; `false` is NULL from `kalloc1`. What `mappages`
-- returns is not looked at.
unfoldable pub alloc_from : ℕ → ℕ → ℕ → ℕ → Vm → Option (Bool × Vm)
alloc_from zero pgdir end addr m = none
alloc_from (suc n) pgdir end addr m = elim (ltb addr end) [
  | false ↦ some (true, m)
  | true ↦ elim (kalloc1 m) [
    | none ↦ none
    | some r ↦ elim (r.0 == 0) [
      | true ↦ some (false, r.1)
      | false ↦
          elim (mappages pgdir addr page_size (v2p r.0) (bit_or pte_w pte_u) (some kalloc1)
            (fill r.0 0 r.1)) [
              | none ↦ none
              | some s ↦ alloc_from n pgdir end ((addr + page_size) % 2 ^ 32) s.1
            ]
    ]
  ]
]

-- One round for each page below `KBASE`, and one for the last test.
abbrev pub alloc_fuel : ℕ
alloc_fuel = 524289

-- `allocuvm`; 0 is an error.
unfoldable pub allocuvm : ℕ → ℕ → ℕ → Vm → Option (ℕ × Vm)
allocuvm pgdir addr len m =
    let end = (addr + len) % 2 ^ 32 in
    if ltb kbase end
    then some (0, m)
    else elim (alloc_from alloc_fuel pgdir end (page_down addr) m) [
      | none ↦ none
      | some r ↦ some (if r.0 then page_up end else 0, r.1)
    ]

-- The body of the inner loop of `copyuvm`, for a page that is mapped at `va` by the entry `pte`.
unfoldable pub copy_page : ℕ → ℕ → ℕ → Vm → Option (Bool × Vm)
copy_page npgdir va pte m = elim (kalloc1 m) [
  | none ↦ none
  | some r ↦ elim (r.0 == 0) [
    | true ↦ some (false, r.1)
    | false ↦
        let m1 = record r.1 { word = update r.1.word r.0 (r.1.word (p2v (pte_addr pte))) } in
        elim (mappages npgdir va page_size (v2p r.0) (bit_or pte_w pte_u) (some kalloc1) m1) [
          | none ↦ none
          | some s ↦ some (not (is_neg s.0), s.1)
        ]
  ]
]

unfoldable pub copy_entry : ℕ → ℕ → ℕ → ℕ → Vm → Option (Bool × Vm)
copy_entry npgdir pte i j m =
    if present (m.word pte j)
    then copy_page npgdir (i * 2 ^ 22 + j * 2 ^ 12) (m.word pte j) m
    else some (true, m)

-- The body of the outer loop.
unfoldable pub copy_table : ℕ → ℕ → ℕ → Vm → Option (Bool × Vm)
copy_table pgdir npgdir i m =
    if present (m.word pgdir i)
    then for_each (copy_entry npgdir (table_of (m.word pgdir i)) i) 1024 0 m
    else some (true, m)

-- The entries of a directory below `KBASE`.
abbrev pub user_tables : ℕ
user_tables = 512

-- `copyuvm` once there is a new directory; NULL is 0.
unfoldable pub copy_all : ℕ → ℕ → Vm → Option (ℕ × Vm)
copy_all pgdir npgdir m = elim (for_each (copy_table pgdir npgdir) user_tables 0 m) [
  | none ↦ none
  | some r ↦ elim r.0 [
    | true ↦ some (npgdir, r.1)
    | false ↦ elim (freevm npgdir r.1) [ none ↦ none | some m' ↦ some (0, m') ]
  ]
]

-- `copyuvm`, where the kernel's data begin at `d`.
unfoldable pub copyuvm : ℕ → ℕ → Vm → Option (ℕ × Vm)
copyuvm d pgdir m = elim (setupkvm d kalloc1 m) [
  | none ↦ none
  | some r ↦ if r.0 == 0 then some (0, r.1) else copy_all pgdir r.0 r.1
]
