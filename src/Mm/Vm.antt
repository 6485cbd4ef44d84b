-- ===== src/Mm/Vm.antt =====
-- Page tables, of mm/vm.c with the macros of include/mmu.h. A page directory and a page table are
-- pages of 1024 words, named by their kernel addresses; a `pte_t *` is such a page and an index. The
-- link in the first word of a free page is kept apart, in `Pages`; `none` is a panic.
use jix.Base.{
  ℕ, zero, suc, ◌+◌, ◌-◌, ◌/◌, ◌%◌, ◌^◌, Bool, true, false, Option, none, some, List, [], ◌∷◌, ltb,
  leb, ◌==◌, if◌then◌else◌, update, ℤ, pos, minus_one, is_neg, bit_or,
}
use jix.Mm.Pages.{Pages, page_size, kbase, phys_top, v2p, p2v, kfree, kalloc}

-- Macros of include/mmu.h.
abbrev pub pdx : ℕ → ℕ
pdx va = va / 2 ^ 22 % 1024

abbrev pub ptx : ℕ → ℕ
ptx va = va / 2 ^ 12 % 1024

abbrev pub pte_addr : ℕ → ℕ
pte_addr pte = pte - pte % page_size

abbrev pub page_down : ℕ → ℕ
page_down a = a - a % page_size

abbrev pub page_up : ℕ → ℕ
page_up a = page_down ((a + page_size - 1) % 2 ^ 32)

abbrev pub pte_p : ℕ
pte_p = 1

abbrev pub pte_w : ℕ
pte_w = 2

abbrev pub pte_u : ℕ
pte_u = 4

-- `entry & PTE_P`.
abbrev pub present : ℕ → Bool
present w = w % 2 == 1

abbrev pub dev_space : ℕ
dev_space = 0xFE000000

-- The allocator, and the words of the page at each address.
pub record Vm : Type 0 where
  pub pages : Pages
  pub word : ℕ → ℕ → ℕ

-- `memset(page, c, PGSIZE)`, where `w` is the word of four bytes `c`.
abbrev pub fill : ℕ → ℕ → Vm → Vm
fill page w m = record m { word = update m.word page (λ i. w) }

abbrev pub set_word : ℕ → ℕ → ℕ → Vm → Vm
set_word page i w m = record m { word = update m.word page (update (m.word page) i w) }

-- An argument `alloc`: it returns an address, 0 for NULL, or panics.
abbrev pub Alloc : Type 0
Alloc = Vm → Option (ℕ × Vm)

unfoldable pub kalloc1 : Alloc
kalloc1 m = let (p, g) = kalloc m.pages in some (p, record m { pages = g })

unfoldable pub kfree1 : ℕ → Vm → Option Vm
kfree1 v m = elim (kfree v m.pages) [
  | none ↦ none
  | some g ↦ some (fill v 0x01010101 (record m { pages = g }))
]

-- `enter_alloc`, where `end` is the end of the kernel image.
unfoldable pub enter_alloc : ℕ → Alloc
enter_alloc end m =
    let p = if m.pages.new_end == 0 then page_up end else m.pages.new_end in
    if leb (kbase + 0x400000) ((p + page_size) % 2 ^ 32)
    then none
    else some (p, fill p 0 (record m { pages = record m.pages { new_end = p + page_size } }))

-- The entry of a directory for the page table at `pte`.
unfoldable pub table_entry : ℕ → ℕ
table_entry pte = bit_or (bit_or (bit_or (v2p pte) pte_p) pte_w) pte_u

-- The page table that an entry of a directory leads to.
abbrev pub table_of : ℕ → ℕ
table_of pde = p2v (pte_addr pde)

-- `walkpgdir` with the answer of `alloc`.
unfoldable pub walk_new : ℕ → ℕ → ℕ × Vm → Option (ℕ × ℕ) × Vm
walk_new pgdir va (pte, m) =
    if pte == 0
    then (none, m)
    else (some (pte, ptx va), set_word pgdir (pdx va) (table_entry pte) (fill pte 0 m))

unfoldable pub walkpgdir : Option Alloc → ℕ → ℕ → Vm → Option (Option (ℕ × ℕ) × Vm)
walkpgdir alloc pgdir va m =
    if present (m.word pgdir (pdx va))
    then some (some (table_of (m.word pgdir (pdx va)), ptx va), m)
    else elim alloc [
      | none ↦ some (none, m)
      | some a ↦ elim (a m) [ none ↦ none | some r ↦ some (walk_new pgdir va r) ]
    ]

-- The body of the loop of `mappages` for one page, with what `walkpgdir` returns.
unfoldable pub map_slot : ℕ → ℕ → Option (ℕ × ℕ) × Vm → Option (Bool × Vm)
map_slot pa perm (none, m) = some (false, m)
map_slot pa perm (some (t, i), m) =
    if present (m.word t i)
    then none
    else some (true, set_word t i (bit_or (bit_or pa perm) pte_p) m)

unfoldable pub map_page : Option Alloc → ℕ → ℕ → ℕ → ℕ → Vm → Option (Bool × Vm)
map_page alloc pgdir a pa perm m = elim (walkpgdir alloc pgdir a m) [
  | none ↦ none
  | some r ↦ map_slot pa perm r
]

-- The loop of `mappages` from the page at `a`, with fuel.
unfoldable pub map_from : Option Alloc → ℕ → ℕ → ℕ → ℕ → ℕ → ℕ → Vm → Option (ℤ × Vm)
map_from alloc pgdir perm last zero a pa m = none
map_from alloc pgdir perm last (suc n) a pa m = elim (leb a last) [
  | false ↦ some (pos 0, m)
  | true ↦ elim (map_page alloc pgdir a pa perm m) [
    | none ↦ none
    | some r ↦ elim r.0 [
      | false ↦ some (minus_one, r.1)
      | true ↦ elim (leb 0xfffff000 a) [
        | true ↦ some (pos 0, r.1)
        | false ↦
            map_from alloc pgdir perm last n ((a + page_size) % 2 ^ 32) ((pa + page_size) % 2 ^ 32)
              r.1
      ]
    ]
  ]
]

-- One round for each page of the address space, and one for the last test.
abbrev pub map_fuel : ℕ
map_fuel = 1048577

unfoldable pub mappages : ℕ → ℕ → ℕ → ℕ → ℕ → Option Alloc → Vm → Option (ℤ × Vm)
mappages pgdir va size pa perm alloc m =
    map_from alloc pgdir perm (page_down ((va + size + 2 ^ 32 - 1) % 2 ^ 32)) map_fuel
      (page_down va) pa m

-- `struct kmap`.
pub record KMap : Type 0 where
  pub virt : ℕ
  pub phys_start : ℕ
  pub phys_end : ℕ
  pub perm : ℕ

-- The table `kmap`, where the kernel's data begin at `data`.
abbrev pub klink : ℕ
klink = 0x80100000

unfoldable pub kmap : ℕ → List KMap
kmap data_start =
    record { virt = p2v 0; phys_start = 0; phys_end = 0x100000; perm = pte_w }
    ∷ record { virt = klink; phys_start = v2p klink; phys_end = v2p data_start; perm = 0 }
    ∷ record { virt = data_start; phys_start = v2p data_start; phys_end = phys_top; perm = pte_w }
    ∷ record { virt = dev_space; phys_start = dev_space; phys_end = 0; perm = pte_w }
    ∷ []

-- The loop of `setupkvm`.
unfoldable pub map_kernel : List KMap → Alloc → ℕ → Vm → Option (ℕ × Vm)
map_kernel [] alloc pgdir m = some (pgdir, m)
map_kernel (k ∷ ks) alloc pgdir m =
    elim (mappages pgdir k.virt ((k.phys_end + 2 ^ 32 - k.phys_start) % 2 ^ 32) k.phys_start k.perm
      (some alloc) m) [
        | none ↦ none
        | some r ↦ if is_neg r.0 then some (0, r.1) else map_kernel ks alloc pgdir r.1
      ]

-- `setupkvm`; NULL is 0.
unfoldable pub setupkvm : ℕ → Alloc → Vm → Option (ℕ × Vm)
setupkvm data_start alloc m = elim (alloc m) [
  | none ↦ none
  | some r ↦
      if r.0 == 0
      then some (0, r.1)
      else if ltb dev_space (p2v phys_top)
      then none
      else map_kernel (kmap data_start) alloc r.0 (fill r.0 0 r.1)
]
