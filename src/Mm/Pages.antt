-- ===== src/Mm/Pages.antt =====
-- The allocator of physical pages of mm/vm.c: a stack of free pages, linked through the first word
-- of each page. Addresses are `u32`, and 0 is NULL.
use jix.Base.{
  ℕ, zero, suc, ◌+◌, ◌-◌, ◌%◌, ◌^◌, Bool, true, false, not, ◌||◌, Option, none, some, ltb, leb,
  ◌==◌, if◌then◌else◌, update,
}

abbrev pub page_size : ℕ
page_size = 4096

abbrev pub kbase : ℕ
kbase = 0x80000000

abbrev pub phys_top : ℕ
phys_top = 0x0E000000

-- `V2P` and `P2V`, on `u32`.
abbrev pub v2p : ℕ → ℕ
v2p a = (a + 2 ^ 32 - kbase) % 2 ^ 32

abbrev pub p2v : ℕ → ℕ
p2v a = (a + kbase) % 2 ^ 32

-- `kfreelist`, `newend`, and `next` of the page at each address.
pub record Pages : Type 0 where
  pub free_list : ℕ
  pub new_end : ℕ
  pub next : ℕ → ℕ

-- The test at the head of `kfree` and `kfree1`.
abbrev pub bad_page : Pages → ℕ → Bool
bad_page g v = not (v % page_size == 0) || (ltb v g.new_end || ltb phys_top (v2p v))

-- `kfree` and `kfree1`; `none` is the panic.
unfoldable pub kfree : ℕ → Pages → Option Pages
kfree v g =
    if bad_page g v
    then none
    else some (record g { next = update g.next v g.free_list; free_list = v })

-- `kalloc` and `kalloc1`; the address 0 is NULL.
unfoldable pub kalloc : Pages → ℕ × Pages
kalloc g =
    if g.free_list == 0
    then (g.free_list, g)
    else (g.free_list, record g { free_list = g.next g.free_list })

-- `kallocinit`: the loop from `p` on, with fuel.
unfoldable pub kalloc_init_from : ℕ → ℕ → Pages → Option Pages
unfolding kfree
kalloc_init_from zero p g = none
kalloc_init_from (suc n) p g = elim (leb (p + page_size) (p2v phys_top)) [
  | true ↦ elim (kfree p g) [ none ↦ none | some g' ↦ kalloc_init_from n (p + page_size) g' ]
  | false ↦ some g
]

-- One round for each page below the top of memory, and one for the last test.
abbrev pub init_fuel : ℕ
init_fuel = 57345

unfoldable pub kalloc_init : Pages → Option Pages
unfolding kalloc_init_from
kalloc_init g = kalloc_init_from init_fuel g.new_end g
