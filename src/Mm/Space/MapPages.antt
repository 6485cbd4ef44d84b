-- ===== src/Mm/Space/MapPages.antt =====
-- `mappages` of mm/vm.c.
use jix.Base.{ℕ, ◌+◌, ◌-◌, ◌*◌, ◌/◌, ◌%◌, ◌^◌, ◌≤◌, ◌<◌, ◌≡◌, true, none, some, List, arith}
use jix.Mm.Pages.{page_size}
use jix.Mm.Vm.{Vm, present, page_down, kalloc1, map_fuel, mappages}
use jix.Mm.Space.{view, IsSpace}
use jix.Mm.Space.Range.{IsClear, Ranged}
use jix.Mm.Space.Loop.{map_from-Ranged, map_from-none}

-- `mappages` with `kalloc1`, for a range that ends within the address space and has no page mapped
-- yet, either maps every page of the range to the page that corresponds to it from `pa` on and
-- leaves every other address as it was, or returns -1 because no page is free, which cannot happen
-- with as many free pages as the range has, and then no address outside the range has changed.
pub mappages-Ranged :
    (pg va size pa perm : ℕ) (m : Vm) (xs : List ℕ)
    → 0 < size
    → va + size ≤ 2 ^ 32
    → pa + ((va + size - 1) / page_size - va / page_size + 1) * page_size ≤ 2 ^ 32
    → IsClear pg (page_down va) ((va + size - 1) / page_size - va / page_size + 1) m
    → IsSpace m.pages (m.word pg) pg xs
    → Ranged pg
        (page_down va)
        pa
        perm
        ((va + size - 1) / page_size - va / page_size + 1)
        m
        xs
        (mappages pg va size pa perm (some kalloc1) m)
unfolding mappages
mappages-Ranged pg va size pa perm m xs nz hi fit clear h =
    let end : (va + size + 2 ^ 32 - 1) % 2 ^ 32 ≡ va + size - 1 = omega arith in
    rw (mappages, end)
      (map_from-Ranged map_fuel _ pg perm (page_down (va + size - 1)) (omega arith) (omega arith)
        (page_down va) pa m xs (omega arith) (omega arith) (omega arith) fit clear h)

-- `mappages` panics where the first page of the range is mapped already.
pub mappages-none :
    (pg va size pa perm : ℕ) (m : Vm)
    → 0 < size
    → va + size ≤ 2 ^ 32
    → present (view m.word pg (page_down va)) ≡ true
    → mappages pg va size pa perm (some kalloc1) m ≡ none
unfolding mappages
mappages-none pg va size pa perm m nz hi there =
    let end : (va + size + 2 ^ 32 - 1) % 2 ^ 32 ≡ va + size - 1 = omega arith in
    rw (mappages, end)
      (map_from-none map_fuel pg perm _ (page_down va) pa m (omega arith) (omega arith) there)
