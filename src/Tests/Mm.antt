-- ===== src/Tests/Mm.antt =====
-- Tests of the allocator of pages.
use jix.Base.{◌≡◌, refl, some, [], arith}
use jix.Mm.Pages.{Pages, kalloc_init}
use jix.Mm.FreeList.{IsFree, pages_from, kalloc_init_lem}
use jix.Tests.Data.{no_pages}

kalloc_init_lem_example :
    (h : Pages) × (kalloc_init no_pages ≡ some h) × IsFree h (pages_from 3 0x8DFFD000 [])
kalloc_init_lem_example = kalloc_init_lem 3 no_pages refl (omega arith) (omega arith) (omega arith)
