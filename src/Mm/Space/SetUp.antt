-- ===== src/Mm/Space/SetUp.antt =====
-- `setupkvm` of mm/vm.c, with the table `kmap`.
use jix.Base.{
  ℕ, ◌+◌, ◌-◌, ◌%◌, ◌^◌, ◌≤◌, ◌<◌, ◌≡◌, refl, sym, subst, ◌≢◌, true, false, ◌&&◌, List, [], ◌∷◌,
  arith, ltb, leb, ◌==◌, if◌then◌else◌, update, update_self, update-ne,
}
use jix.Mm.Pages.{page_size, kbase, phys_top, v2p, p2v, kalloc}
use jix.Mm.FreeList.{Chain, Apart, kalloc-cons}
use jix.Mm.Vm.{Vm, present, pte_w, page_down, kalloc1, KMap, klink, dev_space, kmap, setupkvm}
use jix.Mm.Space.{view, entry-absent, Frames, IsSpace, IsOwn}
use jix.Mm.Space.Walk.{kalloc1-nil, kalloc1-cons}
use jix.Mm.Space.Range.{entry_of}
use jix.Mm.Space.Entries.{entry_of-writable, entry_of-read_only, covers-range}
use jix.Mm.Space.Kernel.{
  size_of, covers, over_all, Fits, Means, Built, gave_up, Built-map, map_kernel-Built,
}

-- What the addresses mean where the kernel's data begin at `d`: the kernel's half is physical memory
-- shifted, its text cannot be written, and the devices are where they are.
unfoldable pub kernel_entry : ℕ → ℕ → ℕ
kernel_entry d q =
    if ltb q kbase
    then 0
    else if ltb q klink
    then page_down q - kbase + 3
    else if ltb q d
    then page_down q - kbase + 1
    else if ltb q (p2v phys_top)
    then page_down q - kbase + 3
    else if ltb q dev_space
    then 0
    else page_down q + 3

module _ (d : ℕ) (lo : klink < d) (hi : d < p2v phys_top) (al : d % page_size ≡ 0) where
  abbrev io : KMap
  io = record { virt = p2v 0; phys_start = 0; phys_end = 0x100000; perm = pte_w }

  abbrev text : KMap
  text = record { virt = klink; phys_start = v2p klink; phys_end = v2p d; perm = 0 }

  abbrev free_memory : KMap
  free_memory = record { virt = d; phys_start = v2p d; phys_end = phys_top; perm = pte_w }

  abbrev devices : KMap
  devices = record { virt = dev_space; phys_start = dev_space; phys_end = 0; perm = pte_w }

  in_io : (q : ℕ) → covers io q ≡ (leb kbase q && ltb q klink)
  in_io q = covers-range kbase 0x100000 q refl refl (omega arith)

  in_text : (q : ℕ) → covers text q ≡ (leb klink q && ltb q d)
  in_text q =
      let end : klink + size_of text ≡ d = omega arith in
      subst (λ e. covers text q ≡ (leb klink q && ltb q e)) end
        (covers-range klink (size_of text) q refl (omega arith) (omega arith))

  in_free : (q : ℕ) → covers free_memory q ≡ (leb d q && ltb q (p2v phys_top))
  in_free q =
      let end : d + size_of free_memory ≡ p2v phys_top = omega arith in
      subst (λ e. covers free_memory q ≡ (leb d q && ltb q e)) end
        (covers-range d (size_of free_memory) q al (omega arith) (omega arith))

  in_devices : (q : ℕ) → covers devices q ≡ (leb dev_space q && ltb q (2 ^ 32))
  in_devices q = covers-range dev_space 0x2000000 q refl refl (omega arith)

  kernel_entry_lem : (q : ℕ) → q < 2 ^ 32 → over_all (kmap d) (λ i. 0) q ≡ kernel_entry d q
  unfolding kmap kernel_entry
  kernel_entry_lem q lt =
      let e1 : kbase ≤ q → entry_of (p2v 0) 0 pte_w q ≡ page_down q - kbase + 3 =
        λ h. omega (arith, entry_of-writable kbase 0 q refl refl h) in
      let e2 : klink ≤ q → entry_of klink (v2p klink) 0 q ≡ page_down q - kbase + 1 =
        λ h. omega (arith, entry_of-read_only klink (v2p klink) q refl refl h) in
      let e3 : d ≤ q → entry_of d (v2p d) pte_w q ≡ page_down q - kbase + 3 =
        λ h. omega (arith, entry_of-writable d (v2p d) q al (omega arith) h) in
      let e4 : dev_space ≤ q → entry_of dev_space dev_space pte_w q ≡ page_down q + 3 =
        λ h. omega (arith, entry_of-writable dev_space dev_space q refl refl h) in
      rw (in_io q, in_text q, in_free q, in_devices q) (grind arith)

  -- Where a range is covered, the ranges before it are not.
  kmap-Fits : Fits (kmap d) (λ i. 0)
  unfolding kmap
  kmap-Fits =
      let size2 : size_of text ≡ d - klink = omega arith in
      let size3 : size_of free_memory ≡ p2v phys_top - d = omega arith in
      (
        refl,
        omega arith,
        omega arith,
        omega arith,
        λ q lt e. refl,
        (
          refl,
          omega arith,
          omega arith,
          omega arith,
          λ q lt e. rw (in_io q) (two q (rw (in_text q) at e)),
          (
            al,
            omega arith,
            omega arith,
            omega arith,
            λ q lt e. rw (in_io q, in_text q) (three q (rw (in_free q) at e)),
            (
              refl,
              omega arith,
              omega arith,
              omega arith,
              λ q lt e. rw (in_io q, in_text q, in_free q) (four q (rw (in_devices q) at e)),
              tt,
            ),
          ),
        ),
      )
    where
      two :
          (q : ℕ)
          → (leb klink q && ltb q d) ≡ true
          → present (if leb kbase q && ltb q klink then entry_of (p2v 0) 0 pte_w q else 0) ≡ false
      two q e = ground arith

      three :
          (q : ℕ)
          → (leb d q && ltb q (p2v phys_top)) ≡ true
          → present (
              if leb klink q && ltb q d
              then entry_of klink (v2p klink) 0 q
              else if leb kbase q && ltb q klink
              then entry_of (p2v 0) 0 pte_w q
              else 0)
            ≡ false
      three q e = ground arith

      four :
          (q : ℕ)
          → (leb dev_space q && ltb q (2 ^ 32)) ≡ true
          → present (
              if leb d q && ltb q (p2v phys_top)
              then entry_of d (v2p d) pte_w q
              else if leb klink q && ltb q d
              then entry_of klink (v2p klink) 0 q
              else if leb kbase q && ltb q klink
              then entry_of (p2v 0) 0 pte_w q
              else 0)
            ≡ false
      four q e = ground arith

  false-true : false ≡ true → ⊥
  false-true e = ground arith

  -- An empty directory on a page that was free.
  fresh-Space :
      (m : Vm) (x : ℕ) (xs : List ℕ)
      → Chain m.pages.next m.pages.free_list (x ∷ xs)
      → Frames xs
      → IsSpace (kalloc m.pages).1 (update m.word x (λ i. 0) x) x xs
  fresh-Space m x xs free frames =
      let (at, rest, new) = kalloc-cons m.pages x xs free in
      rw (update_self m.word x (λ i. 0)) (record {
        free = rest;
        frames = frames;
        dir = new;
        tables = λ i lt p. absurd (false-true p);
        single = λ i j li lj p. absurd (false-true p);
      })

  fresh-view : (m : Vm) (x q : ℕ) → view (update m.word x (λ i. 0)) x q ≡ 0
  unfolding view
  fresh-view m x q = rw (update_self m.word x (λ i. 0)) (entry-absent _ 0 q refl)

  -- `setupkvm` with `kalloc1` runs to its end. It returns a directory whose tables are its own, with
  -- nothing mapped below `KBASE`, the memory up to `PHYSTOP` above it, of which the kernel's text is
  -- read-only, and the devices in their place, and no other page that was not free has changed; or
  -- NULL, and then no page is free.
  pub setupkvm-Built :
      (m : Vm) (xs : List ℕ)
      → Chain m.pages.next m.pages.free_list xs
      → Frames xs
      → (pg : ℕ) × (pg ≢ 0) × Built (kernel_entry d) pg (λ p. Apart p xs) m (setupkvm d kalloc1 m)
  unfolding setupkvm
  setupkvm-Built m [] free frames =
      (kbase, omega arith, rw (kalloc1-nil m free, setupkvm) (gave_up m free))
  setupkvm-Built m (x ∷ xs) free frames =
      let nz : (x == 0) ≡ false = ground arith in
      let m1 : Vm = record m { pages = (kalloc m.pages).1; word = update m.word x (λ i. 0) } in
      let start : Means x (λ i. 0) m1 = λ q lt. fresh-view m x q in
      let done =
        map_kernel-Built (kmap d) (λ i. 0) x kmap-Fits m1 xs (fresh-Space m x xs free frames.1)
          start in
      (
        x,
        omega (arith, frames.0),
        rw (kalloc1-cons m x xs free, setupkvm, nz)
            (Built-map _ _ x _ _ m m1 _ kernel_entry_lem other done),
      )
    where
      other :
          (p : ℕ)
          → Apart p (x ∷ xs)
          → IsOwn (update m.word x (λ i. 0) x) x xs p × (update m.word x (λ i. 0) p ≡ m.word p)
      other p (ne, out) = (
        rw (update_self m.word x (λ i. 0))
            (record { not_dir = ne; not_free = out; not_table = λ i lt e. absurd (false-true e) }),
        update-ne m.word x p (λ i. 0) (λ e. ne (sym e)),
      )
