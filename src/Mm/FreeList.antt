-- ===== src/Mm/FreeList.antt =====
-- The free pages of mm/vm.c as a list: what `kfree`, `kalloc` and `kallocinit` do to it.
use jix.Base.{
  ℕ, zero, suc, ◌+◌, ◌*◌, ◌%◌, ◌≤◌, ◌<◌, ◌≡◌, refl, ◌≢◌, true, false, some, List, [], ◌∷◌, arith,
  leb, ◌==◌, update,
}
use jix.Mm.Pages.{
  Pages, page_size, kbase, phys_top, p2v, v2p, kfree, kalloc, kalloc_init, kalloc_init_from,
  init_fuel,
}

-- `a` is none of the pages of the list.
abbrev pub Apart : ℕ → List ℕ → Type 0
Apart a [] = Unit {0}
Apart a (x ∷ xs) = (a ≢ x) × Apart a xs

-- From `p` the `next` words lead through the distinct pages of the list to NULL.
abbrev pub Chain : (ℕ → ℕ) → ℕ → List ℕ → Type 0
Chain next p [] = p ≡ 0
Chain next p (x ∷ xs) = (p ≡ x) × (p ≢ 0) × Apart p xs × Chain next (next p) xs

-- A page that `kfree` accepts, as its three tests have it.
pub record IsPage (g : Pages) (v : ℕ) : Type 0 where
  pub aligned : v % page_size ≡ 0
  pub above : g.new_end ≤ v
  pub below : v2p v ≤ phys_top

abbrev pub IsFree : Pages → List ℕ → Type 0
IsFree g xs = Chain g.next g.free_list xs

-- Writing the link of a page outside the list leaves the list alone.
Chain-update :
    (next : ℕ → ℕ) (v w p : ℕ) (xs : List ℕ)
    → Apart v xs
    → Chain next p xs
    → Chain (update next v w) p xs
Chain-update next v w p [] out h = h
Chain-update next v w p (x ∷ xs) (ne, out) (at, nz, new, rest) =
    let same : update next v w p ≡ next p = ground arith in
    (at, nz, new, rw same (Chain-update next v w (next p) xs out rest))

pub kfree_accepts :
    (v : ℕ) (g : Pages)
    → IsPage g v
    → kfree v g ≡ some (record g { next = update g.next v g.free_list; free_list = v })
unfolding kfree
kfree_accepts v g h = ground arith

-- `kfree` of a page that is not free puts it in front of the free list.
pub kfree-IsFree :
    (v : ℕ) (g : Pages) (xs : List ℕ)
    → v ≢ 0
    → IsPage g v
    → Apart v xs
    → IsFree g xs
    → (h : Pages) × (kfree v g ≡ some h) × IsFree h (v ∷ xs)
unfolding kfree
kfree-IsFree v g xs nz ok out h =
    let top : update g.next v g.free_list v ≡ g.free_list = ground arith in
    (
      record g { next = update g.next v g.free_list; free_list = v },
      kfree_accepts v g ok,
      (refl, nz, out, rw top (Chain-update g.next v g.free_list g.free_list xs out h)),
    )

-- `kalloc` takes the first free page, or returns NULL when there is none.
pub kalloc-cons :
    (g : Pages) (x : ℕ) (xs : List ℕ)
    → IsFree g (x ∷ xs)
    → ((kalloc g).0 ≡ x) × IsFree (kalloc g).1 xs × Apart x xs
unfolding kalloc
kalloc-cons g x xs (at, nz, out, rest) =
    let full : (g.free_list == 0) ≡ false = ground arith in rw full (at, rest, rw at at out)

pub kalloc-nil : (g : Pages) → IsFree g [] → kalloc g ≡ (0, g)
unfolding kalloc
kalloc-nil g e = ground arith

-- A page that `kfree` accepts, is not at NULL and was not free is, once freed, the next one that
-- `kalloc` hands out, and the pages that were free still are.
kalloc-kfree :
    (v : ℕ) (g : Pages) (xs : List ℕ)
    → v ≢ 0
    → IsPage g v
    → Apart v xs
    → IsFree g xs
    → (h : Pages) × (kfree v g ≡ some h) × ((kalloc h).0 ≡ v) × IsFree (kalloc h).1 xs
kalloc-kfree v g xs nz ok out free =
    let (h, e, all) = kfree-IsFree v g xs nz ok out free in
    let (at, rest, apart) = kalloc-cons h v xs all in (h, e, at, rest)

-- The pages that `kallocinit` has freed when it has gone `n` pages on from `p`.
abbrev pub pages_from : ℕ → ℕ → List ℕ → List ℕ
pages_from zero p xs = xs
pages_from (suc n) p xs = pages_from n (p + page_size) (p ∷ xs)

-- All pages of the list lie below `p`.
abbrev Below : ℕ → List ℕ → Type 0
Below p [] = Unit {0}
Below p (x ∷ xs) = (x + page_size ≤ p) × Below p xs

Below-Apart : (p : ℕ) (xs : List ℕ) → Below p xs → Apart p xs
Below-Apart p [] h = tt
Below-Apart p (x ∷ xs) (lt, h) = (omega arith, Below-Apart p xs h)

Below-mono : (p : ℕ) (xs : List ℕ) → Below p xs → Below (p + page_size) xs
Below-mono p [] h = tt
Below-mono p (x ∷ xs) (lt, h) = (omega arith, Below-mono p xs h)

-- The loop of `kallocinit` with `n` pages left below the top.
kalloc_init_from-IsFree :
    (fuel n p : ℕ) (g : Pages) (xs : List ℕ)
    → n < fuel
    → p + n * page_size ≡ p2v phys_top
    → kbase ≤ p
    → p % page_size ≡ 0
    → g.new_end ≤ p
    → Below p xs
    → IsFree g xs
    → (h : Pages) × (kalloc_init_from fuel p g ≡ some h) × IsFree h (pages_from n p xs)
unfolding kalloc_init_from
kalloc_init_from-IsFree zero n p g xs f e lo al ne below free = absurd (omega arith)
kalloc_init_from-IsFree (suc f) zero p g xs lt e lo al ne below free =
    let stop : leb (p + page_size) (p2v phys_top) ≡ false = ground arith in
    rw (stop, kalloc_init_from) (g, refl, free)
kalloc_init_from-IsFree (suc f) (suc n) p g xs lt e lo al ne below free =
    let ok : IsPage g p = omega arith in
    let go : leb (p + page_size) (p2v phys_top) ≡ true = ground arith in
    let g' : Pages = record g { next = update g.next p g.free_list; free_list = p } in
    let top : update g.next p g.free_list p ≡ g.free_list = ground arith in
    let out = Below-Apart p xs below in
    rw (go, kfree_accepts p g ok, kalloc_init_from)
      (kalloc_init_from-IsFree f n (p + page_size) g' (p ∷ xs) (omega arith) (omega arith)
        (omega arith) (omega arith) (omega arith) (omega arith, Below-mono p xs below)
        (
          refl,
          omega arith,
          out,
          rw top (Chain-update g.next p g.free_list g.free_list xs out free),
        ))

-- `kallocinit` ends, without a panic, with every whole page from the end of the kernel image up to
-- the top of physical memory on the free list, the highest first, each once; this holds of an image
-- that ends at a page boundary in the kernel's half of the address space and an empty free list.
pub kalloc_init_lem :
    (n : ℕ) (g : Pages)
    → g.free_list ≡ 0
    → kbase ≤ g.new_end
    → g.new_end % page_size ≡ 0
    → g.new_end + n * page_size ≡ p2v phys_top
    → (h : Pages) × (kalloc_init g ≡ some h) × IsFree h (pages_from n g.new_end [])
unfolding kalloc_init
kalloc_init_lem n g empty lo al e =
    kalloc_init_from-IsFree init_fuel n g.new_end g [] (omega arith) e lo al (omega arith) tt empty
