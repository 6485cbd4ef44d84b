-- ===== src/Mm/Space/Loop.antt =====
-- The loop of `mappages` of mm/vm.c.
use jix.Base.{
  ℕ, zero, suc, ◌+◌, ◌*◌, ◌%◌, ◌^◌, ◌≤◌, ◌<◌, ◌≡◌, refl, inl, inr, Bool, true, false, Option, none,
  some, List, arith, leb, ◌==◌, Bool-cases, ℤ, pos, minus_one, bit_or,
}
use jix.Mm.Pages.{page_size}
use jix.Mm.Vm.{Vm, present, pte_p, kalloc1, map_from}
use jix.Mm.Space.{view, IsSpace}
use jix.Mm.Space.Map.{Maps, Mapped, done, out_of_pages, map_page-Mapped, map_page-none}
use jix.Mm.Space.Range.{IsClear, Ranged, short, Maps-there, Ranged-suc, Ranged-zero, Ranged-any}

-- The end of a round of the loop, where `top` tells whether it is the last page of all.
abbrev next_round : ℕ → ℕ → ℕ → ℕ → ℕ → ℕ → Vm → Bool → Option (ℤ × Vm)
next_round pg perm last f a pa m true = some (pos 0, m)
next_round pg perm last f a pa m false =
    map_from (some kalloc1) pg perm last f ((a + page_size) % 2 ^ 32) ((pa + page_size) % 2 ^ 32) m

-- What the loop does with `n` pages left.
abbrev LoopMaps : ℕ → ℕ → ℕ → ℕ → ℕ → Type 0
LoopMaps f n pg perm last =
    (a pa : ℕ) (m : Vm) (xs : List ℕ)
    → a + n * page_size ≡ last + page_size
    → a < 2 ^ 32
    → a % page_size ≡ 0
    → pa + n * page_size ≤ 2 ^ 32
    → IsClear pg a n m
    → IsSpace m.pages (m.word pg) pg xs
    → Ranged pg a pa perm n m xs (map_from (some kalloc1) pg perm last f a pa m)

pub map_from-Ranged :
    (fuel n pg perm last : ℕ) → n < fuel → last < 2 ^ 32 → LoopMaps fuel n pg perm last
unfolding map_from
map_from-Ranged zero n pg perm last f hi a pa m xs e lt al fit clear h = absurd (omega arith)
map_from-Ranged (suc f) zero pg perm last lf hi a pa m xs e lt al fit clear h =
    let stop : leb a last ≡ false = ground arith in
    rw (stop, map_from) (Ranged-zero pg a pa perm m xs h)
map_from-Ranged (suc f) (suc n) pg perm last lf hi a pa m xs e lt al fit clear h =
    let rec = map_from-Ranged f n pg perm last (omega arith) hi in
    let on : leb a last ≡ true = ground arith in
    rw (on, map_from)
      (round rec _ (map_page-Mapped pg a pa perm m xs lt (clear a lt (omega arith)) h))
  where
    no_wrap :
        {m1 : Vm} {ys : List ℕ} (r : Option (ℤ × Vm))
        → Ranged pg (a + page_size) ((pa + page_size) % 2 ^ 32) perm n m1 ys r
        → Ranged pg (a + page_size) (pa + page_size) perm n m1 ys r
    no_wrap r done_so = elim (Bool-cases (n == 0)) [
      | inl e ↦
          let e' : n ≡ 0 = ground arith in
          rw e' (Ranged-any pg (a + page_size) _ (pa + page_size) perm _ _ r (rw e' at done_so))
      | inr ne ↦
          let same : (pa + page_size) % 2 ^ 32 ≡ pa + page_size = ground arith in rw same at done_so
    ]

    after :
        LoopMaps f n pg perm last
        → (m1 : Vm) (ys : List ℕ) → IsSpace m1.pages (m1.word pg) pg ys
        → Maps pg a (bit_or (bit_or pa perm) pte_p) m m1
        → Ranged pg
            (a + page_size)
            (pa + page_size)
            perm
            n
            m1
            ys
            (next_round pg perm last f a pa m1 (leb 0xfffff000 a))
    after rec m1 ys h1 first = elim (Bool-cases (leb 0xfffff000 a)) [
      | inl top ↦
          let no_more : n ≡ 0 = ground arith in
          rw (top, no_more) (Ranged-zero pg (a + page_size) (pa + page_size) perm m1 ys h1)
      | inr low ↦
          let fits : a + page_size < 2 ^ 32 = ground arith in
          let there : (a + page_size) % 2 ^ 32 ≡ a + page_size = omega arith in
          let rest : IsClear pg (a + page_size) n m1 = λ q l within.
            rw (Maps-there pg a _ q m m1 first l (omega arith)) (clear q l (omega arith)) in
          let tail =
            rec (a + page_size) ((pa + page_size) % 2 ^ 32) m1 ys (omega arith) fits (omega arith)
              (omega arith) rest h1 in
          rw (low, there) (no_wrap _ tail)
    ]

    round :
        LoopMaps f n pg perm last
        → (r : Option (Bool × Vm)) → Mapped pg a (bit_or (bit_or pa perm) pte_p) m xs r
        → Ranged pg a pa perm (suc n) m xs (elim r [
          | none ↦ none
          | some s ↦ elim s.0 [
            | false ↦ some (minus_one, s.1)
            | true ↦ elim (leb 0xfffff000 a) [
              | true ↦ some (pos 0, s.1)
              | false ↦
                  map_from
                    (some kalloc1)
                    pg
                    perm
                    last
                    f
                    ((a + page_size) % 2 ^ 32)
                    ((pa + page_size) % 2 ^ 32)
                    s.1
            ]
          ]
        ])
    round rec _ (out_of_pages no_page) =
        short m (rw no_page at h) (rw no_page (omega arith)) (λ q l out. refl)
          (λ p own. (rw no_page at own, refl))
    round rec _ (done m1 ys h1 len first keeps) =
        Ranged-suc pg a pa perm n m m1 xs ys _ len first keeps (after rec m1 ys h1 first)

pub map_from-none :
    (fuel pg perm last a pa : ℕ) (m : Vm)
    → 0 < fuel
    → a ≤ last
    → present (view m.word pg a) ≡ true
    → map_from (some kalloc1) pg perm last fuel a pa m ≡ none
unfolding map_from
map_from-none zero pg perm last a pa m f le there = absurd (omega arith)
map_from-none (suc f) pg perm last a pa m lf le there =
    let on : leb a last ≡ true = ground arith in
    rw (on, map_from, map_page-none pg a pa perm m there) refl
