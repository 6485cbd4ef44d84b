-- ===== src/Mm/Space/Map.antt =====
-- One page of the loop of `mappages` of mm/vm.c.
use jix.Base.{
  ℕ, ◌+◌, ◌/◌, ◌^◌, ◌≤◌, ◌<◌, ◌≡◌, refl, sym, ap, ◌∙◌, subst, ◌≢◌, inl, inr, Bool, true, false,
  Option, none, some, List, [], arith, ◌==◌, if◌then◌else◌, Bool-cases, length, update, update_self,
  update-ne, bit_or,
}
use jix.Mm.Pages.{Pages, page_size}
use jix.Mm.Vm.{Vm, pdx, ptx, present, pte_p, table_of, kalloc1, walkpgdir, map_slot, map_page}
use jix.Mm.Space.{
  view, entry, entry-present, entry-same, IsSpace, IsOwn, Keeps, same_page, other_page,
}
use jix.Mm.Space.Walk.{Walked, found, full, walkpgdir-Walked}

unfoldable written : (ℕ → ℕ → ℕ) → ℕ → ℕ → ℕ → ℕ → ℕ → ℕ
written t tb i w = update t tb (update (t tb) i w)

module _ (t : ℕ → ℕ → ℕ) (pg va w : ℕ) (g : Pages) (xs : List ℕ) (h : IsSpace g (t pg) pg xs)
    (in_range : va < 2 ^ 32) (here : present (t pg (pdx va)) ≡ true) where
  abbrev tb : ℕ
  tb = table_of (t pg (pdx va))

  written-dir : written t tb (ptx va) w pg ≡ t pg
  unfolding written
  written-dir = update-ne t tb pg _ (h.tables (pdx va) (omega arith) here).0

  written-Space : IsSpace g (written t tb (ptx va) w pg) pg xs
  written-Space = subst (λ d. IsSpace g d pg xs) (sym written-dir) h

  written-slot :
      (q : ℕ) → written t tb (ptx va) w tb (ptx q) ≡ (if ptx q == ptx va then w else t tb (ptx q))
  unfolding written
  written-slot q =
      ap (λ (f : ℕ → ℕ). f (ptx q)) (update_self t tb (update (t tb) (ptx va) w)) ∙ ground arith

  written-other : (p : ℕ) → tb ≢ p → written t tb (ptx va) w p ≡ t p
  unfolding written
  written-other p ne = update-ne t tb p _ ne

  written-view :
      (q : ℕ)
      → q < 2 ^ 32
      → view (written t tb (ptx va) w) pg q
        ≡ (if q / page_size == va / page_size then w else view t pg q)
  unfolding view
  written-view q lt = elim (Bool-cases (pdx q == pdx va)) [
    | inl e ↦
        let e' : pdx q ≡ pdx va = ground arith in
        let old = entry-present t (t pg (pdx va)) q here in
        rw (written-dir, e', ← same_page q va lt in_range e', old)
          (entry-present (written t tb (ptx va) w) (t pg (pdx va)) q here ∙ written-slot q)
    | inr ne ↦
        rw (written-dir, other_page q va ne)
          (entry-same _ t (t pg (pdx q)) q λ p.
            ap (λ (f : ℕ → ℕ). f (ptx q))
              (written-other (table_of (t pg (pdx q)))
                (h.single (pdx va) (pdx q) (omega arith) (omega arith) here p (ground arith))))
  ]

  written-Keeps :
      (p : ℕ)
      → IsOwn (t pg) pg xs p
      → IsOwn (written t tb (ptx va) w pg) pg xs p × (written t tb (ptx va) w p ≡ t p)
  written-Keeps p own = (
    subst (λ d. IsOwn d pg xs p) (sym written-dir) own,
    written-other p (own.not_table (pdx va) (omega arith) here),
  )

-- The memory `m'` has the entry `pte` for the page of `va`, and is otherwise as `m`.
abbrev pub Maps : ℕ → ℕ → ℕ → Vm → Vm → Type 0
Maps pg va pte m m' =
    (q : ℕ)
    → q < 2 ^ 32
    → view m'.word pg q ≡ (if q / page_size == va / page_size then pte else view m.word pg q)

-- What one page of `mappages` does where the address has no entry: it is mapped, or no page is free.
pub data Mapped (pg va pte : ℕ) (m : Vm) (xs : List ℕ) : Option (Bool × Vm) → Type 0 where
  done :
      (m' : Vm) (ys : List ℕ)
      → IsSpace m'.pages (m'.word pg) pg ys
      → length xs ≤ length ys + 1
      → Maps pg va pte m m'
      → Keeps pg m xs m' ys
      → Mapped pg va pte m xs (some (true, m'))
  out_of_pages : xs ≡ [] → Mapped pg va pte m xs (some (false, m))

map_slot-Mapped :
    (pg va pa perm : ℕ) (m : Vm) (xs : List ℕ) (r : Option (Option (ℕ × ℕ) × Vm))
    → va < 2 ^ 32
    → present (view m.word pg va) ≡ false
    → Walked pg va m xs r
    → Mapped pg va
        (bit_or (bit_or pa perm) pte_p)
        m
        xs
        (elim r [ none ↦ none | some s ↦ map_slot pa perm s ])
unfolding map_slot written view
map_slot-Mapped pg va pa perm m xs _ lt absent (full e) = out_of_pages e
map_slot-Mapped pg va pa perm m xs _ lt absent (found m' ys h len here same keeps) =
    let pte = bit_or (bit_or pa perm) pte_p in
    let at : view m'.word pg va ≡ m'.word (table_of (m'.word pg (pdx va))) (ptx va) =
      entry-present m'.word (m'.word pg (pdx va)) va here in
    let empty : present (m'.word (table_of (m'.word pg (pdx va))) (ptx va)) ≡ false =
      rw (← at, same va) absent in
    rw empty (
      done _ ys (written-Space m'.word pg va pte m'.pages ys h lt here) len
        (λ q low. rw (← same q) (written-view m'.word pg va pte m'.pages ys h lt here q low))
        λ p own.
          let (own1, kept) = keeps p own in
          let (own2, kept') = written-Keeps m'.word pg va pte m'.pages ys h lt here p own1 in
          (own2, kept' ∙ kept))

pub map_page-Mapped :
    (pg va pa perm : ℕ) (m : Vm) (xs : List ℕ)
    → va < 2 ^ 32
    → present (view m.word pg va) ≡ false
    → IsSpace m.pages (m.word pg) pg xs
    → Mapped pg va (bit_or (bit_or pa perm) pte_p) m xs (map_page (some kalloc1) pg va pa perm m)
unfolding map_page
map_page-Mapped pg va pa perm m xs lt absent h =
    map_slot-Mapped pg va pa perm m xs _ lt absent (walkpgdir-Walked pg va m xs h)

-- A page that is mapped already makes `mappages` panic.
pub map_page-none :
    (pg va pa perm : ℕ) (m : Vm)
    → present (view m.word pg va) ≡ true
    → map_page (some kalloc1) pg va pa perm m ≡ none
unfolding map_page walkpgdir map_slot view entry
map_page-none pg va pa perm m mapped = elim (Bool-cases (present (m.word pg (pdx va)))) [
  | inl p ↦
      let slot : present (m.word (table_of (m.word pg (pdx va))) (ptx va)) ≡ true =
        rw p at mapped in
      rw (p, map_page, slot) refl
  | inr absent ↦ let no : false ≡ true = rw absent at mapped in absurd (ground arith)
]
