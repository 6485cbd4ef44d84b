-- ===== src/Mm/Space/Place.antt =====
-- A page that `kalloc1` hands out, filled and mapped for the user by `mappages`, as `allocuvm` and
-- `copyuvm` do.
use jix.Base.{
  ℕ, ◌+◌, ◌-◌, ◌*◌, ◌/◌, ◌%◌, ◌^◌, ◌≤◌, ◌<◌, ◌≡◌, refl, sym, ap, ◌∙◌, inl, inr, false, Option, some,
  List, [], ◌∷◌, arith, ◌==◌, Bool-cases, length, update, update_self, update-ne, ℤ, pos, minus_one,
  bit_or, bit_or-one, bit_or_six,
}
use jix.Mm.Pages.{page_size, v2p, kalloc}
use jix.Mm.FreeList.{kalloc-cons}
use jix.Mm.Vm.{Vm, present, pte_p, pte_w, pte_u, page_down, kalloc1, mappages, pdx, ptx}
use jix.Mm.Space.{view, entry-same, IsSpace, IsOwn, Keeps}
use jix.Mm.Space.Map.{Maps}
use jix.Mm.Space.Range.{Inside, Outside, entry_of, IsClear, Ranged, mapped, short}
use jix.Mm.Space.MapPages.{mappages-Ranged}

-- The memory with the contents `c` in the page `x` that has been taken from the free list.
abbrev pub taken : Vm → ℕ → (ℕ → ℕ) → Vm
taken m x c = record m { pages = (kalloc m.pages).1; word = update m.word x c }

-- The page `x` is mapped, as a user's page, for the page of `va`; or no page is left.
pub data Placed (pg va x : ℕ) (c : ℕ → ℕ) (m : Vm) (xs : List ℕ) : Option (ℤ × Vm) → Type 0 where
  placed :
      (m' : Vm) (ys : List ℕ)
      → IsSpace m'.pages (m'.word pg) pg ys
      → length xs ≤ length ys + 1
      → IsOwn (m'.word pg) pg ys x
      → m'.word x ≡ c
      → Maps pg va (v2p x + 7) m m'
      → Keeps pg m (x ∷ xs) m' ys
      → Placed pg va x c m xs (some (pos 0, m'))
  unplaced :
      (m' : Vm)
      → IsSpace m'.pages (m'.word pg) pg []
      → xs ≡ []
      → Placed pg va x c m xs (some (minus_one, m'))

module _ (pg : ℕ) (m : Vm) (x : ℕ) (xs : List ℕ) (c : ℕ → ℕ)
    (h : IsSpace m.pages (m.word pg) pg (x ∷ xs)) where
  taken-dir : (taken m x c).word pg ≡ m.word pg
  taken-dir = update-ne m.word x pg c (λ e. h.dir.0 (sym e))

  taken-IsOwn : IsOwn (m.word pg) pg xs x
  taken-IsOwn =
      let (at, rest, new) = kalloc-cons m.pages x xs h.free in
      record {
        not_dir = λ e. h.dir.0 (sym e);
        not_free = new;
        not_table = λ i lt p. (h.tables i lt p).1.0;
      }

  taken-Space : IsSpace (taken m x c).pages ((taken m x c).word pg) pg xs
  taken-Space =
      let (at, rest, new) = kalloc-cons m.pages x xs h.free in
      rw taken-dir (record {
        free = rest;
        frames = h.frames.1;
        dir = h.dir.1;
        tables = λ i lt p. let (a, b) = h.tables i lt p in (a, b.1);
        single = h.single;
      })

  taken-view : (q : ℕ) → view (taken m x c).word pg q ≡ view m.word pg q
  unfolding view
  taken-view q = rw taken-dir (
      entry-same _ m.word (m.word pg (pdx q)) q λ p.
        ap (λ (f : ℕ → ℕ). f (ptx q))
          (update-ne m.word x _ c (λ e. (h.tables (pdx q) (omega arith) p).1.0 (sym e))))

  taken-Keeps :
      (p : ℕ)
      → IsOwn (m.word pg) pg (x ∷ xs) p
      → IsOwn ((taken m x c).word pg) pg xs p × ((taken m x c).word p ≡ m.word p)
  taken-Keeps p own = (
    rw taken-dir
        (record { not_dir = own.not_dir; not_free = own.not_free.1; not_table = own.not_table }),
    update-ne m.word x p c (λ e. own.not_free.0 (sym e)),
  )

user_entry : (pa : ℕ) → pa % page_size ≡ 0 → bit_or (bit_or pa 6) pte_p ≡ pa + 7
user_entry pa al =
    let a = bit_or_six pa (omega arith) in let b = bit_or-one (bit_or pa 6) in omega arith

-- What `mappages` does for the one page of `va`.
pub mappages-Placed :
    (pg va : ℕ) (m : Vm) (x : ℕ) (xs : List ℕ) (c : ℕ → ℕ)
    → va < 2 ^ 32
    → va % page_size ≡ 0
    → ((q : ℕ) → q < 2 ^ 32 → q / page_size ≡ va / page_size → present (view m.word pg q) ≡ false)
    → IsSpace m.pages (m.word pg) pg (x ∷ xs)
    → Placed pg va x c m xs
        (mappages pg va page_size (v2p x) (bit_or pte_w pte_u) (some kalloc1) (taken m x c))
mappages-Placed pg va m x xs c lt al clear h =
    let one : (va + page_size - 1) / page_size - va / page_size + 1 ≡ 1 = omega arith in
    let low : page_down va ≡ va = omega arith in
    let empty : IsClear pg va 1 (taken m x c) =
      λ q l within. rw (taken-view pg m x xs c h q) (clear q l (omega arith)) in
    let ranged =
      mappages-Ranged pg va page_size (v2p x) 6 (taken m x c) xs (omega arith) (omega arith)
        (rw one (omega arith)) (rw (one, low) empty) (taken-Space pg m x xs c h) in
    go _ (rw (one, low) at ranged)
  where
    maps :
        (m' : Vm)
        → ((q : ℕ) → q < 2 ^ 32 → Inside va 1 q → view m'.word pg q ≡ entry_of va (v2p x) 6 q)
        → ((q : ℕ) → q < 2 ^ 32 → Outside va 1 q → view m'.word pg q ≡ view (taken m x c).word pg q)
        → Maps pg va (v2p x + 7) m m'
    maps m' all same q l = elim (Bool-cases (q / page_size == va / page_size)) [
      | inl e ↦
          let none_on : v2p x + (q / page_size - va / page_size) * page_size ≡ v2p x =
            ground arith in
          let entry : entry_of va (v2p x) 6 q ≡ v2p x + 7 =
            rw none_on (user_entry (v2p x) (omega arith)) in
          rw e (all q l (ground arith) ∙ entry)
      | inr ne ↦ rw ne (same q l (ground arith) ∙ taken-view pg m x xs c h q)
    ]

    go :
        (r : Option (ℤ × Vm))
        → Ranged pg va (v2p x) 6 1 (taken m x c) xs r
        → Placed pg va x c m xs r
    go _ (short m' h' few same keeps) = unplaced m' h' (shorter xs few)
      where
        shorter : (l : List ℕ) → length l < 1 → l ≡ []
        shorter [] lt = refl
        shorter (y ∷ l) lt = absurd (omega arith)
    go _ (mapped m' ys h' len all same keeps) =
        let (own, kept) = keeps x (rw (taken-dir pg m x xs c h) (taken-IsOwn pg m x xs c h)) in
        placed m' ys h' len own (kept ∙ update_self m.word x c) (maps m' all same) λ p free.
          let (own1, same1) = taken-Keeps pg m x xs c h p free in
          let (own2, same2) = keeps p own1 in (own2, same2 ∙ same1)
