-- ===== src/Mm/Space/Entries.antt =====
-- The entries and the addresses of one range of `kmap` of mm/vm.c, in numbers.
use jix.Base.{
  ℕ, ◌+◌, ◌-◌, ◌*◌, ◌/◌, ◌%◌, ◌≤◌, ◌<◌, ◌≡◌, refl, inl, inr, ◌&&◌, arith, ltb, leb, Bool-cases,
  bit_or, bit_or-zero, bit_or-one, bit_or_two,
}
use jix.Mm.Pages.{page_size}
use jix.Mm.Vm.{pte_p, pte_w, page_down}
use jix.Mm.Space.Range.{entry_of}

writable : (pa : ℕ) → pa % page_size ≡ 0 → bit_or (bit_or pa pte_w) pte_p ≡ pa + 3
writable pa al = let a = bit_or_two pa in let b = bit_or-one (bit_or pa 2) in omega arith

read_only : (pa : ℕ) → pa % page_size ≡ 0 → bit_or (bit_or pa 0) pte_p ≡ pa + 1
read_only pa al = let a = bit_or-zero pa in let b = bit_or-one (bit_or pa 0) in omega arith

pub entry_of-writable :
    (v pa q : ℕ)
    → v % page_size ≡ 0
    → pa % page_size ≡ 0
    → v ≤ q
    → entry_of v pa pte_w q ≡ pa + (page_down q - v) + 3
entry_of-writable v pa q va pal le =
    let off : (q / page_size - v / page_size) * page_size ≡ page_down q - v = omega arith in
    rw off (writable (pa + (page_down q - v)) (omega arith))

pub entry_of-read_only :
    (v pa q : ℕ)
    → v % page_size ≡ 0
    → pa % page_size ≡ 0
    → v ≤ q
    → entry_of v pa 0 q ≡ pa + (page_down q - v) + 1
entry_of-read_only v pa q va pal le =
    let off : (q / page_size - v / page_size) * page_size ≡ page_down q - v = omega arith in
    rw off (read_only (pa + (page_down q - v)) (omega arith))

pub covers-range :
    (v n q : ℕ)
    → v % page_size ≡ 0
    → n % page_size ≡ 0
    → 0 < n
    → (leb (v / page_size) (q / page_size)
        && ltb (q / page_size) (v / page_size + ((v + n - 1) / page_size - v / page_size + 1)))
      ≡ (leb v q && ltb q (v + n))
covers-range v n q av an nz =
    let count : v / page_size + ((v + n - 1) / page_size - v / page_size + 1)
        ≡ (v + n) / page_size =
      omega arith in
    let low : leb (v / page_size) (q / page_size) ≡ leb v q = elim (Bool-cases (leb v q)) [
      | inl e ↦ ground arith
      | inr e ↦ ground arith
    ] in
    let high : ltb (q / page_size) ((v + n) / page_size) ≡ ltb q (v + n) =
      elim (Bool-cases (ltb q (v + n))) [ inl e ↦ ground arith | inr e ↦ ground arith ] in
    rw (count, low, high) refl
