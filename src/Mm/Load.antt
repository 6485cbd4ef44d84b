-- ===== src/Mm/Load.antt =====
-- `loaduvm` of mm/exec.c, and the stores that `do_exec` makes in the pages of a program. `none` is a
-- panic.
use jix.Base.{
  ℕ, zero, suc, ◌+◌, ◌-◌, ◌*◌, ◌/◌, ◌%◌, ◌^◌, min, Bool, true, false, not, Option, none, some, List,
  [], ◌∷◌, ltb, ◌==◌, if◌then◌else◌, get_elem?, ℤ, pos, negsuc, is_neg,
}
use jix.Mm.Pages.{page_size, p2v}
use jix.Mm.Vm.{Vm, pte_addr, page_down, walkpgdir, set_word}

-- `open`, `read`, `seek` and `close` of the file system; `read` also gives the bytes that it stores.
pub record Files (F : Type 0) : Type 0 where
  pub open_file : List ℕ → F → ℤ × F
  pub read : ℤ → ℕ → F → (ℤ × List ℕ) × F
  pub seek : ℤ → ℕ → F → ℤ × F
  pub close : ℤ → F → F

-- Byte `k` of a word replaced.
abbrev pub with_byte : ℕ → ℕ → ℕ → ℕ
with_byte w k c = w - w / 256 ^ k % 256 * 256 ^ k + c * 256 ^ k

-- A store of a byte, and of a word, at a kernel address.
abbrev pub put_byte : ℕ → ℕ → Vm → Vm
put_byte a c m =
    let page = page_down a in
    let i = a % page_size / 4 in set_word page i (with_byte (m.word page i) (a % 4) c) m

unfoldable pub put_bytes : ℕ → List ℕ → Vm → Vm
put_bytes a [] m = m
put_bytes a (c ∷ cs) m = put_bytes (a + 1) cs (put_byte a c m)

unfoldable pub put_words : ℕ → List ℕ → Vm → Vm
put_words a [] m = m
put_words a (w ∷ ws) m = put_words (a + 4) ws (set_word (page_down a) (a % page_size / 4) w m)

-- A little-endian field of a structure that has been read.
abbrev pub byte_at : List ℕ → ℕ → ℕ
byte_at cs i = elim (get_elem? cs i) [ none ↦ 0 | some c ↦ c ]

abbrev pub u32_at : List ℕ → ℕ → ℕ
u32_at cs i =
    byte_at cs i
    + byte_at cs (i + 1) * 256
    + byte_at cs (i + 2) * 256 ^ 2
    + byte_at cs (i + 3) * 256 ^ 3

-- The memory with the files.
pub record Loading (F : Type 0) : Type 0 where
  pub vm : Vm
  pub files : F

abbrev pub is_count : ℤ → ℕ → Bool
is_count (pos a) n = a == n
is_count (negsuc a) n = false

module _ {F : Type 0} (ops : Files F) where
  -- `read(fd, dst, n) != n`, with the bytes stored at the kernel address `dst`.
  abbrev pub read_to : ℤ → ℕ → ℕ → Loading F → Bool × Loading F
  read_to fd dst n s =
      let (r, fs) = ops.read fd n s.files in
      (is_count r.0 n, record { vm = put_bytes dst r.1 s.vm; files = fs })

  abbrev pub seek_to : ℤ → ℕ → Loading F → Bool × Loading F
  seek_to fd off s =
      let (r, fs) = ops.seek fd off s.files in (not (is_neg r), record s { files = fs })

  -- The loop of `loaduvm`, with fuel; `false` is the result -1.
  unfoldable pub load_from : ℕ → ℕ → ℕ → ℤ → ℕ → ℕ → ℕ → Loading F → Option (Bool × Loading F)
  load_from zero pgdir addr fd off sz i s = none
  load_from (suc k) pgdir addr fd off sz i s = elim (ltb i sz) [
    | false ↦ some (true, s)
    | true ↦ elim (walkpgdir none pgdir ((addr + i) % 2 ^ 32) s.vm) [
      | none ↦ none
      | some w ↦ elim w.0 [
        | none ↦ none
        | some pte ↦
            let pa = pte_addr (s.vm.word pte.0 pte.1) in
            let sought = seek_to fd ((off + i) % 2 ^ 32) s in
            let got = read_to fd (p2v pa) (min (sz - i) page_size) sought.1 in
            elim sought.0 [
              | false ↦ some (false, sought.1)
              | true ↦ elim got.0 [
                | false ↦ some (false, got.1)
                | true ↦ load_from k pgdir addr fd off sz ((i + page_size) % 2 ^ 32) got.1
              ]
            ]
      ]
    ]
  ]

  -- One round for each page of an address space, and one more.
  abbrev pub load_fuel : ℕ
  load_fuel = 1048577

  unfoldable pub loaduvm : ℕ → ℕ → ℤ → ℕ → ℕ → Loading F → Option (Bool × Loading F)
  loaduvm pgdir addr fd off sz s =
      if addr % page_size == 0 then load_from load_fuel pgdir addr fd off sz 0 s else none
