-- ===== src/Mm/Exec.antt =====
-- `do_exec` of mm/exec.c. The arguments are the strings of the block `args`, which
-- `args_of` of Mm/ArgBlock finds in it, and the path its characters, each without the NUL; `none` is a panic.
use jix.Base.{
  ℕ, zero, suc, ◌+◌, ◌-◌, ◌*◌, ◌%◌, ◌^◌, max, not, ◌&&◌, Option, none, some, List, [], ◌∷◌, ◌++◌,
  ltb, leb, ◌==◌, if◌then◌else◌, length, take, ℤ, is_neg,
}
use jix.Mm.Pages.{page_size, kbase, p2v}
use jix.Mm.Vm.{Vm, pte_addr, kalloc1, walkpgdir, setupkvm}
use jix.Mm.Uvm.{allocuvm, freevm}
use jix.Mm.Load.{Files, Loading, put_bytes, put_words, byte_at, u32_at, is_count, loaduvm}

-- Fields of `struct elfhdr` and `struct proghdr`, as they are read.
abbrev pub elf_magic : ℕ
elf_magic = 0x464c457f

abbrev pub elfhdr_size : ℕ
elfhdr_size = 52

abbrev pub elf_entry : List ℕ → ℕ
elf_entry h = u32_at h 24

abbrev pub elf_phoff : List ℕ → ℕ
elf_phoff h = u32_at h 28

abbrev pub elf_phnum : List ℕ → ℕ
elf_phnum h = byte_at h 44 + byte_at h 45 * 256

abbrev pub proghdr_size : ℕ
proghdr_size = 32

abbrev pub max_arg : ℕ
max_arg = 16

-- `(a - len - 1) & ~3`.
abbrev pub below_string : ℕ → ℕ → ℕ
below_string a len = let b = (a + 2 ^ 32 - (len + 1)) % 2 ^ 32 in b - b % 4

-- The stack while the arguments are pushed: `argc`, `sp`, `pa`, and the words `ustack[3]` on.
pub record Stack : Type 0 where
  pub argc : ℕ
  pub sp : ℕ
  pub pa : ℕ
  pub argv : List ℕ

-- The loop that pushes the strings; `none` is `goto bad`.
unfoldable pub push_args : List (List ℕ) → Stack → Vm → Option Stack × Vm
push_args [] st m = (some st, m)
push_args (s ∷ ss) st m =
    let sp = below_string st.sp (length s) in
    let pa = below_string st.pa (length s) in
    let st' : Stack = record { argc = st.argc + 1; sp = sp; pa = pa; argv = st.argv ++ sp ∷ [] } in
    let rest = push_args ss st' (put_bytes (p2v pa) (s ++ 0 ∷ []) m) in
    if leb max_arg st.argc then (none, m) else rest

-- `ustack`, once all strings are pushed.
abbrev pub ustack : Stack → List ℕ
ustack st =
    0xffffffff ∷ st.argc ∷ ((st.sp + 2 ^ 32 - (st.argc + 1) * 4) % 2 ^ 32) ∷ (st.argv ++ 0 ∷ [])

-- The end of the stack: `sp` after it has been stored.
unfoldable pub push_frame : Stack → Vm → ℕ × Vm
push_frame st m =
    let n = (3 + st.argc + 1) * 4 in
    ((st.sp + 2 ^ 32 - n) % 2 ^ 32, put_words (p2v ((st.pa + 2 ^ 32 - n) % 2 ^ 32)) (ustack st) m)

-- The loop that finds the last name of the path.
unfoldable pub last_name : List ℕ → List ℕ → List ℕ
last_name last [] = last
last_name last (c ∷ cs) = if c == 47 then last_name cs cs else last_name last cs

-- What a process takes over from a program: `pgdir`, `brk`, `tf->eip`, `tf->esp` and `name`.
pub record Image : Type 0 where
  pub pgdir : ℕ
  pub brk : ℕ
  pub eip : ℕ
  pub esp : ℕ
  pub name : List ℕ

module _ {F : Type 0} (ops : Files F) where
  -- One segment: the new `end`, or `goto bad`.
  unfoldable pub load_segment : ℕ → ℤ → List ℕ → ℕ → Loading F → Option (Option ℕ × Loading F)
  load_segment pgdir fd ph end s =
      if not (u32_at ph 0 == 1)
      then some (some end, s)
      else if ltb (u32_at ph 20) (u32_at ph 16)
      then some (none, s)
      else elim (allocuvm pgdir (u32_at ph 8) (u32_at ph 20) s.vm) [
        | none ↦ none
        | some r ↦
            let s1 = record s { vm = r.1 } in
            if r.0 == 0
            then some (none, s1)
            else elim (loaduvm ops pgdir (u32_at ph 8) fd (u32_at ph 4) (u32_at ph 16) s1) [
              | none ↦ none
              | some l ↦ some (if l.0 then some (max r.0 end) else none, l.1)
            ]
      ]

  -- The loop over the `n` program headers that are left, from header `i` on.
  unfoldable pub load_segments : ℕ → ℤ → ℕ → ℕ → ℕ → ℕ → Loading F → Option (Option ℕ × Loading F)
  load_segments pgdir fd phoff zero i end s = some (some end, s)
  load_segments pgdir fd phoff (suc n) i end s =
      let sought = ops.seek fd ((phoff + proghdr_size * i) % 2 ^ 32) s.files in
      let got = ops.read fd proghdr_size sought.1 in
      let s1 = record s { files = got.1 } in
      if is_neg sought.0
      then some (none, record s { files = sought.1 })
      else if not (is_count got.0.0 proghdr_size)
      then some (none, s1)
      else elim (load_segment pgdir fd got.0.1 end s1) [
        | none ↦ none
        | some r ↦ elim r.0 [
          | none ↦ some (none, r.1)
          | some end' ↦ load_segments pgdir fd phoff n (i + 1) end' r.1
        ]
      ]

  -- The label `bad`; a directory of 0 is none.
  unfoldable pub exec_bad : ℕ → ℤ → Loading F → Option (Option Image × Loading F)
  exec_bad pgdir fd s = elim (if pgdir == 0 then some s.vm else freevm pgdir s.vm) [
    | none ↦ none
    | some m ↦ some (none, record { vm = m; files = ops.close fd s.files })
  ]

  -- From the stack on, where `end` is the end of the program; `old` is the directory of the caller.
  unfoldable pub exec_stack :
      ℕ → List ℕ → List (List ℕ) → ℕ → ℤ → ℕ → ℕ → Loading F → Option (Option Image × Loading F)
  exec_stack old path args pgdir fd entry end s =
      elim (walkpgdir none pgdir (kbase - page_size) s.vm) [
        | none ↦ none
        | some w ↦ elim w.0 [
          | none ↦ exec_bad pgdir fd s
          | some pte ↦
              let pa = (pte_addr (s.vm.word pte.0 pte.1) + page_size) % 2 ^ 32 in
              let start : Stack = record { argc = 0; sp = kbase; pa = pa; argv = [] } in
              let pushed = push_args args start s.vm in
              elim pushed.0 [
                | none ↦ exec_bad pgdir fd (record s { vm = pushed.1 })
                | some st ↦
                    let (sp, m) = push_frame st pushed.1 in
                    elim (freevm old m) [
                      | none ↦ none
                      | some m' ↦
                          let image : Image = record {
                            pgdir = pgdir;
                            brk = end;
                            eip = entry;
                            esp = sp;
                            name = take 15 (last_name path path);
                          } in
                          some (some image, record s { vm = m' })
                    ]
              ]
        ]
      ]

  -- After the segments: the file is closed, and two pages are taken for the stack.
  unfoldable pub exec_loaded :
      ℕ → List ℕ → List (List ℕ) → ℕ → ℤ → ℕ → ℕ → Loading F → Option (Option Image × Loading F)
  exec_loaded old path args pgdir fd entry end s =
      let s1 = record s { files = ops.close fd s.files } in
      elim (allocuvm pgdir (kbase - 2 * page_size) (2 * page_size) s.vm) [
        | none ↦ none
        | some r ↦
            let s2 = record s1 { vm = r.1 } in
            if r.0 == kbase
            then exec_stack old path args pgdir fd entry end s2
            else exec_bad pgdir fd s2
      ]

  -- With the header `h` read.
  unfoldable pub exec_program :
      ℕ → ℕ → List ℕ → List (List ℕ) → ℤ → List ℕ → Loading F → Option (Option Image × Loading F)
  exec_program d old path args fd h s = elim (setupkvm d kalloc1 s.vm) [
    | none ↦ none
    | some r ↦
        let s1 = record s { vm = r.1 } in
        if r.0 == 0
        then exec_bad 0 fd s1
        else elim (load_segments r.0 fd (elf_phoff h) (elf_phnum h) 0 0 s1) [
          | none ↦ none
          | some l ↦ elim l.0 [
            | none ↦ exec_bad r.0 fd l.1
            | some end ↦ exec_loaded old path args r.0 fd (elf_entry h) end l.1
          ]
        ]
  ]

  -- `do_exec`, where the kernel's data begin at `d` and the caller has the directory `old`: the image,
  -- or -1 as `none`.
  unfoldable pub do_exec :
      ℕ → ℕ → List ℕ → List (List ℕ) → Loading F → Option (Option Image × Loading F)
  do_exec d old path args s =
      let (fd, fs) = ops.open_file path s.files in
      let got = ops.read fd elfhdr_size fs in
      let s1 = record s { files = got.1 } in
      if is_neg fd
      then some (none, record s { files = fs })
      else if is_count got.0.0 elfhdr_size && (u32_at got.0.1 0 == elf_magic)
      then exec_program d old path args fd got.0.1 s1
      else exec_bad 0 fd s1
