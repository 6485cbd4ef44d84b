-- ===== src/Tests/Copies.antt =====
-- Tests of the copies between a program and the kernel, and of the arguments of a program.
use jix.Base.{ℕ, ◌≡◌, refl, some, List, [], ◌∷◌, arith, ◌==◌, if◌then◌else◌}
use jix.Clib.Mem.{Memory}
use jix.Clib.Str.{IsString}
use jix.Kernel.MsgType
use jix.Kernel.State.{Msg}
use jix.Kernel.SendRecv.{mcopyin}
use jix.Kernel.Copies.{HasPaths, mcopyin-link}
use jix.Mm.Vm.{Vm}
use jix.Mm.Exec.{Stack, push_args}
use jix.Mm.ExecArgs.{Pushed, push_args-Laid}
use jix.Tests.Data.{blank_msg, no_pages}

-- The strings `a` at 100 and `bc` at 200.
abbrev strings : Memory
strings x = if x == 100 then 97 else if x == 200 then 98 else if x == 201 then 99 else 0

abbrev a_link : Msg
a_link = record blank_msg { type = MsgType.link; p1 = 100; p2 = 200 }

a-IsString : IsString strings 100 1
a-IsString = record { ends = refl; body = λ i lt. ground arith }

bc-IsString : IsString strings 200 2
bc-IsString = record { ends = refl; body = λ i lt. ground arith }

mcopyin-link_example :
    (b' : Memory) × (mcopyin 1025 5000 a_link strings
      ≡ some (record a_link { p1 = 5000; p2 = 5002 }, b'))
    × HasPaths 5000 1 2 100 200 strings b'
mcopyin-link_example =
    mcopyin-link 1025 5000 1 2 a_link strings refl a-IsString bc-IsString (omega arith)
      (omega arith) (omega arith) (omega arith)

abbrev a_read : Msg
a_read = record blank_msg { type = MsgType.read; p1 = 100; u1 = 10 }

-- Two arguments, `ls` and `-l`.
abbrev empty_stack : Stack
empty_stack = record { argc = 0; sp = 0x80000000; pa = 0x501000; argv = [] }

abbrev two_args : List (List ℕ)
two_args = (108 ∷ 115 ∷ []) ∷ (45 ∷ 108 ∷ []) ∷ []

abbrev no_memory : Vm
no_memory = record { pages = no_pages; word = λ p i. 0 }

push_args-Laid_example :
    (st' : Stack) × (ps : List ℕ) × (m' : Vm) × (push_args two_args empty_stack no_memory
      ≡ (some st', m'))
    × Pushed two_args empty_stack no_memory st' ps m'
push_args-Laid_example =
    push_args-Laid two_args empty_stack no_memory
      ((omega arith, (omega arith, tt)), ((omega arith, (omega arith, tt)), tt)) (omega arith)
      (omega arith) refl refl (omega arith) (omega arith) (omega arith)
