-- ===== src/Tests/Fs.antt =====
-- Tests of pipes and of the terminal.
use jix.Base.{◌%◌, ◌≡◌, true, List, [], ◌∷◌, ◌++◌, arith, ◌==◌, if◌then◌else◌}
use jix.Fs.Pipe.{Pipe}
use jix.Fs.PipeFifo.{contents}
use jix.Fs.PipeFifo as Fifo
use jix.Fs.PipeStream.{Call, run, run_fifo}
use jix.Fs.Tty.{Tty, tty_init, ttyintr}
use jix.Fs.TtyInput.{IsValid, ttyintr-IsValid}
use jix.Tests.Data.{machine}

-- A pipe with two bytes that go round the end of the array.
abbrev pub pipe_of_two : Pipe
pipe_of_two = record {
  head = 1023;
  count = 2;
  readopen = true;
  writeopen = true;
  bytes = λ i. i % 7;
}

pipe_of_two-IsValid : Fifo.IsValid pipe_of_two
pipe_of_two-IsValid = record { head_in = omega arith; count_in = omega arith }

abbrev calls : List Call
calls = Call.write (10 ∷ 20 ∷ []) ∷ Call.read 3 ∷ Call.read 9 ∷ Call.read 1 ∷ []

run_fifo_example :
    let (sent, got, p') = run 4096 calls pipe_of_two machine in
    Fifo.IsValid p' × (contents pipe_of_two ++ sent ≡ got ++ contents p')
run_fifo_example = run_fifo 4096 calls pipe_of_two machine pipe_of_two-IsValid (omega arith, tt)

abbrev screen : Tty
screen = tty_init (λ x. 0) (λ i. 0)

-- The terminal with the line `a`, newline, Ctrl-D, `b` typed.
abbrev typed_in : Tty
typed_in = record screen {
  in_buf = λ i. if i == 0 then 97 else if i == 1 then 10 else if i == 2 then 4 else 98;
  count = 4;
}

typed_in-IsValid : IsValid typed_in
unfolding tty_init
typed_in-IsValid = record { head_in = omega arith; count_in = omega arith; on_screen = omega arith }

ttyintr-IsValid_example : IsValid (ttyintr 4096 (97 ∷ 8 ∷ 8 ∷ 3 ∷ 10 ∷ []) typed_in machine).0
ttyintr-IsValid_example =
    ttyintr-IsValid 4096 (97 ∷ 8 ∷ 8 ∷ 3 ∷ 10 ∷ []) typed_in machine typed_in-IsValid
