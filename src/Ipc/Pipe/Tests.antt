-- ===== src/Ipc/Pipe/Tests.antt =====
-- Short runs of the pipe of src/ipc/pipe.c.
use lkc.Base.{ℕ, ◌%◌, ◌≡◌, refl, Bool, false, [], ◌∷◌, arith, ltb}
use lkc.Base.Int.{pos}
use lkc.Atomic.Semaphore.{sema_signal}
use lkc.Ipc.Pipe.{
  Pipe, Memory, Run, returned, new_pipe, write_loop, pipe_write, read_loop, pipe_read, signal_read,
  signal_write, put,
}
use lkc.Ipc.Pipe.Segments.{Holds, contents}
use lkc.Ipc.Pipe.Writing.{Written, pipe_write_lem}
use lkc.Ipc.Pipe.Reading.{ReadEnds, pipe_read_lem}
use lkc.Ipc.Pipe.Fifo.{Reach, Sound, init, write, read, Reach-Fifo, after_close}
use lkc.Ipc.Pipe.Closing.{now, then_write, Unblocked, pipe_close_lem}

-- A process whose first page is mapped and counts up
abbrev process : Memory
process = record { mapped = λ a. ltb a 4096; bytes = λ a. a % 256 }

abbrev alive : ℕ → Bool
alive i = false

abbrev two_unread : Pipe
two_unread = put (put new_pipe 7) 8

two_unread-Holds : Holds two_unread 2
two_unread-Holds = record { small = omega arith; count = refl; fits = omega arith }

abbrev written_run : Run
written_run = pipe_write process alive 10 (pos 3) 0 new_pipe

abbrev read_run : Memory × Run
read_run = pipe_read process false 20 (pos 2) written_run.pipe

abbrev second_write : Run
second_write = pipe_write process alive 10 (pos 3) 0 two_unread

written_three :
    (written_run.outcome ≡ returned (pos 3)) × (contents written_run.pipe 3 ≡ 10 ∷ 11 ∷ 12 ∷ [])
unfolding pipe_write write_loop signal_read sema_signal
written_three = (refl, refl)

-- A write that starts below the last mapped address stops there.
write_unmapped : (pipe_write process alive 4095 (pos 3) 0 new_pipe).outcome ≡ returned (pos 1)
unfolding pipe_write write_loop signal_read sema_signal
write_unmapped = refl

pipe_write_lem_example : Written process alive 10 0 3 two_unread 2 second_write
pipe_write_lem_example = pipe_write_lem process alive 10 (pos 3) 0 two_unread 2 two_unread-Holds

pipe_read_lem_example :
    ReadEnds process false 20 (pos 5) two_unread 2 (pipe_read process false 20 (pos 5) two_unread)
pipe_read_lem_example = pipe_read_lem process false 20 (pos 5) two_unread 2 two_unread-Holds

-- Three bytes are written and two of them read.
Reach-three_two : Reach (10 ∷ 11 ∷ 12 ∷ []) (10 ∷ 11 ∷ []) read_run.1.pipe
unfolding pipe_write write_loop signal_read signal_write sema_signal pipe_read read_loop
Reach-three_two = read process false 20 (pos 2) (write process alive 10 (pos 3) 0 init refl) refl

Reach-Fifo_example : Sound (10 ∷ 11 ∷ 12 ∷ []) (10 ∷ 11 ∷ []) read_run.1.pipe
Reach-Fifo_example =
    Reach-Fifo {given = 10 ∷ 11 ∷ 12 ∷ []} {taken = 10 ∷ 11 ∷ []} {pi = read_run.1.pipe}
      Reach-three_two

abbrev shut_run : Run
shut_run = pipe_write process alive 10 (pos 3) 0 (after_close read_run.1.pipe false)

pipe_close_lem_example : Unblocked false shut_run.pipe
pipe_close_lem_example =
    pipe_close_lem {given = 10 ∷ 11 ∷ 12 ∷ []} {taken = 10 ∷ 11 ∷ []} {pi = read_run.1.pipe}
      {p = shut_run.pipe} false Reach-three_two (then_write process alive 10 (pos 3) 0 now)
