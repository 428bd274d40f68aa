-- ===== src/Pipe/Tests.antt =====
-- Runs of fs/pipe.c, and the theorems at concrete pipes.
use bingos.Common.{◌+◌, ◌≡◌, refl, false, [], ◌∷◌, ◌++◌, arith}
use bingos.Sched.Wait.{wakeup_from}
use bingos.Pipe.{
  Pipe, World, returned, sleeping, available, unread, read_loop, write_loop, read_round,
  write_round, read_pipe, write_pipe, create_pipe, take_byte, put_byte,
}
use bingos.Pipe.Ring.{IsValid, contents, unread-add-available}
use bingos.Pipe.Refine.{
  queue_read, queue_write, read_round_refines, write_round_refines, create_pipe-IsValid,
}
use bingos.Pipe.Fifo
use bingos.Pipe.Fifo.{Run, Step, Reach, IsFifo, Reach-IsFifo}

-- A pipe of four bytes that holds 8, then 9, round the end of its buffer.
abbrev wrapped : Pipe
wrapped = record {
  buffer = 9 ∷ 0 ∷ 7 ∷ 8 ∷ [];
  write_ptr = 1;
  read_ptr = 3;
  size = 4;
  refs = 1;
  dead = false;
  readers = [];
  writers = [];
}

abbrev world : World
world = record { pipe = wrapped; ready = 5 ∷ [] }

wrapped-IsValid : IsValid wrapped
wrapped-IsValid = omega arith

contents-wrapped : contents wrapped ≡ 8 ∷ 9 ∷ []
unfolding unread
contents-wrapped = refl

-- Two reads empty the pipe; the third sleeps.
read_all : (read_pipe 1 2 world).0 ≡ returned (8 ∷ 9 ∷ [])
unfolding read_pipe read_round read_loop take_byte unread wakeup_from
read_all = refl

read_sleeps : (read_pipe 1 2 (read_pipe 1 2 world).1).0 ≡ sleeping 2
unfolding read_pipe read_round read_loop take_byte unread wakeup_from
read_sleeps = refl

write_sleeps : (write_pipe 1 (3 ∷ 4 ∷ []) world).0 ≡ sleeping (1, 4 ∷ [])
unfolding write_pipe write_round write_loop put_byte available wakeup_from
write_sleeps = refl

unread-add-available_example : unread wrapped + available wrapped + 1 ≡ 4
unread-add-available_example = unread-add-available wrapped-IsValid

read_round_refines_example :
    let (t, w') = read_round 1 1 world in (t, contents w'.pipe) ≡ queue_read 1 (contents wrapped)
read_round_refines_example = read_round_refines 1 1 world wrapped-IsValid

write_round_refines_example :
    let (t, w') = write_round 1 0 (3 ∷ 4 ∷ []) world in
    (t, contents w'.pipe) ≡ queue_write 3 0 (3 ∷ 4 ∷ []) (contents wrapped)
write_round_refines_example = write_round_refines 1 0 (3 ∷ 4 ∷ []) world wrapped-IsValid

create_pipe-IsValid_example :
    IsValid (create_pipe (0 ∷ 0 ∷ 0 ∷ []) 3) × (contents (create_pipe (0 ∷ 0 ∷ 0 ∷ []) 3) ≡ [])
create_pipe-IsValid_example =
    create_pipe-IsValid (0 ∷ 0 ∷ 0 ∷ []) 3 refl (omega arith) (omega arith)

abbrev start : Run
start = record { world = world; sent = 8 ∷ 9 ∷ []; received = [] }

abbrev after_read : Run
after_read = record {
  world = (read_round 1 1 world).1;
  sent = 8 ∷ 9 ∷ [];
  received = [] ++ Fifo.given (read_round 1 1 world).0;
}

start-IsFifo : IsFifo start
unfolding unread
start-IsFifo = record { valid = wrapped-IsValid; order = refl }

Reach-IsFifo_example : IsFifo after_read
Reach-IsFifo_example =
    Reach-IsFifo start-IsFifo (Reach.next Reach.here (Step.read 1 1 (omega arith)))
