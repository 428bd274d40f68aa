-- ===== src/Pipe.antt =====
-- fs/pipe.c: a pipe device, its ring of bytes and its two wait queues.
--
-- `unread`, `available`, `increment_read` and `increment_write` are the static helpers of the same
-- names. `read_pipe` and `write_pipe` are loops that may put the caller to sleep in the middle:
-- `read_round` and `write_round` are one turn of the outer loop, and what a turn leaves is the state
-- from which the call goes on: when the process is woken, or at once where no process was ready.
pub mod Ring
pub mod Transfer
pub mod Turns
pub mod Fifo
pub mod Wakeup
pub mod Refine
mod Tests
use bingos.Common.{
  ℕ, zero, suc, ◌+◌, ◌-◌, ◌%◌, ◌^◌, Bool, false, List, [], ◌∷◌, ltb, ◌==◌, if◌then◌else◌, length,
  get_or, set,
}
use bingos.Sched.Wait.{wakeup_from, sleep_on}

-- `pipe_device_t`; the locks and `alert_waiters` are never used. A wait queue lists process ids, front first.
pub record Pipe : Type 0 where
  pub buffer : List ℕ
  pub write_ptr : ℕ
  pub read_ptr : ℕ
  pub size : ℕ
  pub refs : ℕ
  pub dead : Bool
  pub readers : List ℕ
  pub writers : List ℕ

-- The index after `i`: the increment of both pointers.
abbrev pub next_index : ℕ → ℕ → ℕ
next_index size i = if (i + 1) % 2 ^ 32 == size then 0 else (i + 1) % 2 ^ 32

pub increment_read : Pipe → Pipe
increment_read p = record p { read_ptr = next_index p.size p.read_ptr }

pub increment_write : Pipe → Pipe
increment_write p = record p { write_ptr = next_index p.size p.write_ptr }

-- `size_t` subtraction wraps.
abbrev pub sub_size : ℕ → ℕ → ℕ
sub_size a b = (a + 2 ^ 32 - b) % 2 ^ 32

abbrev pub add_size : ℕ → ℕ → ℕ
add_size a b = (a + b) % 2 ^ 32

pub available : Pipe → ℕ
available p =
    if p.read_ptr == p.write_ptr
    then sub_size p.size 1
    else if ltb p.write_ptr p.read_ptr
    then sub_size (sub_size p.read_ptr p.write_ptr) 1
    else sub_size (add_size (sub_size p.size p.write_ptr) p.read_ptr) 1

pub unread : Pipe → ℕ
unread p =
    if p.read_ptr == p.write_ptr
    then 0
    else if ltb p.write_ptr p.read_ptr
    then add_size (sub_size p.size p.read_ptr) p.write_ptr
    else sub_size p.write_ptr p.read_ptr

-- One byte out of the ring, and one into it: the bodies of the inner loops.
pub take_byte : Pipe → ℕ × Pipe
unfolding increment_read
take_byte p = (get_or p.buffer p.read_ptr 0, increment_read p)

pub put_byte : Pipe → ℕ → Pipe
unfolding increment_write
put_byte p x = increment_write (record p { buffer = set p.buffer p.write_ptr x })

-- `while (pipe_unread(pipe) > 0 && collected < size)`, with `size - collected` rounds left. The
-- list is what the loop adds to the caller's buffer.
pub read_loop : ℕ → Pipe → List ℕ × Pipe
read_loop zero p = ([], p)
read_loop (suc left) p =
    let (x, p') = take_byte p in
    let (xs, q) = read_loop left p' in if ltb 0 (unread p) then (x ∷ xs, q) else ([], p)

-- `while (pipe_available(pipe) > 0 && written < size)`, over the bytes that are not written yet.
-- The list is what the loop leaves of them.
pub write_loop : Pipe → List ℕ → List ℕ × Pipe
write_loop p [] = ([], p)
write_loop p (x ∷ xs) =
    let done = write_loop (put_byte p x) xs in if ltb 0 (available p) then done else (x ∷ xs, p)

-- What a call shows after one turn of its outer loop: it returns, or it sleeps and goes on later.
pub data Turn (R C : Type 0) : Type 0 where
  returned : R → Turn R C
  sleeping : C → Turn R C

-- The processes that are ready to run stand beside the pipe: `wakeup_from` adds to them.
pub record World : Type 0 where
  pub pipe : Pipe
  pub ready : List ℕ

abbrev pub wake_writers : World → World
wake_writers w =
    let (queue, ready) = wakeup_from w.pipe.writers w.ready in
    record { pipe = record w.pipe { writers = queue }; ready = ready }

abbrev pub wake_readers : World → World
wake_readers w =
    let (queue, ready) = wakeup_from w.pipe.readers w.ready in
    record { pipe = record w.pipe { readers = queue }; ready = ready }

abbrev pub sleep_reader : ℕ → World → World
sleep_reader me w = record w { pipe = record w.pipe { readers = sleep_on w.pipe.readers me } }

abbrev pub sleep_writer : ℕ → World → World
sleep_writer me w = record w { pipe = record w.pipe { writers = sleep_on w.pipe.writers me } }

-- The end of a turn of `read_pipe`: with nothing collected it sleeps, and the call goes on as it
-- began.
pub end_read : ℕ → ℕ → List ℕ → World → Turn (List ℕ) ℕ × World
end_read me size [] w = (sleeping size, sleep_reader me w)
end_read me size (x ∷ xs) w = (returned (x ∷ xs), w)

-- One turn of `while (collected == 0)` in `read_pipe`, for process `me` that asks for `size` bytes.
pub read_round : ℕ → ℕ → World → Turn (List ℕ) ℕ × World
unfolding end_read
read_round me size w =
    let (got, p) = read_loop size w.pipe in
    end_read me size got (wake_writers (record w { pipe = p }))

-- `read_pipe` up to its first sleep. The test of `dead` is made once, on entry.
pub read_pipe : ℕ → ℕ → World → Turn (List ℕ) ℕ × World
read_pipe me size w = if w.pipe.dead then (returned [], w) else read_round me size w

-- The end of a turn of `write_pipe`: it sleeps while bytes are left.
pub end_write : ℕ → ℕ → List ℕ → World → Turn ℕ (ℕ × List ℕ) × World
end_write me written [] w = (returned written, w)
end_write me written (x ∷ xs) w = (sleeping (written, x ∷ xs), sleep_writer me w)

-- One turn of `while (written < size)` in `write_pipe`. The call state is `written` and the bytes
-- that are still to be written.
pub write_round : ℕ → ℕ → List ℕ → World → Turn ℕ (ℕ × List ℕ) × World
unfolding end_write
write_round me written [] w = (returned written, w)
write_round me written (x ∷ xs) w =
    let (rest, p) = write_loop w.pipe (x ∷ xs) in
    end_write me (written + (length (x ∷ xs) - length rest)) rest
      (wake_readers (record w { pipe = p }))

pub write_pipe : ℕ → List ℕ → World → Turn ℕ (ℕ × List ℕ) × World
write_pipe me bytes w = if w.pipe.dead then (returned 0, w) else write_round me 0 bytes w

pub open_pipe : Pipe → Pipe
open_pipe p = record p { refs = add_size p.refs 1 }

pub close_pipe : Pipe → Pipe
close_pipe p = record p { refs = sub_size p.refs 1 }

-- `storage` is what `kmalloc(size)` returns.
pub create_pipe : List ℕ → ℕ → Pipe
create_pipe storage size = record {
  buffer = storage;
  write_ptr = 0;
  read_ptr = 0;
  size = size;
  refs = 0;
  dead = false;
  readers = [];
  writers = [];
}
