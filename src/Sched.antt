-- ===== src/Sched.antt =====
-- kernel/sched.c, and the parts of kernel/process.c that move processes between queues.
--
-- Processes are shared objects: the queues hold their addresses, front first, and `proc` is what
-- stands there. Saved registers, stacks and page directories are not part of the model, so
-- `context_switch` is the choice of the next process.
pub mod Wait
pub mod Sleep
pub mod Wakeup
pub mod RoundRobin
pub mod Finished
mod Tests
use bingos.Common.{
  ℕ, zero, suc, ◌+◌, ◌%◌, ◌^◌, Bool, true, false, ◌&&◌, ◌||◌, Option, none, some, List, [], ◌∷◌,
  ◌++◌, ltb, leb, ◌==◌, if◌then◌else◌,
}
use Wait.{pop_back, wakeup_from, sleep_on}

-- `p->state`
pub data State : Type 0 where
  ready running finished sleeping : State

-- The fields of `process_t` that scheduling reads or writes; `status` is the exit status.
pub record Process : Type 0 where
  pub id : ℕ
  pub state : State
  pub status : ℕ
  pub end_tick : ℕ
  pub end_subtick : ℕ

abbrev pub Procs : Type 0
Procs = ℕ → Process

abbrev pub update : Procs → ℕ → Process → Procs
update f p v q = if q == p then v else f q

-- `_current_process` is null at address 0.
pub record Kernel : Type 0 where
  pub proc : Procs
  pub process_queue : List ℕ
  pub finished_queue : List ℕ
  pub sleep_queue : List ℕ
  pub current : ℕ

pub init : Procs → ℕ → Kernel
init proc current = record {
  proc = proc;
  process_queue = [];
  finished_queue = [];
  sleep_queue = [];
  current = current;
}

-- `list_push_front`
pub enqueue : Kernel → ℕ → Kernel
enqueue k p = record k { process_queue = p ∷ k.process_queue }

-- `list_pop_back`
pub dequeue : Kernel → Option ℕ × Kernel
dequeue k = let (p, rest) = pop_back k.process_queue in (p, record k { process_queue = rest })

-- The test at which the loop of `sleep_enqueue` stops: `q` wakes later than (seconds, subseconds).
abbrev pub later : Process → ℕ → ℕ → Bool
later q seconds subseconds =
    ltb seconds q.end_tick || (q.end_tick == seconds && ltb subseconds q.end_subtick)

-- The walk to the first process that wakes later, and the insertion behind its predecessor.
pub insert_sleeper : Procs → ℕ → ℕ → ℕ → List ℕ → List ℕ
insert_sleeper proc p seconds subseconds [] = p ∷ []
insert_sleeper proc p seconds subseconds (q ∷ qs) =
    let rest = insert_sleeper proc p seconds subseconds qs in
    if later (proc q) seconds subseconds then p ∷ q ∷ qs else q ∷ rest

pub sleep_enqueue : Kernel → ℕ → ℕ → ℕ → Kernel
unfolding insert_sleeper
sleep_enqueue k p seconds subseconds = record k {
  proc = update k.proc p (record (k.proc p) { end_tick = seconds; end_subtick = subseconds });
  sleep_queue = insert_sleeper k.proc p seconds subseconds k.sleep_queue;
}

-- `p` is due at (ticks, subticks).
abbrev pub due : Process → ℕ → ℕ → Bool
due q ticks subticks = ltb q.end_tick ticks || (q.end_tick == ticks && leb q.end_subtick subticks)

-- `p->status = PROCESS_READY` writes the exit status, and leaves the state.
abbrev pub woken : Process → Process
woken q = record q { end_tick = 0; end_subtick = 0; status = 0 }

-- The loop of `process_wakeup_sleepers` over the sleep queue: it ends at the first process that is
-- not due.
pub wakeup_loop : ℕ → ℕ → List ℕ → Kernel → Kernel
unfolding enqueue
wakeup_loop ticks subticks [] k = record k { sleep_queue = [] }
wakeup_loop ticks subticks (p ∷ ps) k =
    let rest =
      wakeup_loop ticks subticks ps
        (enqueue (record k { proc = update k.proc p (woken (k.proc p)) }) p) in
    if due (k.proc p) ticks subticks then rest else record k { sleep_queue = p ∷ ps }

pub wakeup_sleepers : ℕ → ℕ → Kernel → Kernel
unfolding wakeup_loop
wakeup_sleepers ticks subticks k = wakeup_loop ticks subticks k.sleep_queue k

-- `switch_to_next`; `none` is its `ASSERT(_current_process)` when no process is ready.
pub switch_to_next : Kernel → Option Kernel
unfolding dequeue
switch_to_next k =
    let (p, k') = dequeue k in elim p [ none ↦ none | some q ↦ some (record k' { current = q }) ]

abbrev pub is_empty : List ℕ → Bool
is_empty [] = true
is_empty (x ∷ xs) = false

-- `context_switch`, to the point at which another process (or none) has been chosen.
pub context_switch : Bool → Kernel → Option Kernel
unfolding switch_to_next enqueue
context_switch reschedule k =
    if k.current == 0 || is_empty k.process_queue
    then some k
    else switch_to_next (if reschedule then enqueue k k.current else k)

pub enqueue_finished : Kernel → ℕ → Kernel
enqueue_finished k p = record k { finished_queue = k.finished_queue ++ (p ∷ []) }

-- `process_exit`; `none` is one of its assertions, or that of `switch_to_next`.
pub exit : ℕ → Kernel → Option Kernel
unfolding enqueue_finished switch_to_next
exit ret k =
    let me = k.proc k.current in
    if k.current == 0 || me.id == 1
    then none
    else switch_to_next (
        enqueue_finished
          (record k {
            proc = update k.proc k.current (record me { status = ret; state = finished });
          })
          k.current)

-- The search of `sched_lookup_finished`, and the queue without what it finds.
pub take_finished : Procs → ℕ → List ℕ → Option ℕ × List ℕ
take_finished proc pid [] = (none, [])
take_finished proc pid (p ∷ ps) =
    let (found, rest) = take_finished proc pid ps in
    if (proc p).id == pid then (some p, ps) else (found, p ∷ rest)

pub lookup_finished : ℕ → Kernel → Option ℕ × Kernel
unfolding take_finished
lookup_finished pid k =
    let (found, rest) = take_finished k.proc pid k.finished_queue in
    (found, record k { finished_queue = rest })

-- What one turn of the loop of `sys_waitpid` comes to.
pub data Waited : Type 0 where
  status : ℕ → Waited
  no_child : Waited
  again : Waited

-- A process that is taken from the queue is released if it is finished.
pub reaped : State → ℕ → Waited
reaped finished n = status n
reaped _ n = no_child

-- One turn, for a pid that is not negative: a finished process is released and its status is
-- returned; with none the caller gives up the processor and tries again.
pub waitpid_turn : ℕ → Kernel → Option (Waited × Kernel)
unfolding lookup_finished context_switch reaped
waitpid_turn pid k =
    let (found, k') = lookup_finished pid k in
    elim found [
      | some p ↦ some (reaped ((k.proc p).state) (k.proc p).status, k')
      | none ↦ elim (context_switch true k') [ none ↦ none | some k₂ ↦ some (again, k₂) ]
    ]

pub available : Kernel → Bool
available k = if is_empty k.process_queue then false else true
