-- ===== src/Sched/Wait.antt =====
-- kernel/process.c: `sleep_on` and `wakeup_from`, over queues of process ids.
use bingos.Common.{ℕ, Bool, true, false, Option, none, some, List, [], ◌∷◌}

-- `list_pop_back`: the last element, and the list without it.
unfoldable pub pop_back : List ℕ → Option ℕ × List ℕ
pop_back [] = (none, [])
pop_back (x ∷ xs) =
    let (last, rest) = pop_back xs in
    elim last [ none ↦ (some x, []) | some y ↦ (some y, x ∷ rest) ]

-- The process that waited longest becomes ready; an empty queue changes nothing.
unfoldable pub wakeup_from : List ℕ → List ℕ → List ℕ × List ℕ
unfolding pop_back
wakeup_from queue ready =
    let (woken, rest) = pop_back queue in
    elim woken [ none ↦ (queue, ready) | some p ↦ (rest, p ∷ ready) ]

-- `sched_available`, of the queue of the processes that are ready.
unfoldable pub sched_available : List ℕ → Bool
sched_available [] = false
sched_available (p ∷ ready) = true

-- `sleep_on` up to its `context_switch(0)`, which gives the processor away where `sched_available`
-- holds. Where it does not, the call returns at once, and the process goes on while it is queued.
unfoldable pub sleep_on : List ℕ → ℕ → List ℕ
sleep_on queue me = me ∷ queue
