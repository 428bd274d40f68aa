-- ===== src/Sched/Tests.antt =====
-- Runs of the scheduler, and the theorems at concrete states.
use bingos.Common.{
  ◌==◌, inl, arith, false, ℕ, ◌≡◌, refl, true, false, some, List, [], ◌∷◌, ◌++◌, All,
}
use mathlib.Core.List.{reverse_aux}
use bingos.Sched.{
  Kernel, Procs, ready, due, status, sleep_enqueue, wakeup_sleepers, context_switch, exit,
  waitpid_turn,
}
use bingos.Sched.Wait.{pop_back}
use bingos.Sched.Sleep.{WakesBy, InOrder, sleep_enqueue-InOrder}
use bingos.Sched.Wakeup.{wakeup_sleepers_lem}
use bingos.Sched.RoundRobin.{cycle, switches, switches-rotate}
use bingos.Sched.Finished.{waitpid_turn-exit}

-- Process `p` has the id `p` and wakes up at tick `p`.
abbrev procs : Procs
procs p = record { id = p; state = ready; status = 0; end_tick = p; end_subtick = 0 }

-- Process 2 runs, 3 and then 4 are ready, 5 and 7 sleep.
abbrev kernel : Kernel
kernel = record {
  proc = procs;
  process_queue = 4 ∷ 3 ∷ [];
  finished_queue = [];
  sleep_queue = 5 ∷ 7 ∷ [];
  current = 2;
}

switched : switches 3 kernel ≡ some kernel
unfolding switches context_switch pop_back
switched = refl

inserted : (sleep_enqueue kernel 2 6 0).sleep_queue ≡ 5 ∷ 2 ∷ 7 ∷ []
unfolding sleep_enqueue
inserted = refl

kernel-InOrder : InOrder procs (5 ∷ 7 ∷ [])
unfolding InOrder WakesBy
kernel-InOrder = ((inl (omega arith), tt), (tt, tt))

sleep_enqueue-InOrder_example :
    let k' = sleep_enqueue kernel 2 6 0 in
    InOrder k'.proc k'.sleep_queue
    × ((ys : List ℕ) × (zs : List ℕ) × (5 ∷ 7 ∷ [] ≡ ys ++ zs) × (k'.sleep_queue ≡ ys ++ (2 ∷ zs)))
    × ((k'.proc 2).end_tick ≡ 6)
    × ((k'.proc 2).end_subtick ≡ 0)
    × ((q : ℕ) → (q == 2) ≡ false → k'.proc q ≡ kernel.proc q)
sleep_enqueue-InOrder_example = sleep_enqueue-InOrder kernel 2 6 0 (refl, (refl, tt)) kernel-InOrder

wakeup_sleepers_lem_example :
    let k' = wakeup_sleepers 5 1 kernel in
    (ws : List ℕ) × (5 ∷ 7 ∷ [] ≡ ws ++ k'.sleep_queue)
    × All (λ q. due (procs q) 5 1 ≡ true) ws
    × All (λ q. due (procs q) 5 1 ≡ false) k'.sleep_queue
    × (k'.process_queue ≡ reverse_aux ws (4 ∷ 3 ∷ []))
    × (k'.finished_queue ≡ [])
    × (k'.current ≡ 2)
wakeup_sleepers_lem_example =
    wakeup_sleepers_lem 5 1 kernel ((refl, tt), (tt, tt)) ((refl, tt), (tt, tt))

switches-rotate_example :
    (k' : Kernel) × (switches 1 kernel ≡ some k') × (cycle k' ≡ 3 ∷ 2 ∷ 4 ∷ [])
switches-rotate_example =
    switches-rotate kernel (2 ∷ 4 ∷ []) (3 ∷ []) refl (refl, (refl, (refl, tt)))

waitpid_turn-exit_example :
    (k' k'' : Kernel) × (exit 9 kernel ≡ some k')
    × (k'.current ≡ 3)
    × (waitpid_turn 2 k' ≡ some (status 9, k''))
    × (k''.finished_queue ≡ [])
waitpid_turn-exit_example = waitpid_turn-exit kernel 9 (4 ∷ []) 3 refl refl refl tt
