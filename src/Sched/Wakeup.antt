-- ===== src/Sched/Wakeup.antt =====
-- `process_wakeup_sleepers` of kernel/process.c: the processes that are due, and no others.
use bingos.Common.{
  ℕ, ◌≡◌, inl, inr, refl, true, false, List, [], ◌∷◌, ◌++◌, arith, if◌then◌else◌, Bool-cases, All,
  All-map,
}
use mathlib.Core.Path.{ap, sym, ◌∙◌}
use mathlib.Core.List.{reverse_aux}
use bingos.Sched.{
  Procs, Process, Kernel, update, later, due, woken, enqueue, wakeup_loop, wakeup_sleepers,
}
use bingos.Sched.Sleep.{IsSorted, Absent, Distinct}

-- The front part of a queue that is due, and the rest.
due_part : Procs → ℕ → ℕ → List ℕ → List ℕ × List ℕ
due_part proc t st [] = ([], [])
due_part proc t st (p ∷ ps) =
    let (ws, rs) = due_part proc t st ps in if due (proc p) t st then (p ∷ ws, rs) else ([], p ∷ ps)

due_part-update :
    (proc : Procs) (t st p : ℕ) (v : Process) (ps : List ℕ)
    → Absent p ps
    → due_part (update proc p v) t st ps ≡ due_part proc t st ps
unfolding due_part
due_part-update proc t st p v [] a = refl
due_part-update proc t st p v (q ∷ qs) a = rw (a.0, due_part-update proc t st p v qs a.1)

wakeup_loop_lem :
    (t st : ℕ) (ps : List ℕ) (k : Kernel)
    → Distinct ps
    → let k' = wakeup_loop t st ps k in
      (k'.sleep_queue ≡ (due_part k.proc t st ps).1)
      × (k'.process_queue ≡ reverse_aux (due_part k.proc t st ps).0 k.process_queue)
      × (k'.finished_queue ≡ k.finished_queue)
      × (k'.current ≡ k.current)
unfolding wakeup_loop due_part
wakeup_loop_lem t st [] k d = (refl, refl, refl, refl)
wakeup_loop_lem t st (p ∷ ps) k d = elim (Bool-cases (due (k.proc p) t st)) [
  | inl e ↦
      let k₁ = enqueue (record k { proc = update k.proc p (woken (k.proc p)) }) p in
      let ih = wakeup_loop_lem t st ps k₁ d.1 in
      let same = due_part-update k.proc t st p (woken (k.proc p)) ps d.0 in
      rw e (
        ih.0 ∙ ap (λ r. r.1) same,
        ih.1 ∙ ap (λ r. reverse_aux r.0 (p ∷ k.process_queue)) same,
        ih.2,
        ih.3,
      )
  | inr e ↦ rw e (refl, refl, refl, refl)
]

-- A process that wakes no earlier than one that is not due is not due.
due-later :
    (a b : Process) (t st : ℕ)
    → due a t st ≡ false
    → later a b.end_tick b.end_subtick ≡ false
    → due b t st ≡ false
due-later a b t st h k = ground arith

due_part_lem :
    (proc : Procs) (t st : ℕ) (ps : List ℕ)
    → IsSorted proc ps
    → let (ws, rs) = due_part proc t st ps in
      (ps ≡ ws ++ rs)
      × All (λ q. due (proc q) t st ≡ true) ws
      × All (λ q. due (proc q) t st ≡ false) rs
unfolding due_part
due_part_lem proc t st [] s = (refl, tt, tt)
due_part_lem proc t st (p ∷ ps) s = elim (Bool-cases (due (proc p) t st)) [
  | inl e ↦ let ih = due_part_lem proc t st ps s.1 in rw e (ap (λ l. p ∷ l) ih.0, (e, ih.1), ih.2)
  | inr e ↦ rw e (refl, tt, (e, All-map _ _ ps (λ q. due-later (proc p) (proc q) t st e) s.0))
]

-- From a sorted sleep queue that holds no process twice, `process_wakeup_sleepers` takes out
-- exactly the processes that are due: they form the front part of the queue and are made ready in
-- the order in which they wake up, and those that stay are not due. The other queues and the
-- running process stay.
pub wakeup_sleepers_lem :
    (t st : ℕ) (k : Kernel)
    → IsSorted k.proc k.sleep_queue
    → Distinct k.sleep_queue
    → let k' = wakeup_sleepers t st k in
      (ws : List ℕ) × (k.sleep_queue ≡ ws ++ k'.sleep_queue)
      × All (λ q. due (k.proc q) t st ≡ true) ws
      × All (λ q. due (k.proc q) t st ≡ false) k'.sleep_queue
      × (k'.process_queue ≡ reverse_aux ws k.process_queue)
      × (k'.finished_queue ≡ k.finished_queue)
      × (k'.current ≡ k.current)
unfolding wakeup_sleepers
wakeup_sleepers_lem t st k s d =
    let l = wakeup_loop_lem t st k.sleep_queue k d in
    let parts = due_part_lem k.proc t st k.sleep_queue s in
    (
      (due_part k.proc t st k.sleep_queue).0,
      parts.0 ∙ ap (λ r. (due_part k.proc t st k.sleep_queue).0 ++ r) (sym l.0),
      parts.1,
      rw l.0 parts.2,
      l.1,
      l.2,
      l.3,
    )
