-- ===== src/Sched/Finished.antt =====
-- `process_exit`, `sched_lookup_finished` and `sys_waitpid`: the exit status reaches the waiter.
use bingos.Common.{
  ℕ, ◌≡◌, inl, inr, refl, true, false, some, List, [], ◌∷◌, ◌++◌, arith, ◌==◌, Bool-cases, All,
  ==_refl,
}
use mathlib.Core.Path.{ap, ap₂, sym, ◌∙◌}
use bingos.Sched.{
  Procs, Process, Kernel, finished, status, update, enqueue_finished, exit, take_finished,
  lookup_finished, waitpid_turn, reaped,
}
use bingos.Sched.RoundRobin.{switch_to_next-some}

-- Nobody in a queue has the id `pid`.
abbrev pub NoneIs : Procs → ℕ → List ℕ → Type 0
NoneIs proc pid = All (λ q. ((proc q).id == pid) ≡ false)

take_finished-last :
    (proc : Procs) (pid p : ℕ) (qs : List ℕ)
    → NoneIs proc pid qs
    → ((proc p).id == pid) ≡ true
    → take_finished proc pid (qs ++ (p ∷ [])) ≡ (some p, qs)
unfolding take_finished
take_finished-last proc pid p [] a e = rw e
take_finished-last proc pid p (q ∷ qs) a e =
    let ih = take_finished-last proc pid p qs a.1 e in
    rw (a.0, ap (λ r. r.0) ih) (ap (λ r. (some p, q ∷ r.1)) ih)

eq_of : (q p : ℕ) → (q == p) ≡ true → q ≡ p
eq_of q p e = ground arith

-- A change that keeps the ids is not seen by a search for an id.
NoneIs-update :
    (proc : Procs) (pid p : ℕ) (v : Process) (qs : List ℕ)
    → v.id ≡ (proc p).id
    → NoneIs proc pid qs
    → NoneIs (update proc p v) pid qs
NoneIs-update proc pid p v [] same a = tt
NoneIs-update proc pid p v (q ∷ qs) same a = (one, NoneIs-update proc pid p v qs same a.1)
  where
    one : ((update proc p v q).id == pid) ≡ false
    one = elim (Bool-cases (q == p)) [
      | inl e ↦
          rw (e, same) (let e' : q ≡ p = eq_of q p e in ap (λ r. (proc r).id == pid) (sym e') ∙ a.0)
      | inr e ↦ rw e a.0
    ]

-- A process other than `init` that exits while another one, `y`, is ready: `y` runs, and a waiter
-- for the id of the first gets its exit status in the next turn and takes it out of the queue of
-- the finished, which is as it was before. No finished process may have the same id.
pub waitpid_turn-exit :
    (k : Kernel) (ret : ℕ) (xs : List ℕ) (y : ℕ)
    → k.process_queue ≡ xs ++ (y ∷ [])
    → (k.current == 0) ≡ false
    → ((k.proc k.current).id == 1) ≡ false
    → NoneIs k.proc (k.proc k.current).id k.finished_queue
    → (k' k'' : Kernel) × (exit ret k ≡ some k')
      × (k'.current ≡ y)
      × (waitpid_turn (k.proc k.current).id k' ≡ some (status ret, k''))
      × (k''.finished_queue ≡ k.finished_queue)
unfolding exit enqueue_finished waitpid_turn lookup_finished reaped
waitpid_turn-exit k ret xs y ready live not_init fresh =
    let me = k.proc k.current in
    let v : Process = record me { status = ret; state = finished } in
    let k₁ : Kernel = record k {
      proc = update k.proc k.current v;
      finished_queue = k.finished_queue ++ (k.current ∷ []);
    } in
    let k' : Kernel = record k₁ { process_queue = xs; current = y } in
    let at : update k.proc k.current v k.current ≡ v = rw ==_refl in
    let id : ((update k.proc k.current v k.current).id == me.id) ≡ true = rw at (==_refl me.id) in
    let found =
      take_finished-last (update k.proc k.current v) me.id k.current k.finished_queue
        (NoneIs-update k.proc me.id k.current v k.finished_queue refl fresh) id in
    (
      k',
      record k' { finished_queue = k.finished_queue },
      rw (live, not_init) (switch_to_next-some k₁ xs y ready),
      refl,
      rw (ap (λ r. r.0) found, waitpid_turn)
          (ap₂ (λ s q. some (s, record k' { finished_queue = q }))
            (ap (λ r. reaped r.state r.status) at) (ap (λ r. r.1) found)),
      refl,
    )
