-- ===== src/Irq/Nesting.antt =====
-- hal/irq.c: nested critical sections, and the handlers of one interrupt.
use bingos.Common.{
  ℕ, zero, suc, ◌+◌, ◌-◌, ◌*◌, ◌≤◌, ◌<◌, ◌≡◌, refl, ap, ◌∙◌, Bool, true, false, ◌||◌, ◌&&◌, Option,
  none, some, List, [], ◌∷◌, leb, ◌==◌, if◌then◌else◌, arith,
}
use bingos.Irq.{
  Irq, irq_chain_size, irq_chain_depth, interrupt_disable, interrupt_resume, call_from, irq_handler,
}

-- `n` times the same call.
pub times : (Irq → Irq) → ℕ → Irq → Irq
times f zero s = s
times f (suc n) s = times f n (f s)

disabled :
    (n d : ℕ) (s : Irq)
    → s.enabled ≡ false
    → s.sync_depth ≡ d
    → ((times interrupt_disable n s).enabled ≡ false)
      × ((times interrupt_disable n s).sync_depth ≡ d + n)
unfolding times interrupt_disable
disabled zero d s e h = (e, omega (arith, h))
disabled (suc n) d s e h =
    let ih =
      disabled n (suc d)
        (record s { enabled = false; sync_depth = if s.enabled then 1 else s.sync_depth + 1 }) refl
        (rw e (omega (arith, h))) in
    (ih.0, omega (arith, ih.1))

resume_last : (s : Irq) → s.sync_depth ≡ 1 → (interrupt_resume s).enabled ≡ true
unfolding interrupt_resume
resume_last s h =
    let last : (s.sync_depth == 0 || s.sync_depth == 1) ≡ true = ground arith in rw last

resume_inner :
    (d : ℕ) (s : Irq)
    → s.sync_depth ≡ suc (suc d)
    → ((interrupt_resume s).enabled ≡ s.enabled) × ((interrupt_resume s).sync_depth ≡ suc d)
unfolding interrupt_resume
resume_inner d s h =
    let inner : (s.sync_depth == 0 || s.sync_depth == 1) ≡ false = ground arith in
    rw inner (refl, omega (arith, h))

resumed :
    (k d : ℕ) (s : Irq)
    → s.enabled ≡ false
    → s.sync_depth ≡ suc d
    → k ≤ suc d
    → (times interrupt_resume k s).enabled ≡ leb (suc d) k
unfolding times
resumed zero d s e h l = e ∙ ground arith
resumed (suc zero) zero s e h l = resume_last s h ∙ ground arith
resumed (suc (suc k)) zero s e h l = absurd (omega arith)
resumed (suc k) (suc d) s e h l =
    let inner = resume_inner d s h in
    resumed k d (interrupt_resume s) (inner.0 ∙ e) inner.1 (omega arith) ∙ ground arith

-- Of `n` nested critical sections that begin with interrupts enabled, only the end of the outermost
-- enables them again: after `k` of the `n` calls of interrupt_resume they are enabled exactly when
-- `k` is `n`.
pub interrupt_resume-interrupt_disable :
    (n k : ℕ) (s : Irq)
    → s.enabled ≡ true
    → 0 < n
    → k ≤ n
    → (times interrupt_resume k (times interrupt_disable n s)).enabled ≡ leb n k
unfolding times interrupt_disable
interrupt_resume-interrupt_disable zero k s e p l = absurd (omega arith)
interrupt_resume-interrupt_disable (suc n) k s e p l =
    let first : Irq = record s {
      enabled = false;
      sync_depth = if s.enabled then 1 else s.sync_depth + 1;
    } in
    let inside = disabled n 1 first refl (rw e) in
    resumed k n (times interrupt_disable n first) inside.0 (omega (arith, inside.1)) l

-- The handlers of a line, in the order of their registration.
handlers_from : ℕ → ℕ → ℕ → (ℕ → Option ℕ) → List ℕ
handlers_from zero i irq routines = []
handlers_from (suc left) i irq routines =
    let rest = handlers_from left (suc i) irq routines in
    elim (routines (i * irq_chain_size + irq)) [ none ↦ rest | some h ↦ h ∷ rest ]

pub handlers : ℕ → Irq → List ℕ
unfolding handlers_from
handlers irq s = handlers_from irq_chain_depth 0 irq s.routines

-- The elements up to the first that answers, and whether one does.
pub until : (ℕ → Bool) → List ℕ → List ℕ × Bool
until answers [] = ([], false)
until answers (h ∷ hs) =
    let rest = until answers hs in if answers h then (h ∷ [], true) else (h ∷ rest.0, rest.1)

called :
    (answers : ℕ → Bool) (o : Option ℕ) (r : List ℕ × Bool) (hs : List ℕ)
    → r ≡ until answers hs
    → ◌≡◌ {A = List ℕ × Bool}
        (elim o [ none ↦ r | some h ↦ if answers h then (h ∷ [], true) else (h ∷ r.0, r.1) ])
        (until answers (elim o [ none ↦ hs | some h ↦ h ∷ hs ]))
unfolding until
called answers none r hs e = e
called answers (some h) r hs e = rw e

call_from-until :
    (answers : ℕ → Bool) (left i irq : ℕ) (routines : ℕ → Option ℕ)
    → call_from answers left i irq routines ≡ until answers (handlers_from left i irq routines)
unfolding call_from until handlers_from
call_from-until answers zero i irq routines = refl
call_from-until answers (suc left) i irq routines =
    called answers (routines (i * irq_chain_size + irq))
      (call_from answers left (suc i) irq routines) (handlers_from left (suc i) irq routines)
      (call_from-until answers left (suc i) irq routines)

-- An interrupt of the lines 0 to 15 while interrupts are enabled calls the handlers of its line in the
-- order of their registration up to the first that answers, acknowledges the line exactly when none
-- does, and enables the interrupts again.
pub irq_handler_lem :
    (answers : ℕ → Bool) (irq : ℕ) (s : Irq)
    → irq < 16
    → s.enabled ≡ true
    → ((irq_handler answers (32 + irq) s).0 ≡ (until answers (handlers irq s)).0)
      × ((irq_handler answers (32 + irq) s).1
          ≡ (if (until answers (handlers irq s)).1 then none else some irq))
      × ((irq_handler answers (32 + irq) s).2.enabled ≡ true)
unfolding irq_handler handlers
irq_handler_lem answers irq s h e =
    let guard : (leb (32 + irq) 47 && leb 32 (32 + irq)) ≡ true = ground arith in
    let line : 32 + irq - 32 ≡ irq = omega arith in
    let calls = call_from-until answers irq_chain_depth 0 irq s.routines in
    rw (guard, line, e) (ap (λ r. r.0) calls, ap (λ r. if r.1 then none else some irq) calls, refl)
