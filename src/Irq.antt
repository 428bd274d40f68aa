-- ===== src/Irq.antt =====
-- hal/irq.c: the handlers of the interrupt lines and the nesting of disabled interrupts.
--
-- `cli` and `sti` set the interrupt flag. What a handler answers is an argument: handlers are
-- callbacks of the drivers.
pub mod Nesting
mod Tests
use bingos.Common.{
  ℕ, zero, suc, ◌+◌, ◌-◌, ◌*◌, ◌%◌, ◌^◌, Bool, true, false, ◌||◌, ◌&&◌, Option, none, some, List,
  [], ◌∷◌, ltb, leb, ◌==◌, if◌then◌else◌,
}

abbrev pub irq_chain_size : ℕ
irq_chain_size = 16

abbrev pub irq_chain_depth : ℕ
irq_chain_depth = 4

-- The interrupt flag, `sync_depth`, which is counted without a bound, and `irq_routines`, whose handlers
-- are named by their addresses.
pub record Irq : Type 0 where
  pub enabled : Bool
  pub sync_depth : ℕ
  pub routines : ℕ → Option ℕ

pub interrupt_enable : Irq → Irq
interrupt_enable s = record s { sync_depth = 0; enabled = true }

pub interrupt_disable : Irq → Irq
interrupt_disable s = record s {
  enabled = false;
  sync_depth = if s.enabled then 1 else s.sync_depth + 1;
}

pub interrupt_resume : Irq → Irq
interrupt_resume s =
    if s.sync_depth == 0 || s.sync_depth == 1
    then record s { enabled = true }
    else record s { sync_depth = s.sync_depth - 1 }

-- The loop of `register_interrupt_handler`, with the slots left and the slot looked at.
pub register_from : ℕ → ℕ → ℕ → ℕ → (ℕ → Option ℕ) → ℕ → Option ℕ
register_from zero i irq handler routines = routines
register_from (suc left) i irq handler routines =
    let rest = register_from left (suc i) irq handler routines in
    let here : ℕ → Option ℕ =
      λ k. if k == i * irq_chain_size + irq then some handler else routines k in
    elim (routines (i * irq_chain_size + irq)) [ none ↦ here | some h ↦ rest ]

pub register_interrupt_handler : ℕ → ℕ → Irq → Irq
register_interrupt_handler irq handler s = record s {
  routines = register_from irq_chain_depth 0 irq handler s.routines;
  enabled = true;
}

-- The loop of `irq_handler`: the handlers that were called, and whether one answered.
pub call_from : (ℕ → Bool) → ℕ → ℕ → ℕ → (ℕ → Option ℕ) → List ℕ × Bool
call_from answers zero i irq routines = ([], false)
call_from answers (suc left) i irq routines =
    let rest = call_from answers left (suc i) irq routines in
    elim (routines (i * irq_chain_size + irq)) [
      | none ↦ rest
      | some h ↦ if answers h then (h ∷ [], true) else (h ∷ rest.0, rest.1)
    ]

-- `irq_handler`: the handlers that were called, the line that was acknowledged, and the state.
pub irq_handler : (ℕ → Bool) → ℕ → Irq → List ℕ × Option ℕ × Irq
unfolding interrupt_disable interrupt_resume
irq_handler answers int_no s =
    let t = interrupt_disable s in
    if leb int_no 47 && leb 32 int_no
    then (let out = call_from answers irq_chain_depth 0 (int_no - 32) t.routines in
        (out.0, (if out.1 then none else some (int_no - 32)), interrupt_resume t))
    else ([], none, interrupt_resume t)
