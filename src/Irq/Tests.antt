-- ===== src/Irq/Tests.antt =====
-- hal/irq.c: two handlers on the keyboard's line.
use bingos.Common.{
  ◌+◌, ◌≡◌, refl, true, false, none, some, [], ◌∷◌, leb, ◌==◌, if◌then◌else◌, arith,
}
use bingos.Irq.{
  Irq, interrupt_disable, interrupt_resume, interrupt_enable, register_from,
  register_interrupt_handler, call_from, irq_handler,
}
use bingos.Irq.Nesting.{times, interrupt_resume-interrupt_disable, until, handlers, irq_handler_lem}

abbrev boot : Irq
boot = record { enabled = false; sync_depth = 0; routines = λ k. none }

abbrev two_handlers : Irq
two_handlers = record {
  enabled = true;
  sync_depth = 0;
  routines = λ k. if k == 1 then some 100 else if k == 17 then some 200 else none;
}

register-second : (register_interrupt_handler 1 300 two_handlers).routines 33 ≡ some 300
unfolding register_interrupt_handler register_from
register-second = refl

irq_handler-both : (irq_handler (λ h. h == 200) 33 two_handlers).0 ≡ 100 ∷ 200 ∷ []
unfolding irq_handler call_from
irq_handler-both = refl

-- A critical section before interrupts are first enabled ends with them enabled.
resume-boot : (interrupt_resume (interrupt_disable boot)).enabled ≡ true
unfolding interrupt_resume interrupt_disable
resume-boot = refl

enable-boot : (interrupt_enable boot).enabled ≡ true
unfolding interrupt_enable
enable-boot = refl

interrupt_resume-interrupt_disable_example :
    (times interrupt_resume 2 (times interrupt_disable 3 two_handlers)).enabled ≡ leb 3 2
interrupt_resume-interrupt_disable_example =
    interrupt_resume-interrupt_disable 3 2 two_handlers refl (omega arith) (omega arith)

irq_handler_lem_example :
    ((irq_handler (λ h. h == 200) (32 + 1) two_handlers).0
      ≡ (until (λ h. h == 200) (handlers 1 two_handlers)).0)
    × ((irq_handler (λ h. h == 200) (32 + 1) two_handlers).1
        ≡ (if (until (λ h. h == 200) (handlers 1 two_handlers)).1 then none else some 1))
    × ((irq_handler (λ h. h == 200) (32 + 1) two_handlers).2.enabled ≡ true)
irq_handler_lem_example = irq_handler_lem (λ h. h == 200) 1 two_handlers (omega arith) refl
