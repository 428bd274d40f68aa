-- ===== src/Timer.antt =====
-- kernel/timer.c: the clock that the timer interrupt advances.
--
-- The programming of the interval timer and `irq_ack` are port writes and not modelled. What the
-- clock chip shows (`read_cmos`) is an argument.
pub mod Laws
mod Tests
use bingos.Common.{
  ℕ, suc, ◌+◌, ◌-◌, ◌*◌, ◌/◌, ◌%◌, ◌^◌, Bool, true, false, ◌&&◌, ◌||◌, Option, none, some, ltb,
  ◌==◌, if◌then◌else◌,
}
use bingos.Sched.{Kernel, wakeup_sleepers, context_switch}

abbrev pub subticks_per_tick : ℕ
subticks_per_tick = 1000

-- `drift` is an `int32_t`, kept as its bit pattern.
pub record Clock : Type 0 where
  pub ticks : ℕ
  pub subticks : ℕ
  pub drift : ℕ
  pub behind : Bool

-- The part of `timer_callback` before the scheduler is called. With RESYNC_TIME 1 the remainder of
-- the ticks is 0, so every tick is followed by a resynchronisation.
pub advance : ℕ → ℕ → Clock → Clock
advance boot_time now c =
    let sub = (c.subticks + 1) % 2 ^ 32 in
    if sub == subticks_per_tick
    then (let ticks = (c.ticks + 1) % 2 ^ 32 in
        let drift = (now + 2 ^ 32 + 2 ^ 32 - boot_time - ticks) % 2 ^ 32 in
        record {
          ticks = ticks;
          subticks = 0;
          drift = drift;
          behind = ltb 0 drift && ltb drift (2 ^ 31);
        })
    else record c { subticks = sub }

-- `timer_callback`: the clock advances, who is due becomes ready, and the processor is given to the
-- next process.
pub callback : ℕ → ℕ → Clock → Kernel → Option (Clock × Kernel)
unfolding advance
callback boot_time now c k =
    let c' = advance boot_time now c in
    elim (context_switch true (wakeup_sleepers c'.ticks c'.subticks k)) [
      | none ↦ none
      | some k' ↦ some (c', k')
    ]

-- `relative_time`: the pair of `*out_seconds` and `*out_subseconds`.
pub relative_time : Clock → ℕ → ℕ → ℕ × ℕ
relative_time c seconds subseconds =
    if ltb subticks_per_tick ((subseconds + c.subticks) % 2 ^ 32)
    then (
      (c.subticks + seconds + 1) % 2 ^ 32,
      ((subseconds + c.subticks) % 2 ^ 32 - subticks_per_tick),
    )
    else ((c.ticks + seconds) % 2 ^ 32, (c.subticks + subseconds) % 2 ^ 32)

-- `sys_gettimeofday` of drivers/cmos.c: seconds and microseconds.
pub gettimeofday : ℕ → Clock → ℕ × ℕ
gettimeofday boot_time c = ((boot_time + c.ticks + c.drift) % 2 ^ 32, (c.subticks * 1000) % 2 ^ 32)
