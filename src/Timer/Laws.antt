-- ===== src/Timer/Laws.antt =====
-- The clock of kernel/timer.c counts subticks, and wake-up times are computed from it.
use bingos.Common.{ℕ, ◌+◌, ◌-◌, ◌*◌, ◌^◌, ◌<◌, ◌≤◌, ◌≡◌, ◌⊎◌, arith}
use bingos.Timer.{Clock, subticks_per_tick, advance, relative_time}

-- The time since the start, in subticks.
abbrev pub elapsed : Clock → ℕ
elapsed c = subticks_per_tick * c.ticks + c.subticks

-- A timer interrupt adds one subtick to the time, and the subticks stay below a whole tick, until
-- the tick counter is full.
pub elapsed-advance :
    (boot_time now : ℕ) (c : Clock)
    → c.subticks < subticks_per_tick
    → c.ticks < 2 ^ 32 - 1
    → (elapsed (advance boot_time now c) ≡ elapsed c + 1)
      × ((advance boot_time now c).subticks < subticks_per_tick)
unfolding advance
elapsed-advance boot_time now c h k = ground arith

-- For a wait of less than a tick more than `seconds`, `relative_time` names the time that lies so
-- many subticks ahead if the subticks do not carry; if they do, its seconds are counted from the
-- subticks instead of the ticks, so that it names that time exactly if the two counters are equal.
pub relative_time_lem :
    (c : Clock) (seconds subseconds : ℕ)
    → c.subticks < subticks_per_tick
    → subseconds < subticks_per_tick
    → c.ticks + seconds + 1 < 2 ^ 32
    → c.subticks + seconds + 1 < 2 ^ 32
    → let (s, ss) = relative_time c seconds subseconds in
      let there = elapsed c + subticks_per_tick * seconds + subseconds in
      (c.subticks + subseconds ≤ subticks_per_tick) × (subticks_per_tick * s + ss ≡ there)
      ⊎ (subticks_per_tick < c.subticks + subseconds)
        × (subticks_per_tick * s + ss + subticks_per_tick * c.ticks
            ≡ there + subticks_per_tick * c.subticks)
unfolding relative_time
relative_time_lem c seconds subseconds h k a b = ground arith
