-- ===== src/Timer/Tests.antt =====
-- Runs of kernel/timer.c, and the theorems at concrete times.
use bingos.Common.{◌+◌, ◌-◌, ◌^◌, ◌*◌, ◌<◌, ◌≤◌, ◌≡◌, ◌⊎◌, refl, false, arith}
use bingos.Timer.{Clock, advance, relative_time}
use bingos.Timer.Laws.{elapsed, elapsed-advance, relative_time_lem}

abbrev clock : Clock
clock = record { ticks = 7; subticks = 999; drift = 0; behind = false }

tick :
    advance 100 107 clock ≡ record { ticks = 8; subticks = 0; drift = 2 ^ 32 - 1; behind = false }
unfolding advance
tick = refl

-- Half a second from 7.999 is taken for 1000.499.
carried : relative_time clock 0 500 ≡ (1000, 499)
unfolding relative_time
carried = refl

elapsed-advance_example :
    (elapsed (advance 100 107 clock) ≡ 8000) × ((advance 100 107 clock).subticks < 1000)
elapsed-advance_example = elapsed-advance 100 107 clock (omega arith) (omega arith)

relative_time_lem_example :
    let (s, ss) = relative_time clock 0 500 in
    (999 + 500 ≤ 1000) × (1000 * s + ss ≡ 8499)
    ⊎ (1000 < 999 + 500) × (1000 * s + ss + 7000 ≡ 8499 + 999000)
relative_time_lem_example =
    relative_time_lem clock 0 500 (omega arith) (omega arith) (omega arith) (omega arith)
