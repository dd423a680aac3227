-- ===== src/Load/Tests.antt =====
-- The shapes at some times.
use risk_core.Prelude.{◌≡◌, refl, none, some}
use risk_core.Load.Shapes.{spike_tick, stress_tick}

spike_hold : spike_tick 100_000 ≡ some (1000, 0)
unfolding spike_tick
spike_hold = refl

stress_third_minute : stress_tick none 125_000 ≡ some (150, 50)
unfolding stress_tick
stress_third_minute = refl
