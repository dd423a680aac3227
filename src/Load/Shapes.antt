-- ===== src/Load/Shapes.antt =====
-- infra/load-testing/scenario_4_spike.py and scenario_5_stress.py: how many users there are at a
-- time. A time is in milliseconds, as Locust's `get_run_time` counts from the start of a test.
use risk_core.Prelude.{
  ℕ, ◌+◌, ◌*◌, ◌/◌, ◌≤◌, ◌<◌, ◌≡◌, refl, false, Option, none, some, List, [], ◌∷◌, arith, min, leb,
  ltb, Bool-cases, inl, inr, if◌then◌else◌,
}

pub record Stage : Type 0 where
  pub duration : ℕ
  pub users : ℕ
  pub spawn_rate : ℕ

-- `SpikeShape.stages`
abbrev pub stages : List Stage
stages =
    (record { duration = 30; users = 1000; spawn_rate = 35 })
    ∷ (record { duration = 150; users = 1000; spawn_rate = 0 })
    ∷ (record { duration = 180; users = 0; spawn_rate = 35 })
    ∷ []

-- The first stage that has not ended; `none` ends the test.
abbrev pub stage_at : ℕ → List Stage → Option (ℕ × ℕ)
stage_at ms [] = none
stage_at ms (s ∷ rest) =
    if ltb ms (s.duration * 1000) then some (s.users, s.spawn_rate) else stage_at ms rest

-- `SpikeShape.tick`
unfoldable pub spike_tick : ℕ → Option (ℕ × ℕ)
spike_tick ms = stage_at ms stages

abbrev pub step_users : ℕ
step_users = 50

abbrev pub step_duration : ℕ
step_duration = 60

abbrev pub max_users : ℕ
max_users = 5000

-- `StressShape.tick`; the fail ratio is a fraction, and `none` is a shape without a runner.
unfoldable pub stress_tick : Option (ℕ × ℕ) → ℕ → Option (ℕ × ℕ)
stress_tick fail_ratio ms =
    let target_users = min ((ms / (step_duration * 1000) + 1) * step_users) max_users in
    if elim fail_ratio [ none ↦ false | some (a, b) ↦ ltb b (10 * a) ]
    then none
    else if leb max_users target_users
    then none
    else some (target_users, step_users)

-- The stress test ends by itself, at the latest after 99 minutes; until then it grows by 50 users a
-- minute while at most a tenth of the requests fail, and it never asks for more than 4950.
pub stress_tick_lem :
    (fail_ratio : Option (ℕ × ℕ)) (ms : ℕ)
    → (5_940_000 ≤ ms → stress_tick fail_ratio ms ≡ none)
      × (ms < 5_940_000 → stress_tick none ms ≡ some ((ms / 60_000 + 1) * 50, 50))
      × ((users rate : ℕ) → stress_tick fail_ratio ms ≡ some (users, rate) → users ≤ 4950)
unfolding stress_tick
stress_tick_lem fail_ratio ms = (
  (λ late. elim (Bool-cases (elim fail_ratio [ none ↦ false | some (a, b) ↦ ltb b (10 * a) ])) [
    | inl bad ↦ rw bad refl
    | inr fine ↦ rw fine (ground arith)
  ]),
  (λ early. ground arith),
  (λ users rate h.
      elim (Bool-cases (elim fail_ratio [ none ↦ false | some (a, b) ↦ ltb b (10 * a) ])) [
        | inl bad ↦ absurd (let no : none ≡ some (users, rate) = rw bad at h in cc)
        | inr fine ↦ let h' = rw fine at h in ground arith
      ]),
)
