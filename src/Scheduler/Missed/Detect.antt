-- ===== src/Scheduler/Missed/Detect.antt =====
-- scheduler.cpp, `detect_missed_run`: the result is the latest occurrence that was missed.
use agent_pulse.Base.{
  Bool-cases, Option-cases, ℤ, pos, ◌≤ℤ◌, ◌<ℤ◌, leb_ℤ, ℕ, ◌+◌, ◌*◌, ◌≤◌, ◌<◌, ◌≡◌, ◌≢◌, inl, inr,
  true, false, none, some, arith,
}
use agent_pulse.Cron.{CronSchedule, Tm}
use agent_pulse.Cron.Search.{max_minutes, prev_before}
use agent_pulse.Cron.Search.Nearest.{minute, fires, prev_before-nearest, prev_before-ne-none}
use agent_pulse.Scheduler.{detect_missed_run}

module _ (localtime : ℤ → Tm) (schedule : CronSchedule) where
  detect-prev :
      (last now r : ℤ)
      → detect_missed_run localtime schedule last now ≡ some r
      → (prev_before localtime schedule now ≡ some r) × (last <ℤ r)
  unfolding detect_missed_run
  detect-prev last now r e = (ground arith, ground arith)

  -- What is detected at a time since the epoch is an occurrence of the schedule after the last run
  -- and not after that time, and no whole minute behind it up to that time is an occurrence.
  pub detect_missed_run-latest :
      (a : ℕ) (last r : ℤ)
      → detect_missed_run localtime schedule last (pos a) ≡ some r
      → (last <ℤ r)
        × (r ≤ℤ pos a)
        × (fires localtime schedule r ≡ true)
        × ((q : ℕ) → r <ℤ minute q → 60 * q ≤ a → fires localtime schedule (minute q) ≡ false)
  detect_missed_run-latest a last r e =
      let (found, later) = detect-prev last (pos a) r e in
      let (k, at, le, hit, none_later) = prev_before-nearest localtime schedule a r found in
      (later, le, hit, none_later)

  -- An occurrence after the last run and not after the time `a`, less than `max_minutes` minutes
  -- back, makes the detection succeed.
  pub detect_missed_run-ne-none :
      (a q : ℕ) (last : ℤ)
      → 60 * q ≤ a
      → a < 60 * q + 60 * max_minutes
      → last <ℤ minute q
      → fires localtime schedule (minute q) ≡ true
      → detect_missed_run localtime schedule last (pos a) ≢ none
  unfolding detect_missed_run
  detect_missed_run-ne-none a q last before near after hit e =
      elim (Option-cases (prev_before localtime schedule (pos a))) [
        | inl nothing ↦ prev_before-ne-none localtime schedule a q before near hit nothing
        | inr (r, found) ↦ elim (Bool-cases (leb_ℤ r last)) [
          | inr newer ↦ ground arith
          | inl older ↦
              let (k, at, le, _, none_later) = prev_before-nearest localtime schedule a r found in
              let miss = none_later q (ground arith) before in cc
        ]
      ]
