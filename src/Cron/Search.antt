-- ===== src/Cron/Search.antt =====
-- cron.cpp, `next_after` and `prev_before`. `localtime` stands for `localtime_r`, which reads the
-- time zone of the machine; nothing is assumed of it. A `time_t` is an integer.
pub mod Nearest
use agent_pulse.Base.{ℤ, pos, ◌+ℤ◌, ◌-ℤ◌, rem, ℕ, zero, suc, true, false, Option, none, some}
use agent_pulse.Cron.{CronSchedule, Tm, matches}

-- `kMaxMinutes`, 4 * 366 days of minutes.
abbrev pub max_minutes : ℕ
max_minutes = 2108160

module _ (localtime : ℤ → Tm) (schedule : CronSchedule) where
  -- The loop of `next_after` with `rounds` rounds left.
  unfoldable pub search_forward : ℕ → ℤ → Option ℤ
  search_forward zero t = none
  search_forward (suc rounds) t = elim (matches schedule (localtime t)) [
    | true ↦ some t
    | false ↦ search_forward rounds (t +ℤ pos 60)
  ]

  -- The loop of `prev_before`.
  unfoldable pub search_backward : ℕ → ℤ → Option ℤ
  search_backward zero t = none
  search_backward (suc rounds) t = elim (matches schedule (localtime t)) [
    | true ↦ some t
    | false ↦ search_backward rounds (t -ℤ pos 60)
  ]

  unfoldable pub next_after : ℤ → Option ℤ
  next_after after = search_forward max_minutes (after -ℤ rem after 60 +ℤ pos 60)

  unfoldable pub prev_before : ℤ → Option ℤ
  prev_before at = search_backward max_minutes (at -ℤ rem at 60)
