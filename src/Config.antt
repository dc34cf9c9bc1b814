-- ===== src/Config.antt =====
-- daemon/src/config/config.hpp and the conversions of config.cpp: jobs, alert rules, quiet hours.
pub mod Load
use agent_pulse.Base.{if◌then◌else◌, ℤ, Text, lit, equal, ◌≡◌, refl, Bool, Option}
use agent_pulse.Cron.{CronSchedule}

-- `MissedRunPolicy::None` is `ignore`.
pub data MissedRunPolicy : Type 0 where
  ignore run_on_wake run_now : MissedRunPolicy

unfoldable pub policy_to_string : MissedRunPolicy → Text
policy_to_string ignore = lit "none"
policy_to_string run_on_wake = lit "run_on_wake"
policy_to_string run_now = lit "run_now"

unfoldable pub missed_run_policy_from_string : Text → MissedRunPolicy
missed_run_policy_from_string s =
    if equal s (lit "run_on_wake")
    then run_on_wake
    else if equal s (lit "run_now")
    then run_now
    else ignore

pub record Job : Type 0 where
  pub name : Text
  pub command : Text
  pub schedule : Option CronSchedule
  pub schedule_expr : Text
  pub missed_run_policy : MissedRunPolicy
  pub timeout_seconds : ℤ
  pub retries : ℤ
  pub source : Text

pub data Condition : Type 0 where
  greater_than less_than at_least : Condition

unfoldable pub condition_to_string : Condition → Text
condition_to_string greater_than = lit "greater_than"
condition_to_string less_than = lit "less_than"
condition_to_string at_least = lit "at_least"

-- `threshold` is a `double`.
pub record Rule (D : Type 0) : Type 0 where
  pub name : Text
  pub metric : Text
  pub condition : Condition
  pub threshold : D
  pub duration_seconds : ℤ
  pub cooldown_seconds : ℤ
  pub severity : Text

pub record QuietHours : Type 0 where
  pub enabled : Bool
  pub start_hour : ℤ
  pub end_hour : ℤ

-- The text of a policy is read back as that policy.
pub policy_round_trip :
    (p : MissedRunPolicy) → missed_run_policy_from_string (policy_to_string p) ≡ p
unfolding missed_run_policy_from_string policy_to_string lit equal
policy_round_trip ignore = refl
policy_round_trip _ = refl
