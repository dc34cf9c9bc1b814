-- ===== src/State.antt =====
-- daemon/src/shared_state.hpp. Every method holds the mutex throughout, so each is one step on the
-- record.
pub mod Ring
use agent_pulse.Base.{ltb, if◌then◌else◌, length, take, ℤ, Text, ℕ, Bool, true, List, ◌∷◌}

pub record ProcInfo (D : Type 0) : Type 0 where
  pub pid : ℤ
  pub name : Text
  pub cpu_percent : D
  pub rss_bytes : ℕ

pub record AlertInfo (D : Type 0) : Type 0 where
  pub ts : ℤ
  pub rule_name : Text
  pub severity : Text
  pub metric : Text
  pub kind : Text
  pub value : D
  pub threshold : D
  pub message : Text
  pub attribution : Text
  pub notify : Bool

pub record SystemSnapshot (D : Type 0) : Type 0 where
  pub valid : Bool
  pub sampled_at : ℤ
  pub mem_total_bytes : ℕ
  pub mem_used_bytes : ℕ
  pub mem_used_percent : D
  pub disk_total_bytes : ℕ
  pub disk_available_bytes : ℕ
  pub disk_used_percent : D
  pub thermal_state : Text
  pub top_processes : List (ProcInfo D)

-- `next_run` is 0 for a job without a next run, and the `last_` fields are read only under
-- `has_last_run`.
pub record JobStatus : Type 0 where
  pub name : Text
  pub schedule_expr : Text
  pub source : Text
  pub next_run : ℤ
  pub running : Bool
  pub has_last_run : Bool
  pub last_status : Text
  pub last_started_at : ℤ
  pub last_exit_code : ℤ
  pub last_duration_ms : ℤ
  pub last_trigger : Text

pub record Cpu (D : Type 0) : Type 0 where
  pub valid : Bool
  pub percent : D
  pub sampled_at : ℤ

pub record Self (D : Type 0) : Type 0 where
  pub valid : Bool
  pub rss_bytes : ℕ
  pub cpu_percent : D

pub record SharedState (D : Type 0) : Type 0 where
  pub cpu : Cpu D
  pub self : Self D
  pub jobs : List JobStatus
  pub system : SystemSnapshot D
  pub alerts : List (AlertInfo D)

-- The default of `cap`, and `kRecentAlerts` of main.cpp.
abbrev pub alert_cap : ℕ
alert_cap = 25

module _ {D : Type 0} where
  unfoldable pub set_cpu : D → ℤ → SharedState D → SharedState D
  set_cpu percent sampled_at st = record st {
    cpu = record { valid = true; percent = percent; sampled_at = sampled_at };
  }

  unfoldable pub set_self : ℕ → D → SharedState D → SharedState D
  set_self rss_bytes cpu_percent st = record st {
    self = record { valid = true; rss_bytes = rss_bytes; cpu_percent = cpu_percent };
  }

  unfoldable pub set_jobs : List JobStatus → SharedState D → SharedState D
  set_jobs jobs st = record st { jobs = jobs }

  unfoldable pub set_system : SystemSnapshot D → SharedState D → SharedState D
  set_system system st = record st { system = system }

  unfoldable pub set_alerts : List (AlertInfo D) → SharedState D → SharedState D
  set_alerts alerts st = record st { alerts = alerts }

  -- `insert` at the front, then `resize` if the list is longer than `cap`.
  unfoldable pub add_alert : AlertInfo D → ℕ → SharedState D → SharedState D
  add_alert alert cap st =
      let alerts = alert ∷ st.alerts in
      record st { alerts = if ltb cap (length alerts) then take cap alerts else alerts }
