-- ===== src/Samples/Machine.antt =====
-- The theorems about the samplers and the sampler loop, at sample readings.
use agent_pulse.Base.{
  ◌==◌, if◌then◌else◌, length, pos, ◌-ℤ◌, lit, equal, lookup, insert, ℕ, ◌≤◌, ◌≡◌, refl, true,
  false, none, some, List, [], ◌∷◌, arith,
}
use agent_pulse.Config.{greater_than, Rule}
use agent_pulse.Alerts.{
  condition_met, firing_event, on_met, is_met, rule_tick, evaluate_rules, evaluate,
}
use agent_pulse.State.{ProcInfo}
use agent_pulse.Metrics.{Ticks, fair, percent_of, sample_cpu}
use agent_pulse.Metrics.Shares.{IsAhead, busy_since, ticks_since, sample_cpu_share}
use agent_pulse.Metrics.Processes.{keep_busiest}
use agent_pulse.Metrics.Processes.Busiest.{IsDoubleOrder, Busiest, keep_busiest-Busiest}
use agent_pulse.Monitor.{
  Readings, Monitor, Faults, report_event, report_events, metric_map, sample_round,
}
use agent_pulse.Monitor.Reports.{RoundReported, sample_round-RoundReported}
use agent_pulse.Samples.{clock, whole, empty_db, empty_state}

abbrev ticks_before : Ticks
ticks_before = record { user = 10; system = 5; idle = 100; nice = 0 }

abbrev ticks_after : Ticks
ticks_after = record { user = 40; system = 15; idle = 160; nice = 0 }

ticks-IsAhead : IsAhead ticks_before ticks_after
ticks-IsAhead = record {
  user = (omega arith, omega arith);
  system = (omega arith, omega arith);
  idle = (omega arith, omega arith);
  nice = (omega arith, omega arith);
}

sample_cpu_share_example :
    (busy_since ticks_before ticks_after ≤ ticks_since ticks_before ticks_after)
    × (sample_cpu whole (some ticks_before) (some ticks_after) ≡ (
      some ticks_after,
      if ticks_since ticks_before ticks_after == 0
          then 0
          else percent_of whole
              (busy_since ticks_before ticks_after)
              (ticks_since ticks_before ticks_after),
    ))
sample_cpu_share_example = sample_cpu_share whole ticks_before ticks_after ticks-IsAhead

whole_order : IsDoubleOrder whole
whole_order = record {
  gt_asym = λ a b h. ground arith;
  gt_trans = λ a b c h k. ground arith;
  gt_neq = λ a b h. ground arith;
  neq_comm = λ a b. ground arith;
  same_neq = λ a b c h. ground arith;
  same_left = λ a b c h. ground arith;
  same_right = λ a b c h. ground arith;
}

abbrev processes : List (ProcInfo ℕ)
processes =
    record { pid = pos 7; name = b'x' ∷ []; cpu_percent = 3; rss_bytes = 10 }
    ∷ record { pid = pos 8; name = b'y' ∷ []; cpu_percent = 90; rss_bytes = 20 }
    ∷ record { pid = pos 9; name = b'z' ∷ []; cpu_percent = 3; rss_bytes = 40 }
    ∷ []

keep_busiest-Busiest_example :
    Busiest whole (pos 2) processes (keep_busiest whole (pos 2) processes)
keep_busiest-Busiest_example = keep_busiest-Busiest whole whole_order (pos 2) processes

abbrev hot : Rule ℕ
hot = record {
  name = b'h' ∷ [];
  metric = lit "system.cpu.percent";
  condition = greater_than;
  threshold = 50;
  duration_seconds = pos 0;
  cooldown_seconds = pos 60;
  severity = lit "critical";
}

abbrev a_monitor : Monitor ℕ
a_monitor = record {
  db = empty_db;
  state = empty_state;
  engine = record {
    rules = hot ∷ [];
    quiet_hours = record { enabled = false; start_hour = pos 0; end_hour = pos 0 };
    state = [];
  };
  next = 0;
  notifications = [];
}

abbrev some_readings : Readings ℕ
some_readings = record {
  ts = pos 100;
  cpu_pct = 80;
  mem = record { valid = true; total_bytes = 100; used_bytes = 40; used_percent = 40 };
  disk = record { valid = false; total_bytes = 0; available_bytes = 0; used_percent = 0 };
  thermal = fair;
  top = processes;
  self_stats = record { valid = true; rss_bytes = 5; cpu_percent = 1 };
}

abbrev no_faults : Faults ℕ
no_faults = record { of_metric = λ t. none; of_event = λ e. none }

sample_round-RoundReported_example :
    RoundReported whole clock no_faults some_readings a_monitor
      (sample_round whole clock no_faults 6000 some_readings a_monitor)
sample_round-RoundReported_example =
    sample_round-RoundReported whole clock no_faults 6000 some_readings a_monitor (omega arith)

-- The rule fires at once, and so a notification is sent.
one_notification :
    length (sample_round whole clock no_faults 6000 some_readings a_monitor).notifications ≡ 1
unfolding sample_round report_events report_event evaluate evaluate_rules rule_tick on_met is_met
    condition_met firing_event metric_map insert lookup equal lit ◌-ℤ◌
one_notification = refl
