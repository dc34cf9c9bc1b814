-- ===== src/Samples.antt =====
-- Sample data, and the theorems applied to it in the children.
mod Schedules
mod Rules
mod Registry
mod Rounds
mod Runs
mod Files
mod Wire
mod Requests
mod Machine
use agent_pulse.Base.{
  ltb, leb, ◌==◌, ℤ, pos, negsuc, pos_part, Text, Dict, Doubles, decimal, ℕ, ◌*◌, ◌/◌, ◌%◌, Bool,
  true, false, not, none, some, List, [], ◌∷◌,
}
use agent_pulse.Cron.{CronSchedule, Tm}
use agent_pulse.Config.{ignore, run_now, Job}
use agent_pulse.Db.{Database}
use agent_pulse.State.{SharedState}
use agent_pulse.Scheduler.{Scheduler}

-- A clock on which every day is Thursday, 1 January.
abbrev pub clock : ℤ → Tm
clock t = record {
  tm_min = pos_part t / 60 % 60;
  tm_hour = pos_part t / 3600 % 24;
  tm_mday = 1;
  tm_mon = 0;
  tm_wday = 4;
}

-- At one o'clock.
abbrev pub at_one : CronSchedule
at_one = record {
  minutes = 0 ∷ [];
  hours = 1 ∷ [];
  days = 1 ∷ [];
  months = 1 ∷ [];
  weekdays = 4 ∷ [];
  dom_wildcard = false;
  dow_wildcard = false;
}

-- Whole numbers in the place of `double`.
abbrev pub whole : Doubles
whole = record {
  Double = ℕ;
  gt = λ a b. ltb b a;
  lt = ltb;
  ge = λ a b. leb b a;
  neq = λ a b. not (a == b);
  mul = ◌*◌;
  div = ◌/◌;
  zero_double = 0;
  from_int = pos_part;
  show = decimal;
  show_rounded = decimal;
}

abbrev pub backup : Job
backup = record {
  name = b'b' ∷ [];
  command = b'c' ∷ [];
  schedule = some at_one;
  schedule_expr = [];
  missed_run_policy = run_now;
  timeout_seconds = pos 0;
  retries = pos 1;
  source = [];
}

abbrev pub cleanup : Job
cleanup = record {
  name = b'd' ∷ [];
  command = b'c' ∷ [];
  schedule = none;
  schedule_expr = [];
  missed_run_policy = ignore;
  timeout_seconds = pos 0;
  retries = negsuc 0;
  source = [];
}

abbrev pub empty_db : Database ℕ
empty_db = record { metrics = []; runs = []; alerts = []; job_defs = [] }

abbrev pub empty_state : SharedState ℕ
empty_state = record {
  cpu = record { valid = false; percent = 0; sampled_at = pos 0 };
  self = record { valid = false; rss_bytes = 0; cpu_percent = 0 };
  jobs = [];
  system = record {
    valid = false;
    sampled_at = pos 0;
    mem_total_bytes = 0;
    mem_used_bytes = 0;
    mem_used_percent = 0;
    disk_total_bytes = 0;
    disk_available_bytes = 0;
    disk_used_percent = 0;
    thermal_state = [];
    top_processes = [];
  };
  alerts = [];
}

-- A scheduler with two jobs, the given tasks and the given queue.
abbrev pub scheduler_with : Dict Bool → List (Text × Text) → Scheduler ℕ
scheduler_with running queue = record {
  jobs = backup ∷ cleanup ∷ [];
  next_run = (b'b' ∷ [], pos 3600) ∷ [];
  running = running;
  last_runs = [];
  missed_handled = [];
  queue = queue;
  last_wall = pos 0;
  wake_pending = false;
  active = true;
  db = empty_db;
  state = empty_state;
  notifications = [];
}
