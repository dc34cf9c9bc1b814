-- ===== src/Scheduler.antt =====
-- daemon/src/jobs/scheduler.hpp and scheduler.cpp: the state of the scheduler and the operations
-- that the others share. Each function here is one section under the mutex, or what a thread does
-- between two of them; the clock and the errors of SQLite are arguments.
pub mod Jobs
pub mod Missed
pub mod Loop
pub mod Worker
use agent_pulse.Base.{
  if◌then◌else◌, value_or, is_some, find, ℤ, pos, leb_ℤ, Text, lit, equal, is_empty, Dict, lookup,
  Doubles, ℕ, Bool, true, false, not, Option, none, some, List, [], ◌∷◌, ◌++◌, map,
}
use agent_pulse.Cron.{CronSchedule, Tm}
use agent_pulse.Cron.Search.{prev_before}
use agent_pulse.Config.{Job}
use agent_pulse.State.{AlertInfo, JobStatus, SharedState, alert_cap, set_jobs, add_alert}
use agent_pulse.Db.{RunRecord, AlertRecord, Database, DbResult, done, db_error, insert_alert}

-- `running` has the flag `done` of each task whose thread is not yet joined. `notifications` is the
-- list of the calls of `send_notification`, title and body, the newest last.
pub record Scheduler (D : Type 0) : Type 0 where
  pub jobs : List Job
  pub next_run : Dict ℤ
  pub running : Dict Bool
  pub last_runs : Dict RunRecord
  pub missed_handled : Dict ℤ
  pub queue : List (Text × Text)
  pub last_wall : ℤ
  pub wake_pending : Bool
  pub active : Bool
  pub db : Database D
  pub state : SharedState D
  pub notifications : List (Text × Text)

unfoldable pub detect_missed_run : (ℤ → Tm) → CronSchedule → ℤ → ℤ → Option ℤ
detect_missed_run localtime schedule last_run_ts now = elim (prev_before localtime schedule now) [
  | none ↦ none
  | some prev ↦ if leb_ℤ prev last_run_ts then none else some prev
]

-- The first job of this name.
abbrev pub find_job_in : Text → List Job → Option Job
find_job_in name jobs = find (λ job. equal job.name name) jobs

unfoldable pub is_running_in : Dict Bool → Text → Bool
is_running_in running name = elim (lookup name running) [ none ↦ false | some ended ↦ not ended ]

module _ {D : Type 0} where
  unfoldable pub find_job : Text → Scheduler D → Option Job
  find_job name s = find_job_in name s.jobs

  -- The status of one job, with the defaults of `JobStatus` where nothing is known.
  unfoldable pub status_of : Scheduler D → Job → JobStatus
  status_of s job =
      let last = lookup job.name s.last_runs in
      record {
        name = job.name;
        schedule_expr = job.schedule_expr;
        source = job.source;
        next_run = value_or (lookup job.name s.next_run) (pos 0);
        running = is_running_in s.running job.name;
        has_last_run = is_some last;
        last_status = elim last [ none ↦ [] | some r ↦ r.status ];
        last_started_at = elim last [ none ↦ pos 0 | some r ↦ r.started_at ];
        last_exit_code = elim last [ none ↦ pos 0 | some r ↦ r.exit_code ];
        last_duration_ms = elim last [ none ↦ pos 0 | some r ↦ r.duration_ms ];
        last_trigger = elim last [ none ↦ [] | some r ↦ r.trigger ];
      }

  unfoldable pub publish_status : Scheduler D → Scheduler D
  unfolding status_of
  publish_status s = record s { state = set_jobs (map (status_of s) s.jobs) s.state }

  unfoldable pub enqueue : Text → Text → Scheduler D → Scheduler D
  enqueue name trigger s = record s { queue = s.queue ++ (name, trigger) ∷ [] }

  unfoldable pub notify_wake : Scheduler D → Scheduler D
  notify_wake s = record s { wake_pending = true }

  -- `false` if there is no such job.
  unfoldable pub request_run : Text → Scheduler D → Scheduler D × Bool
  unfolding find_job
  request_run name s = elim (find_job name s) [
    | none ↦ (s, false)
    | some job ↦ (enqueue name (lit "manual") s, true)
  ]

  -- A change of the database, or none if it fails; the failure is logged only.
  abbrev pub or_keep : Database D → DbResult (Database D × ℕ) → Database D
  or_keep db (done r) = r.0
  or_keep db (db_error e) = db

module _ (doubles : Doubles) where
  open doubles use {Double, zero_double}

  -- `ts` is the clock, and `fault` the error of `insert_alert`, if any.
  unfoldable pub emit_alert :
      ℤ → Option Text → Text → Text → Text → Text → Double → Scheduler Double → Scheduler Double
  emit_alert ts fault job_name severity message attribution value s =
      let rec : AlertRecord Double = record {
        id = 0;
        ts = ts;
        rule_name = job_name;
        severity = severity;
        metric = lit "job";
        kind = lit "firing";
        value = value;
        threshold = zero_double;
        message = message;
        attribution = attribution;
      } in
      let info : AlertInfo Double = record {
        ts = ts;
        rule_name = job_name;
        severity = severity;
        metric = lit "job";
        kind = lit "firing";
        value = value;
        threshold = zero_double;
        message = message;
        attribution = attribution;
        notify = true;
      } in
      let body = if is_empty attribution then message else message ++ b'\n' ∷ attribution in
      record s {
        db = or_keep s.db (insert_alert fault rec s.db);
        state = add_alert info alert_cap s.state;
        notifications = s.notifications ++ (lit "AgentPulse: " ++ job_name, body) ∷ [];
      }
