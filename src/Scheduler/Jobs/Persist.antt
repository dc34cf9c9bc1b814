-- ===== src/Scheduler/Jobs/Persist.antt =====
-- scheduler.cpp: jobs added from the interface come back when the daemon starts again.

use agent_pulse.Base.{Text, lit, ◌≡◌, refl, ap, [], ◌∷◌}
use agent_pulse.Base.Decimal.{Avoids}
use agent_pulse.Cron.{parsed}
use agent_pulse.Config.{MissedRunPolicy, ignore, policy_to_string, Job, policy_round_trip}
use agent_pulse.Db.{c_text, stored_def}
use agent_pulse.Scheduler.Jobs.{schedule_of, job_from_def, def_from_job}
use agent_pulse.Scheduler.Jobs.Names.{ui_job}

c_text_lem : (t : Text) → Avoids 0 t → c_text t ≡ t
unfolding c_text
c_text_lem [] h = refl
c_text_lem (c ∷ t) h = rw (h.0) (ap (◌∷◌ c) (c_text_lem t h.1))

c_text-policy : (p : MissedRunPolicy) → c_text (policy_to_string p) ≡ policy_to_string p
unfolding c_text policy_to_string lit
c_text-policy ignore = refl
c_text-policy _ = refl

-- No field of the job holds a NUL byte, and its schedule is that of its expression.
pub record IsStorable (job : Job) : Type 0 where
  pub name_ok : Avoids 0 job.name
  pub command_ok : Avoids 0 job.command
  pub expr_ok : Avoids 0 job.schedule_expr
  pub parsed_ok : schedule_of job.schedule_expr ≡ parsed job.schedule

pub stored_def_lem : (job : Job) → IsStorable job → stored_def (def_from_job job) ≡ def_from_job job
unfolding stored_def def_from_job
stored_def_lem job h = λ i. record {
  name = c_text_lem job.name h.name_ok i;
  command = c_text_lem job.command h.command_ok i;
  schedule_expr = c_text_lem job.schedule_expr h.expr_ok i;
  missed_run_policy = c_text-policy job.missed_run_policy i;
  timeout_seconds = job.timeout_seconds;
  retries = job.retries;
}

pub rebuilt :
    (job : Job)
    → schedule_of job.schedule_expr ≡ parsed job.schedule
    → job_from_def (def_from_job job) ≡ parsed (ui_job job)
unfolding job_from_def def_from_job
rebuilt job e = rw (e, policy_round_trip job.missed_run_policy)

-- A job that the interface added is rebuilt from its stored definition as it was: the fields have
-- no NUL byte, and the schedule is the parsed expression.
pub job_from_def-def_from_job :
    (job : Job)
    → IsStorable job
    → job_from_def (stored_def (def_from_job job)) ≡ parsed (ui_job job)
job_from_def-def_from_job job h = rw (stored_def_lem job h) (rebuilt job h.parsed_ok)
