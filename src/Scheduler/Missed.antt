-- ===== src/Scheduler/Missed.antt =====
-- scheduler.cpp, `scan_missed` and `start`.
pub mod Detect
pub mod Once
use agent_pulse.Base.{
  if◌then◌else◌, value_or, is_some, keep_if, ℤ, pos, leb_ℤ, Text, lit, lookup, insert, Doubles,
  Bool, true, false, not, ◌&&◌, Option, none, some, List, [], ◌∷◌, ◌++◌,
}
use agent_pulse.Cron.{Tm}
use agent_pulse.Config.{MissedRunPolicy, ignore, policy_to_string, Job}
use agent_pulse.Scheduler.{Scheduler, detect_missed_run, enqueue, emit_alert}

-- The clock at the start of the scan, and for each alert the clock and the error of SQLite, if any.
pub record Scan : Type 0 where
  pub now : ℤ
  pub time_of : Text → ℤ
  pub fault_of : Text → Option Text

-- The jobs of the snapshot.
unfoldable pub is_candidate : Job → Bool
is_candidate job = is_some job.schedule && not (is_ignore job.missed_run_policy)
  where
    is_ignore : MissedRunPolicy → Bool
    is_ignore ignore = true
    is_ignore _ = false

unfoldable pub candidates : List Job → List Job
candidates jobs = keep_if is_candidate jobs

unfoldable pub last_run_ts : {D : Type 0} → Scheduler D → Text → ℤ
last_run_ts s name = elim (lookup name s.last_runs) [ none ↦ pos 0 | some r ↦ r.started_at ]

unfoldable pub missed_of : {D : Type 0} → (ℤ → Tm) → ℤ → Scheduler D → Job → Option ℤ
missed_of localtime now s job = elim job.schedule [
  | none ↦ none
  | some schedule ↦ detect_missed_run localtime schedule (last_run_ts s job.name) now
]

module _ (doubles : Doubles) where
  open doubles use {Double, from_int}

  -- What follows the check that the occurrence is new.
  unfoldable pub recover_missed : Scan → Job → ℤ → Scheduler Double → Scheduler Double
  recover_missed scan job missed s =
      let marked = record s { missed_handled = insert job.name missed s.missed_handled } in
      let alerted =
        emit_alert doubles (scan.time_of job.name) (scan.fault_of job.name) job.name (lit "warning")
          (lit "scheduled run was missed (Mac asleep or daemon down) — recovering now")
          (lit "policy: " ++ policy_to_string job.missed_run_policy) (from_int missed) marked in
      enqueue job.name (lit "missed") alerted

  -- The body of the loop over the candidates.
  unfoldable pub scan_job : (ℤ → Tm) → Scan → Job → Scheduler Double → Scheduler Double
  unfolding recover_missed
  scan_job localtime scan job s = elim (missed_of localtime scan.now s job) [
    | none ↦ s
    | some missed ↦
        let handled = value_or (lookup job.name s.missed_handled) (pos 0) in
        if leb_ℤ missed handled
        then record s { missed_handled = insert job.name handled s.missed_handled }
        else recover_missed scan job missed s
  ]

  unfoldable pub scan_jobs : (ℤ → Tm) → Scan → List Job → Scheduler Double → Scheduler Double
  scan_jobs localtime scan [] s = s
  scan_jobs localtime scan (job ∷ jobs) s =
      scan_jobs localtime scan jobs (scan_job localtime scan job s)

  unfoldable pub scan_missed : (ℤ → Tm) → Scan → Scheduler Double → Scheduler Double
  unfolding candidates
  scan_missed localtime scan s = scan_jobs localtime scan (candidates s.jobs) s

  -- `start`, but for the thread: `wall` is its first reading of the clock.
  unfoldable pub start : (ℤ → Tm) → ℤ → Scan → Scheduler Double → Scheduler Double
  start localtime wall scan s =
      if s.active
      then s
      else scan_missed localtime scan (record s { active = true; last_wall = wall })
