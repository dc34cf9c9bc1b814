-- ===== src/Ipc/Api/Body.antt =====
-- api.cpp, `add_job`: the job that the body of a request describes.

use agent_pulse.Ipc.Api.{Api, Query, job_reply, add_scheduled, add_body, add_job_request, respond}
use agent_pulse.Base.{
  if◌then◌else◌, All, ℤ, Text, lit, equal, is_empty, ◌≡◌, refl, ap, ◌∙◌, true, false, Option, none,
  some, [], ◌∷◌,
}
use agent_pulse.Cron.{parsed, CronSchedule, parse, Tm}
use agent_pulse.Scheduler.{Scheduler}
use agent_pulse.Scheduler.Jobs.{add_job}
use agent_pulse.Ipc.Api.Control.{daemon_api}
use agent_pulse.Config.{policy_to_string, Job, policy_round_trip}
use agent_pulse.Ipc.Json.{JsonLibrary}
use agent_pulse.Ipc.Api.Request.{
  text_member, request_of_object, command_of, parse_request, number_member, job_of_body,
}

-- The schedule of an expression, `none` if it is empty.
abbrev pub IsScheduleOf : Text → Option CronSchedule → Type 0
IsScheduleOf [] schedule = schedule ≡ none
IsScheduleOf (c ∷ expr) schedule =
    (parsed_schedule : CronSchedule) × (parse (c ∷ expr) ≡ parsed parsed_schedule)
    × (schedule ≡ some parsed_schedule)

-- A job that a request can describe.
pub record IsSendable (job : Job) : Type 0 where
  pub named : is_empty job.name ≡ false
  pub commanded : is_empty job.command ≡ false
  pub scheduled : IsScheduleOf job.schedule_expr job.schedule
  pub unsourced : job.source ≡ lit "config"

module _ {D : Type 0} (library : JsonLibrary D) where
  open library use {Value, parse_json, is_object, contains, text_at, int_at}

  -- The value is the body of docs/PROTOCOL.md for this job.
  pub record Describes (v : Value) (job : Job) : Type 0 where
    pub object_there : is_object v ≡ true
    pub members :
        All
          (λ k. contains k v ≡ true)
          (lit "cmd"
            ∷ lit "name"
            ∷ lit "command"
            ∷ lit "schedule"
            ∷ lit "timeout_seconds"
            ∷ lit "retries"
            ∷ lit "missed_run_policy"
            ∷ [])
    pub cmd : text_at (lit "cmd") v ≡ some (lit "add_job")
    pub name : text_at (lit "name") v ≡ some job.name
    pub command : text_at (lit "command") v ≡ some job.command
    pub schedule : text_at (lit "schedule") v ≡ some job.schedule_expr
    pub timeout_seconds : int_at (lit "timeout_seconds") v ≡ some job.timeout_seconds
    pub retries : int_at (lit "retries") v ≡ some job.retries
    pub missed_run_policy :
        text_at (lit "missed_run_policy") v ≡ some (policy_to_string job.missed_run_policy)

  job_of_body-Describes :
      (v : Value) (job : Job)
      → Describes v job
      → IsSendable job
      → job_of_body library v ≡ record job { schedule = none }
  unfolding job_of_body text_member number_member
  job_of_body-Describes v job d ok =
      let (c, (n, (o, (sc, (t, (r, (m, _))))))) = d.members in
      rw
        (
          job_of_body,
          n,
          o,
          sc,
          t,
          r,
          m,
          d.name,
          d.command,
          d.schedule,
          d.timeout_seconds,
          d.retries,
          d.missed_run_policy,
          policy_round_trip job.missed_run_policy,
          ok.unsourced,
        )
        refl

  the_command :
      (line : Text) (job : Job)
      → Describes (parse_json line) job
      → (parse_request library line).cmd ≡ lit "add_job"
  unfolding parse_request command_of text_member request_of_object
  the_command line job d = rw (parse_request, d.object_there, d.members.0, d.cmd) refl

  -- The branch of the schedule.
  add_body-scheduled :
      {S : Type 0} (handler : Job → S → S × Text) (job : Job) (s : S)
      → IsSendable job
      → add_body {D = D} handler (record job { schedule = none }) s
        ≡ parsed (job_reply (lit "add_job") job.name (handler job s))
  unfolding add_body add_scheduled
  add_body-scheduled handler job s ok =
      rw (add_body, ok.named, ok.commanded) (go job.schedule_expr job.schedule ok.scheduled)
    where
      go :
          (expr : Text) (schedule : Option CronSchedule)
          → IsScheduleOf expr schedule
          → (if is_empty expr
              then parsed (
                  job_reply
                    (lit "add_job")
                    job.name
                    (handler (record job { schedule = none; schedule_expr = expr }) s))
              else add_scheduled handler
                  (record job { schedule = none; schedule_expr = expr })
                  (parse expr)
                  s)
            ≡ parsed (
                job_reply {D = D}
                  (lit "add_job")
                  job.name
                  (handler (record job { schedule = schedule; schedule_expr = expr }) s))
      go [] schedule e = rw e refl
      go (c ∷ expr) schedule (sch, e, e') = rw (e, e') refl

  module _ {S : Type 0} (api : Api D S) where
    add_branch :
        (query : Query) (line : Text) (s : S)
        → (parse_request library line).cmd ≡ lit "add_job"
        → respond library api query line s
          ≡ add_job_request library api api.add_job_handler (library.parse_json line) s
    unfolding respond lit equal
    add_branch query line s e = rw (respond, e) refl

    object_branch :
        (handler : Job → S → S × Text) (v : Value) (s : S)
        → is_object v ≡ true
        → add_job_request library api (some handler) v s
          ≡ add_body handler (job_of_body library v) s
    unfolding add_job_request
    object_branch handler v s e = rw e refl

    respond-add_job :
        (handler : Job → S → S × Text) (query : Query) (line : Text) (job : Job) (s : S)
        → api.add_job_handler ≡ some handler
        → Describes (parse_json line) job
        → IsSendable job
        → respond library api query line s
          ≡ parsed (job_reply (lit "add_job") job.name (handler job s))
    respond-add_job handler query line job s given d ok =
        add_branch query line s (the_command line job d)
        ∙ ap (λ h. add_job_request library api h (parse_json line) s) given
        ∙ object_branch handler (parse_json line) s d.object_there
        ∙ ap (λ j. add_body handler j s) (job_of_body-Describes (parse_json line) job d ok)
        ∙ add_body-scheduled handler job s ok

-- A job with a name, a command and a schedule that the parser takes, which a line describes by the
-- members of its JSON, sent to the daemon as an `add_job` request, reaches the scheduler's `add_job` as it
-- was, and the response is that of its message.
pub daemon_api-add_job :
    {D : Type 0} (library : JsonLibrary D) (localtime : ℤ → Tm) (started_at now : ℤ)
    (fault : Option Text) (query : Query) (line : Text) (job : Job) (s : Scheduler D)
    → Describes library (library.parse_json line) job
    → IsSendable job
    → respond library (daemon_api localtime started_at now fault) query line s
      ≡ parsed (job_reply (lit "add_job") job.name (add_job localtime fault now job s))
daemon_api-add_job library localtime started_at now fault query line job s =
    respond-add_job library (daemon_api localtime started_at now fault)
      (add_job localtime fault now) query line job s refl
