-- ===== src/Ipc/Api.antt =====
-- daemon/src/ipc/api.hpp and api.cpp: the response to a request line. The JSON library is a
-- parameter.
pub mod Values
pub mod Request
pub mod Outcomes
pub mod Control
pub mod Strict
pub mod Body
pub mod Shape
pub mod Conforms
use agent_pulse.Base.{
  if◌then◌else◌, ℤ, pos, ◌-ℤ◌, Text, lit, equal, is_empty, Bool, true, false, ◌||◌, Option, none,
  some, List, [], ◌∷◌, ◌++◌, map,
}
use agent_pulse.Cron.{Parsed, parsed, malformed, overflow, CronSchedule, parse}
use agent_pulse.Config.{Job}
use agent_pulse.State.{SharedState}
use agent_pulse.Db.{RunRecord, Database, DbResult, done, db_error, metric_history, recent_runs}
use agent_pulse.Scheduler.Loop.{Fate, alive, terminated}
use agent_pulse.Ipc.Json.{Json, boolean, integer, real, text, JsonLibrary, object_of, array_of}
use agent_pulse.Ipc.Api.Request.{ApiRequest, window_of, limit_of, parse_request, job_of_body}
use agent_pulse.Ipc.Api.Values.{
  refusal, jobs_array, system_to_json, alerts_array, point_to_json, run_to_json,
}

-- `Api`. `S` is the state that the handlers act on; `state` and `db` read the shared state and the
-- database, `none` if the connection could not be opened.
pub record Api (D S : Type 0) : Type 0 where
  pub started_at : ℤ
  pub state : S → SharedState D
  pub db : S → Option (Database D)
  pub run_handler : Option (Text → S → S × Bool)
  pub add_job_handler : Option (Job → S → S × Text)
  pub remove_job_handler : Option (Text → S → S × Text)

-- The clock during a request, and the error of its query, if any.
pub record Query : Type 0 where
  pub now : ℤ
  pub fault : Option Text

-- The branches of `handle`, each with the value of the response and the new state, if it changes.
module _ {D : Type 0} where
  unfoldable pub history_reply : Text → DbResult (List (ℤ × D)) → Json D
  history_reply metric (db_error e) = refusal e
  history_reply metric (done rows) = object_of (
      (lit "ok", boolean true)
      ∷ (lit "cmd", text (lit "history"))
      ∷ (lit "metric", text metric)
      ∷ (lit "points", array_of (map point_to_json rows))
      ∷ [])

  unfoldable pub history_request : Query → ApiRequest → Option (Database D) → Json D
  unfolding window_of history_reply
  history_request query req none = refusal (lit "history unavailable")
  history_request query req (some db) =
      if is_empty req.arg
      then refusal (lit "missing metric")
      else history_reply req.arg
          (metric_history query.fault req.arg (query.now -ℤ window_of req.arg2) db)

  unfoldable pub runs_reply : Text → DbResult (List RunRecord) → Json D
  runs_reply job (db_error e) = refusal e
  runs_reply job (done rows) = object_of (
      (lit "ok", boolean true)
      ∷ (lit "cmd", text (lit "runs"))
      ∷ (lit "job", text job)
      ∷ (lit "runs", array_of (map run_to_json rows))
      ∷ [])

  unfoldable pub runs_request : Query → ApiRequest → Option (Database D) → Json D
  unfolding limit_of runs_reply
  runs_request query req none = refusal (lit "runs unavailable")
  runs_request query req (some db) =
      if is_empty req.arg
      then refusal (lit "missing job name")
      else runs_reply req.arg (recent_runs query.fault req.arg (limit_of req.arg2) db)

module _ {D S : Type 0} where
  -- The end of `add_job` and of `remove_job`, by the message of the handler.
  unfoldable pub job_reply : Text → Text → S × Text → S × Json D
  job_reply cmd name (s, err) = (
    s,
    if is_empty err
        then object_of
            ((lit "ok", boolean true) ∷ (lit "cmd", text cmd) ∷ (lit "job", text name) ∷ [])
        else refusal err,
  )

  -- The call of the handler, by what the parser says of a schedule that is not empty.
  unfoldable pub add_scheduled :
      (Job → S → S × Text) → Job → Parsed CronSchedule → S → Parsed (S × Json D)
  unfolding job_reply
  add_scheduled handler job overflow s = overflow
  add_scheduled handler job malformed s =
      parsed (s, refusal (lit "invalid cron schedule: '" ++ job.schedule_expr ++ lit "'"))
  add_scheduled handler job (parsed schedule) s =
      parsed
        (job_reply (lit "add_job") job.name (handler (record job { schedule = some schedule }) s))

  -- The branch `add_job` once the body is an object.
  unfoldable pub add_body : (Job → S → S × Text) → Job → S → Parsed (S × Json D)
  unfolding add_scheduled
  add_body handler job s =
      if is_empty job.name || is_empty job.command
      then parsed (s, refusal (lit "name and command are required"))
      else if is_empty job.schedule_expr
      then parsed (job_reply (lit "add_job") job.name (handler job s))
      else add_scheduled handler job (parse job.schedule_expr) s

  unfoldable pub remove_job_request : Option (Text → S → S × Text) → ApiRequest → S → S × Json D
  unfolding job_reply
  remove_job_request none req s = (s, refusal (lit "job control unavailable"))
  remove_job_request (some handler) req s =
      if is_empty req.arg
      then (s, refusal (lit "missing job name"))
      else job_reply (lit "remove_job") req.arg (handler req.arg s)

  -- By what the handler of `run` says, whether the run was queued.
  unfoldable pub run_reply : Text → S × Bool → S × Json D
  run_reply job (s, queued) = (
    s,
    if queued
        then object_of (
            (lit "ok", boolean true)
            ∷ (lit "cmd", text (lit "run"))
            ∷ (lit "job", text job)
            ∷ (lit "queued", boolean true)
            ∷ [])
        else object_of (
            (lit "ok", boolean false)
            ∷ (lit "error", text (lit "no such job"))
            ∷ (lit "job", text job)
            ∷ []),
  )

  unfoldable pub run_request : Option (Text → S → S × Bool) → ApiRequest → S → S × Json D
  unfolding run_reply
  run_request none req s = (s, refusal (lit "job control unavailable"))
  run_request (some handler) req s =
      if is_empty req.arg
      then (s, refusal (lit "missing job name"))
      else run_reply req.arg (handler req.arg s)

module _ {D S : Type 0} (library : JsonLibrary D) (api : Api D S) where
  unfoldable pub status_reply : S → Json D
  status_reply s = object_of (
      (lit "ok", boolean true)
      ∷ (lit "cmd", text (lit "status"))
      ∷ (
        lit "daemon",
        object_of (
            (lit "started_at", integer api.started_at)
            ∷ (lit "rss_bytes", integer (pos (api.state s).self.rss_bytes))
            ∷ (lit "cpu_percent", real (api.state s).self.cpu_percent)
            ∷ []),
      )
      ∷ (
        lit "cpu",
        object_of (
            (lit "valid", boolean (api.state s).cpu.valid)
            ∷ (lit "percent", real (api.state s).cpu.percent)
            ∷ (lit "sampled_at", integer (api.state s).cpu.sampled_at)
            ∷ []),
      )
      ∷ (lit "system", system_to_json (api.state s).system)
      ∷ (lit "jobs", jobs_array (api.state s))
      ∷ (lit "alerts", alerts_array (api.state s))
      ∷ [])

  -- The branch `add_job`, by what the parser makes of the line.
  unfoldable pub add_job_request :
      Option (Job → S → S × Text) → library.Value → S → Parsed (S × Json D)
  unfolding add_body job_of_body
  add_job_request none body s = parsed (s, refusal (lit "job control unavailable"))
  add_job_request (some handler) body s =
      if library.is_object body
      then add_body handler (job_of_body library body) s
      else parsed (s, refusal (lit "add_job requires a JSON body"))

  -- The body of `handle` up to `dump`; `overflow` is that of the cron parser.
  unfoldable pub respond : Query → Text → S → Parsed (S × Json D)
  unfolding parse_request status_reply history_request runs_request add_job_request
      remove_job_request run_request
  respond query line s =
      let req = parse_request library line in
      if equal req.cmd (lit "ping")
      then parsed (
        s,
        object_of (
            (lit "ok", boolean true)
            ∷ (lit "cmd", text (lit "ping"))
            ∷ (lit "reply", text (lit "pong"))
            ∷ []),
      )
      else if equal req.cmd (lit "status")
      then parsed (s, status_reply s)
      else if equal req.cmd (lit "jobs")
      then parsed (
        s,
        object_of (
            (lit "ok", boolean true)
            ∷ (lit "cmd", text (lit "jobs"))
            ∷ (lit "jobs", jobs_array (api.state s))
            ∷ []),
      )
      else if equal req.cmd (lit "alerts")
      then parsed (
        s,
        object_of (
            (lit "ok", boolean true)
            ∷ (lit "cmd", text (lit "alerts"))
            ∷ (lit "alerts", alerts_array (api.state s))
            ∷ []),
      )
      else if equal req.cmd (lit "history")
      then parsed (s, history_request query req (api.db s))
      else if equal req.cmd (lit "runs")
      then parsed (s, runs_request query req (api.db s))
      else if equal req.cmd (lit "add_job")
      then add_job_request api.add_job_handler (library.parse_json line) s
      else if equal req.cmd (lit "remove_job")
      then parsed (remove_job_request api.remove_job_handler req s)
      else if equal req.cmd (lit "run")
      then parsed (run_request api.run_handler req s)
      else parsed (
        s,
        object_of (
            (lit "ok", boolean false)
            ∷ (lit "error", text (lit "unknown command"))
            ∷ (lit "cmd", text req.cmd)
            ∷ []),
      )

  -- `handle`: an exception of `dump` leaves it, and ends the daemon as in Ipc.
  unfoldable pub handle : Query → Text → S → Parsed (Fate (S × Text))
  unfolding respond
  handle query line s = elim (respond query line s) [
    | overflow ↦ overflow
    | malformed ↦ malformed
    | parsed (s', response) ↦ elim (library.dump response) [
      | none ↦ parsed terminated
      | some out ↦ parsed (alive (s', out))
    ]
  ]
