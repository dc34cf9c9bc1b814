-- ===== src/Ipc/Api/Values.antt =====
-- api.cpp: the values of the shared state and of the rows in the responses.
use agent_pulse.Base.{if◌then◌else◌, ℤ, pos, Text, lit, false, [], ◌∷◌, map}
use agent_pulse.State.{ProcInfo, AlertInfo, SystemSnapshot, JobStatus, SharedState}
use agent_pulse.Db.{RunRecord}
use agent_pulse.Ipc.Json.{Json, null, boolean, integer, real, text, object_of, array_of}

module _ {D : Type 0} where
  -- `{{"ok", false}, {"error", e}}`.
  unfoldable pub refusal : Text → Json D
  refusal e = object_of ((lit "ok", boolean false) ∷ (lit "error", text e) ∷ [])

  -- `j["last_run"]`.
  unfoldable pub last_run_to_json : JobStatus → Json D
  last_run_to_json st =
      if st.has_last_run
      then object_of (
          (lit "status", text st.last_status)
          ∷ (lit "started_at", integer st.last_started_at)
          ∷ (lit "exit_code", integer st.last_exit_code)
          ∷ (lit "duration_ms", integer st.last_duration_ms)
          ∷ (lit "trigger", text st.last_trigger)
          ∷ [])
      else null

  unfoldable pub job_to_json : JobStatus → Json D
  unfolding last_run_to_json
  job_to_json st = object_of (
      (lit "name", text st.name)
      ∷ (lit "schedule", text st.schedule_expr)
      ∷ (lit "source", text st.source)
      ∷ (lit "next_run", integer st.next_run)
      ∷ (lit "running", boolean st.running)
      ∷ (lit "last_run", last_run_to_json st)
      ∷ [])

  unfoldable pub jobs_array : SharedState D → Json D
  jobs_array state = array_of (map job_to_json state.jobs)

  unfoldable pub process_to_json : ProcInfo D → Json D
  process_to_json p = object_of (
      (lit "pid", integer p.pid)
      ∷ (lit "name", text p.name)
      ∷ (lit "cpu_percent", real p.cpu_percent)
      ∷ (lit "rss_bytes", integer (pos p.rss_bytes))
      ∷ [])

  unfoldable pub system_to_json : SystemSnapshot D → Json D
  unfolding process_to_json
  system_to_json s = object_of (
      (lit "valid", boolean s.valid)
      ∷ (lit "sampled_at", integer s.sampled_at)
      ∷ (
        lit "memory",
        object_of (
            (lit "total_bytes", integer (pos s.mem_total_bytes))
            ∷ (lit "used_bytes", integer (pos s.mem_used_bytes))
            ∷ (lit "used_percent", real s.mem_used_percent)
            ∷ []),
      )
      ∷ (
        lit "disk",
        object_of (
            (lit "total_bytes", integer (pos s.disk_total_bytes))
            ∷ (lit "available_bytes", integer (pos s.disk_available_bytes))
            ∷ (lit "used_percent", real s.disk_used_percent)
            ∷ []),
      )
      ∷ (lit "thermal_state", text s.thermal_state)
      ∷ (lit "top_processes", array_of (map process_to_json s.top_processes))
      ∷ [])

  unfoldable pub alert_to_json : AlertInfo D → Json D
  alert_to_json a = object_of (
      (lit "ts", integer a.ts)
      ∷ (lit "rule", text a.rule_name)
      ∷ (lit "severity", text a.severity)
      ∷ (lit "metric", text a.metric)
      ∷ (lit "kind", text a.kind)
      ∷ (lit "value", real a.value)
      ∷ (lit "threshold", real a.threshold)
      ∷ (lit "message", text a.message)
      ∷ (lit "attribution", text a.attribution)
      ∷ (lit "notified", boolean a.notify)
      ∷ [])

  unfoldable pub alerts_array : SharedState D → Json D
  unfolding alert_to_json
  alerts_array state = array_of (map alert_to_json state.alerts)

  unfoldable pub point_to_json : ℤ × D → Json D
  point_to_json (ts, value) = object_of ((lit "t", integer ts) ∷ (lit "v", real value) ∷ [])

  unfoldable pub run_to_json : RunRecord → Json D
  run_to_json r = object_of (
      (lit "started_at", integer r.started_at)
      ∷ (lit "ended_at", integer r.ended_at)
      ∷ (lit "status", text r.status)
      ∷ (lit "exit_code", integer r.exit_code)
      ∷ (lit "duration_ms", integer r.duration_ms)
      ∷ (lit "trigger", text r.trigger)
      ∷ [])
