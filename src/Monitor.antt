-- ===== src/Monitor.antt =====
-- daemon/src/main.cpp: the signals, and the loop of the main thread that samples the machine,
-- evaluates the rules and reports their alerts.
pub mod Reports
use agent_pulse.Base.{
  leb, if◌then◌else◌, take, ℤ, pos, eqb_ℤ, Text, lit, is_empty, Dict, insert, Doubles, ℕ, ◌+◌, Bool,
  true, false, Option, none, some, List, [], ◌∷◌, ◌++◌,
}
use agent_pulse.Cron.{Tm}
use agent_pulse.Config.Load.{Loaded, loaded, thrown, undefined, Config}
use agent_pulse.Alerts.{AlertEvent, AlertEngine, evaluate}
use agent_pulse.State.{
  ProcInfo, AlertInfo, SystemSnapshot, SharedState, alert_cap, set_cpu, set_self, set_system,
  add_alert,
}
use agent_pulse.Db.{AlertRecord, Database, done, db_error, c_text, insert_metric, insert_alert}
use agent_pulse.Scheduler.{or_keep}
use agent_pulse.Metrics.{
  MemorySample, DiskSample, SelfStats, ThermalState, thermal_to_string, ordinal,
}

-- `g_stop`, the signal that stops the loop or 0, and `g_reload`.
pub record Signals : Type 0 where
  pub stop_signal : ℤ
  pub reload : Bool

-- `sighup` is the number of SIGHUP.
unfoldable pub handle_signal : ℤ → ℤ → Signals → Signals
handle_signal sighup signum g =
    if eqb_ℤ signum sighup then record g { reload = true } else record g { stop_signal = signum }

-- What the samplers return in one round, at the wall clock `ts`.
pub record Readings (D : Type 0) : Type 0 where
  pub ts : ℤ
  pub cpu_pct : D
  pub mem : MemorySample D
  pub disk : DiskSample D
  pub thermal : ThermalState
  pub top : List (ProcInfo D)
  pub self_stats : SelfStats D

-- The loop's variables with the database and the shared state; `next` and the steady clock are
-- milliseconds. `notifications` is the list of the calls of `send_notification`, the newest last.
pub record Monitor (D : Type 0) : Type 0 where
  pub db : Database D
  pub state : SharedState D
  pub engine : AlertEngine D
  pub next : ℕ
  pub notifications : List (Text × Text)

-- The errors of SQLite in a round, by the metric or the event that is inserted.
pub record Faults (D : Type 0) : Type 0 where
  pub of_metric : Text → Option Text
  pub of_event : AlertEvent D → Option Text

-- `interval`, in milliseconds.
abbrev pub interval : ℕ
interval = 5000

module _ {D : Type 0} where
  -- The snapshot of a round; what could not be read keeps the defaults.
  unfoldable pub snapshot : D → Readings D → SystemSnapshot D
  snapshot zero_value r = record {
    valid = true;
    sampled_at = r.ts;
    mem_total_bytes = if r.mem.valid then r.mem.total_bytes else 0;
    mem_used_bytes = if r.mem.valid then r.mem.used_bytes else 0;
    mem_used_percent = if r.mem.valid then r.mem.used_percent else zero_value;
    disk_total_bytes = if r.disk.valid then r.disk.total_bytes else 0;
    disk_available_bytes = if r.disk.valid then r.disk.available_bytes else 0;
    disk_used_percent = if r.disk.valid then r.disk.used_percent else zero_value;
    thermal_state = thermal_to_string r.thermal;
    top_processes = r.top;
  }

  -- The `state.set_…` of a round.
  unfoldable pub publish : D → Readings D → SharedState D → SharedState D
  unfolding snapshot
  publish zero_value r st =
      let st' = set_cpu r.cpu_pct r.ts st in
      let st'' =
        if r.self_stats.valid
        then set_self r.self_stats.rss_bytes r.self_stats.cpu_percent st'
        else st' in
      set_system (snapshot zero_value r) st''

  -- The calls of `insert_metric` in their order; the first error ends them.
  unfoldable pub insert_metrics :
      (Text → Option Text) → ℤ → List (Text × D) → Database D → Database D
  insert_metrics fault_of ts [] db = db
  insert_metrics fault_of ts ((metric, value) ∷ rest) db =
      elim (insert_metric (fault_of metric) ts metric value db) [
        | db_error e ↦ db
        | done db' ↦ insert_metrics fault_of ts rest db'
      ]

  -- `rec` of the loop over the events.
  unfoldable pub record_of_event : AlertEvent D → AlertRecord D
  record_of_event e = record {
    id = 0;
    ts = e.ts;
    rule_name = e.rule_name;
    severity = e.severity;
    metric = e.metric;
    kind = e.kind;
    value = e.value;
    threshold = e.threshold;
    message = e.message;
    attribution = e.attribution;
  }

  unfoldable pub info_of_event : AlertEvent D → AlertInfo D
  info_of_event e = record {
    ts = e.ts;
    rule_name = e.rule_name;
    severity = e.severity;
    metric = e.metric;
    kind = e.kind;
    value = e.value;
    threshold = e.threshold;
    message = e.message;
    attribution = e.attribution;
    notify = e.notify;
  }

  -- Title and body of the notification of an event.
  unfoldable pub notice_of_event : AlertEvent D → Text × Text
  notice_of_event e = (
    lit "AgentPulse: " ++ e.rule_name,
    if is_empty e.attribution then e.message else e.message ++ b'\n' ∷ e.attribution,
  )

  -- The body of the loop over the events.
  unfoldable pub report_event : (AlertEvent D → Option Text) → AlertEvent D → Monitor D → Monitor D
  unfolding record_of_event info_of_event notice_of_event
  report_event fault_of e m = record m {
    db = or_keep m.db (insert_alert (fault_of e) (record_of_event e) m.db);
    notifications = if e.notify then m.notifications ++ notice_of_event e ∷ [] else m.notifications;
    state = add_alert (info_of_event e) alert_cap m.state;
  }

  unfoldable pub report_events :
      (AlertEvent D → Option Text) → List (AlertEvent D) → Monitor D → Monitor D
  unfolding report_event
  report_events fault_of [] m = m
  report_events fault_of (e ∷ events) m = report_events fault_of events (report_event fault_of e m)

  -- The reload of the configuration: a new engine, or the old one if `load_config` throws.
  unfoldable pub reload_engine : Loaded (Config D) → AlertEngine D → Loaded (AlertEngine D)
  reload_engine (loaded cfg) engine =
      loaded (record { rules = cfg.rules; quiet_hours = cfg.quiet_hours; state = [] })
  reload_engine (thrown why) engine = loaded engine
  reload_engine undefined engine = undefined

module _ (doubles : Doubles) where
  open doubles use {Double, div, zero_double, from_int, show_rounded}

  -- The metrics that a round inserts into the database.
  unfoldable pub metric_rows : Readings Double → List (Text × Double)
  metric_rows r =
      (lit "system.cpu.percent", r.cpu_pct)
        ∷ (if r.mem.valid then (lit "system.memory.percent", r.mem.used_percent) ∷ [] else [])
      ++ (if r.disk.valid
          then (lit "system.disk.percent", r.disk.used_percent)
            ∷ (lit "system.disk.available_bytes", from_int (pos r.disk.available_bytes))
            ∷ []
          else [])
      ++ (lit "system.thermal.level", from_int (ordinal r.thermal))
        ∷ (if r.self_stats.valid
            then (lit "daemon.rss_bytes", from_int (pos r.self_stats.rss_bytes))
              ∷ (lit "daemon.cpu.percent", r.self_stats.cpu_percent)
              ∷ []
            else [])

  -- `metric_map`, which the rules see.
  unfoldable pub metric_map : Readings Double → Dict Double
  metric_map r =
      let cpu = insert (lit "system.cpu.percent") r.cpu_pct [] in
      let mem =
        if r.mem.valid then insert (lit "system.memory.percent") r.mem.used_percent cpu else cpu in
      let disk =
        if r.disk.valid
        then insert (lit "system.disk.available_gb")
            (div (from_int (pos r.disk.available_bytes)) (from_int (pos 1000000000)))
            (insert (lit "system.disk.percent") r.disk.used_percent mem)
        else mem in
      insert (lit "system.thermal_state") (from_int (ordinal r.thermal)) disk

  -- `attribution`: the bytes that `snprintf` writes into a buffer of 128.
  unfoldable pub attribution_of : List (ProcInfo Double) → Text
  attribution_of [] = []
  attribution_of (p ∷ top) = take 127 (
      c_text p.name
      ++ (b' ' ∷ 226 ∷ 128 ∷ 148 ∷ b' ' ∷ [])
      ++ show_rounded p.cpu_percent
      ++ lit "% CPU")

  -- The body of `if (now >= next)`, at a steady clock of `now`.
  unfoldable pub sample_round :
      (ℤ → Tm) → Faults Double → ℕ → Readings Double → Monitor Double → Monitor Double
  unfolding publish insert_metrics metric_rows metric_map attribution_of report_events
  sample_round localtime faults now r m =
      let published = record m {
        state = publish zero_double r m.state;
        db = insert_metrics faults.of_metric r.ts (metric_rows r) m.db;
      } in
      let (engine, events) =
        evaluate doubles localtime m.engine (metric_map r) r.ts (attribution_of r.top) in
      record (report_events faults.of_event events (record published { engine = engine })) {
        next = now + interval;
      }

  -- One round of the loop: whether `g_stop` is set, what `load_config` gives if `g_reload` is set,
  -- the steady clock, and what the samplers would give.
  pub record Turn : Type 0 where
    pub stopped : Bool
    pub reload : Option (Loaded (Config Double))
    pub now : ℕ
    pub readings : Readings Double
    pub faults : Faults Double

  unfoldable pub reload_if :
      Option (Loaded (Config Double)) → Monitor Double → Loaded (Monitor Double)
  unfolding reload_engine
  reload_if none m = loaded m
  reload_if (some cfg) m = elim (reload_engine cfg m.engine) [
    | loaded engine ↦ loaded (record m { engine = engine })
    | thrown why ↦ thrown why
    | undefined ↦ undefined
  ]

  -- The loop; `undefined` is the overflow of the cron parser during a reload.
  unfoldable pub sampler_loop : (ℤ → Tm) → List Turn → Monitor Double → Loaded (Monitor Double)
  unfolding sample_round reload_if
  sampler_loop localtime [] m = loaded m
  sampler_loop localtime (turn ∷ turns) m = elim turn.stopped [
    | true ↦ loaded m
    | false ↦ elim (reload_if turn.reload m) [
      | thrown why ↦ thrown why
      | undefined ↦ undefined
      | loaded m' ↦ sampler_loop localtime turns (
          if leb m'.next turn.now
          then sample_round localtime turn.faults turn.now turn.readings m'
          else m')
    ]
  ]
