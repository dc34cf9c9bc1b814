-- ===== src/Startup.antt =====
-- daemon/src/main.cpp: the start of the daemon, in the order of `main`, and its exit codes.
pub mod Merge
pub mod Jobs
use agent_pulse.Ipc
use agent_pulse.Scheduler.Missed
use agent_pulse.Base.{
  if◌then◌else◌, ℤ, Text, lit, equal, Doubles, ℕ, Bool, false, ◌||◌, Option, none, some, List, [],
  ◌∷◌,
}
use agent_pulse.Cron.{Parsed, parsed, malformed, overflow, Tm}
use agent_pulse.Config.{Job}
use agent_pulse.Config.Load.{Loaded, loaded, thrown, undefined, ◌>>=◌, Yaml, load_config}
use agent_pulse.Alerts.{AlertEngine}
use agent_pulse.State.{SharedState}
use agent_pulse.Db.{Database, DbResult, done, db_error}
use agent_pulse.Scheduler.{Scheduler}
use agent_pulse.Scheduler.Jobs.{construct}
use agent_pulse.Scheduler.Missed.{Scan}
use agent_pulse.Ipc.{SocketServer, Setup}
use agent_pulse.Paths.{Paths, socket_file, resolve_paths}

-- What the system, the files and the libraries answer during the start. An error is `none` for a
-- call that succeeds: of `create_directories`, of opening and migrating the database, once in `main`
-- and once in the scheduler, and of its queries. `file` is the configuration, if there is one.
pub record World (D : Type 0) (Node : Type 0) : Type 0 where
  pub home : Option Text
  pub dir_error : Text → Option Text
  pub database_error : Option Text
  pub database : Database D
  pub state : SharedState D
  pub file : Option (Loaded Node)
  pub scheduler_error : Option Text
  pub load_fault : Option Text
  pub run_fault : Text → Option Text
  pub now : ℤ
  pub wall : ℤ
  pub scan : Scan
  pub sun_path_size : ℕ
  pub setup : Setup

pub record Daemon (D : Type 0) : Type 0 where
  pub paths : Paths
  pub scheduler : Scheduler D
  pub engine : AlertEngine D
  pub server : SocketServer

-- The daemon runs, or `main` returns with a code.
pub data Outcome (D : Type 0) : Type 0 where
  runs : Daemon D → Outcome D
  exits : ℕ → Outcome D

-- `--version` or `--help` is among the arguments; others are ignored.
unfoldable pub exits_early : List Text → Bool
exits_early [] = false
exits_early (arg ∷ args) =
    (equal arg (lit "--version") || equal arg (lit "-v"))
    || (equal arg (lit "--help") || equal arg (lit "-h"))
    || exits_early args

-- The end of the constructor of the scheduler; `malformed` is none of its ends.
unfoldable pub of_constructed :
    {D : Type 0} → Parsed (DbResult (Scheduler D)) → Loaded (Scheduler D)
of_constructed (parsed (done s)) = loaded s
of_constructed (parsed (db_error e)) = thrown e
of_constructed malformed = undefined
of_constructed overflow = undefined

abbrev pub closed : SocketServer
closed = record { path = []; listening = false; running = false; file = false }

module _ (doubles : Doubles) (yaml : Yaml doubles.Double) (localtime : ℤ → Tm) where
  open doubles use {Double}
  open yaml use {Node}

  unfoldable pub scheduler_of : World Double Node → List Job → Loaded (Scheduler Double)
  unfolding of_constructed
  scheduler_of w jobs = elim w.scheduler_error [
    | some e ↦ thrown e
    | none ↦
        of_constructed (construct localtime w.load_fault w.run_fault w.now jobs w.database w.state)
  ]

  -- The section that loads the configuration and starts the scheduler.
  unfoldable pub load_jobs : World Double Node → Loaded (Scheduler Double × AlertEngine Double)
  unfolding scheduler_of
  load_jobs w = do
    cfg ← load_config doubles yaml w.file
    s ← scheduler_of w cfg.jobs
    loaded (
      Missed.start doubles localtime w.wall w.scan s,
      record { rules = cfg.rules; quiet_hours = cfg.quiet_hours; state = [] },
    )

  -- The daemon once its scheduler runs: it goes on without a server if that does not start.
  unfoldable pub with_server :
      World Double Node
      → Paths
      → Loaded (Scheduler Double × AlertEngine Double)
      → Loaded (Outcome Double)
  with_server w paths (thrown e) = loaded (exits 1)
  with_server w paths undefined = undefined
  with_server w paths (loaded (s, engine)) = loaded (
      runs (record {
        paths = paths;
        scheduler = s;
        engine = engine;
        server = (Ipc.start w.sun_path_size (socket_file paths) w.setup closed).0;
      }))

  unfoldable pub with_paths : World Double Node → Loaded Paths → Loaded (Outcome Double)
  unfolding with_server load_jobs
  with_paths w (thrown e) = loaded (exits 1)
  with_paths w undefined = undefined
  with_paths w (loaded paths) = elim w.database_error [
    | some e ↦ loaded (exits 1)
    | none ↦ with_server w paths (load_jobs w)
  ]

  -- `main` up to the sampler loop; `undefined` is the overflow of the cron parser.
  unfoldable pub start_daemon : List Text → World Double Node → Loaded (Outcome Double)
  unfolding with_paths exits_early
  start_daemon args w =
      if exits_early args then loaded (exits 0) else with_paths w (resolve_paths w.dir_error w.home)
