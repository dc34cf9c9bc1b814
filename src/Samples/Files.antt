-- ===== src/Samples/Files.antt =====
-- The theorems about loaded configurations and notifications, at a small file and a short text.
use agent_pulse.Base.{
  length, ℤ, pos, Text, lit, equal, lookup, sort_insert, sort_by, ℕ, ◌≡◌, refl, Bool, true, false,
  Option, none, some, List, [], ◌∷◌, ◌++◌, map,
}
use agent_pulse.Config.{ignore, missed_run_policy_from_string, Job}
use agent_pulse.Config.Load.{
  Loaded, loaded, thrown, Yaml, Config, no_quiet_hours, required, required_text, cron_of, policy_of,
  number_of, job_of_map, parse_job, parse_all, parse_section, parse_quiet_hours, parse_root,
  load_config,
}
use agent_pulse.Config.Load.Checked.{IsConfig, load_config-IsConfig}
use agent_pulse.Notifier.{escape_applescript-literal, escape_applescript, read_literal}
use agent_pulse.Db.{JobDef, Database, text_lt, def_precedes, last_run, load_job_defs}
use agent_pulse.Scheduler.{publish_status}
use agent_pulse.Scheduler.Jobs.{
  schedule_of, job_from_def, merge_defs, set_next_run, init_jobs, blank, construct,
}
use agent_pulse.Scheduler.Missed.{Scan, start}
use agent_pulse.Paths.{socket_file, paths_of, resolve_paths}
use agent_pulse.Startup.{
  World, Daemon, runs, exits_early, of_constructed, scheduler_of, load_jobs, with_server,
  with_paths, start_daemon,
}
use agent_pulse.Startup.Merge.{StartsWith}
use agent_pulse.Startup.Jobs.{start_daemon-StartsWith}
use agent_pulse.Ipc
use agent_pulse.Samples.{clock, whole, empty_db, empty_state}

-- The nodes of a small language in the place of YAML.
data Value : Type 0 where
  scalar : Text → Value
  mapping : List (Text × Text) → Value
  sequence : List (List (Text × Text)) → Value
  document : List (Text × List (List (Text × Text))) → Value

as_node : {A : Type 0} → (A → Value) → Option A → Loaded (Option Value)
as_node f none = loaded none
as_node f (some a) = loaded (some (f a))

value_at : Value → Text → Loaded (Option Value)
value_at (mapping m) key = as_node scalar (lookup key m)
value_at (document m) key = as_node sequence (lookup key m)
value_at (scalar t) key = loaded none
value_at (sequence l) key = loaded none

is_mapping : Value → Bool
is_mapping (mapping m) = true
is_mapping (document m) = true
is_mapping _ = false

values_of : Value → Option (List Value)
values_of (sequence l) = some (map mapping l)
values_of _ = none

text_of : Value → Loaded Text
text_of (scalar t) = loaded t
text_of _ = thrown []

number_in : Value → Loaded ℤ
number_in (scalar t) = loaded (pos (length t))
number_in _ = thrown []

size_in : Value → Loaded ℕ
size_in (scalar t) = loaded (length t)
size_in _ = thrown []

abbrev small_yaml : Yaml ℕ
small_yaml = record {
  Node = Value;
  is_map = is_mapping;
  get = value_at;
  items = values_of;
  as_text = text_of;
  as_int = number_in;
  as_double = size_in;
}

abbrev small_file : Value
small_file =
    document ((lit "jobs", ((lit "name", lit "n") ∷ (lit "command", lit "c") ∷ []) ∷ []) ∷ [])

abbrev small_config : Config ℕ
small_config = record {
  jobs =
      record {
        name = lit "n";
        command = lit "c";
        schedule = none;
        schedule_expr = [];
        missed_run_policy = ignore;
        timeout_seconds = pos 0;
        retries = pos 0;
        source = lit "config";
      }
      ∷ [];
  rules = [];
  quiet_hours = no_quiet_hours;
}

small_loaded : load_config whole small_yaml (some (loaded small_file)) ≡ loaded small_config
unfolding load_config parse_root parse_section parse_all parse_job job_of_map required_text required
    cron_of policy_of number_of parse_quiet_hours lookup equal lit value_at as_node is_mapping
    values_of text_of
small_loaded = refl

load_config-IsConfig_example : IsConfig whole small_yaml small_config
load_config-IsConfig_example =
    load_config-IsConfig whole small_yaml (some (loaded small_file)) small_config small_loaded

escape_applescript-literal_example :
    read_literal false (escape_applescript (lit "a\"b\\n") ++ b'"' ∷ []) ≡ some (lit "a\"b\\n", [])
escape_applescript-literal_example = escape_applescript-literal (lit "a\"b\\n") []

abbrev first_scan : Scan
first_scan = record { now = pos 11; time_of = λ name. pos 11; fault_of = λ name. none }

abbrev def_named : Text → JobDef
def_named name = record {
  name = name;
  command = lit "c";
  schedule_expr = [];
  missed_run_policy = lit "ignore";
  timeout_seconds = pos 0;
  retries = pos 0;
}

abbrev from_def : JobDef → Job
from_def def = record {
  name = def.name;
  command = def.command;
  schedule = none;
  schedule_expr = [];
  missed_run_policy = ignore;
  timeout_seconds = pos 0;
  retries = pos 0;
  source = lit "ui";
}

abbrev stored_job : JobDef
stored_job = def_named (lit "z")

-- One of the stored jobs has the name of a job of the file.
abbrev stored_db : Database ℕ
stored_db = record empty_db { job_defs = stored_job ∷ def_named (lit "n") ∷ [] }

-- A start at which every call succeeds.
abbrev first_start : World ℕ Value
first_start = record {
  home = some (lit "/h");
  dir_error = λ dir. none;
  database_error = none;
  database = stored_db;
  state = empty_state;
  file = some (loaded small_file);
  scheduler_error = none;
  load_fault = none;
  run_fault = λ name. none;
  now = pos 10;
  wall = pos 10;
  scan = first_scan;
  sun_path_size = 104;
  setup = record { socket_error = none; bind_error = none; listen_error = none };
}

-- The jobs of the configuration, and the stored one whose name is new.
abbrev first_jobs : List Job
first_jobs = small_config.jobs ++ from_def stored_job ∷ []

abbrev first_daemon : Daemon ℕ
first_daemon = record {
  paths = paths_of (lit "/h");
  scheduler =
      start whole clock (pos 10) first_scan
        (publish_status (blank first_jobs stored_db empty_state));
  engine = record { rules = []; quiet_hours = no_quiet_hours; state = [] };
  server = record {
    path = socket_file (paths_of (lit "/h"));
    listening = true;
    running = true;
    file = true;
  };
}

start_daemon-first : start_daemon whole small_yaml clock [] first_start ≡ loaded (runs first_daemon)
unfolding start_daemon with_paths resolve_paths paths_of load_jobs scheduler_of with_server
    exits_early lit load_config value_at as_node lookup equal values_of is_mapping text_of construct
    load_job_defs sort_by sort_insert def_precedes text_lt merge_defs job_from_def schedule_of
    missed_run_policy_from_string init_jobs set_next_run parse_root parse_section parse_all
    parse_job job_of_map required_text required cron_of policy_of number_of parse_quiet_hours
    last_run of_constructed publish_status Ipc.start socket_file
start_daemon-first = refl

start_daemon-StartsWith_example : StartsWith small_config.jobs first_daemon.scheduler.jobs
start_daemon-StartsWith_example =
    start_daemon-StartsWith whole small_yaml clock [] first_start small_config first_daemon
      small_loaded start_daemon-first
