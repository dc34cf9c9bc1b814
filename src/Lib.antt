-- ===== src/Lib.antt =====
-- AgentPulse is a daemon for macOS that runs scheduled jobs and watches the machine. This library
-- models the logic of the daemon, daemon/src, and of its client, cli/src, and proves theorems about
-- them.
--
-- The parts and their files:
--   Cron: schedule/cron.cpp, the parser (`parse`, `parse_field`), `matches`, and in Cron/Search the
--     searches `next_after` and `prev_before`. A `std::set<int>` is a sorted list. `localtime_r`
--     depends on the time zone of the machine: it is the parameter `localtime`.
--   Config: the types of config/config.hpp and their conversions to and from text; in Config/Load
--     `load_config` and its parsers. The YAML library is the parameter `Yaml`, of which nothing is
--     assumed; its exceptions and those of the source are values of `Loaded`.
--   Notifier: the script of alerts/notifier.cpp, with its escaping.
--   Alerts: alerts/alert_engine.cpp. `rule_tick` is the body of the loop of `evaluate`.
--   State: shared_state.hpp, one function for each method that writes.
--   Db: db.cpp, each statement over lists of rows. The error of SQLite in a call, if any, is an
--     argument; where the source does not look at the result of a step, it stands for the error of
--     `prepare` only.
--   Process: jobs/process_runner.cpp. What the kernel answers is an argument (`Poll`, `Read`,
--     `WaitStatus`); so a run is a function of the answers.
--   Scheduler: jobs/scheduler.cpp. `Scheduler` is the state of the class together with the database
--     and the shared state it writes. Scheduler/Jobs has the constructor, `add_job` and
--     `remove_job`; Scheduler/Missed the scan for missed runs; Scheduler/Loop one round of `loop`,
--     with `launch` and `reap_finished`; Scheduler/Worker the attempts of one run.
--   Ipc: ipc/socket_server.cpp, each loop over the answers of the system calls. `serve_connection`
--     takes the handler as an argument, which may end in `terminated` for an exception. In Ipc/Json
--     and Ipc/Api is ipc/api.cpp: `respond` is `handle` up to `dump`. The JSON library is the
--     parameter `JsonLibrary`, of which nothing is assumed but where a theorem says so; the values
--     that the source builds are the data type `Json`. Ipc/Api/Shape has the types of
--     docs/PROTOCOL.md.
--   Client: cli/src/main.cpp, `send_request`, the arguments, and what is printed.
--   Metrics: the samplers of metrics, over the answers of the kernel; Metrics/Processes is
--     metrics/process_sampler.cpp.
--   Monitor: main.cpp, the signals and `sampler_loop`; `sample_round` is the body of its round.
--   Power: power/sleep_monitor.cpp. A registration with IOKit succeeds or fails by an argument.
--   Paths: paths.cpp. An error of `create_directories` is an argument.
--   Startup: `main` of main.cpp up to the sampler loop. `World` is what the system, the files and the
--     libraries answer; `Outcome` is the running daemon or an exit code.
--   Samples: the theorems at concrete inputs.
--
-- How they interact: the scheduler reads schedules (Cron) of jobs (Config), runs commands
-- (Process), keeps runs and alerts (Db) and publishes statuses and alerts (State). The rules of
-- the alert engine are those of Config. Monitor hands the readings of Metrics to the engine and its
-- events to Db, State and the notifications. Ipc/Api reads State and Db and calls the scheduler;
-- `daemon_api` has the handlers that main.cpp gives it. Startup loads the configuration, constructs
-- and starts the scheduler and then the server. Client and Ipc speak over one socket.
--
-- Numbers: `int`, `long` and `time_t` are integers without bound, except where `std::stoi`,
-- `std::strtol`, `atoi`, a cast to `int`, the loop of the cron field and the retries of a worker meet
-- a bound; the overflow of the latter two is a result of its own. `ORDER BY` and `std::partial_sort`
-- are `sort_by` of Base/Sorting, with the comparison that the source gives; a comparison that leaves
-- two items open puts the later one first. Counts of the kernel are `uint64_t` with their wrap-around.
-- `double` is a parameter with its operations. Strings are lists of bytes. The searches of Cron take
-- the source's own bound, `max_minutes`. The loops over the answers of the kernel, the attempts of a
-- worker and the rounds of the sampler are structural.
--
-- Threads: each function of Scheduler is what one thread does in a row; how the threads interleave
-- is not modelled, nor is the scheduler's `stop`. The functions of Monitor take the state as they
-- find it.
--
-- Not modelled: the spawning of `osascript`, logging and the calls of IOKit, which are input and
-- output or glue; the end of `main`; the app; the milliseconds that `poll` is given; the opening and
-- the schema of the database but for its primary keys.
pub mod Base
pub mod Cron
pub mod Config
pub mod Notifier
pub mod Alerts
pub mod State
pub mod Db
pub mod Process
pub mod Scheduler
pub mod Ipc
pub mod Client
pub mod Metrics
pub mod Monitor
pub mod Power
pub mod Paths
pub mod Startup
pub mod Samples
