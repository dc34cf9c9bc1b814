-- ===== src/Scheduler/Worker.antt =====
-- scheduler.cpp, `worker`: the attempts of one run of a job, and the alert at their end.
pub mod Rounds
pub mod Retries
pub mod Detail
use agent_pulse.Base.{
  int_max, ltb, leb_ℤ, ◌==◌, if◌then◌else◌, length, take, ℤ, pos, pos_part, ◌+ℤ◌, eqb_ℤ, Text, lit,
  is_empty, insert, Doubles, to_string, ℕ, zero, suc, Bool, not, ◌&&◌, ◌||◌, Option, none, some, [],
  ◌∷◌, ◌++◌,
}
use agent_pulse.Config.{Job}
use agent_pulse.Db.{RunRecord, insert_run}
use agent_pulse.Process.{status_to_string, is_success, RunResult, default_result}
use agent_pulse.Scheduler.{Scheduler, or_keep, emit_alert}
use agent_pulse.Scheduler.Loop.{task_done}

-- What the worker meets from outside at its attempts, which are counted from 1: the results of
-- `run_command`, whether `active_` is set when the attempt is to begin, the errors of `insert_run`;
-- then `active_`, the clock and the error of `insert_alert` behind the loop.
pub record Attempts : Type 0 where
  pub result : ℕ → RunResult
  pub active_at : ℕ → Bool
  pub run_fault : ℕ → Option Text
  pub active_at_end : Bool
  pub alert_time : ℤ
  pub alert_fault : Option Text

unfoldable pub record_of : Job → Text → RunResult → RunRecord
record_of job trigger res = record {
  id = 0;
  job_name = job.name;
  started_at = res.started_at;
  ended_at = res.ended_at;
  status = status_to_string res.status;
  exit_code = res.exit_code;
  duration_ms = res.duration_ms;
  stdout_text = res.stdout_text;
  stderr_text = res.stderr_text;
  trigger = trigger;
}

-- One of the bytes `" \t\r\n"`.
abbrev pub is_blank : ℕ → Bool
is_blank c = c == b' ' || c == b'\t' || c == b'\r' || c == b'\n'

-- The text up to `find_last_not_of(" \t\r\n")`.
unfoldable pub trim_end : Text → Text
trim_end [] = []
trim_end (c ∷ cs) = let rest = trim_end cs in if is_empty rest && is_blank c then [] else c ∷ rest

-- What stands behind the last newline; `line` is what was read of the line.
unfoldable pub last_line : Text → Text → Text
last_line line [] = line
last_line line (c ∷ cs) = last_line (if c == b'\n' then [] else line ++ c ∷ []) cs

-- The `detail` of the alert.
unfoldable pub detail_of : Text → Text
unfolding trim_end last_line
detail_of err =
    let detail = last_line [] (trim_end err) in
    if ltb 160 (length detail) then take 157 detail ++ lit "..." else detail

-- `job.retries + 1`, or none if this `int` overflows, which is undefined behaviour.
unfoldable pub attempts_of : Job → Option ℤ
attempts_of job = if leb_ℤ (pos int_max) job.retries then none else some (job.retries +ℤ pos 1)

-- A run ends after a number of commands, or overflows at its start.
pub data Worked (A : Type 0) : Type 0 where
  returns : ℕ → A → Worked A
  overflows : Worked A

unfoldable pub failure_message : RunResult → ℤ → Text
failure_message res attempts =
    lit "run "
    ++ status_to_string res.status
    ++ lit " (exit "
    ++ to_string res.exit_code
    ++ lit ", after "
    ++ to_string attempts
    ++ lit " attempt"
    ++ (if eqb_ℤ attempts (pos 1) then [] else lit "s")
    ++ lit ")"

module _ {D : Type 0} where
  -- The two sections behind `run_command`.
  unfoldable pub save_run : Option Text → RunRecord → Scheduler D → Scheduler D
  save_run fault rec s = record s {
    db = or_keep s.db (insert_run fault rec s.db);
    last_runs = insert rec.job_name rec s.last_runs;
  }

  -- The `for` loop with `rounds` attempts left, from attempt `n` on; the last result and how many
  -- commands were run. The pauses between attempts change no state.
  unfoldable pub attempt_loop :
      Attempts → Job → Text → ℕ → ℕ → RunResult → Scheduler D → Scheduler D × RunResult × ℕ
  unfolding save_run
  attempt_loop world job trigger zero n res s = (s, res, 0)
  attempt_loop world job trigger (suc rounds) n res s =
      let res' = world.result n in
      let s' = save_run (world.run_fault n) (record_of job trigger res') s in
      let (s'', res'', ran) = attempt_loop world job trigger rounds (suc n) res' s' in
      if not (world.active_at n)
      then (s, res, 0)
      else if is_success res'.status
      then (s', res', 1)
      else (s'', res'', suc ran)

module _ (doubles : Doubles) where
  open doubles use {Double, from_int}

  -- The failure of the last attempt is raised, unless the daemon is shutting down.
  unfoldable pub raise_failure :
      Attempts → Job → ℤ → RunResult → Scheduler Double → Scheduler Double
  raise_failure world job attempts res s =
      if world.active_at_end && not (is_success res.status)
      then emit_alert doubles world.alert_time world.alert_fault job.name (lit "serious")
          (failure_message res attempts) (detail_of res.stderr_text) (from_int res.exit_code) s
      else s

  -- What follows the count of the attempts: the number of commands that were run, and the state
  -- when the worker ends, with its task marked as done.
  unfoldable pub run_attempts :
      ℤ → Attempts → Job → Text → Scheduler Double → Worked (Scheduler Double)
  unfolding attempt_loop raise_failure
  run_attempts attempts world job trigger s =
      let (s', res, ran) = attempt_loop world job trigger (pos_part attempts) 1 default_result s in
      returns ran (task_done job.name (raise_failure world job attempts res s'))

  unfoldable pub worker : Attempts → Job → Text → Scheduler Double → Worked (Scheduler Double)
  unfolding attempts_of run_attempts
  worker world job trigger s = elim (attempts_of job) [
    | none ↦ overflows
    | some attempts ↦ run_attempts attempts world job trigger s
  ]
