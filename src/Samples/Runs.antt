-- ===== src/Samples/Runs.antt =====
-- The theorems about the runs of commands, at sample runs.
use agent_pulse.Base.{
  ltb, if◌then◌else◌, length, take, pos, ◌+ℤ◌, lookup, ℕ, ◌≡◌, refl, true, false, Option, none,
  some, List, [], ◌∷◌, arith,
}
use agent_pulse.Process.{
  RunStatus, success, failed, is_success, RunResult, default_result, max_capture, open_stream, Read,
  bytes, ended, Poll, interrupted, expired, ready, drain, Drain, first_drain, on_expired, on_ready,
  drain_loop,
}
use agent_pulse.Process.Capture.{bytes_of, drain_all, drain_all-captures}
use agent_pulse.Process.Kill.{KilledOnce, drain_loop-KilledOnce}
use agent_pulse.Scheduler.{Scheduler}
use agent_pulse.Scheduler.Worker.{Attempts, record_of, returns, worker}
use agent_pulse.Scheduler.Worker.Retries.{
  failure_notice, worker-succeeds, worker-gives_up, worker-no_attempts,
}
use agent_pulse.Db.{RunRecord, Database, done, c_text, last_run}
use agent_pulse.Db.Newest.{Latest, last_run-Latest}
use agent_pulse.Samples.{whole, backup, cleanup, empty_db, scheduler_with}

abbrev ended_with : RunStatus → RunResult
ended_with status = record default_result { status = status; exit_code = pos 3 }

-- The attempts fail up to the given number, and succeed from then on.
abbrev failing_until : ℕ → Attempts
failing_until n = record {
  result = λ i. if ltb i n then ended_with failed else ended_with success;
  active_at = λ i. true;
  run_fault = λ i. none;
  active_at_end = true;
  alert_time = pos 50;
  alert_fault = none;
}

abbrev at_rest : Scheduler ℕ
at_rest = scheduler_with ((b'b' ∷ [], false) ∷ []) []

worker-succeeds_example :
    (t : Scheduler ℕ) × (worker whole (failing_until 2) backup [] at_rest ≡ returns 2 t)
    × (lookup backup.name t.last_runs ≡ some (record_of backup [] (ended_with success)))
    × (t.notifications ≡ [])
unfolding is_success
worker-succeeds_example =
    worker-succeeds whole (failing_until 2) backup [] 1 1 at_rest refl (omega arith) (omega arith)
      ((refl, refl), (refl, refl))

worker-gives_up_example :
    (t : Scheduler ℕ) × (worker whole (failing_until 9) backup [] at_rest ≡ returns 2 t)
    × (lookup backup.name t.last_runs ≡ some (record_of backup [] (ended_with failed)))
    × (t.notifications ≡ failure_notice backup (pos 2) (ended_with failed) ∷ [])
unfolding is_success
worker-gives_up_example =
    worker-gives_up whole (failing_until 9) backup [] 1 at_rest refl (omega arith)
      ((refl, refl), ((refl, refl), tt)) refl

worker-no_attempts_example :
    (t : Scheduler ℕ) × (worker whole (failing_until 9) cleanup [] at_rest ≡ returns 0 t)
    × (t.last_runs ≡ [])
    × (t.db.runs ≡ [])
    × (t.notifications ≡ failure_notice cleanup (cleanup.retries +ℤ pos 1) default_result ∷ [])
worker-no_attempts_example =
    worker-no_attempts whole (failing_until 9) cleanup [] at_rest (omega arith) refl

abbrev some_reads : List (Option Read)
some_reads = some (bytes (b'a' ∷ b'b' ∷ [])) ∷ none ∷ some (bytes (b'c' ∷ [])) ∷ some ended ∷ []

drain_all-captures_example :
    ((drain_all some_reads open_stream).text ≡ take max_capture (bytes_of some_reads))
    × ((drain_all some_reads open_stream).truncated
        ≡ ltb max_capture (length (bytes_of some_reads)))
drain_all-captures_example = drain_all-captures some_reads (omega arith, (omega arith, tt))

abbrev late : List Poll
late = interrupted ∷ expired ∷ expired ∷ ready (some ended) (some ended) ∷ []

abbrev late_end : Drain
late_end = record {
  out = record open_stream { keep = false };
  err = record open_stream { keep = false };
  timed_out = true;
  killed = true;
  kills = 1;
}

late_ends : drain_loop late first_drain ≡ some late_end
unfolding drain_loop on_expired on_ready drain
late_ends = refl

drain_loop-KilledOnce_example : KilledOnce late_end
drain_loop-KilledOnce_example =
    drain_loop-KilledOnce late first_drain late_end (refl, refl) late_ends

abbrev run_at : ℕ → ℕ → RunRecord
run_at id t = record {
  id = id;
  job_name = b'b' ∷ [];
  started_at = pos t;
  ended_at = pos t;
  status = [];
  exit_code = pos 0;
  duration_ms = pos 0;
  stdout_text = [];
  stderr_text = [];
  trigger = [];
}

abbrev two_runs : Database ℕ
two_runs = record empty_db { runs = run_at 1 70 ∷ run_at 2 50 ∷ [] }

last_run-Latest_example :
    (r : Option RunRecord) × (last_run none (b'b' ∷ []) two_runs ≡ done r)
    × Latest (c_text (b'b' ∷ [])) two_runs.runs r
last_run-Latest_example = last_run-Latest (b'b' ∷ []) two_runs
