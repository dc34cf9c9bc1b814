-- ===== src/Process.antt =====
-- daemon/src/jobs/process_runner.hpp and process_runner.cpp. What the kernel answers (`pipe`,
-- `posix_spawn`, `poll`, `read`, `waitpid` and the clocks) is an argument.
pub mod Capture
pub mod Kill
use agent_pulse.Base.{
  ltb, leb, if◌then◌else◌, length, take, ℤ, pos, negsuc, sub_ℕ, Text, lit, ℕ, zero, suc, ◌+◌, ◌-◌,
  Bool, true, false, ◌||◌, Option, none, some, List, [], ◌∷◌, ◌++◌,
}

pub data RunStatus : Type 0 where
  success failed timeout spawn_error : RunStatus

unfoldable pub status_to_string : RunStatus → Text
status_to_string success = lit "success"
status_to_string failed = lit "failed"
status_to_string timeout = lit "timeout"
status_to_string spawn_error = lit "spawn_error"

unfoldable pub is_success : RunStatus → Bool
is_success success = true
is_success _ = false

pub record RunResult : Type 0 where
  pub status : RunStatus
  pub exit_code : ℤ
  pub started_at : ℤ
  pub ended_at : ℤ
  pub duration_ms : ℤ
  pub stdout_text : Text
  pub stderr_text : Text
  pub stdout_truncated : Bool
  pub stderr_truncated : Bool
  pub error : Text

-- `RunResult result;`
abbrev pub default_result : RunResult
default_result = record {
  status = spawn_error;
  exit_code = negsuc 0;
  started_at = pos 0;
  ended_at = pos 0;
  duration_ms = pos 0;
  stdout_text = [];
  stderr_text = [];
  stdout_truncated = false;
  stderr_truncated = false;
  error = [];
}

-- `kMaxCapture`. It is no `abbrev`: proofs see it as one unknown number.
unfoldable pub max_capture : ℕ
max_capture = 65536

-- One captured stream: its text, whether it was truncated, and whether it is still read.
pub record Stream : Type 0 where
  pub text : Text
  pub truncated : Bool
  pub keep : Bool

abbrev pub open_stream : Stream
open_stream = record { text = []; truncated = false; keep = true }

-- `append_capped`: the buffer, the flag, and the result of the function.
unfoldable pub append_capped : Text → Text → Bool → Text × Bool × Bool
append_capped buf data_read truncated =
    if leb max_capture (length buf)
    then (buf, true, false)
    else let room = max_capture - length buf in
      let n = length data_read in
      let took = if ltb n room then n else room in
      let buf' = buf ++ take took data_read in
      if ltb took n then (buf', true, false) else (buf', truncated, true)

-- What `read` gives: some bytes, or the end of the stream or an error.
pub data Read : Type 0 where
  bytes : Text → Read
  ended : Read

-- What a round of `poll` gives: it fails with `EINTR` or otherwise, it times out, or it reports on
-- the two streams, with what the `read` of each stream that is ready then gives.
pub data Poll : Type 0 where
  interrupted poll_failed expired : Poll
  ready : Option Read → Option Read → Poll

-- The lambda `drain`, for a stream that may be in the poll set and may be ready.
unfoldable pub drain : Option Read → Stream → Stream
unfolding append_capped
drain none st = st
drain (some ended) st = if st.keep then record st { keep = false } else st
drain (some (bytes b)) st =
    let (text, truncated, more) = append_capped st.text b st.truncated in
    if st.keep then record { text = text; truncated = truncated; keep = more } else st

pub record Drain : Type 0 where
  pub out : Stream
  pub err : Stream
  pub timed_out : Bool
  pub killed : Bool
  -- How often `kill(-pid, SIGKILL)` was called.
  pub kills : ℕ

abbrev pub first_drain : Drain
first_drain = record {
  out = open_stream;
  err = open_stream;
  timed_out = false;
  killed = false;
  kills = 0;
}

-- The branch `pr == 0`.
unfoldable pub on_expired : Drain → Drain
on_expired d =
    if d.killed
    then record d { timed_out = true }
    else record d { timed_out = true; killed = true; kills = d.kills + 1 }

unfoldable pub on_ready : Option Read → Option Read → Drain → Drain
unfolding drain
on_ready out err d = record d { out = drain out d.out; err = drain err d.err }

-- The loop, over the answers of `poll`; `none` if they run out while the loop still waits.
unfoldable pub drain_loop : List Poll → Drain → Option Drain
drain_loop [] d = if d.out.keep || d.err.keep then none else some d
drain_loop (interrupted ∷ polls) d =
    let rest = drain_loop polls d in if d.out.keep || d.err.keep then rest else some d
drain_loop (poll_failed ∷ polls) d = some d
drain_loop (expired ∷ polls) d =
    let rest = drain_loop polls (on_expired d) in if d.out.keep || d.err.keep then rest else some d
drain_loop (ready out err ∷ polls) d =
    let rest = drain_loop polls (on_ready out err d) in
    if d.out.keep || d.err.keep then rest else some d

-- The status of `waitpid`.
pub data WaitStatus : Type 0 where
  exited : ℕ → WaitStatus
  signaled : ℕ → WaitStatus
  other_status : WaitStatus

-- `status` and `exit_code` at the end of `run_command`.
unfoldable pub classify : Bool → WaitStatus → RunStatus × ℤ
classify true w = (timeout, sub_ℕ 0 9)
classify false (exited zero) = (success, pos 0)
classify false (exited (suc n)) = (failed, pos (suc n))
classify false (signaled n) = (failed, sub_ℕ 0 n)
classify false other_status = (failed, negsuc 0)

-- What the kernel answers in one call of `run_command`: the errors of `pipe` and of `posix_spawn`,
-- if any, the answers of `poll`, the status, and the clocks.
pub record Kernel : Type 0 where
  pub pipe_error : Option Text
  pub spawn_failure : Option Text
  pub polls : List Poll
  pub wait_status : WaitStatus
  pub start_time : ℤ
  pub end_time : ℤ
  pub elapsed_ms : ℤ

-- `none` if the command is still running after the given answers.
unfoldable pub run_command : Kernel → Option RunResult
unfolding drain_loop classify
run_command k = elim k.pipe_error [
  | some e ↦ some (record default_result {
    started_at = k.start_time;
    ended_at = k.end_time;
    error = lit "pipe(): " ++ e;
  })
  | none ↦ elim k.spawn_failure [
    | some e ↦ some (record default_result {
      started_at = k.start_time;
      ended_at = k.end_time;
      error = lit "posix_spawn(): " ++ e;
    })
    | none ↦ elim (drain_loop k.polls first_drain) [
      | none ↦ none
      | some d ↦
          let (status, code) = classify d.timed_out k.wait_status in
          some (record {
            status = status;
            exit_code = code;
            started_at = k.start_time;
            ended_at = k.end_time;
            duration_ms = k.elapsed_ms;
            stdout_text = d.out.text;
            stderr_text = d.err.text;
            stdout_truncated = d.out.truncated;
            stderr_truncated = d.err.truncated;
            error = [];
          })
    ]
  ]
]
