-- ===== src/Metrics/Processes.antt =====
-- metrics/process_sampler.cpp: the busiest processes.
pub mod Busiest
use agent_pulse.Base.{
  ltb, leb, if◌then◌else◌, length, take, ℤ, pos, pos_part, ◌-ℤ◌, leb_ℤ, eqb_ℤ, Text, lit, Doubles,
  to_string, sort_by, ℕ, ◌-◌, min, Bool, ◌&&◌, Option, none, some, List, [], ◌∷◌, ◌++◌,
}
use agent_pulse.State.{ProcInfo}
use agent_pulse.Metrics.{TaskInfo, task_time}

-- What the kernel tells of the processes: their numbers, `none` if a call of `proc_listpids` fails,
-- and for each its task and its name, `none` where the call fails.
pub record ProcessTable : Type 0 where
  pub pids : Option (List ℤ)
  pub task : ℤ → Option TaskInfo
  pub proc_name : ℤ → Option Text

-- The baseline of `ProcessSampler`: the steady clock and the task time of each process.
pub record Baseline : Type 0 where
  pub sampled_at : ℤ
  pub time_ns : List (ℤ × ℕ)

-- `find` in the map of task times.
unfoldable pub find_time : ℤ → List (ℤ × ℕ) → Option ℕ
find_time pid [] = none
find_time pid ((p, t) ∷ rest) = if eqb_ℤ p pid then some t else find_time pid rest

-- The map after the loop; a later entry of one number stands before an earlier one.
unfoldable pub time_map : ProcessTable → List ℤ → List (ℤ × ℕ)
time_map table [] = []
time_map table (pid ∷ pids) =
    let rest = time_map table pids in
    if leb_ℤ pid (pos 0)
    then rest
    else elim (table.task pid) [ none ↦ rest | some ti ↦ rest ++ (pid, task_time ti) ∷ [] ]

-- The name that is shown.
unfoldable pub shown_name : ℤ → Option Text → Text
shown_name pid none = lit "pid " ++ to_string pid
shown_name pid (some name) = name

module _ (doubles : Doubles) where
  open doubles use {Double, gt, neq, mul, div, zero_double, from_int}

  -- The share of the task time since a sample before, over an interval that is no zero.
  unfoldable pub load_since : Double → Option ℕ → ℕ → Double
  load_since interval none total_ns = zero_double
  load_since interval (some before) total_ns =
      if gt interval zero_double && leb before total_ns
      then mul (div (from_int (pos (total_ns - before))) interval) (from_int (pos 100))
      else zero_double

  unfoldable pub process_load : Option Baseline → ℤ → ℤ → ℕ → Double
  unfolding load_since find_time
  process_load none now pid total_ns = zero_double
  process_load (some prev) now pid total_ns =
      load_since (from_int (now -ℤ prev.sampled_at)) (find_time pid prev.time_ns) total_ns

  -- The loop over the processes.
  unfoldable pub collect : Option Baseline → ℤ → ProcessTable → List ℤ → List (ProcInfo Double)
  unfolding process_load shown_name
  collect prev now table [] = []
  collect prev now table (pid ∷ pids) =
      let rest = collect prev now table pids in
      if leb_ℤ pid (pos 0) then rest else elim (table.task pid) [
        | none ↦ rest
        | some ti ↦
            record {
              pid = pid;
              name = shown_name pid (table.proc_name pid);
              cpu_percent = process_load prev now pid (task_time ti);
              rss_bytes = ti.resident_size;
            }
            ∷ rest
      ]

  -- The order of `partial_sort`.
  unfoldable pub busier : ProcInfo Double → ProcInfo Double → Bool
  busier a b =
      if neq a.cpu_percent b.cpu_percent
      then gt a.cpu_percent b.cpu_percent
      else ltb b.rss_bytes a.rss_bytes

  -- `partial_sort` up to `n`, with `resize`. Which of two processes comes first where the order does
  -- not tell is left open by the library; here it is the later one.
  unfoldable pub keep_busiest : ℤ → List (ProcInfo Double) → List (ProcInfo Double)
  unfolding busier
  keep_busiest n procs = take (min (length procs) (pos_part n)) (sort_by busier procs)

  -- `ProcessSampler::top`, at a steady clock of `now` nanoseconds.
  unfoldable pub sample_top :
      Option Baseline → ProcessTable → ℤ → ℤ → Option Baseline × List (ProcInfo Double)
  unfolding collect keep_busiest time_map
  sample_top prev table now n = elim table.pids [
    | none ↦ (prev, [])
    | some pids ↦ (
      some (record { sampled_at = now; time_ns = time_map table pids }),
      keep_busiest n (collect prev now table pids),
    )
  ]
