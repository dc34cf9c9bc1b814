-- ===== src/Metrics.antt =====
-- daemon/src/metrics: the samplers, over the answers of the kernel. An answer is `none` where the
-- call fails.
pub mod Processes
pub mod Shares
use agent_pulse.Base.{
  ltb, leb, ◌==◌, if◌then◌else◌, ℤ, pos, ◌-ℤ◌, ltb_ℤ, Text, lit, Doubles, ℕ, ◌+◌, ◌-◌, ◌*◌, ◌%◌,
  ◌^◌, Bool, true, false, ◌&&◌, Option, none, some,
}

-- Arithmetic of `uint64_t`.
abbrev pub mod64 : ℕ → ℕ
mod64 n = n % 2 ^ 64

-- `a - b`, for values below 2^64.
unfoldable pub sub64 : ℕ → ℕ → ℕ
sub64 a b = mod64 (a + 2 ^ 64 - b)

-- The cumulative ticks of the processor.
pub record Ticks : Type 0 where
  pub user : ℕ
  pub system : ℕ
  pub idle : ℕ
  pub nice : ℕ

pub record MemorySample (D : Type 0) : Type 0 where
  pub valid : Bool
  pub total_bytes : ℕ
  pub used_bytes : ℕ
  pub used_percent : D

pub record DiskSample (D : Type 0) : Type 0 where
  pub valid : Bool
  pub total_bytes : ℕ
  pub available_bytes : ℕ
  pub used_percent : D

pub record SelfStats (D : Type 0) : Type 0 where
  pub valid : Bool
  pub rss_bytes : ℕ
  pub cpu_percent : D

pub data ThermalState : Type 0 where
  nominal fair serious critical : ThermalState

unfoldable pub thermal_to_string : ThermalState → Text
thermal_to_string nominal = lit "nominal"
thermal_to_string fair = lit "fair"
thermal_to_string serious = lit "serious"
thermal_to_string critical = lit "critical"

-- `static_cast<double>` of the state gives its ordinal.
unfoldable pub ordinal : ThermalState → ℤ
ordinal nominal = pos 0
ordinal fair = pos 1
ordinal serious = pos 2
ordinal critical = pos 3

-- `proc_taskinfo`.
pub record TaskInfo : Type 0 where
  pub resident_size : ℕ
  pub total_user : ℕ
  pub total_system : ℕ

-- `task time`, in nanoseconds.
abbrev pub task_time : TaskInfo → ℕ
task_time ti = mod64 (ti.total_user + ti.total_system)

-- The baseline of `SelfSampler`.
pub record SelfBaseline : Type 0 where
  pub time_ns : ℕ
  pub wall_ns : ℤ

-- `vm_statistics64`, the counts that are used.
pub record VmStatistics : Type 0 where
  pub active_count : ℕ
  pub wire_count : ℕ
  pub compressor_page_count : ℕ

-- `statfs`, the fields that are used.
pub record FileSystem : Type 0 where
  pub f_bsize : ℕ
  pub f_blocks : ℕ
  pub f_bavail : ℕ

-- The two sums of `CpuSampler::sample`, of the ticks and of those of them that were busy.
unfoldable pub busy_ticks : Ticks → Ticks → ℕ
unfolding sub64
busy_ticks prev now =
    mod64 (sub64 now.user prev.user + sub64 now.system prev.system + sub64 now.nice prev.nice)

unfoldable pub total_ticks : Ticks → Ticks → ℕ
unfolding sub64 busy_ticks
total_ticks prev now = mod64 (busy_ticks prev now + sub64 now.idle prev.idle)

-- The clamp of `sample_memory`.
unfoldable pub used_memory : ℕ → ℕ → VmStatistics → ℕ
used_memory total page_size vm =
    let pages = mod64 (vm.active_count + vm.wire_count + vm.compressor_page_count) in
    let used = mod64 (pages * page_size) in if ltb total used then total else used

-- The clamp of `sample_disk`.
unfoldable pub used_disk : ℕ → ℕ → ℕ
used_disk total available = if leb available total then total - available else 0

module _ (doubles : Doubles) where
  open doubles use {Double, mul, div, zero_double, from_int}

  -- `(double(a) / double(b)) * 100.0`.
  abbrev pub percent_of : ℕ → ℕ → Double
  percent_of a b = mul (div (from_int (pos a)) (from_int (pos b))) (from_int (pos 100))

  -- `CpuSampler::sample`, with the ticks of the sample before, if there was one.
  unfoldable pub sample_cpu : Option Ticks → Option Ticks → Option Ticks × Double
  unfolding busy_ticks total_ticks
  sample_cpu prev none = (prev, zero_double)
  sample_cpu none (some now) = (some now, zero_double)
  sample_cpu (some prev) (some now) = (
    some now,
    if total_ticks prev now == 0
        then zero_double
        else percent_of (busy_ticks prev now) (total_ticks prev now),
  )

  abbrev pub no_memory : MemorySample Double
  no_memory = record { valid = false; total_bytes = 0; used_bytes = 0; used_percent = zero_double }

  -- `sysctlbyname`, `host_page_size` and `host_statistics64`.
  unfoldable pub sample_memory : Option ℕ → Option ℕ → Option VmStatistics → MemorySample Double
  unfolding used_memory
  sample_memory none page_size vm = no_memory
  sample_memory (some total) none vm = no_memory
  sample_memory (some total) (some page_size) none = no_memory
  sample_memory (some total) (some page_size) (some vm) = if total == 0 then no_memory else record {
    valid = true;
    total_bytes = total;
    used_bytes = used_memory total page_size vm;
    used_percent = percent_of (used_memory total page_size vm) total;
  }

  unfoldable pub sample_disk : Option FileSystem → DiskSample Double
  unfolding used_disk
  sample_disk none = record {
    valid = false;
    total_bytes = 0;
    available_bytes = 0;
    used_percent = zero_double;
  }
  sample_disk (some st) =
      let total = mod64 (st.f_blocks * st.f_bsize) in
      let available = mod64 (st.f_bavail * st.f_bsize) in
      record {
        valid = true;
        total_bytes = total;
        available_bytes = available;
        used_percent =
            if ltb 0 total then percent_of (used_disk total available) total else zero_double;
      }

  -- The load since the baseline, if both clocks went on.
  unfoldable pub self_load : Option SelfBaseline → ℕ → ℤ → Double
  self_load none total_ns wall_ns = zero_double
  self_load (some prev) total_ns wall_ns =
      if ltb_ℤ prev.wall_ns wall_ns && leb prev.time_ns total_ns
      then mul (div (from_int (pos (total_ns - prev.time_ns))) (from_int (wall_ns -ℤ prev.wall_ns)))
          (from_int (pos 100))
      else zero_double

  -- `SelfSampler::sample`, at a steady clock of `wall_ns`.
  unfoldable pub sample_self :
      Option SelfBaseline → Option TaskInfo → ℤ → Option SelfBaseline × SelfStats Double
  unfolding self_load
  sample_self prev none wall_ns =
      (prev, record { valid = false; rss_bytes = 0; cpu_percent = zero_double })
  sample_self prev (some ti) wall_ns = (
    some (record { time_ns = task_time ti; wall_ns = wall_ns }),
    record {
      valid = true;
      rss_bytes = ti.resident_size;
      cpu_percent = self_load prev (task_time ti) wall_ns;
    },
  )
