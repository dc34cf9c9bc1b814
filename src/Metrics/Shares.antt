-- ===== src/Metrics/Shares.antt =====
-- cpu_sampler.cpp, memory_sampler.cpp and disk_sampler.cpp: what the percentages are shares of.
use agent_pulse.Base.{
  ◌==◌, if◌then◌else◌, Doubles, ℕ, ◌+◌, ◌-◌, ◌^◌, ◌≤◌, ◌<◌, ◌≡◌, refl, some, arith,
}
use agent_pulse.Metrics.{
  sub64, Ticks, VmStatistics, busy_ticks, total_ticks, used_memory, used_disk, percent_of,
  sample_cpu,
}

-- A count of ticks is a `natural_t`, and has not gone back or around.
abbrev pub Ahead : ℕ → ℕ → Type 0
Ahead before after = (before ≤ after) × (after < 2 ^ 32)

pub record IsAhead (prev now : Ticks) : Type 0 where
  pub user : Ahead prev.user now.user
  pub system : Ahead prev.system now.system
  pub idle : Ahead prev.idle now.idle
  pub nice : Ahead prev.nice now.nice

sub64_exact : (a b : ℕ) → Ahead b a → sub64 a b ≡ a - b
unfolding sub64
sub64_exact a b h = omega arith

-- The ticks of the interval that were busy, and all of them.
abbrev pub busy_since : Ticks → Ticks → ℕ
busy_since prev now = (now.user - prev.user) + (now.system - prev.system) + (now.nice - prev.nice)

abbrev pub ticks_since : Ticks → Ticks → ℕ
ticks_since prev now = busy_since prev now + (now.idle - prev.idle)

busy_ticks_exact : (prev now : Ticks) → IsAhead prev now → busy_ticks prev now ≡ busy_since prev now
unfolding busy_ticks
busy_ticks_exact prev now h = omega (
  arith,
  sub64_exact now.user prev.user h.user,
  sub64_exact now.system prev.system h.system,
  sub64_exact now.nice prev.nice h.nice,
  h.user,
  h.system,
  h.nice,
)

total_ticks_exact :
    (prev now : Ticks) → IsAhead prev now → total_ticks prev now ≡ ticks_since prev now
unfolding total_ticks
total_ticks_exact prev now h = omega (
  arith,
  busy_ticks_exact prev now h,
  sub64_exact now.idle prev.idle h.idle,
  h.user,
  h.system,
  h.nice,
  h.idle,
)

module _ (doubles : Doubles) where
  open doubles use {zero_double}

  -- Between two samples whose counts went on without going around: the load is the share of the
  -- busy ticks among all ticks of the interval, of which they are a part, or 0 if there were none.
  pub sample_cpu_share :
      (prev now : Ticks)
      → IsAhead prev now
      → (busy_since prev now ≤ ticks_since prev now)
        × (sample_cpu doubles (some prev) (some now) ≡ (
          some now,
          if ticks_since prev now == 0
              then zero_double
              else percent_of doubles (busy_since prev now) (ticks_since prev now),
        ))
  unfolding sample_cpu
  sample_cpu_share prev now h =
      (omega arith, rw (sample_cpu, total_ticks_exact prev now h, busy_ticks_exact prev now h) refl)

-- The used memory is at most the total, and so is the used part of a disk.
pub used_memory-le-total :
    (total page_size : ℕ) (vm : VmStatistics) → used_memory total page_size vm ≤ total
unfolding used_memory
used_memory-le-total total page_size vm = ground arith

pub used_disk-le-total : (total available : ℕ) → used_disk total available ≤ total
unfolding used_disk
used_disk-le-total total available = ground arith
