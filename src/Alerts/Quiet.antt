-- ===== src/Alerts/Quiet.antt =====
-- alert_engine.cpp, `in_quiet_hours`.
use agent_pulse.Base.{pos, ℕ, ◌+◌, ◌-◌, ◌%◌, ◌<◌, ◌≡◌, ◌↔◌, true, arith}
use agent_pulse.Config.{QuietHours}
use agent_pulse.Alerts.{hour_in_quiet_hours}

-- Hours on a clock face: how far `h` lies after `start`.
abbrev pub hours_after : ℕ → ℕ → ℕ
hours_after start h = (h + 24 - start) % 24

-- Between hours of the day, an hour is quiet exactly when, counted round the clock from the start
-- of the window, it comes before the window's end; so a window may wrap past midnight, its start is
-- quiet and its end is not, and a window from an hour to itself is empty.
pub hour_in_quiet_hours_iff :
    (q : QuietHours) (start stop h : ℕ)
    → q.start_hour ≡ pos start
    → q.end_hour ≡ pos stop
    → start < 24
    → stop < 24
    → h < 24
    → (hour_in_quiet_hours q (pos h) ≡ true) ↔ (hours_after start h < hours_after start stop)
unfolding hour_in_quiet_hours
hour_in_quiet_hours_iff q start stop h es ee a b c = (λ e. ground arith, λ e. ground arith)
