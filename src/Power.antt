-- ===== src/Power.antt =====
-- daemon/src/power/sleep_monitor.cpp: the messages of the system, and the life of the thread that
-- waits for them.
pub mod Lifetime
pub mod Wakes
use agent_pulse.Base.{if◌then◌else◌, Bool, true, false, List, [], ◌∷◌}
use agent_pulse.Scheduler.{Scheduler, notify_wake}
use agent_pulse.Scheduler.Loop.{Fate, alive, terminated}

-- The messages that `power_callback` tells apart.
pub data PowerMessage : Type 0 where
  can_system_sleep : PowerMessage
  system_will_sleep : PowerMessage
  system_has_powered_on : PowerMessage
  other_message : PowerMessage

-- `on_wake_` is the `notify_wake` that main.cpp gives. The flag says that `IOAllowPowerChange` is
-- called.
unfoldable pub power_callback : {D : Type 0} → PowerMessage → Scheduler D → Scheduler D × Bool
power_callback can_system_sleep s = (s, true)
power_callback system_will_sleep s = (s, true)
power_callback system_has_powered_on s = (notify_wake s, false)
power_callback other_message s = (s, false)

-- The messages of a while, in their order.
unfoldable pub power_callbacks :
    {D : Type 0} → List PowerMessage → Scheduler D → Scheduler D × List Bool
power_callbacks [] s = (s, [])
power_callbacks (message ∷ messages) s =
    let (s', allowed) = power_callback message s in
    let (t, rest) = power_callbacks messages s' in (t, allowed ∷ rest)

-- `joinable` is that of `thread_`, and `looping` says that `run_loop_` is set.
pub record SleepMonitor : Type 0 where
  pub running : Bool
  pub looping : Bool
  pub joinable : Bool

abbrev pub no_monitor : SleepMonitor
no_monitor = record { running = false; looping = false; joinable = false }

-- `start`, once the thread is in its run loop, or has ended since it was not registered. An
-- assignment to a thread that is joinable terminates.
unfoldable pub start : Bool → SleepMonitor → Fate SleepMonitor
start registered m =
    if m.running
    then alive m
    else if m.joinable
    then terminated
    else alive (record { running = registered; looping = registered; joinable = true })

-- `stop` ends the run loop and joins the thread.
unfoldable pub stop : SleepMonitor → SleepMonitor
stop m = if m.running then record { running = false; looping = false; joinable = false } else m

-- The destructor, and after it that of `thread_`, which terminates if it is joinable.
unfoldable pub destroy : SleepMonitor → Fate {0} Unit
unfolding stop
destroy m = if (stop m).joinable then terminated else alive tt

-- The calls in the life of a monitor.
pub data MonitorCall : Type 0 where
  starts : Bool → MonitorCall
  stops : MonitorCall

unfoldable pub lifetime : List MonitorCall → SleepMonitor → Fate {0} Unit
unfolding start destroy
lifetime [] m = destroy m
lifetime (starts registered ∷ calls) m = elim (start registered m) [
  | terminated ↦ terminated
  | alive m' ↦ lifetime calls m'
]
lifetime (stops ∷ calls) m = lifetime calls (stop m)
