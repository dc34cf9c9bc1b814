-- ===== src/Power/Lifetime.antt =====
-- sleep_monitor.cpp: which lives of a monitor end well.
use agent_pulse.Base.{◌≡◌, refl, Bool, true, false, All, List, [], ◌∷◌}
use agent_pulse.Scheduler.Loop.{alive, terminated}
use agent_pulse.Power.{
  SleepMonitor, no_monitor, MonitorCall, starts, stops, start, stop, destroy, lifetime,
}

-- A thread that was registered: the call of `start` succeeds.
abbrev IsRegistered : MonitorCall → Type 0
IsRegistered (starts registered) = registered ≡ true
IsRegistered stops = Unit

-- A monitor that is registered, or one that is stopped.
abbrev monitor_of : Bool → SleepMonitor
monitor_of up = record { running = up; looping = up; joinable = up }

-- Its thread has ended without a registration.
abbrev inert_monitor : SleepMonitor
inert_monitor = record { running = false; looping = false; joinable = true }

lifetime_sound :
    (calls : List MonitorCall) (up : Bool)
    → All IsRegistered calls
    → lifetime calls (monitor_of up) ≡ alive tt
unfolding lifetime start stop destroy
lifetime_sound [] true h = refl
lifetime_sound [] false h = refl
lifetime_sound (starts registered ∷ calls) true h = lifetime_sound calls true h.1
lifetime_sound (starts true ∷ calls) false h = lifetime_sound calls true h.1
lifetime_sound (starts false ∷ calls) false h = cc
lifetime_sound (stops ∷ calls) true h = lifetime_sound calls false h.1
lifetime_sound (stops ∷ calls) false h = lifetime_sound calls false h.1

-- However often it is started and stopped, and in whatever order, a monitor whose registrations
-- succeed is destroyed without an end of the daemon.
pub lifetime-alive :
    (calls : List MonitorCall) → All IsRegistered calls → lifetime calls no_monitor ≡ alive tt
lifetime-alive calls h = lifetime_sound calls false h

lifetime_inert : (calls : List MonitorCall) → lifetime calls inert_monitor ≡ terminated
unfolding lifetime start stop destroy
lifetime_inert [] = refl
lifetime_inert (starts registered ∷ calls) = refl
lifetime_inert (stops ∷ calls) = lifetime_inert calls

-- A registration that fails leaves a thread that nothing joins: whatever calls follow, the monitor
-- ends in `std::terminate`.
pub lifetime-terminated :
    (calls : List MonitorCall) → lifetime (starts false ∷ calls) no_monitor ≡ terminated
unfolding lifetime start
lifetime-terminated calls = lifetime_inert calls
