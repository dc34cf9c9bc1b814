-- ===== src/Power/Wakes.antt =====
-- sleep_monitor.cpp: what the messages of the system tell the scheduler.
use agent_pulse.Base.{◌≡◌, refl, sym, ap, ◌∙◌, Bool, true, false, ◌||◌, List, [], ◌∷◌}
use agent_pulse.Scheduler.{Scheduler, notify_wake}
use agent_pulse.Power.{
  PowerMessage, can_system_sleep, system_will_sleep, system_has_powered_on, other_message,
  power_callback, power_callbacks,
}

-- One of the messages says that the machine is awake again.
abbrev pub wakes : List PowerMessage → Bool
wakes [] = false
wakes (system_has_powered_on ∷ messages) = true
wakes (can_system_sleep ∷ messages) = wakes messages
wakes (system_will_sleep ∷ messages) = wakes messages
wakes (other_message ∷ messages) = wakes messages

or_false : (b : Bool) → (b || false) ≡ b
or_false true = refl
or_false false = refl

or_true : (b : Bool) → (b || true) ≡ true
or_true true = refl
or_true false = refl

power_callbacks_woken :
    {D : Type 0} (messages : List PowerMessage) (s : Scheduler D)
    → (power_callbacks messages (notify_wake s)).0 ≡ notify_wake s
unfolding power_callbacks power_callback notify_wake
power_callbacks_woken [] s = refl
power_callbacks_woken (can_system_sleep ∷ messages) s = power_callbacks_woken messages s
power_callbacks_woken (system_will_sleep ∷ messages) s = power_callbacks_woken messages s
power_callbacks_woken (system_has_powered_on ∷ messages) s = power_callbacks_woken messages s
power_callbacks_woken (other_message ∷ messages) s = power_callbacks_woken messages s

-- The messages change the scheduler only by its flag, which is set after them if it was before or
-- if one of them is a wake, however many there are.
pub power_callbacks-notify_wake :
    {D : Type 0} (messages : List PowerMessage) (s : Scheduler D)
    → (power_callbacks messages s).0 ≡ record s { wake_pending = s.wake_pending || wakes messages }
unfolding power_callbacks power_callback notify_wake
power_callbacks-notify_wake [] s =
    ap (λ b. record s { wake_pending = b }) (sym (or_false s.wake_pending))
power_callbacks-notify_wake (can_system_sleep ∷ messages) s = power_callbacks-notify_wake messages s
power_callbacks-notify_wake (system_will_sleep ∷ messages) s =
    power_callbacks-notify_wake messages s
power_callbacks-notify_wake (system_has_powered_on ∷ messages) s =
    power_callbacks_woken messages s
    ∙ ap (λ b. record s { wake_pending = b }) (sym (or_true s.wake_pending))
power_callbacks-notify_wake (other_message ∷ messages) s = power_callbacks-notify_wake messages s
