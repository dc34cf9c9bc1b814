-- ===== src/Samples/Rules.antt =====
-- The theorems about alert rules, at a rule that fires and recovers.
use agent_pulse.Base.{
  All, ℤ, pos, ◌-ℤ◌, ◌≤ℤ◌, ◌<ℤ◌, lit, equal, lookup, ℕ, ◌<◌, ◌≡◌, refl, ◌↔◌, ◌⊎◌, true, false, some,
  List, [], ◌∷◌, map, arith,
}
use agent_pulse.Config.{greater_than, less_than, Rule, QuietHours}
use agent_pulse.Alerts.{
  hour_in_quiet_hours, Sample, condition_met, firing_event, on_met, is_met, rule_tick, evaluate,
}
use agent_pulse.Alerts.Quiet.{hours_after, hour_in_quiet_hours_iff}
use agent_pulse.Alerts.Episodes.{
  state_after, event_at, events_of, Alternate, events_of-Alternate, firing_times, Gaps,
  firing_times-Gaps, Episode, event_at-Episode, Cooling, silent_only_if,
}
use agent_pulse.Alerts.Engine.{
  DistinctRules, Call, sample_of, engine_after, events_alone, evaluate-events_alone,
}
use agent_pulse.State.{AlertInfo}
use agent_pulse.Samples.{clock, whole}

-- More than 5 for 60 seconds, at most every 100 seconds.
abbrev busy : Rule ℕ
busy = record {
  name = b'r' ∷ [];
  metric = b'm' ∷ [];
  condition = greater_than;
  threshold = 5;
  duration_seconds = pos 60;
  cooldown_seconds = pos 100;
  severity = [];
}

abbrev reading : ℕ → ℕ → Sample ℕ
reading now value = record {
  metrics = (b'm' ∷ [], value) ∷ [];
  now = pos now;
  quiet = false;
  cpu_attribution = [];
}

-- It holds from 100 on and fires at 160; at 300 it is over; from 310 on it holds again.
abbrev readings : List (Sample ℕ)
readings = reading 310 9 ∷ reading 300 1 ∷ reading 160 8 ∷ reading 100 7 ∷ []

events_of-Alternate_example :
    Alternate whole busy (state_after whole busy readings).notified (events_of whole busy readings)
events_of-Alternate_example = events_of-Alternate whole busy readings

after_epoch : All (λ s. pos 0 <ℤ s.now) readings
after_epoch = (omega arith, (omega arith, (omega arith, (omega arith, tt))))

firing_times-Gaps_example :
    Gaps whole busy (pos 100) (firing_times whole busy (events_of whole busy readings))
firing_times-Gaps_example = firing_times-Gaps whole busy readings after_epoch

abbrev first_readings : List (Sample ℕ)
first_readings = reading 100 7 ∷ []

fired :
    event_at whole busy (reading 160 8) first_readings
    ≡ some (firing_event whole busy 8 (reading 160 8))
unfolding rule_tick state_after on_met is_met lookup equal condition_met ◌-ℤ◌
fired = refl

event_at-Episode_example :
    (t : ℤ) × Episode whole busy t (reading 160 8 ∷ first_readings) × (pos 60 ≤ℤ pos 160 -ℤ t)
unfolding lit firing_event
event_at-Episode_example =
    event_at-Episode whole busy (reading 160 8) first_readings
      (firing_event whole busy 8 (reading 160 8)) (omega arith, (omega arith, tt)) fired refl

met : is_met whole busy (reading 160 8) ≡ true
unfolding is_met condition_met lookup equal
met = refl

silent_only_if_example :
    ((state_after whole busy (reading 160 8 ∷ first_readings)).notified ≡ true)
    ⊎ (((t : ℤ) × Episode whole busy t (reading 160 8 ∷ first_readings) × (pos 160 -ℤ t <ℤ pos 60))
        ⊎ Cooling whole busy
            (pos 100)
            (pos 160)
            (firing_times whole busy (events_of whole busy first_readings)))
silent_only_if_example =
    silent_only_if whole busy (reading 160 8) first_readings (omega arith, (omega arith, tt)) met

abbrev at_night : QuietHours
at_night = record { enabled = true; start_hour = pos 22; end_hour = pos 7 }

hour_in_quiet_hours_iff_example :
    (hour_in_quiet_hours at_night (pos 23) ≡ true) ↔ (hours_after 22 23 < hours_after 22 7)
hour_in_quiet_hours_iff_example =
    hour_in_quiet_hours_iff at_night 22 7 23 refl refl (omega arith) (omega arith) (omega arith)

abbrev slow : Rule ℕ
slow = record {
  name = b's' ∷ [];
  metric = b'm' ∷ [];
  condition = less_than;
  threshold = 2;
  duration_seconds = pos 0;
  cooldown_seconds = pos 0;
  severity = [];
}

abbrev both_rules : List (Rule ℕ)
both_rules = busy ∷ slow ∷ []

distinct_rules : DistinctRules whole both_rules
unfolding equal
distinct_rules = ((refl, tt), (tt, tt))

abbrev call_at : ℕ → ℕ → Call whole
call_at now value = record {
  metrics = (b'm' ∷ [], value) ∷ [];
  now = pos now;
  cpu_attribution = [];
}

abbrev calls : List (Call whole)
calls = call_at 160 8 ∷ call_at 100 7 ∷ []

evaluate-events_alone_example :
    (evaluate whole clock
      (engine_after whole clock both_rules at_night calls)
      ((b'm' ∷ [], 1) ∷ [])
      (pos 300)
      []).1
    ≡ events_alone whole clock both_rules at_night both_rules
        (sample_of whole clock both_rules at_night (call_at 300 1))
        (map (sample_of whole clock both_rules at_night) calls)
evaluate-events_alone_example =
    evaluate-events_alone whole clock both_rules at_night (call_at 300 1) calls distinct_rules

abbrev notice : ℕ → AlertInfo ℕ
notice t = record {
  ts = pos t;
  rule_name = [];
  severity = [];
  metric = [];
  kind = [];
  value = 0;
  threshold = 0;
  message = [];
  attribution = [];
  notify = true;
}
