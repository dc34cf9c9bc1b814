-- ===== src/Samples/Schedules.antt =====
-- The theorems about schedules and missed runs, at sample schedules.
use agent_pulse.Base.{
  pos, ◌+ℤ◌, ◌-ℤ◌, rem, ◌≤ℤ◌, ◌<ℤ◌, lit, equal, getlines, words, cut, stoi, ℕ, ◌*◌, ◌≤◌, ◌<◌, ◌≡◌,
  refl, ◌≢◌, ◌↔◌, true, false, none, some, List, [], ◌∷◌, arith,
}
use agent_pulse.Cron.{
  parsed, set_insert, member, split_step, base_range, insert_steps, insert_range, parse_token,
  parse_tokens, parse_field, minute_range, hour_range, normalize_sunday, parse_parts, parse,
  matches,
}
use agent_pulse.Cron.Search.{search_forward, search_backward, next_after, prev_before}
use agent_pulse.Cron.Search.Nearest.{minute, fires, next_after-nearest, next_after-ne-none}
use agent_pulse.Cron.Bounds.{IsSchedule, parse-IsSchedule}
use agent_pulse.Cron.Grammar.{any, span, Item, render_field, Fits, DenotedBy}
use agent_pulse.Cron.Grammar.RoundTrip.{parse_field-render}
use agent_pulse.Scheduler.{detect_missed_run}
use agent_pulse.Scheduler.Missed.Detect.{detect_missed_run-latest}
use agent_pulse.Samples.{clock, at_one}

next_found : next_after clock at_one (pos 3000) ≡ some (pos 3600)
unfolding next_after search_forward matches member ◌+ℤ◌ ◌-ℤ◌ rem
next_found = refl

next_after-nearest_example :
    (k : ℕ) × (pos 3600 ≡ minute k)
    × (3000 < 60 * k)
    × (fires clock at_one (pos 3600) ≡ true)
    × ((j : ℕ) → 3000 < 60 * j → j < k → fires clock at_one (minute j) ≡ false)
next_after-nearest_example = next_after-nearest clock at_one 3000 (pos 3600) next_found

fires-at_one : fires clock at_one (minute 60) ≡ true
unfolding matches member
fires-at_one = refl

next_after-ne-none_example : next_after clock at_one (pos 3000) ≢ none
next_after-ne-none_example =
    next_after-ne-none clock at_one 3000 60 (omega arith) (omega arith) fires-at_one

missed_found : detect_missed_run clock at_one (pos 100) (pos 3700) ≡ some (pos 3600)
unfolding detect_missed_run prev_before search_backward matches member ◌-ℤ◌ rem
missed_found = refl

detect_missed_run-latest_example :
    (pos 100 <ℤ pos 3600)
    × (pos 3600 ≤ℤ pos 3700)
    × (fires clock at_one (pos 3600) ≡ true)
    × ((q : ℕ) → pos 3600 <ℤ minute q → 60 * q ≤ 3700 → fires clock at_one (minute q) ≡ false)
detect_missed_run-latest_example =
    detect_missed_run-latest clock at_one 3700 (pos 100) (pos 3600) missed_found

parsed_one : parse (lit "0 1 1 1 4") ≡ parsed at_one
unfolding parse parse_parts parse_field parse_tokens parse_token insert_steps getlines cut stoi lit
    equal set_insert normalize_sunday words member insert_range split_step base_range
parsed_one = refl

parse-IsSchedule_example : IsSchedule at_one
parse-IsSchedule_example = parse-IsSchedule (lit "0 1 1 1 4") parsed_one

abbrev half_hours : List ℕ
half_hours = 0 ∷ 30 ∷ []

field_parsed : parse_field minute_range (lit "*/30") ≡ parsed (half_hours, false)
unfolding parse_field parse_tokens parse_token insert_steps getlines cut stoi lit equal set_insert
field_parsed = refl

-- The field `9-11,*/12`.
abbrev morning : Item
morning = record { base = span 9 11; step = none }

abbrev twice_a_day : Item
twice_a_day = record { base = any; step = some 12 }

parse_field-render_example :
    (s : List ℕ) × (parse_field hour_range (render_field morning (twice_a_day ∷ []))
      ≡ parsed (s, equal (render_field morning (twice_a_day ∷ [])) (lit "*")))
    × ((u : ℕ) → (member u s ≡ true) ↔ DenotedBy hour_range (morning ∷ twice_a_day ∷ []) u)
parse_field-render_example =
    parse_field-render hour_range morning (twice_a_day ∷ []) (fits_morning, (fits_twice, tt))
  where
    fits_morning : Fits hour_range morning
    fits_morning = record {
      above = omega arith;
      ordered = omega arith;
      below = omega arith;
      stepping = omega arith;
      small = omega arith;
    }

    fits_twice : Fits hour_range twice_a_day
    fits_twice = record {
      above = omega arith;
      ordered = omega arith;
      below = omega arith;
      stepping = omega arith;
      small = omega arith;
    }
