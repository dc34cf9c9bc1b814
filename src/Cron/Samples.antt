-- ===== src/Cron/Samples.antt =====
-- Tests of the cron parser, after those of tests/test_main.cpp.
use agent_pulse.Base.{lit, equal, getlines, cut, stoi, ◌≡◌, refl, false, [], ◌∷◌}
use agent_pulse.Cron.{
  parsed, malformed, overflow, set_insert, insert_steps, parse_token, parse_tokens, parse_field,
  minute_range, hour_range,
}

step_field : parse_field minute_range (lit "*/15") ≡ parsed (0 ∷ 15 ∷ 30 ∷ 45 ∷ [], false)
unfolding parse_field parse_tokens parse_token insert_steps getlines cut stoi lit equal set_insert
step_field = refl

list_field :
    parse_field hour_range (lit "9-11,1,22-23/5") ≡ parsed (1 ∷ 9 ∷ 10 ∷ 11 ∷ 22 ∷ [], false)
unfolding parse_field parse_tokens parse_token insert_steps getlines cut stoi lit equal set_insert
list_field = refl

bad_field : parse_field hour_range (lit "24") ≡ malformed
unfolding parse_field parse_tokens parse_token insert_steps getlines cut stoi lit equal set_insert
bad_field = refl

huge_step : parse_field minute_range (lit "1/2147483647") ≡ overflow
unfolding parse_field parse_tokens parse_token insert_steps getlines cut stoi lit equal set_insert
huge_step = refl

trailing : parse_field minute_range (lit "5x,3-4-9,") ≡ parsed (3 ∷ 4 ∷ 5 ∷ [], false)
unfolding parse_field parse_tokens parse_token insert_steps getlines cut stoi lit equal set_insert
trailing = refl
