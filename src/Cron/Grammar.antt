-- ===== src/Cron/Grammar.antt =====
-- The grammar of a cron field, with its meaning, for the round trip in Cron/Grammar/RoundTrip. It is
-- the independent description of what `parse_field` of cron.cpp is to accept.
pub mod RoundTrip
use agent_pulse.Base.{
  value_or, Text, lit, int_max, decimal, ℕ, ◌+◌, ◌≤◌, ◌<◌, ◌⊎◌, Option, none, some, List, [], ◌∷◌,
  ◌++◌,
}
use agent_pulse.Cron.{FieldRange}
use agent_pulse.Cron.Sets.{Visits}

-- `*`, `a` and `a-b`.
pub data Base : Type 0 where
  any : Base
  one : ℕ → Base
  span : ℕ → ℕ → Base

-- A base with an optional step behind a slash.
pub record Item : Type 0 where
  pub base : Base
  pub step : Option ℕ

abbrev pub first : FieldRange → Base → ℕ
first range any = range.lo
first range (one n) = n
first range (span a b) = a

abbrev pub last : FieldRange → Base → ℕ
last range any = range.hi
last range (one n) = n
last range (span a b) = b

abbrev pub stride : Item → ℕ
stride item = value_or item.step 1

unfoldable pub render_base : Base → Text
render_base any = lit "*"
render_base (one n) = decimal n
render_base (span a b) = decimal a ++ b'-' ∷ decimal b

abbrev pub render_step : Option ℕ → Text → Text
render_step none text = text
render_step (some n) text = text ++ b'/' ∷ decimal n

abbrev pub render_item : Item → Text
render_item item = render_step item.step (render_base item.base)

unfoldable pub render_field : Item → List Item → Text
render_field item [] = render_item item
render_field item (next ∷ items) = render_item item ++ b',' ∷ render_field next items

-- The item stands for values of the range, and its step does not take the loop out of `int`.
pub record Fits (range : FieldRange) (item : Item) : Type 0 where
  pub above : range.lo ≤ first range item.base
  pub ordered : first range item.base ≤ last range item.base
  pub below : last range item.base ≤ range.hi
  pub stepping : 0 < stride item
  pub small : range.hi + stride item ≤ int_max

-- The values that an item stands for: every `stride`-th from its first to its last.
abbrev pub Denotes : FieldRange → Item → ℕ → Type 0
Denotes range item u = Visits (first range item.base) (last range item.base) (stride item) u

-- Some item of the list denotes the value.
abbrev pub DenotedBy : FieldRange → List Item → ℕ → Type 0
DenotedBy range [] u = ⊥
DenotedBy range (item ∷ items) u = Denotes range item u ⊎ DenotedBy range items u
