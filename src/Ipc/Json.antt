-- ===== src/Ipc/Json.antt =====
-- The JSON of api.cpp: the values that the source builds by initializer lists, and the library,
-- which parses and prints, as a parameter.
use agent_pulse.Base.{if◌then◌else◌, ℤ, Text, equal, Bool, Option, none, some, List, [], ◌∷◌}

mutual
  -- A number with a fraction is a `real`. The fields stand in the order of the source; the library
  -- keeps them by name.
  pub data Json (D : Type 0) : Type 0 where
    null : Json D
    boolean : Bool → Json D
    integer : ℤ → Json D
    real : D → Json D
    text : Text → Json D
    array : Items D → Json D
    object : Fields D → Json D

  pub data Items (D : Type 0) : Type 0 where
    end : Items D
    item : Json D → Items D → Items D

  pub data Fields (D : Type 0) : Type 0 where
    no_field : Fields D
    field : Text → Json D → Fields D → Fields D

-- The library: `json::parse` without exceptions, whose result may be a discarded value; what the
-- source asks of it, where `text_at`, `long_at` and `int_at` are `is_string` or `is_number` of a
-- member with its `get` into `std::string`, `long long` and `int`; and `dump`, `none` where it throws.
pub record JsonLibrary (D : Type 0) : Type 1 where
  pub Value : Type 0
  pub parse_json : Text → Value
  pub is_object : Value → Bool
  pub contains : Text → Value → Bool
  pub text_at : Text → Value → Option Text
  pub long_at : Text → Value → Option ℤ
  pub int_at : Text → Value → Option ℤ
  pub dump : Json D → Option Text

module _ {D : Type 0} where
  -- An object or an array from its initializer list.
  abbrev pub object_of : List (Text × Json D) → Json D
  object_of fields = object (go fields)
    where
      go : List (Text × Json D) → Fields D
      go [] = no_field
      go ((k, v) ∷ rest) = field k v (go rest)

  abbrev pub array_of : List (Json D) → Json D
  array_of items = array (go items)
    where
      go : List (Json D) → Items D
      go [] = end
      go (v ∷ rest) = item v (go rest)

  -- The first field of a name.
  unfoldable pub field_of : Text → Fields D → Option (Json D)
  field_of k no_field = none
  field_of k (field j v rest) = if equal j k then some v else field_of k rest
