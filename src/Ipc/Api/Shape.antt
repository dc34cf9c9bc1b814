-- ===== src/Ipc/Api/Shape.antt =====
-- docs/PROTOCOL.md: the shape of the response to `status`, by which a value of api.cpp is typed.

use agent_pulse.Base.{ℤ, Text, lit, ◌≡◌, Bool, some, List, [], ◌∷◌, map}
use agent_pulse.Ipc.Json.{
  Json, null, boolean, integer, real, text, array, object, Items, end, item, Fields, array_of,
  field_of,
}

mutual
  pub data Shape : Type 0 where
    a_boolean an_integer a_number a_text : Shape
    or_null : Shape → Shape
    list_of : Shape → Shape
    with_fields : FieldShapes → Shape

  pub data FieldShapes : Type 0 where
    no_more : FieldShapes
    has : Text → Shape → FieldShapes → FieldShapes

module _ {D : Type 0} where
  mutual
    -- The value has the shape; an object may have other fields too.
    pub data HasShape : Shape → Json D → Type 0 where
      boolean_ok : {b : Bool} → HasShape a_boolean (boolean b)
      integer_ok : {n : ℤ} → HasShape an_integer (integer n)
      number_ok : {d : D} → HasShape a_number (real d)
      text_ok : {t : Text} → HasShape a_text (text t)
      null_ok : {s : Shape} → HasShape (or_null s) null
      there_ok : {s : Shape} {j : Json D} → HasShape s j → HasShape (or_null s) j
      list_ok :
          {s : Shape} {items : Items D} → HaveShape s items → HasShape (list_of s) (array items)
      object_ok :
          {fs : FieldShapes} {fields : Fields D}
          → HasFields fs fields
          → HasShape (with_fields fs) (object fields)

    pub data HaveShape : Shape → Items D → Type 0 where
      none_left : {s : Shape} → HaveShape s end
      one_more :
          {s : Shape} {j : Json D} {items : Items D}
          → HasShape s j
          → HaveShape s items
          → HaveShape s (item j items)

    pub data HasFields : FieldShapes → Fields D → Type 0 where
      all_there : {fields : Fields D} → HasFields no_more fields
      one_there :
          {k : Text} {s : Shape} {fs : FieldShapes} {v : Json D} {fields : Fields D}
          → field_of k fields ≡ some v
          → HasShape s v
          → HasFields fs fields
          → HasFields (has k s fs) fields

  put_first :
      {s : Shape} {j : Json D} {items : Items D}
      → HasShape s j
      → HasShape (list_of s) (array items)
      → HasShape (list_of s) (array (item j items))
  put_first h (list_ok hs) = list_ok (one_more h hs)

  pub array_of-HasShape :
      {A : Type 0} (s : Shape) (f : A → Json D)
      → ((a : A) → HasShape s (f a))
      → (l : List A) → HasShape (list_of s) (array_of (map f l))
  array_of-HasShape s f h [] = list_ok none_left
  array_of-HasShape s f h (a ∷ l) = put_first (h a) (array_of-HasShape s f h l)

abbrev pub object_with : List (Text × Shape) → Shape
object_with fields = with_fields (go fields)
  where
    go : List (Text × Shape) → FieldShapes
    go [] = no_more
    go ((k, s) ∷ rest) = has k s (go rest)

abbrev pub last_run_shape : Shape
last_run_shape = object_with (
    (lit "status", a_text)
    ∷ (lit "started_at", an_integer)
    ∷ (lit "exit_code", an_integer)
    ∷ (lit "duration_ms", an_integer)
    ∷ (lit "trigger", a_text)
    ∷ [])

abbrev pub job_shape : Shape
job_shape = object_with (
    (lit "name", a_text)
    ∷ (lit "schedule", a_text)
    ∷ (lit "next_run", an_integer)
    ∷ (lit "running", a_boolean)
    ∷ (lit "last_run", or_null last_run_shape)
    ∷ [])

abbrev pub process_shape : Shape
process_shape = object_with (
    (lit "pid", an_integer)
    ∷ (lit "name", a_text)
    ∷ (lit "cpu_percent", a_number)
    ∷ (lit "rss_bytes", an_integer)
    ∷ [])

abbrev pub system_shape : Shape
system_shape = object_with (
    (lit "valid", a_boolean)
    ∷ (lit "sampled_at", an_integer)
    ∷ (
      lit "memory",
      object_with (
          (lit "total_bytes", an_integer)
          ∷ (lit "used_bytes", an_integer)
          ∷ (lit "used_percent", a_number)
          ∷ []),
    )
    ∷ (
      lit "disk",
      object_with (
          (lit "total_bytes", an_integer)
          ∷ (lit "available_bytes", an_integer)
          ∷ (lit "used_percent", a_number)
          ∷ []),
    )
    ∷ (lit "thermal_state", a_text)
    ∷ (lit "top_processes", list_of process_shape)
    ∷ [])

abbrev pub alert_shape : Shape
alert_shape = object_with (
    (lit "ts", an_integer)
    ∷ (lit "rule", a_text)
    ∷ (lit "severity", a_text)
    ∷ (lit "metric", a_text)
    ∷ (lit "kind", a_text)
    ∷ (lit "value", a_number)
    ∷ (lit "threshold", a_number)
    ∷ (lit "message", a_text)
    ∷ (lit "attribution", a_text)
    ∷ (lit "notified", a_boolean)
    ∷ [])

-- The response to `status`.
abbrev pub status_shape : Shape
status_shape = object_with (
    (lit "ok", a_boolean)
    ∷ (lit "cmd", a_text)
    ∷ (
      lit "daemon",
      object_with (
          (lit "started_at", an_integer)
          ∷ (lit "rss_bytes", an_integer)
          ∷ (lit "cpu_percent", a_number)
          ∷ []),
    )
    ∷ (
      lit "cpu",
      object_with (
          (lit "valid", a_boolean)
          ∷ (lit "percent", a_number)
          ∷ (lit "sampled_at", an_integer)
          ∷ []),
    )
    ∷ (lit "system", system_shape)
    ∷ (lit "jobs", list_of job_shape)
    ∷ (lit "alerts", list_of alert_shape)
    ∷ [])
