-- ===== src/Ipc/Api/Request.antt =====
-- api.cpp: how a request line is read.
use agent_pulse.Base.{
  ltb, ◌==◌, if◌then◌else◌, value_or, ℤ, pos, negsuc, sub_ℕ, leb_ℤ, Text, lit, is_empty, is_space,
  words, digits_value, to_string, ℕ, ◌-◌, ◌%◌, ◌^◌, min, Option, none, some, List, [], ◌∷◌,
}
use agent_pulse.Config.{ignore, missed_run_policy_from_string, Job}
use agent_pulse.Ipc.Json.{JsonLibrary}

-- `arg` is the name of a job or a metric, `arg2` the seconds or the limit.
pub record ApiRequest : Type 0 where
  pub cmd : Text
  pub arg : Text
  pub arg2 : Text

-- `std::strtol`, for a `long` of 64 bits: the value of the digits after white space and a sign,
-- 0 if there is none, and the nearest bound if it is out of range.
unfoldable pub strtol : Text → ℤ
strtol [] = pos 0
strtol (c ∷ cs) =
    if is_space c
    then strtol cs
    else if c == b'-'
    then sub_ℕ 0 (min (2 ^ 63) (value_or (digits_value none cs) 0))
    else if c == b'+'
    then pos (min (2 ^ 63 - 1) (value_or (digits_value none cs) 0))
    else pos (min (2 ^ 63 - 1) (value_or (digits_value none (c ∷ cs)) 0))

-- The request of the words of a line; `>>` leaves what it does not find empty.
unfoldable pub request_of_words : List Text → ApiRequest
request_of_words [] = record { cmd = []; arg = []; arg2 = [] }
request_of_words (cmd ∷ []) = record { cmd = cmd; arg = []; arg2 = [] }
request_of_words (cmd ∷ arg ∷ []) = record { cmd = cmd; arg = arg; arg2 = [] }
request_of_words (cmd ∷ arg ∷ arg2 ∷ rest) = record { cmd = cmd; arg = arg; arg2 = arg2 }

-- A conversion to a two's complement integer of `w` bits.
unfoldable pub wrap : ℕ → ℤ → ℤ
wrap w n =
    let m : ℕ = elim n [ pos a ↦ a % 2 ^ w | negsuc a ↦ (2 ^ w - 1) - a % 2 ^ w ] in
    if ltb m (2 ^ (w - 1)) then pos m else sub_ℕ m (2 ^ w)

-- `window`, in seconds.
unfoldable pub window_of : Text → ℤ
unfolding strtol
window_of arg2 =
    let window = if is_empty arg2 then pos 3600 else strtol arg2 in
    if leb_ℤ window (pos 0) then pos 3600 else window

-- `limit`, cast to `int`.
unfoldable pub limit_of : Text → ℤ
unfolding strtol wrap
limit_of arg2 =
    let limit = if is_empty arg2 then pos 20 else wrap 32 (strtol arg2) in
    if leb_ℤ limit (pos 0) then pos 20 else limit

module _ {D : Type 0} (library : JsonLibrary D) where
  open library use {Value, parse_json, is_object, contains, text_at, long_at, int_at}

  -- `contains(k) && [k].is_string()` with `get`.
  unfoldable pub text_member : Text → Value → Option Text
  text_member k v = if contains k v then text_at k v else none

  -- The request of an object whose `cmd` is a text. Of two keys the later wins.
  unfoldable pub request_of_object : Text → Value → ApiRequest
  unfolding text_member
  request_of_object cmd v = record {
    cmd = cmd;
    arg = value_or (text_member (lit "metric") v) (value_or (text_member (lit "job") v) []);
    arg2 = elim (if contains (lit "limit") v then long_at (lit "limit") v else none) [
      | some n ↦ to_string n
      | none ↦ elim (if contains (lit "seconds") v then long_at (lit "seconds") v else none) [
        | some n ↦ to_string n
        | none ↦ []
      ]
    ];
  }

  -- The text under `cmd`, if the value is an object that has one.
  unfoldable pub command_of : Value → Option Text
  unfolding text_member
  command_of v = if is_object v then text_member (lit "cmd") v else none

  unfoldable pub parse_request : Text → ApiRequest
  unfolding request_of_object request_of_words command_of
  parse_request line = elim (command_of (parse_json line)) [
    | some cmd ↦ request_of_object cmd (parse_json line)
    | none ↦ request_of_words (words none line)
  ]

  -- `num` of `add_job`.
  unfoldable pub number_member : Text → Value → ℤ
  number_member k v = if contains k v then value_or (int_at k v) (pos 0) else pos 0

  -- The job of the body of `add_job`, but for its schedule.
  unfoldable pub job_of_body : Value → Job
  unfolding text_member number_member
  job_of_body body = record {
    name = value_or (text_member (lit "name") body) [];
    command = value_or (text_member (lit "command") body) [];
    schedule = none;
    schedule_expr = value_or (text_member (lit "schedule") body) [];
    missed_run_policy =
        if contains (lit "missed_run_policy") body
        then missed_run_policy_from_string
            (value_or (text_member (lit "missed_run_policy") body) [])
        else ignore;
    timeout_seconds = number_member (lit "timeout_seconds") body;
    retries = number_member (lit "retries") body;
    source = lit "config";
  }
