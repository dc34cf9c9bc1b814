-- ===== src/Samples/Requests.antt =====
-- The theorems about the API, at sample requests.
use agent_pulse.Scheduler.Jobs.{add_job}
use agent_pulse.Samples.{clock}
use agent_pulse.Scheduler.{Scheduler}
use agent_pulse.Ipc.Api.Control.{daemon_api, Handled, daemon_api-Handled}
use agent_pulse.Samples.Registry.{report, idle}
use agent_pulse.Ipc.Api.Shape.{HasShape, status_shape}
use agent_pulse.Ipc.Api.Conforms.{respond-HasShape}
use agent_pulse.Ipc.Api.Body.{IsSendable, Describes, daemon_api-add_job}
use agent_pulse.Ipc.Api.Request.{request_of_words, command_of, parse_request}
use agent_pulse.Ipc.Api.Strict.{is_ascii, IsStrict, handle-terminated, serve_connection-terminated}
use agent_pulse.Ipc.Json.{Json, text, object, Fields, no_field, field, JsonLibrary, field_of}
use agent_pulse.Ipc.Api.{job_reply, respond, handle}
use agent_pulse.Cron.{Parsed, parsed}
use agent_pulse.Config.{policy_to_string, Job}
use agent_pulse.Base.{
  if◌then◌else◌, Bool-cases, ℤ, pos, Text, lit, equal, Dict, lookup, words, ℕ, ◌≡◌, refl, sym, ap,
  ◌∙◌, inl, inr, Bool, true, false, ◌&&◌, Option, none, some, [], ◌∷◌, ◌++◌, arith,
}
use agent_pulse.Scheduler.Loop.{Fate, terminated}
use agent_pulse.Ipc.{bytes, Client, serve_connection}
use agent_pulse.Ipc.Lines.{received}
use agent_pulse.Samples.Wire.{ping}

-- A library whose parser knows one line, and whose printer refuses every text beyond ASCII that
-- stands in a field.
pub only_ascii : Fields ℕ → Bool
only_ascii no_field = true
only_ascii (field k (text t) rest) = is_ascii t && only_ascii rest
only_ascii (field k v rest) = only_ascii rest

printed : Json ℕ → Option Text
printed (object fields) = if only_ascii fields then some [] else none
printed _ = some []

abbrev add_line : Text
add_line = b'{' ∷ b'}' ∷ []

abbrev report_config : Job
report_config = record report { source = lit "config" }

abbrev texts : Dict Text
texts =
    (lit "cmd", lit "add_job")
    ∷ (lit "name", report_config.name)
    ∷ (lit "command", report_config.command)
    ∷ (lit "schedule", report_config.schedule_expr)
    ∷ (lit "missed_run_policy", lit "run_on_wake")
    ∷ []

abbrev numbers : Dict ℤ
numbers = (lit "timeout_seconds", pos 5) ∷ (lit "retries", pos 2) ∷ []

-- The only object is the body of `add_line`.
abbrev a_library : JsonLibrary ℕ
a_library = record {
  Value = Bool;
  parse_json = λ t. equal t add_line;
  is_object = λ v. v;
  contains = λ k v. v;
  text_at = λ k v. lookup k texts;
  long_at = λ k v. lookup k numbers;
  int_at = λ k v. lookup k numbers;
  dump = printed;
}

refused_field :
    (fields : Fields ℕ) (k t : Text)
    → field_of k fields ≡ some (text t)
    → is_ascii t ≡ false
    → only_ascii fields ≡ false
unfolding only_ascii field_of
refused_field no_field k t e bad = cc
refused_field (field j (text u) rest) k t e bad = elim (Bool-cases (equal j k)) [
  | inl same ↦ ground arith
  | inr other ↦ ground (arith, refused_field rest k t (ground arith) bad)
]
refused_field (field j _ rest) k t e bad = elim (Bool-cases (equal j k)) [
  | inl same ↦ absurd (ground arith)
  | inr other ↦ refused_field rest k t (ground arith) bad
]

a_library-IsStrict : IsStrict a_library is_ascii
unfolding printed
a_library-IsStrict = record {
  ascii = λ t a. a;
  dump_throws = λ fields k t e bad. rw (refused_field fields k t e bad) refl;
}

daemon_api-Handled_example :
    Handled clock (pos 5) (pos 9) none a_library (parse_request a_library ping).cmd idle (
      handle a_library
        (daemon_api clock (pos 5) (pos 9) none)
        (record { now = pos 9; fault = none })
        ping
        idle)
daemon_api-Handled_example =
    daemon_api-Handled clock (pos 5) (pos 9) none a_library (record { now = pos 9; fault = none })
      ping idle

abbrev strange : Text
strange = 255 ∷ []

abbrev strange_client : Client
strange_client = record { reads = bytes (255 ∷ b'\n' ∷ []) ∷ []; writes = [] }

-- The handler that `handle` comes to, where the cron parser does not overflow.
fate_of : Parsed (Fate (Scheduler ℕ × Text)) → Fate (Scheduler ℕ × Text)
fate_of (parsed f) = f
fate_of _ = terminated

daemon_handler : Text → Scheduler ℕ → Fate (Scheduler ℕ × Text)
daemon_handler line s = fate_of (
    handle a_library (daemon_api clock (pos 5) (pos 9) none) (record { now = pos 9; fault = none })
      line s)

known : Describes a_library (a_library.parse_json add_line) report_config
unfolding lookup equal lit policy_to_string
known = record {
  object_there = refl;
  members = (refl, (refl, (refl, (refl, (refl, (refl, (refl, tt)))))));
  cmd = refl;
  name = refl;
  command = refl;
  schedule = refl;
  timeout_seconds = refl;
  retries = refl;
  missed_run_policy = refl;
}

sendable : IsSendable report_config
sendable = record { named = refl; commanded = refl; scheduled = refl; unsourced = refl }

daemon_api-add_job_example :
    respond a_library
      (daemon_api clock (pos 5) (pos 9) none)
      (record { now = pos 9; fault = none })
      add_line
      idle
    ≡ parsed (
        job_reply
          (lit "add_job")
          report_config.name
          (add_job clock none (pos 9) report_config idle))
daemon_api-add_job_example =
    daemon_api-add_job a_library clock (pos 5) (pos 9) none (record { now = pos 9; fault = none })
      add_line report_config idle known sendable

strange_handled :
    handle a_library
      (daemon_api clock (pos 5) (pos 9) none)
      (record { now = pos 9; fault = none })
      strange
      idle
    ≡ parsed terminated
unfolding equal words
strange_handled =
    handle-terminated a_library is_ascii (daemon_api clock (pos 5) (pos 9) none) a_library-IsStrict
      (record { now = pos 9; fault = none }) strange strange [] idle refl refl refl

handled_so :
    handle a_library
      (daemon_api clock (pos 5) (pos 9) none)
      (record { now = pos 9; fault = none })
      strange
      idle
    ≡ parsed (daemon_handler strange idle)
unfolding daemon_handler fate_of
handled_so = strange_handled ∙ ap parsed (sym (ap fate_of strange_handled))

strange_read : received strange_client.reads ≡ strange ++ b'\n' ∷ []
unfolding received
strange_read = refl

strange_no_json : a_library.is_object (a_library.parse_json strange) ≡ false
unfolding equal
strange_no_json = refl

strange_word : words none strange ≡ strange ∷ []
unfolding words
strange_word = refl

serve_connection-terminated_example :
    serve_connection daemon_handler strange_client idle ≡ terminated
serve_connection-terminated_example =
    serve_connection-terminated a_library is_ascii (daemon_api clock (pos 5) (pos 9) none)
      a_library-IsStrict (record { now = pos 9; fault = none }) daemon_handler strange_client
      strange [] strange [] idle handled_so strange_read (refl, tt) (omega arith) strange_no_json
      strange_word refl

status_word : (parse_request a_library (lit "status")).cmd ≡ lit "status"
unfolding parse_request command_of request_of_words words lit equal
status_word = refl

respond-HasShape_example :
    (j : Json ℕ) × (respond a_library
        (daemon_api clock (pos 5) (pos 9) none)
        (record { now = pos 9; fault = none })
        (lit "status")
        idle
      ≡ parsed (idle, j))
    × HasShape status_shape j
respond-HasShape_example =
    respond-HasShape a_library (daemon_api clock (pos 5) (pos 9) none)
      (record { now = pos 9; fault = none }) (lit "status") idle status_word
