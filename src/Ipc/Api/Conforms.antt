-- ===== src/Ipc/Api/Conforms.antt =====
-- api.cpp: the response to `status` has the shape of docs/PROTOCOL.md.
use agent_pulse.Base.{if◌then◌else◌, Text, lit, equal, ◌≡◌, refl, Bool, true, false}
use agent_pulse.Cron.{parsed}
use agent_pulse.State.{ProcInfo, AlertInfo, SystemSnapshot, JobStatus}
use agent_pulse.Ipc.Json.{Json, null, JsonLibrary, field_of}
use agent_pulse.Ipc.Api.Request.{parse_request}
use agent_pulse.Ipc.Api.Values.{
  last_run_to_json, job_to_json, jobs_array, process_to_json, system_to_json, alert_to_json,
  alerts_array,
}
use agent_pulse.Ipc.Api.{Api, Query, status_reply, respond}
use agent_pulse.Ipc.Api.Shape.{
  Shape, or_null, HasShape, boolean_ok, integer_ok, number_ok, text_ok, null_ok, there_ok,
  object_ok, all_there, one_there, array_of-HasShape, last_run_shape, job_shape, process_shape,
  system_shape, alert_shape, status_shape,
}

module _ {D : Type 0} where
  or_null-HasShape :
      (s : Shape) (j : Json D) (c : Bool)
      → HasShape s j
      → HasShape (or_null s) (if c then j else null)
  or_null-HasShape s j true h = there_ok h
  or_null-HasShape s j false h = null_ok

  last_run_to_json-HasShape :
      (st : JobStatus) → HasShape {D = D} (or_null last_run_shape) (last_run_to_json st)
  unfolding last_run_to_json field_of lit equal
  last_run_to_json-HasShape st = or_null-HasShape last_run_shape _ st.has_last_run (
      object_ok (
        one_there refl text_ok (
          one_there refl integer_ok (
            one_there refl integer_ok
              (one_there refl integer_ok (one_there refl text_ok all_there))))))

  job_to_json-HasShape : (st : JobStatus) → HasShape {D = D} job_shape (job_to_json st)
  unfolding job_to_json field_of lit equal
  job_to_json-HasShape st = object_ok (
      one_there refl text_ok (
        one_there refl text_ok (
          one_there refl integer_ok
            (one_there refl boolean_ok (one_there refl (last_run_to_json-HasShape st) all_there)))))

  process_to_json-HasShape : (p : ProcInfo D) → HasShape process_shape (process_to_json p)
  unfolding process_to_json field_of lit equal
  process_to_json-HasShape p = object_ok (
      one_there refl integer_ok
        (one_there refl text_ok (one_there refl number_ok (one_there refl integer_ok all_there))))

  alert_to_json-HasShape : (a : AlertInfo D) → HasShape alert_shape (alert_to_json a)
  unfolding alert_to_json field_of lit equal
  alert_to_json-HasShape a = object_ok (
      one_there refl integer_ok (
        one_there refl text_ok (
          one_there refl text_ok (
            one_there refl text_ok (
              one_there refl text_ok (
                one_there refl number_ok (
                  one_there refl number_ok (
                    one_there refl text_ok
                      (one_there refl text_ok (one_there refl boolean_ok all_there))))))))))

  system_to_json-HasShape : (s : SystemSnapshot D) → HasShape system_shape (system_to_json s)
  unfolding system_to_json field_of lit equal
  system_to_json-HasShape s = object_ok (
      one_there refl boolean_ok (
        one_there refl integer_ok (
          one_there refl
            (object_ok (
              one_there refl integer_ok
                (one_there refl integer_ok (one_there refl number_ok all_there))))
            (one_there refl
              (object_ok (
                one_there refl integer_ok
                  (one_there refl integer_ok (one_there refl number_ok all_there))))
              (one_there refl text_ok (
                one_there refl
                  (array_of-HasShape process_shape process_to_json process_to_json-HasShape
                    s.top_processes)
                  all_there))))))

module _ {D S : Type 0} (library : JsonLibrary D) (api : Api D S) where
  status_reply-HasShape : (s : S) → HasShape status_shape (status_reply library api s)
  unfolding status_reply jobs_array alerts_array field_of lit equal
  status_reply-HasShape s = object_ok (
      one_there refl boolean_ok (
        one_there refl text_ok (
          one_there refl
            (object_ok (
              one_there refl integer_ok
                (one_there refl integer_ok (one_there refl number_ok all_there))))
            (one_there refl
              (object_ok (
                one_there refl boolean_ok
                  (one_there refl number_ok (one_there refl integer_ok all_there))))
              (one_there refl (system_to_json-HasShape (api.state s).system) (
                one_there refl
                  (array_of-HasShape job_shape job_to_json job_to_json-HasShape (api.state s).jobs)
                  (one_there refl
                    (array_of-HasShape alert_shape alert_to_json alert_to_json-HasShape
                      (api.state s).alerts)
                    all_there)))))))

  status_line :
      (query : Query) (line : Text) (s : S)
      → (parse_request library line).cmd ≡ lit "status"
      → respond library api query line s ≡ parsed (s, status_reply library api s)
  unfolding respond lit equal
  status_line query line s e = rw (respond, e) refl

  -- A `status` request is answered, with the state as it was, by an object of the fields and types
  -- that the protocol gives, down to those of each job, process and alert.
  pub respond-HasShape :
      (query : Query) (line : Text) (s : S)
      → (parse_request library line).cmd ≡ lit "status"
      → (j : Json D) × (respond library api query line s ≡ parsed (s, j)) × HasShape status_shape j
  respond-HasShape query line s e =
      (status_reply library api s, status_line query line s e, status_reply-HasShape s)
