-- ===== src/Ipc/Api/Strict.antt =====
-- api.cpp and socket_server.cpp: an exception of `dump` leaves `handle` and the thread of the
-- server.
use agent_pulse.Cron.{Parsed, parsed}
use agent_pulse.Ipc.Api.Request.{request_of_words, command_of, parse_request}
use agent_pulse.Ipc.Api.{Api, Query, respond, handle}
use agent_pulse.Base.{
  ltb, Bool-cases, length, All, Text, lit, equal, equal_iff, words, ◌<◌, ◌≡◌, refl, sym, ◌∙◌, inl,
  inr, Bool, true, false, ◌&&◌, none, some, List, [], ◌∷◌, ◌++◌,
}
use agent_pulse.Scheduler.Loop.{Fate, terminated}
use agent_pulse.Base.Decimal.{Avoids}
use agent_pulse.Ipc.{max_request_bytes, Client, serve_connection}
use agent_pulse.Ipc.Lines.{received}
use agent_pulse.Ipc.Reading.{newline, read_request-complete}
use agent_pulse.Ipc.Json.{boolean, text, object, Fields, JsonLibrary, object_of, field_of}

abbrev pub is_ascii : Text → Bool
is_ascii [] = true
is_ascii (c ∷ t) = ltb c 128 && is_ascii t

-- The documented error handler `strict` of `dump`: it throws on a text that is no UTF-8.
pub record IsStrict {D : Type 0} (library : JsonLibrary D) (is_utf8 : Text → Bool) : Type 0 where
  pub ascii : (t : Text) → is_ascii t ≡ true → is_utf8 t ≡ true
  pub dump_throws :
      (fields : Fields D) (k t : Text)
      → field_of k fields ≡ some (text t)
      → is_utf8 t ≡ false
      → library.dump (object fields) ≡ none

abbrev commands : List Text
commands =
    lit "ping"
    ∷ lit "status"
    ∷ lit "jobs"
    ∷ lit "alerts"
    ∷ lit "history"
    ∷ lit "runs"
    ∷ lit "add_job"
    ∷ lit "remove_job"
    ∷ lit "run"
    ∷ []

commands_ascii : All (λ t. is_ascii t ≡ true) commands
unfolding lit
commands_ascii = (refl, (refl, (refl, (refl, (refl, (refl, (refl, (refl, (refl, tt)))))))))

module _ {D : Type 0} (library : JsonLibrary D) (is_utf8 : Text → Bool) where
  no_literal :
      IsStrict library is_utf8
      → (w t : Text) → is_utf8 w ≡ false
      → is_ascii t ≡ true
      → equal w t ≡ false
  no_literal strict w t bad a = elim (Bool-cases (equal w t)) [
    | inl same ↦ absurd (cc ((equal_iff w t).0 same, strict.ascii t a, bad))
    | inr other ↦ other
  ]

  no_commands :
      IsStrict library is_utf8
      → (w : Text) → is_utf8 w ≡ false
      → All (λ t. equal w t ≡ false) commands
  no_commands strict w bad = go commands commands_ascii
    where
      go : (ts : List Text) → All (λ t. is_ascii t ≡ true) ts → All (λ t. equal w t ≡ false) ts
      go [] a = tt
      go (t ∷ ts) (a, rest) = (no_literal strict w t bad a, go ts rest)

  the_word :
      (line w : Text) (rest : List Text)
      → library.is_object (library.parse_json line) ≡ false
      → words none line ≡ w ∷ rest
      → (parse_request library line).cmd ≡ w
  unfolding parse_request command_of request_of_words
  the_word line w rest no_json e = rw (parse_request, no_json, command_of, e) (first rest)
    where
      first : (rest : List Text) → (request_of_words (w ∷ rest)).cmd ≡ w
      first [] = refl
      first (a ∷ []) = refl
      first (a ∷ b ∷ rest) = refl

  module _ {S : Type 0} (api : Api D S) where
    -- The response to a word that is no command.
    unknown_command :
        (query : Query) (line w : Text) (s : S)
        → (parse_request library line).cmd ≡ w
        → All (λ t. equal w t ≡ false) commands
        → respond library api query line s
          ≡ parsed (
            s,
            object_of (
                (lit "ok", boolean false)
                ∷ (lit "error", text (lit "unknown command"))
                ∷ (lit "cmd", text w)
                ∷ []),
          )
    unfolding respond
    unknown_command query line w s e (a, (b, (c, (d, (f, (g, (h, (i, (j, _))))))))) =
        rw (respond, e, a, b, c, d, f, g, h, i, j) refl

    pub handle-terminated :
        IsStrict library is_utf8
        → (query : Query) (line w : Text) (rest : List Text) (s : S)
        → library.is_object (library.parse_json line) ≡ false
        → words none line ≡ w ∷ rest
        → is_utf8 w ≡ false
        → handle library api query line s ≡ parsed terminated
    unfolding handle field_of lit equal
    handle-terminated strict query line w rest s no_json first bad =
        rw
          (
            handle,
            unknown_command query line w s (the_word line w rest no_json first)
                (no_commands strict w bad),
          )
          (rw (strict.dump_throws _ (lit "cmd") w refl bad) refl)

    -- With a library that is strict about UTF-8, as documented: a request line within the limit that
    -- is no JSON object and whose first word is no UTF-8 terminates the daemon, since the exception of `dump`
    -- is caught nowhere.
    pub serve_connection-terminated :
        IsStrict library is_utf8
        → (query : Query) (handler : Text → S → Fate (S × Text)) (client : Client)
          (line after w : Text) (rest : List Text) (s : S)
        → handle library api query line s ≡ parsed (handler line s)
        → received client.reads ≡ line ++ newline ∷ after
        → Avoids newline line
        → length line < max_request_bytes
        → library.is_object (library.parse_json line) ≡ false
        → words none line ≡ w ∷ rest
        → is_utf8 w ≡ false
        → serve_connection handler client s ≡ terminated
    unfolding serve_connection
    serve_connection-terminated strict query handler client line after w rest s same e av small
          no_json first bad =
        rw (serve_connection, read_request-complete client.reads [] line after tt av small e)
          (rw (fate (sym same ∙ handle-terminated strict query line w rest s no_json first bad))
            refl)
      where
        fate :
            {a b : Fate (S × Text)}
            → ◌≡◌ {A = Parsed (Fate (S × Text))} (parsed a) (parsed b)
            → a ≡ b
        fate e = cc
