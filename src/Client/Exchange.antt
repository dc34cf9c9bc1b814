-- ===== src/Client/Exchange.antt =====
-- cli/src/main.cpp and socket_server.cpp together: one request and its response.
use agent_pulse.Base.{
  leb, length, Text, cut, ℕ, ◌<◌, ◌≡◌, refl, sym, ap, ◌∙◌, inl, inr, false, Option, none, some,
  List, [], ◌∷◌, ◌++◌, append_assoc, append-nil, arith,
}
use agent_pulse.Base.Decimal.{Avoids}
use agent_pulse.Scheduler.Loop.{Fate, alive}
use agent_pulse.Ipc.{
  Received, bytes, hung_up, read_interrupted, read_failed, Sent, max_request_bytes, all_written,
  write_all, Client, serve_connection,
}
use agent_pulse.Ipc.Lines.{received, Cut-cases, first_line, write_all_prefix}
use agent_pulse.Ipc.Reading.{newline, no_line, read_request-complete}
use agent_pulse.Client.{Reply, got, read_response, Connecting, send_request}

-- The loop after a `read` that gives bytes, by what `find` says of the response so far.
after_find : Text → List Received → Option (Text × Text) → Reply
after_find response reads none = read_response response reads
after_find response reads (some (line, rest)) = got line

read_response_bytes :
    (response b : Text) (reads : List Received)
    → read_response response (bytes b ∷ reads)
      ≡ after_find (response ++ b) reads (cut newline (response ++ b))
unfolding read_response after_find
read_response_bytes response b reads = refl

-- A line is read, however it is split.
pub read_response-got :
    (reads : List Received) (response line rest : Text)
    → Avoids newline response
    → Avoids newline line
    → response ++ received reads ≡ line ++ newline ∷ rest
    → read_response response reads ≡ got line
unfolding read_response received after_find
read_response-got [] response line rest quiet av e = absurd (no_line response line rest quiet e)
read_response-got (read_interrupted ∷ reads) response line rest quiet av e =
    read_response-got reads response line rest quiet av e
read_response-got (read_failed why ∷ reads) response line rest quiet av e =
    absurd (no_line response line rest quiet e)
read_response-got (hung_up ∷ reads) response line rest quiet av e =
    absurd (no_line response line rest quiet e)
read_response-got (bytes b ∷ reads) response line rest quiet av e =
    let joined = append_assoc response b (received reads) ∙ e in
    rw (read_response_bytes response b reads) (elim (Cut-cases newline (response ++ b)) [
      | inl (miss, quiet') ↦
          rw (miss, after_find) (read_response-got reads (response ++ b) line rest quiet' av joined)
      | inr (a, c, hit, av', whole) ↦
          rw (hit, after_find)
            (ap got (
              first_line newline a line c (response ++ b) (received reads) rest av' av whole
                joined))
    ])

all_sent :
    (t : Text) (writes : List Sent)
    → (write_all t writes).1 ≡ all_written
    → (write_all t writes).0 ≡ t
all_sent t writes e =
    let (unsent, joined, all) = write_all_prefix t writes in
    sym (append-nil (write_all t writes).0)
    ∙ ap (◌++◌ (write_all t writes).0) (sym (all e))
    ∙ joined

-- What the kernel does in one exchange: the connection is made and nothing fails; and each side
-- reads what the other wrote, in pieces of any size and with interruptions.
pub record Exchange (client server : Client) (command response : Text) : Type 0 where
  pub client_wrote : (write_all (command ++ newline ∷ []) client.writes).1 ≡ all_written
  pub server_read : received server.reads ≡ (write_all (command ++ newline ∷ []) client.writes).0
  pub server_wrote : (write_all (response ++ newline ∷ []) server.writes).1 ≡ all_written
  pub client_read : received client.reads ≡ (write_all (response ++ newline ∷ []) server.writes).0

abbrev pub connected : Connecting
connected = record { socket_error = none; connect_error = none }

send_request-got :
    (sun_path_size : ℕ) (socket_path command response : Text) (client : Client)
    → length socket_path < sun_path_size
    → (write_all (command ++ newline ∷ []) client.writes).0 ≡ command ++ newline ∷ []
    → (write_all (command ++ newline ∷ []) client.writes).1 ≡ all_written
    → Avoids newline response
    → received client.reads ≡ response ++ newline ∷ []
    → send_request sun_path_size socket_path command connected client.writes client.reads
      ≡ (command ++ newline ∷ [], got response)
unfolding send_request
send_request-got size path command response client fits sent ended av e =
    rw (send_request, roomy, ended)
      (rw (sent, read_response-got client.reads [] response [] tt av e) refl)
  where
    roomy : leb size (length path) ≡ false
    roomy = ground arith

module _ {S : Type 0} (handler : Text → S → Fate (S × Text)) where
  serve_connection-answers :
      (command response : Text) (server : Client) (s s' : S)
      → length command < max_request_bytes
      → Avoids newline command
      → handler command s ≡ alive (s', response)
      → received server.reads ≡ command ++ newline ∷ []
      → (write_all (response ++ newline ∷ []) server.writes).1 ≡ all_written
      → serve_connection handler server s ≡ alive (s', response ++ newline ∷ [])
  unfolding serve_connection
  serve_connection-answers command response server s s' small av h read wrote =
      rw (serve_connection, read_request-complete server.reads [] command [] tt av small read)
        (rw (h, all_sent (response ++ newline ∷ []) server.writes wrote) refl)

  -- A request without newline, shorter than the limit, is answered: however the bytes are split on
  -- the way, the handler gets the command, and the client returns its response, if that has no
  -- newline and the handler does not throw.
  pub send_request-serve_connection :
      (sun_path_size : ℕ) (socket_path command response : Text) (client server : Client) (s s' : S)
      → length socket_path < sun_path_size
      → length command < max_request_bytes
      → Avoids newline command
      → Avoids newline response
      → handler command s ≡ alive (s', response)
      → Exchange client server command response
      → (serve_connection handler server s ≡ alive (s', response ++ newline ∷ []))
        × (send_request sun_path_size socket_path command connected client.writes client.reads
            ≡ (command ++ newline ∷ [], got response))
  send_request-serve_connection size path command response client server s s' fits small av av' h
        x =
      let sent = all_sent (command ++ newline ∷ []) client.writes x.client_wrote in
      let answered = all_sent (response ++ newline ∷ []) server.writes x.server_wrote in
      (
        serve_connection-answers command response server s s' small av h (x.server_read ∙ sent)
            x.server_wrote,
        send_request-got size path command response client fits sent x.client_wrote av'
            (x.client_read ∙ answered),
      )
