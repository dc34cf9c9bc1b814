-- ===== src/Ipc/Connection.antt =====
-- socket_server.cpp: what a connection does, whatever the kernel answers.
use agent_pulse.Base.{
  leb, leb→le, Bool-cases, length, Text, ◌≤◌, ◌≡◌, refl, ◌≢◌, inl, inr, [], ◌∷◌, ◌++◌, arith,
}
use agent_pulse.Base.Decimal.{Avoids}
use agent_pulse.Scheduler.Loop.{Fate, alive, terminated}
use agent_pulse.Ipc.{
  max_request_bytes, Request, complete, refused, waiting, read_request, all_written, write_all,
  Client, serve_connection,
}
use agent_pulse.Ipc.Lines.{received, write_all_prefix}
use agent_pulse.Ipc.Reading.{newline, read_request-complete, IsLine, read_request-IsLine}

module _ {S : Type 0} (handler : Text → S → Fate (S × Text)) where
  -- What a connection comes to: without a line, nothing; with one, what the handler does with it,
  -- and a prefix of the response and a newline is sent, all of it if no write fails.
  pub data Served (client : Client) (s : S) : Fate (S × Text) → Type 0 where
    silent :
        ((line rest : Text)
          → Avoids newline line
          → received client.reads ≡ line ++ newline ∷ rest
          → max_request_bytes ≤ length line)
        → Served client s (alive (s, []))
    died :
        {line : Text}
        → IsLine [] line client.reads
        → handler line s ≡ terminated
        → Served client s terminated
    answered :
        {line response sent unsent : Text} {s' : S}
        → IsLine [] line client.reads
        → handler line s ≡ alive (s', response)
        → sent ++ unsent ≡ response ++ newline ∷ []
        → ((write_all (response ++ newline ∷ []) client.writes).1 ≡ all_written → unsent ≡ [])
        → Served client s (alive (s', sent))

  no_complete :
      (client : Client)
      → ((line : Text) → read_request [] client.reads ≢ complete line)
      → (line rest : Text) → Avoids newline line
      → received client.reads ≡ line ++ newline ∷ rest
      → max_request_bytes ≤ length line
  no_complete client never line rest av e =
      elim (Bool-cases (leb max_request_bytes (length line))) [
        | inl long ↦ leb→le max_request_bytes (length line) long
        | inr short ↦
            absurd
              (never line (read_request-complete client.reads [] line rest tt av (ground arith) e))
      ]

  called :
      (client : Client) (s : S) (line : Text)
      → IsLine [] line client.reads
      → Served client s (elim (handler line s) [
        | terminated ↦ terminated
        | alive (s', response) ↦ alive (s', (write_all (response ++ newline ∷ []) client.writes).0)
      ])
  called client s line line_ok = go (handler line s) refl
    where
      go :
          (f : Fate (S × Text))
          → handler line s ≡ f
          → Served client s (elim f [
            | terminated ↦ terminated
            | alive (s', response) ↦
                alive (s', (write_all (response ++ newline ∷ []) client.writes).0)
          ])
      go terminated e = died line_ok e
      go (alive (s', response)) e =
          let (unsent, joined, all) = write_all_prefix (response ++ newline ∷ []) client.writes in
          answered line_ok e joined all

  -- Whatever `read` and `write` answer: the handler is called at most once, with the bytes before
  -- the first newline that was read; it is called if a line shorter than the limit was read; the
  -- client is sent a prefix of the response and a newline, all of it if the writes end well; and an
  -- exception of the handler terminates the daemon.
  pub serve_connection-Served :
      (client : Client) (s : S) → Served client s (serve_connection handler client s)
  unfolding serve_connection
  serve_connection-Served client s = go (read_request [] client.reads) refl
    where
      go :
          (r : Request)
          → read_request [] client.reads ≡ r
          → Served client s (elim r [
            | refused ↦ alive (s, [])
            | waiting ↦ alive (s, [])
            | complete line ↦ elim (handler line s) [
              | terminated ↦ terminated
              | alive (s', response) ↦
                  alive (s', (write_all (response ++ newline ∷ []) client.writes).0)
            ]
          ])
      go refused e = silent (no_complete client λ line p. cc)
      go waiting e = silent (no_complete client λ line p. cc)
      go (complete line) e = called client s line (read_request-IsLine client.reads [] line tt e)
