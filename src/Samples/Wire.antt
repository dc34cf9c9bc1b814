-- ===== src/Samples/Wire.antt =====
-- The theorems about the socket and the client, at sample lines.

use agent_pulse.Base.{Text, ℕ, suc, ◌≡◌, refl, [], ◌∷◌, ◌++◌, arith}
use agent_pulse.Scheduler.Loop.{Fate, alive}
use agent_pulse.Ipc.{
  bytes, read_interrupted, took, write_interrupted, drop, write_all, Client, serve_connection,
}
use agent_pulse.Ipc.Lines.{received}
use agent_pulse.Ipc.Connection.{Served, serve_connection-Served}
use agent_pulse.Client.{got, send_request}
use agent_pulse.Client.Exchange.{Exchange, connected, send_request-serve_connection}

-- A handler that counts the requests and answers with the line.
abbrev echo : Text → ℕ → Fate (ℕ × Text)
echo line n = alive (suc n, line)

abbrev pub ping : Text
ping = b'p' ∷ b'i' ∷ b'n' ∷ b'g' ∷ []

abbrev server_side : Client
server_side = record {
  reads = bytes (b'p' ∷ b'i' ∷ []) ∷ read_interrupted ∷ bytes (b'n' ∷ b'g' ∷ b'\n' ∷ []) ∷ [];
  writes = took 1 ∷ write_interrupted ∷ took 4 ∷ [];
}

abbrev client_side : Client
client_side = record {
  reads = bytes (b'p' ∷ []) ∷ bytes (b'i' ∷ b'n' ∷ b'g' ∷ b'\n' ∷ []) ∷ [];
  writes = took 5 ∷ [];
}

serve_connection-Served_example : Served echo server_side 3 (serve_connection echo server_side 3)
serve_connection-Served_example = serve_connection-Served echo server_side 3

exchanged : Exchange client_side server_side ping ping
unfolding write_all drop received
exchanged = record {
  client_wrote = refl;
  server_read = refl;
  server_wrote = refl;
  client_read = refl;
}

send_request-serve_connection_example :
    (serve_connection echo server_side 3 ≡ alive (4, ping ++ b'\n' ∷ []))
    × (send_request 104 (b's' ∷ []) ping connected client_side.writes client_side.reads
        ≡ (ping ++ b'\n' ∷ [], got ping))
send_request-serve_connection_example =
    send_request-serve_connection echo 104 (b's' ∷ []) ping ping client_side server_side 3 4
      (omega arith) (omega arith) (refl, (refl, (refl, (refl, tt))))
      (refl, (refl, (refl, (refl, tt)))) refl exchanged
