-- ===== src/Ipc.antt =====
-- daemon/src/ipc/socket_server.cpp: the connections of the socket server and its life. What the
-- system calls answer is an argument, one answer after the other; the system call itself is the
-- kernel's.
pub mod Lines
pub mod Reading
pub mod Connection
pub mod Json
pub mod Api
use agent_pulse.Base.{
  ltb, leb, if◌then◌else◌, length, take, Text, lit, is_empty, cut, ℕ, zero, suc, ◌*◌, Bool, true,
  false, Option, none, some, List, [], ◌∷◌, ◌++◌,
}
use agent_pulse.Scheduler.Loop.{Fate, alive, terminated}

-- The answers of `read`: bytes, at least one; the end of the stream; EINTR; another error, with the
-- text of `strerror`.
pub data Received : Type 0 where
  bytes : Text → Received
  hung_up : Received
  read_interrupted : Received
  read_failed : Text → Received

-- The answers of `write`: the number of bytes it took; EINTR; another error.
pub data Sent : Type 0 where
  took : ℕ → Sent
  write_interrupted : Sent
  write_failed : Text → Sent

-- `kMaxRequestBytes`.
abbrev pub max_request_bytes : ℕ
max_request_bytes = 64 * 1024

-- What is left of a text once `n` bytes of it are written.
unfoldable pub drop : ℕ → Text → Text
drop zero t = t
drop (suc n) [] = []
drop (suc n) (c ∷ t) = drop n t

-- The request line, or how the loop ends without one; `waiting` while the next `read` has not
-- returned.
pub data Request : Type 0 where
  complete : Text → Request
  refused : Request
  waiting : Request

-- The loop that reads the request; `request` is what was read so far.
unfoldable pub read_request : Text → List Received → Request
read_request request [] = if ltb (length request) max_request_bytes then waiting else refused
read_request request (r ∷ reads) = elim (ltb (length request) max_request_bytes) [
  | false ↦ refused
  | true ↦ elim r [
    | read_interrupted ↦ read_request request reads
    | read_failed e ↦ refused
    | hung_up ↦ refused
    | bytes b ↦ elim (cut b'\n' (request ++ b)) [
      | some (line, rest) ↦ complete line
      | none ↦ read_request (request ++ b) reads
    ]
  ]
]

-- How the loop that writes a text ends; `stuck` while the next `write` has not returned.
pub data Writing : Type 0 where
  all_written : Writing
  broken : Text → Writing
  stuck : Writing

-- The loop that writes a text: the bytes that are written, and how it ends.
unfoldable pub write_all : Text → List Sent → Text × Writing
unfolding drop
write_all [] writes = ([], all_written)
write_all (c ∷ rest) [] = ([], stuck)
write_all (c ∷ rest) (write_interrupted ∷ writes) = write_all (c ∷ rest) writes
write_all (c ∷ rest) (write_failed e ∷ writes) = ([], broken e)
write_all (c ∷ rest) (took n ∷ writes) =
    let (sent, end) = write_all (drop n (c ∷ rest)) writes in (take n (c ∷ rest) ++ sent, end)

-- One client: the answers of its reads and of the writes to it.
pub record Client : Type 0 where
  pub reads : List Received
  pub writes : List Sent

module _ {S : Type 0} (handler : Text → S → Fate (S × Text)) where
  -- The new state, and what the client was sent. An exception of the handler, which no one
  -- catches on this thread, terminates.
  unfoldable pub serve_connection : Client → S → Fate (S × Text)
  unfolding read_request write_all
  serve_connection client s = elim (read_request [] client.reads) [
    | refused ↦ alive (s, [])
    | waiting ↦ alive (s, [])
    | complete line ↦ elim (handler line s) [
      | terminated ↦ terminated
      | alive (s', response) ↦ alive (s', (write_all (response ++ b'\n' ∷ []) client.writes).0)
    ]
  ]

-- The answers of `poll`, with that of `accept` where it is called: `none` is an error of `accept`,
-- after each of which the loop goes on.
pub data Polled : Type 0 where
  poll_interrupted : Polled
  poll_failed : Polled
  timed_out : Polled
  readable : Option Client → Polled

module _ {S : Type 0} (handler : Text → S → Fate (S × Text)) where
  -- Each round reads `running_` and polls; the result is the state and what each client was sent.
  unfoldable pub accept_loop : List (Bool × Polled) → S → Fate (S × List Text)
  unfolding serve_connection
  accept_loop [] s = alive (s, [])
  accept_loop ((false, polled) ∷ rounds) s = alive (s, [])
  accept_loop ((true, poll_interrupted) ∷ rounds) s = accept_loop rounds s
  accept_loop ((true, poll_failed) ∷ rounds) s = alive (s, [])
  accept_loop ((true, timed_out) ∷ rounds) s = accept_loop rounds s
  accept_loop ((true, readable none) ∷ rounds) s = accept_loop rounds s
  accept_loop ((true, readable (some client)) ∷ rounds) s =
      elim (serve_connection handler client s) [
        | terminated ↦ terminated
        | alive (s', sent) ↦ elim (accept_loop rounds s') [
          | terminated ↦ terminated
          | alive (s'', all_sent) ↦ alive (s'', sent ∷ all_sent)
        ]
      ]

-- `SocketServer`: `listening` says that `listen_fd_` is open, `running` is `running_`, and `file`
-- that there is a file at `path_`.
pub record SocketServer : Type 0 where
  pub path : Text
  pub listening : Bool
  pub running : Bool
  pub file : Bool

-- The errors of `socket`, `bind` and `listen`, by their messages; `none` is success.
pub record Setup : Type 0 where
  pub socket_error : Option Text
  pub bind_error : Option Text
  pub listen_error : Option Text

-- The message of the exception that `start` throws, if any. `sun_path_size` is the size of
-- `sockaddr_un::sun_path`, which the system sets.
unfoldable pub start : ℕ → Text → Setup → SocketServer → SocketServer × Option Text
start sun_path_size path setup server =
    if leb sun_path_size (length path)
    then (server, some (lit "socket path too long: " ++ path))
    else elim setup.socket_error [
      | some e ↦ (record server { path = path; listening = false }, some (lit "socket(): " ++ e))
      | none ↦ elim setup.bind_error [
        | some e ↦ (
          record server { path = path; listening = false; file = false },
          some (lit "bind(): " ++ e),
        )
        | none ↦ elim setup.listen_error [
          | some e ↦ (
            record server { path = path; listening = false; file = false },
            some (lit "listen(): " ++ e),
          )
          | none ↦ (record { path = path; listening = true; running = true; file = true }, none)
        ]
      ]
    ]

-- `stop`, once the thread is joined: a thread that is running ends within one poll.
unfoldable pub stop : SocketServer → SocketServer
stop server =
    if server.running
    then record server {
      listening = false;
      running = false;
      file = if is_empty server.path then server.file else false;
    }
    else server
