-- ===== src/Client.antt =====
-- cli/src/main.cpp: the control client `apctl`, which sends one request and prints the answer. The
-- answers of the system calls are those of the socket server's.
pub mod Exchange
pub mod Arguments
use agent_pulse.Base.{
  leb, ◌==◌, if◌then◌else◌, value_or, length, ℤ, pos, Text, lit, equal, cut, is_digit, digits_value,
  int_max, ℕ, Bool, true, false, ◌||◌, Option, none, some, List, [], ◌∷◌, ◌++◌,
}
use agent_pulse.Ipc.{
  Received, bytes, hung_up, read_interrupted, read_failed, Sent, all_written, broken, stuck,
  write_all,
}

-- The response line, the message of an exception, or neither while a call has not returned.
pub data Reply : Type 0 where
  got : Text → Reply
  thrown : Text → Reply
  unanswered : Reply

-- The loop that reads the response; `response` is what was read so far.
unfoldable pub read_response : Text → List Received → Reply
read_response response [] = unanswered
read_response response (read_interrupted ∷ reads) = read_response response reads
read_response response (read_failed e ∷ reads) = thrown (lit "read(): " ++ e)
read_response response (hung_up ∷ reads) = got response
read_response response (bytes b ∷ reads) = elim (cut b'\n' (response ++ b)) [
  | some (line, rest) ↦ got line
  | none ↦ read_response (response ++ b) reads
]

-- The errors of `socket` and `connect`; `none` is success.
pub record Connecting : Type 0 where
  pub socket_error : Option Text
  pub connect_error : Option Text

-- What the daemon is sent, and the reply. `sun_path_size` is as in Ipc.
unfoldable pub send_request :
    ℕ → Text → Text → Connecting → List Sent → List Received → Text × Reply
unfolding read_response
send_request sun_path_size socket_path command connecting writes reads =
    elim connecting.socket_error [
      | some e ↦ ([], thrown (lit "socket(): " ++ e))
      | none ↦
          if leb sun_path_size (length socket_path)
          then ([], thrown (lit "socket path too long"))
          else elim connecting.connect_error [
            | some e ↦ ([], thrown (lit "connect(" ++ socket_path ++ lit "): " ++ e))
            | none ↦
                let (sent, end) = write_all (command ++ b'\n' ∷ []) writes in
                elim end [
                  | stuck ↦ (sent, unanswered)
                  | broken e ↦ (sent, thrown (lit "write(): " ++ e))
                  | all_written ↦ (sent, read_response [] reads)
                ]
          ]
    ]

-- `parse` with `dump(2)` of the JSON library; `none` if the text is no JSON.
unfoldable pub print_response : (Text → Option Text) → Text → Text
print_response pretty response = elim (pretty response) [
  | none ↦ response ++ b'\n' ∷ []
  | some text ↦ text ++ b'\n' ∷ []
]

-- What is printed on the two streams, and the exit code.
pub record Exit : Type 0 where
  pub out : Text
  pub err : Text
  pub code : ℕ

-- The screen is cleared.
abbrev pub clear_screen : Text
clear_screen = lit "\u{1b}[2J\u{1b}[H"

-- The branch without `--watch`; `none` while the reply is not there.
unfoldable pub run_once : (Text → Option Text) → Reply → Option Exit
unfolding print_response
run_once pretty unanswered = none
run_once pretty (got response) =
    some (record { out = print_response pretty response; err = []; code = 0 })
run_once pretty (thrown why) =
    some (record { out = []; err = lit "apctl: " ++ why ++ b'\n' ∷ []; code = 1 })

-- The loop of `--watch` over the replies; it ends only with an exception.
unfoldable pub watch_loop : (Text → Option Text) → Text → List Reply → Option Exit
unfolding print_response
watch_loop pretty out [] = none
watch_loop pretty out (unanswered ∷ replies) = none
watch_loop pretty out (thrown why ∷ replies) =
    some (record { out = out; err = lit "apctl: " ++ why ++ b'\n' ∷ []; code = 1 })
watch_loop pretty out (got response ∷ replies) =
    watch_loop pretty (out ++ clear_screen ++ print_response pretty response) replies

pub record Options : Type 0 where
  pub socket_path : Text
  pub command : Text
  pub watch : Bool
  pub watch_seconds : ℤ

-- The loop over the arguments ends with the options, with an exit code after `usage`, or in the
-- overflow of `atoi`, which is undefined.
pub data Parsing : Type 0 where
  options : Options → Parsing
  usage : ℕ → Parsing
  undefined : Parsing

-- The number after `--watch`, which begins with a digit; `atoi` stops at the first other byte.
unfoldable pub watch_number : Text → Option ℤ
watch_number arg =
    let n = value_or (digits_value none arg) 0 in
    if leb n int_max then some (if n == 0 then pos 2 else pos n) else none

abbrev pub starts_with : (ℕ → Bool) → Text → Bool
starts_with p [] = false
starts_with p (c ∷ t) = p c

-- The branches of the loop.
pub data Argument : Type 0 where
  help : Argument
  socket : Argument
  watched : Argument
  unknown : Argument
  word : Argument

unfoldable pub kind_of : Text → Argument
kind_of arg =
    if equal arg (lit "--help") || equal arg (lit "-h")
    then help
    else if equal arg (lit "--socket")
    then socket
    else if equal arg (lit "--watch")
    then watched
    else if starts_with (λ c. c == b'-') arg
    then unknown
    else word

-- The loop, over the arguments that are left: a flag may take the next one.
unfoldable pub parse_options : List Text → Options → Parsing
unfolding watch_number kind_of
parse_options [] o = options o
parse_options (arg ∷ []) o = elim (kind_of arg) [
  | help ↦ usage 0
  | socket ↦ usage 2
  | watched ↦ options (record o { watch = true })
  | unknown ↦ usage 2
  | word ↦ options (record o { command = arg })
]
parse_options (arg ∷ next ∷ rest) o = elim (kind_of arg) [
  | help ↦ usage 0
  | socket ↦ parse_options rest (record o { socket_path = next })
  | watched ↦ elim (starts_with is_digit next) [
    | false ↦ parse_options (next ∷ rest) (record o { watch = true })
    | true ↦ elim (watch_number next) [
      | none ↦ undefined
      | some n ↦ parse_options rest (record o { watch = true; watch_seconds = n })
    ]
  ]
  | unknown ↦ usage 2
  | word ↦ parse_options (next ∷ rest) (record o { command = arg })
]

-- `default_socket_path`, from the value of HOME if it is set.
unfoldable pub default_socket_path : Option Text → Text
default_socket_path home =
    value_or home (lit ".") ++ lit "/Library/Application Support/AgentPulse/agentpulse.sock"

unfoldable pub defaults : Option Text → Options
unfolding default_socket_path
defaults home = record {
  socket_path = default_socket_path home;
  command = lit "status";
  watch = false;
  watch_seconds = pos 2;
}
