-- ===== src/CommandLine/Defs.antt =====
-- `main` of client/client_main.cpp: the arguments behind the program's name, the command, and the exit
-- code with what is written. Stdin and the answers of the socket calls are arguments. The texts are
-- constructors that carry what they quote.
use local_cache_service.Base.{
  ℕ, List, [], ◌∷◌, Option, none, some, Bool, ◌||◌, if◌then◌else◌, Bytes,
}
use local_cache_service.Base.Text.{codes, same_text}
use local_cache_service.Protocol.{Status}
use local_cache_service.Stats.{StatsSnapshot}
use local_cache_service.Client.Defs
use local_cache_service.Client.Defs.{
  Client, ClientError, CacheResult, StatsResult, ConnectAnswers, Send, connect, ping,
}
use local_cache_service.Connection.Defs.{Recv}

-- What goes to stdout.
pub data Output : Type 0 where
  nothing usage pong : Output
  value : Bytes → Output
  statistics : StatsSnapshot → Output

-- What goes to stderr; the first argument of `failed` is the command.
pub data Message : Type 0 where
  quiet : Message
  connect_failed : ClientError → Message
  requires_key : Bytes → Message
  failed : Bytes → ClientError → Message
  not_found : Message
  returned : Status → Message
  unknown_command : Bytes → Message

-- The end of the program, with the bytes that it sent.
pub record Ending : Type 0 where
  pub code : ℕ
  pub output : Output
  pub message : Message
  pub sent : Bytes

-- the loop over the arguments: --help, or the socket path and the other arguments
pub data Parsed : Type 0 where
  help : Parsed
  arguments : Bytes → List Bytes → Parsed

abbrev pub is_help : Bytes → Bool
is_help arg = same_text arg "--help" || same_text arg "-h"

abbrev pub with_argument : Bytes → Parsed → Parsed
with_argument arg help = help
with_argument arg (arguments socket_path args) = arguments socket_path (arg ∷ args)

abbrev pub plain : Bytes → Parsed → Parsed
plain arg later = if is_help arg then help else with_argument arg later

unfoldable pub scan : Bytes → List Bytes → Parsed
scan socket_path [] = arguments socket_path []
scan socket_path (arg ∷ []) = plain arg (arguments socket_path [])
scan socket_path (arg ∷ next ∷ argv) =
    let behind_path = scan next argv in
    let behind_arg = scan socket_path (next ∷ argv) in
    if same_text arg "--socket" then behind_path else plain arg behind_arg

-- `report_status`: the exit code and the message
unfoldable pub report_status : Status → ℕ × Message
report_status Status.ok = (0, quiet)
report_status Status.not_found = (3, not_found)
report_status other = (4, returned other)

abbrev pub reported : Output → Status → Bytes → Ending
reported output status sent =
    let (code, message) = report_status status in
    record { code = code; output = output; message = message; sent = sent }

-- The branch of a command behind its request; the output may depend on the result.
abbrev pub after_request :
    Bytes → (CacheResult → Output) → Option (Client × Bytes × CacheResult) → Option Ending
after_request command output none = none
after_request command output (some (c, sent, result)) = elim result.error [
  | some e ↦ some (record { code = 1; output = nothing; message = failed command e; sent = sent })
  | none ↦ some (reported (output result) result.status sent)
]

abbrev pub fetched : CacheResult → Output
fetched result = elim result.status [ Status.ok ↦ value result.value | other ↦ nothing ]

abbrev pub silent : CacheResult → Output
silent result = nothing

abbrev pub wrong_use : Output → Message → Option Ending
wrong_use output message = some (record { code = 2; output = output; message = message; sent = [] })

abbrev pub value_argument : Bytes → List Bytes → Bytes
value_argument stdin [] = stdin
value_argument stdin (v ∷ args) = v

abbrev pub after_stats : Bytes → Option (Client × Bytes × StatsResult) → Option Ending
after_stats command none = none
after_stats command (some (c, sent, result)) = elim result.error [
  | some e ↦ some (record { code = 1; output = nothing; message = failed command e; sent = sent })
  | none ↦
      some (record { code = 0; output = statistics result.stats; message = quiet; sent = sent })
]

module _ (c : Client) (stdin : Bytes) (sends : List Send) (recvs : List Recv) where
  abbrev pub run_put : Bytes → List Bytes → Option Ending
  run_put command [] = wrong_use nothing (requires_key command)
  run_put command (key ∷ args) =
      after_request command silent (Defs.put c key (value_argument stdin args) sends recvs)

  abbrev pub run_get : Bytes → List Bytes → Option Ending
  run_get command [] = wrong_use nothing (requires_key command)
  run_get command (key ∷ args) = after_request command fetched (Defs.get c key sends recvs)

  abbrev pub run_delete : Bytes → List Bytes → Option Ending
  run_delete command [] = wrong_use nothing (requires_key command)
  run_delete command (key ∷ args) = after_request command silent (Defs.erase c key sends recvs)

  -- the chain of the commands
  unfoldable pub run_command : Bytes → List Bytes → Option Ending
  run_command command args =
      if same_text command "put"
      then run_put command args
      else if same_text command "get"
      then run_get command args
      else if same_text command "delete"
      then run_delete command args
      else if same_text command "ping"
      then after_request command (λ result. pong) (ping c sends recvs)
      else if same_text command "clear"
      then after_request command silent (Defs.clear c sends recvs)
      else if same_text command "stats"
      then after_stats command (Defs.stats c sends recvs)
      else wrong_use usage (unknown_command command)

abbrev pub default_socket : Bytes
default_socket = codes "/tmp/local_cache.sock"

-- What the program gets from outside; `none` of `main`: it is still waiting when the answers end.
pub record World : Type 0 where
  pub sun_path_size : ℕ
  pub answers : ConnectAnswers
  pub stdin : Bytes
  pub sends : List Send
  pub recvs : List Recv

abbrev pub connected : World → Client × Option ClientError → Bytes → List Bytes → Option Ending
connected w (c, some e) command args =
    some (record { code = 1; output = nothing; message = connect_failed e; sent = [] })
connected w (c, none) command args = run_command c w.stdin w.sends w.recvs command args

-- `main` behind the loop over its arguments
unfoldable pub run : World → Parsed → Option Ending
run w help = some (record { code = 0; output = usage; message = quiet; sent = [] })
run w (arguments socket_path []) = wrong_use usage quiet
run w (arguments socket_path (command ∷ args)) =
    connected w (connect w.sun_path_size w.answers (Defs.init socket_path)) command args

unfoldable pub main : World → List Bytes → Option Ending
main w argv = run w (scan default_socket argv)
